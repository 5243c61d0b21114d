-- ===== src/Workers/Operators.antt =====
-- Every intervention is completed in the end, once, at the time at which it is due.
use agentic_cloud_pipeline_g.Prelude.{
  ℕ, ◌+◌, String, ◌≡◌, ◌∙◌, refl, sym, ap, Option, none, some, List, [], ◌∷◌, map, arith, leb,
  eq_iff, if◌then◌else◌, any, Bool-cases, inl, inr,
}
use agentic_cloud_pipeline_g.Workers.{
  InterventionRow, assign_latency, complete_at, resolve_row, assign_and_resolve, run_simulator,
}

-- One turn of the simulator on one row.
abbrev turn_row : (ℕ → ℕ) → String → ℕ → InterventionRow → InterventionRow
turn_row latency run now r = resolve_row now run (assign_latency latency run r)

turn-map :
    (latency : ℕ → ℕ) (run : String) (now : ℕ) (rs : List InterventionRow)
    → assign_and_resolve latency run now rs ≡ map (turn_row latency run now) rs
unfolding assign_and_resolve
turn-map latency run now [] = refl
turn-map latency run now (r ∷ rs) =
    ap (λ xs. turn_row latency run now r ∷ xs) (turn-map latency run now rs)

-- The row of a request that the simulator has not seen yet.
abbrev fresh : String → ℕ → ℕ → InterventionRow
fresh run id requested = record {
  id = id;
  experiment_run = run;
  requested_ts = requested;
  simulated_latency = none;
  completed_ts = none;
}

-- A row after turns at some times.
abbrev row_after : (ℕ → ℕ) → String → List ℕ → InterventionRow → InterventionRow
row_after latency run [] r = r
row_after latency run (now ∷ times) r = row_after latency run times (turn_row latency run now r)

run_simulator-map :
    (latency : ℕ → ℕ) (run : String) (times : List ℕ) (rs : List InterventionRow)
    → run_simulator latency run times rs ≡ map (row_after latency run times) rs
unfolding run_simulator
run_simulator-map latency run [] rs = sym (map-id rs)
  where
    map-id : (xs : List InterventionRow) → map (λ r. r) xs ≡ xs
    map-id [] = refl
    map-id (x ∷ xs) = ap (λ ys. x ∷ ys) (map-id xs)
run_simulator-map latency run (now ∷ times) rs =
    run_simulator-map latency run times (assign_and_resolve latency run now rs)
    ∙ ap (map (row_after latency run times)) (turn-map latency run now rs)
    ∙ map-map rs
  where
    map-map :
        (xs : List InterventionRow)
        → map (row_after latency run times) (map (turn_row latency run now) xs)
          ≡ map (row_after latency run (now ∷ times)) xs
    map-map [] = refl
    map-map (x ∷ xs) = ap (λ ys. row_after latency run (now ∷ times) x ∷ ys) (map-map xs)

module _ (latency : ℕ → ℕ) (run : String) (id requested : ℕ) where
  abbrev due : ℕ
  due = requested + latency id

  -- The row of an intervention that has its latency, by its completion.
  abbrev assigned : Option ℕ → InterventionRow
  assigned completed = record {
    id = id;
    experiment_run = run;
    requested_ts = requested;
    simulated_latency = some (latency id);
    completed_ts = completed;
  }

  turn_completed :
      (now : ℕ) (t : ℕ) → turn_row latency run now (assigned (some t)) ≡ assigned (some t)
  unfolding resolve_row assign_latency
  turn_completed now t = ground (arith, eq_iff run run)

  turn_assigned :
      (now : ℕ)
      → turn_row latency run now (assigned none) ≡ assigned (if leb due now then some due else none)
  unfolding resolve_row assign_latency complete_at
  turn_assigned now = ground (arith, eq_iff run run)

  turn_fresh :
      (now : ℕ)
      → turn_row latency run now (fresh run id requested) ≡ turn_row latency run now (assigned none)
  unfolding assign_latency
  turn_fresh now = ground (arith, eq_iff run run)

  after_completed :
      (times : List ℕ) (t : ℕ) → row_after latency run times (assigned (some t)) ≡ assigned (some t)
  after_completed [] t = refl
  after_completed (now ∷ times) t = rw (turn_completed now t) (after_completed times t)

  after_assigned :
      (times : List ℕ)
      → row_after latency run times (assigned none)
        ≡ assigned (if any (leb due) times then some due else none)
  after_assigned [] = refl
  after_assigned (now ∷ times) = elim (Bool-cases (leb due now)) [
    | inl t ↦ rw (turn_assigned now, t) (after_completed times due)
    | inr f ↦ rw (turn_assigned now, f) (after_assigned times)
  ]

  -- A row that was just requested, after some turns of the simulator.
  after_fresh :
      (now : ℕ) (times : List ℕ)
      → row_after latency run (now ∷ times) (fresh run id requested)
        ≡ assigned (if any (leb due) (now ∷ times) then some due else none)
  after_fresh now times = rw (turn_fresh now) (after_assigned (now ∷ times))

-- A request: an intervention's id and time.
abbrev pub fresh_rows : String → List (ℕ × ℕ) → List InterventionRow
fresh_rows run = map (λ q. fresh run q.0 q.1)

-- What the table is to be after turns at some times: each row has its latency, and is completed at
-- the time at which it is due, if a turn was then or later.
abbrev pub served_rows : (ℕ → ℕ) → String → List ℕ → List (ℕ × ℕ) → List InterventionRow
served_rows latency run times = map (λ q.
    assigned latency run q.0 q.1
      (if any (leb (q.1 + latency q.0)) times then some (q.1 + latency q.0) else none))

-- After turns at some times, of which there is at least one, exactly the interventions that were due
-- at one of them are completed, each with the time at which it was due, whichever turn it was and
-- however many came after it; the others wait with their latency.
pub run_simulator-served_rows :
    (latency : ℕ → ℕ) (run : String) (now : ℕ) (times : List ℕ) (requests : List (ℕ × ℕ))
    → run_simulator latency run (now ∷ times) (fresh_rows run requests)
      ≡ served_rows latency run (now ∷ times) requests
run_simulator-served_rows latency run now times requests =
    run_simulator-map latency run (now ∷ times) (fresh_rows run requests) ∙ each requests
  where
    each :
        (qs : List (ℕ × ℕ))
        → map (row_after latency run (now ∷ times)) (fresh_rows run qs)
          ≡ served_rows latency run (now ∷ times) qs
    each [] = refl
    each (q ∷ qs) = cc (after_fresh latency run q.0 q.1 now times, each qs)

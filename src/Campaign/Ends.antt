-- ===== src/Campaign/Ends.antt =====
-- The campaign comes to an end.
use agentic_cloud_pipeline_g.Prelude.{
  ℕ, zero, suc, ◌+◌, ◌-◌, ◌*◌, ◌<◌, ◌≤◌, String, Bool, ◌≡◌, ◌∙◌, refl, sym, ap, true, false, not,
  ◌||◌, inl, inr, Option, none, some, List, [], ◌∷◌, arith, leb, ◌==◌, length, Bool-cases,
  either_way,
}
use agentic_cloud_pipeline_g.Prelude.Sorting.{total}
use agentic_cloud_pipeline_g.Campaign.Runs.{Run, Arm}
use agentic_cloud_pipeline_g.Campaign.{
  CampaignConfig, Effects, Supervisor, Terminal, Turn, running, waiting_for_health, stopped, again,
  remaining, next_pending, wait_healthy, guard, count_failure, count_degraded, finish_run, run_next,
  id_of, when_healthy, guarded, turn_on, turn, run_turns, run_campaign,
}
use agentic_cloud_pipeline_g.Campaign.Pending.{
  List-cases, IsNext, next_pending-IsNext, total-less, total-leq,
}

-- Checking the health and sleeping record no run, and running an arm takes no recorded run back.
pub record KeepsResults {W : Type 0} (c : CampaignConfig) (e : Effects W) : Type 0 where
  pub on_health : (a : Arm) (w : W) → remaining c e a (e.health w).1 ≡ remaining c e a w
  pub on_sleep : (a : Arm) (n : ℕ) (w : W) → remaining c e a (e.sleep n w) ≡ remaining c e a w
  pub on_invoke :
      (a b : Arm) (w : W) → length (remaining c e b (e.invoke a w).1) ≤ length (remaining c e b w)

times-leq : (k l n : ℕ) → k ≤ l → k * n ≤ l * n
times-leq k l n h = let e : l ≡ k + (l - k) = omega arith in rw e (grind arith)

failure_falls : (l k m f : ℕ) → k ≤ l → f + 1 < m → k * suc m + (m - (f + 1)) < l * suc m + (m - f)
failure_falls l k m f h i = omega (arith, times-leq k l (suc m) h)

success_falls : (l k m f : ℕ) → k < l → k * suc m + (m - 0) < l * suc m + (m - f)
success_falls l k m f h = grind (arith, times-leq (suc k) l (suc m) h)

-- The runs that are left, over all arms.
abbrev pub load : {W : Type 0} → CampaignConfig → Effects W → W → ℕ
load c e w = total (λ a. length (remaining c e a w)) c.arms

module _ {W : Type 0} (c : CampaignConfig) (e : Effects W) (keeps : KeepsResults c e) where
  abbrev Same : W → W → Type 0
  Same w v = (a : Arm) → remaining c e a v ≡ remaining c e a w

  Same-trans : (u v w : W) → Same u v → Same v w → Same u w
  Same-trans u v w p q a = q a ∙ p a

  load-Same : (w v : W) → Same w v → load c e v ≡ load c e w
  load-Same w v h = go c.arms
    where
      go :
          (arms : List Arm)
          → total (λ a. length (remaining c e a v)) arms
            ≡ total (λ a. length (remaining c e a w)) arms
      go [] = refl
      go (a ∷ rest) = rw (h a) (ap (λ n. length (remaining c e a w) + n) (go rest))

  -- The wait is over within the time that it is given.
  abbrev Waited : Supervisor W → Option (Bool × Supervisor W) → Type 0
  Waited s o =
      (b : Bool) × (s' : Supervisor W) × (o ≡ some (b, s'))
      × (s'.failures ≡ s.failures)
      × Same s.world s'.world

  wait_healthy-Waited :
      (fuel waited : ℕ) (s : Supervisor W)
      → 0 < c.health_retry
      → c.health_max_wait - waited < fuel
      → Waited s (wait_healthy c e fuel waited s)
  unfolding wait_healthy
  wait_healthy-Waited zero waited s r f = absurd (omega arith)
  wait_healthy-Waited (suc fuel) waited s r f = elim (List-cases (e.health s.world).0) [
    | inl q ↦
        rw (wait_healthy, q)
          (
            true,
            record s { world = (e.health s.world).1 },
            refl,
            refl,
            λ a. keeps.on_health a s.world,
          )
    | inr (p, ps, q) ↦ elim (Bool-cases (leb c.health_max_wait waited)) [
      | inl t ↦ rw (wait_healthy, q, t) (false, _, refl, refl, λ a. keeps.on_health a s.world)
      | inr n ↦
          let v = (e.health s.world).1 in
          let s' : Supervisor W = record {
            failures = s.failures;
            degraded_streak = s.degraded_streak;
            world = e.sleep c.health_retry v;
            emitted = waiting_for_health ∷ s.emitted;
          } in
          let (b, s2, o, g, m) =
            wait_healthy-Waited fuel (waited + c.health_retry) s' r (ground arith) in
          rw (wait_healthy, q, n)
            (b, s2, o, g, λ a. m a ∙ keeps.on_sleep a c.health_retry v ∙ keeps.on_health a s.world)
    ]
  ]

  abbrev measure : Supervisor W → ℕ
  measure s =
      load c e s.world * suc c.max_consecutive_failures + (c.max_consecutive_failures - s.failures)

  abbrev Falls : Supervisor W → Turn W → Type 0
  Falls s (stopped t s') = Unit
  Falls s (again s') = measure s' < measure s

  Falls-failure :
      (s s' : Supervisor W)
      → s'.failures ≡ s.failures
      → load c e s'.world ≤ load c e s.world
      → Falls s (count_failure c e s')
  unfolding count_failure
  Falls-failure s s' f l =
      either_way (Falls s) (leb c.max_consecutive_failures (s'.failures + 1)) _ _ (λ t. tt)
        (λ t.
          rw
            (
              load-Same s'.world (e.sleep c.failure_backoff s'.world)
                  (λ a. keeps.on_sleep a c.failure_backoff s'.world),
              f,
            )
            (failure_falls (load c e s.world) (load c e s'.world) c.max_consecutive_failures
              s.failures l (ground (arith, f))))

  Falls-degraded :
      (s s' : Supervisor W)
      → s'.failures ≡ 0
      → load c e s'.world < load c e s.world
      → Falls s (count_degraded c e s')
  unfolding count_degraded
  Falls-degraded s s' f l =
      either_way (Falls s) (leb c.degraded_abort_after s'.degraded_streak) _ _ (λ t. tt)
        (λ t.
          either_way (Falls s) (leb c.degraded_pause_after s'.degraded_streak) _ _
            (λ u.
              rw
                (
                  load-Same s'.world (e.sleep c.degraded_pause s'.world)
                      (λ a. keeps.on_sleep a c.degraded_pause s'.world),
                  f,
                )
                (success_falls (load c e s.world) (load c e s'.world) c.max_consecutive_failures
                  s.failures l))
            (λ u. rw f (
              success_falls (load c e s.world) (load c e s'.world) c.max_consecutive_failures
                s.failures l)))

  Falls-finish :
      (arm : Arm) (id : String) (s s' : Supervisor W)
      → load c e s'.world < load c e s.world
      → Falls s (finish_run c e arm id s')
  unfolding finish_run
  Falls-finish arm id s s' l =
      either_way (Falls s) arm.live _ _
        (λ t. Falls-degraded s (record s' { failures = 0; degraded_streak = _ }) refl l)
        (λ t.
          success_falls (load c e s.world) (load c e s'.world) c.max_consecutive_failures s.failures
            l)

  Falls-next :
      (arm : Arm) (p : List Run) (id : String) (s s' : Supervisor W)
      → s'.failures ≡ s.failures
      → Same s.world s'.world
      → IsNext c e s.world c.arms arm p
      → Falls s (run_next c e arm p id s')
  unfolding run_next
  Falls-next arm p id s s' f m n =
      let v = (e.invoke arm s'.world).1 in
      let s2 : Supervisor W = record s' { world = v; emitted = running ∷ s'.emitted } in
      let le : (b : Arm) → length (remaining c e b v) ≤ length (remaining c e b s.world) =
        λ b. rw (sym (m b)) (keeps.on_invoke arm b s'.world) in
      either_way (Falls s)
        (not ((e.invoke arm s'.world).0 == 0) || leb (length p) (length (remaining c e arm v))) _ _
        (λ t. Falls-failure s s2 f (
          total-leq (λ b. length (remaining c e b v)) (λ b. length (remaining c e b s.world)) c.arms
            le))
        (λ t. Falls-finish arm id s s2 (
          total-less (λ b. length (remaining c e b v)) (λ b. length (remaining c e b s.world)) arm
            c.arms le (ground (arith, t, ap length n.0)) n.2))

  -- Every turn of the loop is over, and the loop goes on only from a smaller measure.
  turn-Falls :
      (wait : ℕ) (s : Supervisor W)
      → 0 < c.health_retry
      → c.health_max_wait < wait
      → (t : Turn W) × (turn c e wait s ≡ some t) × Falls s t
  unfolding when_healthy guarded turn_on turn
  turn-Falls wait s r h = next (next_pending c e s.world) refl
    where
      healthy :
          (arm : Arm) (p : List Run) (b : Bool) (s' : Supervisor W)
          → s'.failures ≡ s.failures
          → Same s.world s'.world
          → IsNext c e s.world c.arms arm p
          → (t : Turn W) × (when_healthy c e arm p (id_of c e p) (some (b, s')) ≡ some t)
            × Falls s t
      healthy arm p true s' f m n = (_, refl, Falls-next arm p (id_of c e p) s s' f m n)
      healthy arm p false s' f m n = (_, refl, tt)

      allowed :
          (arm : Arm) (p : List Run) (o : Option Terminal)
          → IsNext c e s.world c.arms arm p
          → (t : Turn W) × (guarded c e wait arm p o s ≡ some t) × Falls s t
      allowed arm p (some x) n = (_, refl, tt)
      allowed arm p none n =
          let (b, s', q, f, m) = wait_healthy-Waited wait 0 s r (omega (arith, h)) in
          let (t, k, l) = healthy arm p b s' f m n in
          (t, ap (when_healthy c e arm p (id_of c e p)) q ∙ k, l)

      next :
          (o : Option (Arm × List Run))
          → next_pending c e s.world ≡ o
          → (t : Turn W) × (turn_on c e wait o s ≡ some t) × Falls s t
      next none q = (_, refl, tt)
      next (some (arm, p)) q =
          allowed arm p (guard c e arm s.world) (next_pending-IsNext c e s.world arm p q)

  run_turns-returns :
      (wait fuel : ℕ) (s : Supervisor W)
      → 0 < c.health_retry
      → c.health_max_wait < wait
      → measure s < fuel
      → (t : Terminal) × (s' : Supervisor W) × (run_turns c e wait fuel s ≡ some (t, s'))
  unfolding run_turns
  run_turns-returns wait zero s r h f = absurd (omega arith)
  run_turns-returns wait (suc fuel) s r h f =
      go (turn-Falls wait s r h) (λ s' l. run_turns-returns wait fuel s' r h (omega (arith, l, f)))
    where
      go :
          (t : Turn W) × (turn c e wait s ≡ some t) × Falls s t
          → ((s' : Supervisor W)
              → measure s' < measure s
              → (t : Terminal) × (s2 : Supervisor W) × (run_turns c e wait fuel s' ≡ some (t, s2)))
          → (t : Terminal) × (s' : Supervisor W) × (run_turns c e wait (suc fuel) s ≡ some (t, s'))
      go (stopped t s', q, l) k = (t, s', rw (run_turns, q) refl)
      go (again s', q, l) k = let (t, s2, i) = k s' l in (t, s2, rw (run_turns, q) i)

-- With a pause between two checks of the health that is not 0, when checks and pauses record no run
-- and no invocation takes a recorded run back, a campaign comes to a terminal state, whatever the
-- runs, the health and the guards give: at most one turn more than (runs left) * (failures allowed
-- + 1) + (failures allowed) is needed, and for each wait as many checks as its longest time.
pub run_campaign-returns :
    {W : Type 0} (c : CampaignConfig) (e : Effects W) (w : W)
    → KeepsResults c e
    → 0 < c.health_retry
    → (t : Terminal) × (s : Supervisor W) × (run_campaign c e
          (c.health_max_wait + 1)
          (load c e w * suc c.max_consecutive_failures + c.max_consecutive_failures + 1)
          w
        ≡ some (t, s))
unfolding run_campaign
run_campaign-returns c e w keeps r =
    run_turns-returns c e keeps (c.health_max_wait + 1)
      (load c e w * suc c.max_consecutive_failures + c.max_consecutive_failures + 1)
      (record { failures = 0; degraded_streak = 0; world = w; emitted = [] }) r (omega arith)
      (omega arith)

-- ===== src/Workers.antt =====
-- The pool of streaming workers, and the simulated operators: src/acde/dataplane/streaming/workers.py
-- and src/acde/human/simulator.py. A worker is its index; the tasks behind the indices and the
-- waits for them are left out, and the table of desired states is a parameter. The draw of a
-- latency, in microseconds, is a parameter.
pub mod Resizing
pub mod Operators
use agentic_cloud_pipeline_g.Prelude.{
  ℕ, zero, suc, ◌+◌, ◌-◌, String, Bool, true, false, not, ◌&&◌, Option, none, some, List, [], ◌∷◌,
  ◌++◌, ltb, leb, ◌==◌, str_eq, if◌then◌else◌, length, select,
}

abbrev max : ℕ → ℕ → ℕ
max a b = if ltb a b then b else a

abbrev min : ℕ → ℕ → ℕ
min a b = if ltb b a then b else a

unfoldable pub clamp_workers : ℕ → ℕ → ℕ → ℕ
clamp_workers n lo hi = max lo (min hi n)

-- The target, and how many workers to add and to remove.
unfoldable pub resize_plan : ℕ → ℕ → ℕ → ℕ → ℕ × ℕ × ℕ
unfolding clamp_workers
resize_plan current desired lo hi =
    let target = clamp_workers desired lo hi in (target, target - current, current - target)

-- The pool: the indices of its workers, oldest first.
pub record WorkerPool : Type 0 where
  pub lo : ℕ
  pub hi : ℕ
  pub workers : List ℕ
  pub next_index : ℕ

unfoldable pub spawn : WorkerPool → WorkerPool
spawn p = record p { workers = p.workers ++ p.next_index ∷ []; next_index = p.next_index + 1 }

-- `next(iter(...))` raises on an empty pool; `resize` does not come to that.
unfoldable pub without_first : List ℕ → List ℕ
without_first [] = []
without_first (i ∷ is) = is

unfoldable pub retire_one : WorkerPool → WorkerPool
unfolding without_first
retire_one p = record p { workers = without_first p.workers }

unfoldable pub repeat : ℕ → (WorkerPool → WorkerPool) → WorkerPool → WorkerPool
repeat zero f p = p
repeat (suc n) f p = repeat n f (f p)

unfoldable pub resize : ℕ → WorkerPool → ℕ × WorkerPool
unfolding resize_plan repeat spawn retire_one
resize desired p =
    let (target, to_add, to_remove) = resize_plan (length p.workers) desired p.lo p.hi in
    (target, repeat to_remove retire_one (repeat to_add spawn p))

unfoldable pub shutdown : WorkerPool → WorkerPool
shutdown p = record p { workers = [] }

-- A row of the table of manual interventions, as the simulator sees it.
pub record InterventionRow : Type 0 where
  pub id : ℕ
  pub experiment_run : String
  pub requested_ts : ℕ
  pub simulated_latency : Option ℕ
  pub completed_ts : Option ℕ

abbrev pub is_none : {A : Type 0} → Option A → Bool
is_none none = true
is_none (some a) = false

-- `assign_latencies` on a row, and on the table.
unfoldable pub assign_latency : (ℕ → ℕ) → String → InterventionRow → InterventionRow
assign_latency latency run r =
    if str_eq r.experiment_run run && is_none r.simulated_latency
    then record r { simulated_latency = some (latency r.id) }
    else r

unfoldable pub assign_latencies : (ℕ → ℕ) → String → List InterventionRow → List InterventionRow
unfolding assign_latency
assign_latencies latency run [] = []
assign_latencies latency run (r ∷ rs) =
    assign_latency latency run r ∷ assign_latencies latency run rs

-- `resolve_due` on a row with its latency, on a row, and on the table.
unfoldable pub complete_at : ℕ → InterventionRow → Option ℕ → InterventionRow
complete_at now r none = r
complete_at now r (some latency) =
    if leb (r.requested_ts + latency) now
    then record r { completed_ts = some (r.requested_ts + latency) }
    else r

unfoldable pub resolve_row : ℕ → String → InterventionRow → InterventionRow
unfolding complete_at
resolve_row now run r =
    if str_eq r.experiment_run run && is_none r.completed_ts
    then complete_at now r r.simulated_latency
    else r

unfoldable pub resolve_due : ℕ → String → List InterventionRow → List InterventionRow
unfolding resolve_row
resolve_due now run [] = []
resolve_due now run (r ∷ rs) = resolve_row now run r ∷ resolve_due now run rs

unfoldable pub assign_and_resolve :
    (ℕ → ℕ) → String → ℕ → List InterventionRow → List InterventionRow
unfolding assign_latencies resolve_due
assign_and_resolve latency run now rs = resolve_due now run (assign_latencies latency run rs)

-- The simulator's loop, at the times of its turns.
unfoldable pub run_simulator :
    (ℕ → ℕ) → String → List ℕ → List InterventionRow → List InterventionRow
unfolding assign_and_resolve
run_simulator latency run [] rs = rs
run_simulator latency run (now ∷ times) rs =
    run_simulator latency run times (assign_and_resolve latency run now rs)

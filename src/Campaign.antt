-- ===== src/Campaign.antt =====
-- The supervisor of an experiment campaign: `next_pending`, `_wait_healthy` and `run_campaign` of
-- src/acde/experiments/campaign.py. The functions that the code is given or that look outside
-- (`invoke`, `health`, `sleep`, `code_changed`, the stop file) are a record of parameters on a world
-- that holds the results on disk. The loops run on fuel and give `none` when it is out. Of the
-- heartbeat file the model keeps the states written, the last one first. Times are in microseconds.
pub mod Runs
pub mod Pending
pub mod Ends
pub mod Done
pub mod Tokens
use agentic_cloud_pipeline_g.Prelude.{
  ℕ, zero, suc, ◌+◌, String, Bool, true, false, not, ◌&&◌, ◌||◌, Option, none, some, List, [], ◌∷◌,
  ltb, leb, ◌==◌, str_eq, if◌then◌else◌, length,
}
use agentic_cloud_pipeline_g.Campaign.Runs.{
  Run, Arm, Disk, run_id_for, remaining_runs, total_tokens, run_metric,
}

-- The terminal states.
pub data Terminal : Type 0 where
  complete stopped_by_request stopped_token_ceiling : Terminal
  aborted_stack_unhealthy aborted_repeated_failures aborted_llm_degraded : Terminal
  aborted_code_changed : Terminal

-- The states of the heartbeat.
pub data Heartbeat : Type 0 where
  ended : Terminal → Heartbeat
  waiting_for_health running run_failed backing_off run_done : Heartbeat

pub record CampaignConfig : Type 0 where
  pub arms : List Arm
  pub max_tokens : Option ℕ
  pub max_consecutive_failures : ℕ
  pub failure_backoff : ℕ
  pub health_retry : ℕ
  pub health_max_wait : ℕ
  pub degraded_threshold : ℕ
  pub degraded_pause_after : ℕ
  pub degraded_abort_after : ℕ
  pub degraded_pause : ℕ
  pub interleave : Bool

-- What the loop is given, and the texts and the runs of the profiles.
pub record Effects (W : Type 0) : Type 0 where
  pub disk : W → Disk
  pub stop_exists : W → Bool
  pub code_changed : W → Bool
  pub health : W → List String × W
  pub sleep : ℕ → W → W
  pub invoke : Arm → W → ℕ × W
  pub decimal : ℕ → String
  pub runs : String → List Run

-- Equality of runs, and `list.index`: the place of the first, here the length if there is none.
abbrev same_run : Run → Run → Bool
same_run a b =
    str_eq a.config b.config && str_eq a.scenario b.scenario && a.replicate == b.replicate

unfoldable pub index_of : Run → List Run → ℕ
index_of r [] = 0
index_of r (x ∷ xs) = let rest = index_of r xs in if same_run x r then 0 else rest + 1

-- The arm that is best so far, with the place of its next run and all its runs.
pub record Best : Type 0 where
  pub position : ℕ
  pub arm : Arm
  pub pending : List Run

unfoldable pub better : Option Best → Best → Best
better none b = b
better (some a) b = if ltb b.position a.position then b else a

-- The loop's state: the counts, the world and the heartbeats.
pub record Supervisor (W : Type 0) : Type 0 where
  pub failures : ℕ
  pub degraded_streak : ℕ
  pub world : W
  pub emitted : List Heartbeat

-- The end of a turn of the loop.
pub data Turn (W : Type 0) : Type 0 where
  stopped : Terminal → Supervisor W → Turn W
  again : Supervisor W → Turn W

module _ {W : Type 0} (c : CampaignConfig) (e : Effects W) where
  unfoldable pub remaining : Arm → W → List Run
  unfolding remaining_runs
  remaining arm w = remaining_runs e.decimal e.runs (e.disk w) arm

  unfoldable pub next_from : W → Option Best → List Arm → Option (Arm × List Run)
  unfolding remaining index_of better
  next_from w none [] = none
  next_from w (some b) [] = some (b.arm, b.pending)
  next_from w best (arm ∷ arms) = elim (remaining arm w) [
    | [] ↦ next_from w best arms
    | r ∷ rs ↦
        let found : Best = record {
          position = index_of r (e.runs arm.profile);
          arm = arm;
          pending = r ∷ rs;
        } in
        let rest = next_from w (some (better best found)) arms in
        if c.interleave then rest else some (arm, r ∷ rs)
  ]

  unfoldable pub next_pending : W → Option (Arm × List Run)
  unfolding next_from
  next_pending w = next_from w none c.arms

  abbrev pub emit : Heartbeat → Supervisor W → Supervisor W
  emit h s = record s { emitted = h ∷ s.emitted }

  abbrev pub stop : Terminal → Supervisor W → Turn W
  stop t s = stopped t (emit (ended t) s)

  abbrev pub pause : ℕ → Supervisor W → Supervisor W
  pause n s = record s { world = e.sleep n s.world }

  -- `_wait_healthy`: whether the stack is healthy.
  unfoldable pub wait_healthy : ℕ → ℕ → Supervisor W → Option (Bool × Supervisor W)
  wait_healthy zero waited s = none
  wait_healthy (suc fuel) waited s =
      let (problems, w) = e.health s.world in
      let s' = record s { world = w } in
      let rest =
        wait_healthy fuel (waited + c.health_retry)
          (pause c.health_retry (emit waiting_for_health s')) in
      elim problems [
        | [] ↦ some (true, s')
        | p ∷ ps ↦
            if leb c.health_max_wait waited
            then some (false, emit (ended aborted_stack_unhealthy) s')
            else rest
      ]

  -- The guards before a run: the state that they stop in.
  unfoldable pub over_ceiling : Arm → W → Bool
  unfolding total_tokens
  over_ceiling arm w = elim c.max_tokens [
    | none ↦ false
    | some most ↦ arm.live && leb most (total_tokens (e.disk w) c.arms)
  ]

  unfoldable pub guard : Arm → W → Option Terminal
  unfolding over_ceiling
  guard arm w =
      if e.stop_exists w
      then some stopped_by_request
      else (if e.code_changed w
          then some aborted_code_changed
          else (if over_ceiling arm w then some stopped_token_ceiling else none))

  -- A run that failed.
  unfoldable pub count_failure : Supervisor W → Turn W
  count_failure s =
      let s' = emit run_failed (record s { failures = s.failures + 1 }) in
      if leb c.max_consecutive_failures s'.failures
      then stop aborted_repeated_failures s'
      else again (pause c.failure_backoff s')

  abbrev or_zero : Option ℕ → ℕ
  or_zero none = 0
  or_zero (some n) = n

  -- A run that was done: what it says of the model's health.
  unfoldable pub count_degraded : Supervisor W → Turn W
  count_degraded s =
      if leb c.degraded_abort_after s.degraded_streak
      then stop aborted_llm_degraded s
      else (if leb c.degraded_pause_after s.degraded_streak
          then again (emit run_done (pause c.degraded_pause (emit backing_off s)))
          else again (emit run_done s))

  unfoldable pub finish_run : Arm → String → Supervisor W → Turn W
  unfolding run_metric count_degraded
  finish_run arm id s =
      let degraded = or_zero (run_metric (e.disk s.world) arm id "llm_degraded") in
      let streak = if leb c.degraded_threshold degraded then s.degraded_streak + 1 else 0 in
      if arm.live
      then count_degraded (record s { failures = 0; degraded_streak = streak })
      else again (emit run_done (record s { failures = 0 }))

  unfoldable pub run_next : Arm → List Run → String → Supervisor W → Turn W
  unfolding remaining count_failure finish_run
  run_next arm pending id s =
      let (rc, w) = e.invoke arm s.world in
      let s' = record (emit running s) { world = w } in
      if not (rc == 0) || leb (length pending) (length (remaining arm w))
      then count_failure s'
      else finish_run arm id s'

  unfoldable pub when_healthy :
      Arm → List Run → String → Option (Bool × Supervisor W) → Option (Turn W)
  unfolding run_next
  when_healthy arm pending id none = none
  when_healthy arm pending id (some (true, s)) = some (run_next arm pending id s)
  when_healthy arm pending id (some (false, s)) = some (stopped aborted_stack_unhealthy s)

  abbrev pub id_of : List Run → String
  id_of [] = ""
  id_of (r ∷ rs) = run_id_for e.decimal r

  unfoldable pub guarded : ℕ → Arm → List Run → Option Terminal → Supervisor W → Option (Turn W)
  unfolding wait_healthy when_healthy run_id_for
  guarded fuel arm pending (some t) s = some (stop t s)
  guarded fuel arm pending none s = when_healthy arm pending (id_of pending) (wait_healthy fuel 0 s)

  -- A turn of the loop, with fuel for its wait.
  unfoldable pub turn_on : ℕ → Option (Arm × List Run) → Supervisor W → Option (Turn W)
  unfolding guard guarded
  turn_on fuel none s = some (stop complete s)
  turn_on fuel (some (arm, pending)) s = guarded fuel arm pending (guard arm s.world) s

  unfoldable pub turn : ℕ → Supervisor W → Option (Turn W)
  unfolding next_pending turn_on
  turn fuel s = turn_on fuel (next_pending s.world) s

  unfoldable pub run_turns : ℕ → ℕ → Supervisor W → Option (Terminal × Supervisor W)
  unfolding turn
  run_turns wait zero s = none
  run_turns wait (suc fuel) s = elim (turn wait s) [
    | none ↦ none
    | some (stopped t s') ↦ some (t, s')
    | some (again s') ↦ run_turns wait fuel s'
  ]

  unfoldable pub run_campaign : ℕ → ℕ → W → Option (Terminal × Supervisor W)
  unfolding run_turns
  run_campaign wait fuel w =
      run_turns wait fuel (record { failures = 0; degraded_streak = 0; world = w; emitted = [] })

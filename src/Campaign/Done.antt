-- ===== src/Campaign/Done.antt =====
-- A campaign that reports that it is complete has left no run.
use mathlib.Core.Path.{subst}
use agentic_cloud_pipeline_g.Prelude.{
  ℕ, zero, suc, ◌+◌, Bool, String, ◌≡◌, refl, true, false, not, ◌||◌, Option, none, some, List, [],
  ◌∷◌, arith, leb, ◌==◌, length, All, either_way,
}
use agentic_cloud_pipeline_g.Campaign.Runs.{Run, Arm}
use agentic_cloud_pipeline_g.Campaign.{
  CampaignConfig, Effects, Supervisor, Terminal, Turn, running, stopped, again, complete,
  stopped_token_ceiling, remaining, next_pending, wait_healthy, over_ceiling, guard, count_failure,
  count_degraded, finish_run, run_next, id_of, when_healthy, guarded, turn_on, turn, run_turns,
  run_campaign,
}
use agentic_cloud_pipeline_g.Campaign.Pending.{next_pending-none}

abbrev is_complete : Terminal → Bool
is_complete complete = true
is_complete _ = false

module _ {W : Type 0} (c : CampaignConfig) (e : Effects W) where
  -- No arm has a run left.
  abbrev pub IsDone : W → Type 0
  IsDone w = All (λ a. remaining c e a w ≡ []) c.arms

  abbrev Done : Option (Turn W) → Type 0
  Done (some (stopped t s)) = is_complete t ≡ true → IsDone s.world
  Done (some (again s)) = Unit
  Done none = Unit

  abbrev Refused : Option Terminal → Type 0
  Refused none = Unit
  Refused (some t) = is_complete t ≡ false

  guard-Refused : (a : Arm) (w : W) → Refused (guard c e a w)
  unfolding guard
  guard-Refused a w =
      either_way Refused (e.stop_exists w) _ _ (λ t. refl)
        (λ t.
          either_way Refused (e.code_changed w) _ _ (λ u. refl)
            (λ u.
              either_way Refused (over_ceiling c e a w) (some stopped_token_ceiling) none
                (λ v. refl) (λ v. tt)))

  -- A turn that runs an arm is not over as complete.
  abbrev Unfinished : Turn W → Type 0
  Unfinished (stopped t s) = is_complete t ≡ false
  Unfinished (again s) = Unit

  count_failure-Unfinished : (s : Supervisor W) → Unfinished (count_failure c e s)
  unfolding count_failure
  count_failure-Unfinished s =
      either_way Unfinished (leb c.max_consecutive_failures (s.failures + 1)) _ _ (λ t. refl)
        (λ t. tt)

  count_degraded-Unfinished : (s : Supervisor W) → Unfinished (count_degraded c e s)
  unfolding count_degraded
  count_degraded-Unfinished s =
      either_way Unfinished (leb c.degraded_abort_after s.degraded_streak) _ _ (λ t. refl)
        (λ t.
          either_way Unfinished (leb c.degraded_pause_after s.degraded_streak) _ _ (λ u. tt)
            (λ u. tt))

  finish_run-Unfinished :
      (a : Arm) (id : String) (s : Supervisor W) → Unfinished (finish_run c e a id s)
  unfolding finish_run
  finish_run-Unfinished a id s =
      either_way Unfinished a.live _ _ (λ t. count_degraded-Unfinished _) (λ t. tt)

  run_next-Unfinished :
      (a : Arm) (p : List Run) (id : String) (s : Supervisor W) → Unfinished (run_next c e a p id s)
  unfolding run_next
  run_next-Unfinished a p id s =
      let v = (e.invoke a s.world).1 in
      either_way Unfinished
        (not ((e.invoke a s.world).0 == 0) || leb (length p) (length (remaining c e a v))) _ _
        (λ t. count_failure-Unfinished _)
        (λ t. finish_run-Unfinished a id (record s { world = v; emitted = running ∷ s.emitted }))

  Unfinished-Done : (t : Turn W) → Unfinished t → Done (some t)
  Unfinished-Done (stopped t s) u = λ h. absurd (ground (arith, u, h))
  Unfinished-Done (again s) u = tt

  when_healthy-Done :
      (a : Arm) (p : List Run) (id : String) (o : Option (Bool × Supervisor W))
      → Done (when_healthy c e a p id o)
  unfolding when_healthy
  when_healthy-Done a p id none = tt
  when_healthy-Done a p id (some (true, s)) =
      Unfinished-Done (run_next c e a p id s) (run_next-Unfinished a p id s)
  when_healthy-Done a p id (some (false, s)) = λ h. absurd (ground (arith, h))

  guarded-Done :
      (wait : ℕ) (a : Arm) (p : List Run) (o : Option Terminal) (s : Supervisor W)
      → Refused o
      → Done (guarded c e wait a p o s)
  unfolding guarded
  guarded-Done wait a p (some t) s f = λ h. absurd (ground (arith, f, h))
  guarded-Done wait a p none s f = when_healthy-Done a p (id_of c e p) (wait_healthy c e wait 0 s)

  turn_on-Done :
      (wait : ℕ) (o : Option (Arm × List Run)) (s : Supervisor W)
      → next_pending c e s.world ≡ o
      → Done (turn_on c e wait o s)
  unfolding turn_on
  turn_on-Done wait none s q = λ h. next_pending-none c e s.world q
  turn_on-Done wait (some (a, p)) s q =
      guarded-Done wait a p (guard c e a s.world) s (guard-Refused a s.world)

  turn-Done : (wait : ℕ) (s : Supervisor W) → Done (turn c e wait s)
  unfolding turn
  turn-Done wait s = turn_on-Done wait (next_pending c e s.world) s refl

  abbrev AllDone : Option (Terminal × Supervisor W) → Type 0
  AllDone none = Unit
  AllDone (some (t, s)) = is_complete t ≡ true → IsDone s.world

  run_turns-AllDone : (wait fuel : ℕ) (s : Supervisor W) → AllDone (run_turns c e wait fuel s)
  unfolding run_turns
  run_turns-AllDone wait zero s = tt
  run_turns-AllDone wait (suc fuel) s =
      go (turn c e wait s) refl (turn-Done wait s) (λ s'. run_turns-AllDone wait fuel s')
    where
      go :
          (o : Option (Turn W))
          → turn c e wait s ≡ o
          → Done o
          → ((s' : Supervisor W) → AllDone (run_turns c e wait fuel s'))
          → AllDone (run_turns c e wait (suc fuel) s)
      go none q d k = rw (run_turns, q) tt
      go (some (stopped t s')) q d k = rw (run_turns, q) d
      go (some (again s')) q d k = rw (run_turns, q) (k s')

  -- When a campaign reports that it is complete, no arm has a run left: every run of its profile and
  -- its configurations is in its manifest.
  pub run_campaign-complete :
      (wait fuel : ℕ) (w : W) (s : Supervisor W)
      → run_campaign c e wait fuel w ≡ some (complete, s)
      → IsDone s.world
  unfolding run_campaign
  run_campaign-complete wait fuel w s h =
      subst AllDone h
        (run_turns-AllDone wait fuel
          (record { failures = 0; degraded_streak = 0; world = w; emitted = [] }))
        refl

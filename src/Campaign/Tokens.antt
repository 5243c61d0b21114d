-- ===== src/Campaign/Tokens.antt =====
-- The ceiling on the tokens that a campaign may spend.
use mathlib.Core.Path.{subst}
use agentic_cloud_pipeline_g.Prelude.{
  ℕ, zero, suc, ◌+◌, ◌≤◌, ◌<◌, Bool, String, ◌≡◌, ◌∙◌, refl, true, false, not, ◌||◌, Option, none,
  some, List, [], ◌∷◌, arith, leb, ◌==◌, if◌then◌else◌, length, either_way, inl, inr, Bool-cases,
}
use agentic_cloud_pipeline_g.Campaign.Runs.{Run, Arm, total_tokens}
use agentic_cloud_pipeline_g.Campaign.{
  CampaignConfig, Effects, Supervisor, Terminal, Turn, running, stopped, again, remaining,
  next_pending, wait_healthy, waiting_for_health, over_ceiling, guard, count_failure,
  count_degraded, finish_run, run_next, id_of, when_healthy, guarded, turn_on, turn, run_turns,
  run_campaign,
}
use agentic_cloud_pipeline_g.Campaign.Pending.{List-cases}

-- The tokens that the live arms have spent.
abbrev pub spent : {W : Type 0} → CampaignConfig → Effects W → W → ℕ
spent c e w = total_tokens (e.disk w) c.arms

-- Checks and pauses spend nothing, and one run of an arm at most `most_per_run`, if the arm is live.
pub record SpendsAtMost {W : Type 0} (c : CampaignConfig) (e : Effects W) (most_per_run : ℕ)
    : Type 0 where
  pub on_health : (w : W) → spent c e (e.health w).1 ≡ spent c e w
  pub on_sleep : (n : ℕ) (w : W) → spent c e (e.sleep n w) ≡ spent c e w
  pub on_invoke :
      (a : Arm) (w : W)
      → spent c e (e.invoke a w).1 ≤ spent c e w + (if a.live then most_per_run else 0)

module _ {W : Type 0} (c : CampaignConfig) (e : Effects W) (most_per_run : ℕ)
    (spends : SpendsAtMost c e most_per_run) where
  module _ (most : ℕ) where
    -- A turn leaves the tokens within a bound.
    abbrev Within : Turn W → Type 0
    Within (stopped t s) = spent c e s.world < most
    Within (again s) = spent c e s.world < most

    count_failure-Within :
        (s : Supervisor W) → spent c e s.world < most → Within (count_failure c e s)
    unfolding count_failure
    count_failure-Within s h =
        either_way Within (leb c.max_consecutive_failures (s.failures + 1)) _ _ (λ t. h)
          (λ t. rw (spends.on_sleep c.failure_backoff s.world) h)

    count_degraded-Within :
        (s : Supervisor W) → spent c e s.world < most → Within (count_degraded c e s)
    unfolding count_degraded
    count_degraded-Within s h =
        either_way Within (leb c.degraded_abort_after s.degraded_streak) _ _ (λ t. h)
          (λ t.
            either_way Within (leb c.degraded_pause_after s.degraded_streak) _ _
              (λ u. rw (spends.on_sleep c.degraded_pause s.world) h) (λ u. h))

    finish_run-Within :
        (a : Arm) (id : String) (s : Supervisor W)
        → spent c e s.world < most
        → Within (finish_run c e a id s)
    unfolding finish_run
    finish_run-Within a id s h =
        either_way Within a.live _ _ (λ t. count_degraded-Within _ h) (λ t. h)

    run_next-Within :
        (a : Arm) (p : List Run) (id : String) (s : Supervisor W)
        → spent c e s.world + (if a.live then most_per_run else 0) < most
        → Within (run_next c e a p id s)
    unfolding run_next
    run_next-Within a p id s h =
        let v = (e.invoke a s.world).1 in
        let s' : Supervisor W = record s { world = v; emitted = running ∷ s.emitted } in
        let k : spent c e v < most = omega (arith, h, spends.on_invoke a s.world) in
        either_way Within
          (not ((e.invoke a s.world).0 == 0) || leb (length p) (length (remaining c e a v))) _ _
          (λ t. count_failure-Within s' k) (λ t. finish_run-Within a id s' k)

  -- The wait spends nothing.
  abbrev SameSpent : ℕ → Option (Bool × Supervisor W) → Type 0
  SameSpent n none = Unit
  SameSpent n (some (b, s)) = spent c e s.world ≡ n

  wait_healthy-SameSpent :
      (fuel waited n : ℕ) (s : Supervisor W)
      → spent c e s.world ≡ n
      → SameSpent n (wait_healthy c e fuel waited s)
  unfolding wait_healthy
  wait_healthy-SameSpent zero waited n s h = tt
  wait_healthy-SameSpent (suc fuel) waited n s h = elim (List-cases (e.health s.world).0) [
    | inl q ↦ rw (wait_healthy, q) (spends.on_health s.world ∙ h)
    | inr (p, ps, q) ↦ elim (Bool-cases (leb c.health_max_wait waited)) [
      | inl t ↦ rw (wait_healthy, q, t) (spends.on_health s.world ∙ h)
      | inr f ↦
          rw (wait_healthy, q, f)
            (wait_healthy-SameSpent fuel (waited + c.health_retry) n
              (record s {
                world = e.sleep c.health_retry (e.health s.world).1;
                emitted = waiting_for_health ∷ s.emitted;
              })
              (spends.on_sleep c.health_retry (e.health s.world).1 ∙ spends.on_health s.world ∙ h))
    ]
  ]

  module _ (ceiling : ℕ) (limited : c.max_tokens ≡ some ceiling) where
    -- The guards let a live arm run only below the ceiling.
    guard-below :
        (a : Arm) (w : W)
        → guard c e a w ≡ none
        → spent c e w < ceiling + most_per_run
        → spent c e w + (if a.live then most_per_run else 0) < ceiling + most_per_run
    unfolding guard over_ceiling
    guard-below a w g h = ground (arith, limited, g, h)

    abbrev WithinCeiling : Option (Turn W) → Type 0
    WithinCeiling none = Unit
    WithinCeiling (some t) = Within (ceiling + most_per_run) t

    when_healthy-WithinCeiling :
        (a : Arm) (p : List Run) (id : String) (n : ℕ) (o : Option (Bool × Supervisor W))
        → SameSpent n o
        → n < ceiling + most_per_run
        → n + (if a.live then most_per_run else 0) < ceiling + most_per_run
        → WithinCeiling (when_healthy c e a p id o)
    unfolding when_healthy
    when_healthy-WithinCeiling a p id n none m h k = tt
    when_healthy-WithinCeiling a p id n (some (true, s)) m h k =
        run_next-Within (ceiling + most_per_run) a p id s (rw m k)
    when_healthy-WithinCeiling a p id n (some (false, s)) m h k = rw m h

    guarded-WithinCeiling :
        (wait : ℕ) (a : Arm) (p : List Run) (o : Option Terminal) (s : Supervisor W)
        → guard c e a s.world ≡ o
        → spent c e s.world < ceiling + most_per_run
        → WithinCeiling (guarded c e wait a p o s)
    unfolding guarded
    guarded-WithinCeiling wait a p (some t) s g h = h
    guarded-WithinCeiling wait a p none s g h =
        when_healthy-WithinCeiling a p (id_of c e p) (spent c e s.world) (wait_healthy c e wait 0 s)
          (wait_healthy-SameSpent wait 0 (spent c e s.world) s refl) h (guard-below a s.world g h)

    turn_on-WithinCeiling :
        (wait : ℕ) (o : Option (Arm × List Run)) (s : Supervisor W)
        → spent c e s.world < ceiling + most_per_run
        → WithinCeiling (turn_on c e wait o s)
    unfolding turn_on
    turn_on-WithinCeiling wait none s h = h
    turn_on-WithinCeiling wait (some (a, p)) s h =
        guarded-WithinCeiling wait a p (guard c e a s.world) s refl h

    abbrev EndsWithin : Option (Terminal × Supervisor W) → Type 0
    EndsWithin none = Unit
    EndsWithin (some (t, s)) = spent c e s.world < ceiling + most_per_run

    run_turns-EndsWithin :
        (wait fuel : ℕ) (s : Supervisor W)
        → spent c e s.world < ceiling + most_per_run
        → EndsWithin (run_turns c e wait fuel s)
    unfolding run_turns turn
    run_turns-EndsWithin wait zero s h = tt
    run_turns-EndsWithin wait (suc fuel) s h =
        go (turn c e wait s) refl (turn_on-WithinCeiling wait (next_pending c e s.world) s h)
          (λ s' k. run_turns-EndsWithin wait fuel s' k)
      where
        go :
            (o : Option (Turn W))
            → turn c e wait s ≡ o
            → WithinCeiling o
            → ((s' : Supervisor W)
                → spent c e s'.world < ceiling + most_per_run
                → EndsWithin (run_turns c e wait fuel s'))
            → EndsWithin (run_turns c e wait (suc fuel) s)
        go none q d k = rw (run_turns, q) tt
        go (some (stopped t s')) q d k = rw (run_turns, q) d
        go (some (again s')) q d k = rw (run_turns, q) (k s' d)

    -- If one run of a live arm spends at most `most_per_run` tokens, and nothing else spends any, a
    -- campaign that starts with fewer tokens spent than its ceiling and one run's tokens together
    -- also ends with fewer, in whatever state it ends.
    pub run_campaign-spent :
        (wait fuel : ℕ) (w : W) (t : Terminal) (s : Supervisor W)
        → spent c e w < ceiling + most_per_run
        → run_campaign c e wait fuel w ≡ some (t, s)
        → spent c e s.world < ceiling + most_per_run
    unfolding run_campaign
    run_campaign-spent wait fuel w t s h q = subst EndsWithin q (
        run_turns-EndsWithin wait fuel
          (record { failures = 0; degraded_streak = 0; world = w; emitted = [] }) h)

-- ===== src/Executor/Safety.antt =====
-- When the executor may touch the pipeline, and what it does on the other branches.
use agentic_cloud_pipeline_g.Prelude.{
  ℕ, String, ◌≡◌, ◌∙◌, refl, Bool, true, false, not, ◌&&◌, ◌||◌, Option, none, some, [], ◌∷◌, arith,
  eq_iff, str_eq, Bool-cases, inl, inr,
}
use agentic_cloud_pipeline_g.Contracts
use agentic_cloud_pipeline_g.Contracts.{ActionType, ProposedAction, PolicyDecision}
use agentic_cloud_pipeline_g.Env.{Env, Event}
use agentic_cloud_pipeline_g.World.{World, Message}
use agentic_cloud_pipeline_g.Exec.{Result, ok, raised, pure, ◌>>=◌}
use agentic_cloud_pipeline_g.Executor.{
  ExecutionOutcome, Execution, is_auto, notify, escalate, caught, apply_action, effective_mode,
  create_pending, run_auto, run_shadow, run_approval, after_autonomous, run_autonomous, run_as,
  run_in_mode, run_allowed, run_escalation, run_denial, execute,
}
use agentic_cloud_pipeline_g.Executor.Handlers.{handle}

module _ (e : Env) where
  pub notify-pipeline :
      (v : Event) (a : ProposedAction) (o : Option ℕ) (w : World)
      → ((notify e v a o w).1.pipeline ≡ w.pipeline)
        × ((notify e v a o w).1.approvals ≡ w.approvals)
        × ((notify e v a o w).1.interventions ≡ w.interventions)
        × ((notify e v a o w).0 ≡ ok tt)
  unfolding notify
  notify-pipeline v a o w = ground arith

  pub escalate-pipeline :
      (a : ProposedAction) (d : PolicyDecision) (run : String) (w : World)
      → ((escalate e a d run w).1.pipeline ≡ w.pipeline)
        × ((escalate e a d run w).1.approvals ≡ w.approvals)
        × ((escalate e a d run w).0 ≡ ok tt)
  unfolding escalate
  escalate-pipeline a d run w = ground arith

  -- An acknowledgement changes nothing, and neither does an action whose target is the run's id.
  handle_auto :
      (t : ActionType) (a : ProposedAction) (run : String) (w : World)
      → is_auto t ≡ true
      → (handle e t a run w).1 ≡ w
  unfolding handle is_auto
  handle_auto Contracts.no_action a run w h = refl
  handle_auto Contracts.raise_anomaly a run w h = refl
  handle_auto Contracts.allow_compatible a run w h = refl
  handle_auto _ a run w h = cc

  pub caught-world : (t : Result Message × World) → (caught e t).1 ≡ t.1
  caught-world t = ground arith

  -- Whether the settings and the verdict let the action run now; it reads the settings directly.
  abbrev pub may_act : ProposedAction → PolicyDecision → String → Bool
  may_act a d run =
      d.allowed
      && not (is_auto a.action_type)
      && not (str_eq a.target run)
      && not (str_eq e.settings.acde_mode "shadow")
      && not (str_eq e.settings.acde_mode "approval")
      && not
          (str_eq e.settings.acde_mode "autonomous" && e.settings.approval_required a.action_type)

  pub apply_action_kept :
      (a : ProposedAction) (run : String) (w : World)
      → (is_auto a.action_type || str_eq a.target run) ≡ true
      → (apply_action e a run w).1 ≡ w
  unfolding apply_action
  apply_action_kept a run w h =
      ground
        (arith, handle_auto a.action_type a run w, caught-world (handle e a.action_type a run w))

  pub run_escalation-pipeline :
      (a : ProposedAction) (d : PolicyDecision) (run : String) (x : Execution) (w : World)
      → ((run_escalation e a d run x w).1.pipeline ≡ w.pipeline)
  unfolding run_escalation
  run_escalation-pipeline a d run x w = ground (
    arith,
    escalate-pipeline a d run w,
    notify-pipeline Event.escalation a none (escalate e a d run w).1,
  )

  pub after_autonomous-pipeline :
      (a : ProposedAction) (d : PolicyDecision) (run : String) (x : ExecutionOutcome) (w : World)
      → ((after_autonomous e a d run x w).1.pipeline ≡ w.pipeline)
  unfolding after_autonomous
  after_autonomous-pipeline a d run x w = ground (
    arith,
    escalate-pipeline a d run w,
    notify-pipeline Event.execution_failure a none (escalate e a d run w).1,
  )

  pub run_shadow-pipeline :
      (a : ProposedAction) (w : World)
      → ((run_shadow e a w).1.pipeline ≡ w.pipeline)
        × ((run_shadow e a w).1.approvals ≡ w.approvals)
        × ((run_shadow e a w).0
            ≡ ok
                (record { executed = false; outcome = Message.shadow a.action_type a.target ∷ [] }))
  unfolding run_shadow
  run_shadow-pipeline a w = ground (arith, notify-pipeline Event.shadow_proposal a none w)

  pub run_approval-pipeline :
      (a : ProposedAction) (d : PolicyDecision) (run : String) (w : World)
      → ((run_approval e a d run w).1.pipeline ≡ w.pipeline)
        × ((run_approval e a d run w).1.approvals ≡ (create_pending e a d run w).1.approvals)
        × ((run_approval e a d run w).0
            ≡ ok (record { executed = false; outcome = Message.pending w.next_id ∷ [] }))
  unfolding run_approval create_pending
  run_approval-pipeline a d run w = ground (
    arith,
    notify-pipeline Event.pending_approval a (some w.next_id) (create_pending e a d run w).1,
  )

  run_autonomous-pipeline :
      (a : ProposedAction) (d : PolicyDecision) (run : String) (w : World)
      → str_eq a.target run ≡ true
      → (run_autonomous e a d run w).1.pipeline ≡ w.pipeline
  unfolding run_autonomous
  run_autonomous-pipeline a d run w h =
      go (apply_action e a run w).0 (apply_action e a run w).1
        (ground (arith, apply_action_kept a run w))
    where
      go :
          (r : Result ExecutionOutcome) (w' : World)
          → w'.pipeline ≡ w.pipeline
          → (◌>>=◌ (λ _. (r, w')) (after_autonomous e a d run) w).1.pipeline ≡ w.pipeline
      go (ok x) w' p = after_autonomous-pipeline a d run x w' ∙ p
      go (raised x) w' p = p

  run_as-pipeline :
      (mode : String) (a : ProposedAction) (d : PolicyDecision) (run : String) (w : World)
      → (str_eq a.target run || str_eq mode "shadow" || str_eq mode "approval") ≡ true
      → (run_as e mode a d run w).1.pipeline ≡ w.pipeline
  unfolding run_as
  run_as-pipeline mode a d run w h = ground (
    arith,
    run_shadow-pipeline a w,
    run_approval-pipeline a d run w,
    run_autonomous-pipeline a d run w,
  )

  run_in_mode-pipeline :
      (a : ProposedAction) (d : PolicyDecision) (run : String) (w : World)
      → d.allowed ≡ true
      → is_auto a.action_type ≡ false
      → may_act a d run ≡ false
      → (run_in_mode e a d run w).1.pipeline ≡ w.pipeline
  unfolding run_in_mode effective_mode
  run_in_mode-pipeline a d run w al au h =
      elim (Bool-cases
        (str_eq e.settings.acde_mode "autonomous" && e.settings.approval_required a.action_type)) [
          | inl t ↦
              rw t (
                run_as-pipeline "approval" a d run w (ground (arith, eq_iff "approval" "approval")))
          | inr f ↦ rw f (run_as-pipeline e.settings.acde_mode a d run w (ground arith))
        ]

  run_auto-pipeline :
      (a : ProposedAction) (run : String) (w : World)
      → is_auto a.action_type ≡ true
      → (run_auto e a run w).1.pipeline ≡ w.pipeline
  unfolding run_auto
  run_auto-pipeline a run w h = ground (arith, apply_action_kept a run w)

  run_allowed-pipeline :
      (a : ProposedAction) (d : PolicyDecision) (run : String) (w : World)
      → may_act a d run ≡ false
      → (run_allowed e a d run w).1.pipeline ≡ w.pipeline
  unfolding run_allowed
  run_allowed-pipeline a d run w h =
      ground (arith, run_auto-pipeline a run w, run_in_mode-pipeline a d run w)

  after_run-pipeline :
      (a : ProposedAction) (d : PolicyDecision) (run : String) (r : Result Execution) (w w' : World)
      → (◌>>=◌
          (λ _. (r, w'))
          (λ x. run_escalation e a d run x >>= λ y. pure (run_denial e d y))
          w).1.pipeline
        ≡ w'.pipeline
  after_run-pipeline a d run (ok x) w w' = ground (arith, run_escalation-pipeline a d run x w')
  after_run-pipeline a d run (raised x) w w' = refl

  -- What follows the action proper leaves the pipeline alone.
  pub execute-run_allowed :
      (a : ProposedAction) (d : PolicyDecision) (run : String) (w : World)
      → (execute e a d run w).1.pipeline ≡ (run_allowed e a d run w).1.pipeline
  unfolding execute
  execute-run_allowed a d run w = after_run-pipeline a d run _ w (run_allowed e a d run w).1

  -- Unless the policy allowed the action, it is no mere acknowledgement, its target is not the
  -- run's id, and the mode, with the action types that need approval, is neither shadow nor
  -- approval, `execute` sends no request and leaves partitions, quarantine events and desired
  -- state as they were.
  pub execute-pipeline :
      (a : ProposedAction) (d : PolicyDecision) (run : String) (w : World)
      → may_act a d run ≡ false
      → (execute e a d run w).1.pipeline ≡ w.pipeline
  execute-pipeline a d run w h = execute-run_allowed a d run w ∙ run_allowed-pipeline a d run w h

-- ===== src/Executor/Invariants.antt =====
-- An invariant that the parts of the executor keep is kept by `execute`.
use mathlib.Core.Path.{subst}
use agentic_cloud_pipeline_g.Prelude.{
  ℕ, String, sym, false, not, ◌&&◌, Option, [], str_eq, if◌then◌else◌,
}
use agentic_cloud_pipeline_g.Contracts.{ActionType, ProposedAction, PolicyDecision}
use agentic_cloud_pipeline_g.Env.{Env, Event}
use agentic_cloud_pipeline_g.World.{World, Pipeline, Message}
use agentic_cloud_pipeline_g.Exec.{pure}
use agentic_cloud_pipeline_g.Exec.Preserves.{Preserves, Preserves-if_at, preserves_rules}
use agentic_cloud_pipeline_g.Executor.{
  Execution, is_auto, caught, notify, escalate, apply_action, effective_mode, create_pending,
  run_auto, run_shadow, run_approval, after_autonomous, run_autonomous, run_as, run_in_mode,
  run_allowed, run_escalation, execute,
}
use agentic_cloud_pipeline_g.Executor.Handlers.{handle}
use agentic_cloud_pipeline_g.Executor.Frame.{handle-Touches}
use agentic_cloud_pipeline_g.Executor.Safety.{caught-world}

-- A handler keeps what does not depend on the pipeline.
pub handle-Preserves :
    (e : Env) (P : World → Type 0)
    → ((w : World) (p : Pipeline) → P w → P (record w { pipeline = p }))
    → (t : ActionType) (a : ProposedAction) (run : String) → Preserves P (handle e t a run)
handle-Preserves e P on_pipeline t a run = record {
  at = λ w h.
      subst P (sym ((handle-Touches e t a run).at w))
        (on_pipeline w (handle e t a run w).1.pipeline h);
}

module _ (e : Env) (P : World → Type 0)
    (on_handle : (t : ActionType) (a : ProposedAction) (run : String)
      → Preserves P (handle e t a run))
    (on_notify : (v : Event) (a : ProposedAction) (o : Option ℕ) → Preserves P (notify e v a o))
    (on_escalate : (a : ProposedAction) (d : PolicyDecision) (run : String)
      → Preserves P (escalate e a d run))
    (on_queue : (a : ProposedAction) (d : PolicyDecision) (run : String)
      → Preserves P (create_pending e a d run)) where
  apply_action-Preserves : (a : ProposedAction) (run : String) → Preserves P (apply_action e a run)
  unfolding apply_action
  apply_action-Preserves a run =
      Preserves-if_at (not (is_auto a.action_type) && str_eq a.target run)
        (pure (record { executed = false; outcome = Message.invalid_target a.target }))
        (λ w. caught e (handle e a.action_type a run w)) (record { at = λ w h. h })
        (record {
          at = λ w h.
              subst P (sym (caught-world e (handle e a.action_type a run w)))
                ((on_handle a.action_type a run).at w h);
        })

  run_as-Preserves :
      (mode : String) (a : ProposedAction) (d : PolicyDecision) (run : String)
      → Preserves P (run_as e mode a d run)
  unfolding run_as run_shadow run_approval run_autonomous after_autonomous
  run_as-Preserves mode a d run =
      Preserves-if_at (str_eq mode "shadow") (run_shadow e a)
        (λ w.
          if str_eq mode "approval" then run_approval e a d run w else run_autonomous e a d run w)
        (search preserves_rules)
        (Preserves-if_at (str_eq mode "approval") (run_approval e a d run)
          (run_autonomous e a d run) (search preserves_rules)
          (search (preserves_rules, apply_action-Preserves)))

  run_allowed-Preserves :
      (a : ProposedAction) (d : PolicyDecision) (run : String) → Preserves P (run_allowed e a d run)
  unfolding run_allowed run_auto run_in_mode
  run_allowed-Preserves a d run =
      Preserves-if_at d.allowed
        (λ w. if is_auto a.action_type then run_auto e a run w else run_in_mode e a d run w)
        (pure (record { executed = false; outcome = [] }))
        (Preserves-if_at (is_auto a.action_type) (run_auto e a run) (run_in_mode e a d run)
          (search (preserves_rules, apply_action-Preserves))
          (run_as-Preserves (effective_mode e a.action_type) a d run))
        (record { at = λ w h. h })

  run_escalation-Preserves :
      (a : ProposedAction) (d : PolicyDecision) (run : String) (x : Execution)
      → Preserves P (run_escalation e a d run x)
  unfolding run_escalation
  run_escalation-Preserves a d run x = search preserves_rules

  pub execute-Preserves :
      (a : ProposedAction) (d : PolicyDecision) (run : String) → Preserves P (execute e a d run)
  unfolding execute
  execute-Preserves a d run =
      search (preserves_rules, run_allowed-Preserves, run_escalation-Preserves)

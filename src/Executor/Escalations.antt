-- ===== src/Executor/Escalations.antt =====
-- The deduplication of escalations: with it, a run never has two open interventions.
use agentic_cloud_pipeline_g.Prelude.{
  ℕ, ◌≤◌, String, ◌≡◌, true, Option, none, [], ◌∷◌, arith, eq_iff, count, count-append,
  count-eq-zero_of_any,
}
use agentic_cloud_pipeline_g.Contracts.{ProposedAction, PolicyDecision}
use agentic_cloud_pipeline_g.Env.{Env, Event}
use agentic_cloud_pipeline_g.World.{World, Intervention}
use agentic_cloud_pipeline_g.Exec.Preserves.{Preserves}
use agentic_cloud_pipeline_g.Executor.{is_open, notify, escalate, create_pending, execute}
use agentic_cloud_pipeline_g.Executor.Invariants.{handle-Preserves, execute-Preserves}

-- Every run has one open intervention at most.
pub record OneOpen (w : World) : Type 0 where
  pub at_run : (run : String) → count (is_open run) w.interventions ≤ 1

module _ (e : Env) where
  notify-OneOpen :
      (v : Event) (a : ProposedAction) (o : Option ℕ) → Preserves OneOpen (notify e v a o)
  unfolding notify
  notify-OneOpen v a o = record { at = λ w h. record { at_run = λ r. ground (arith, h.at_run r) } }

  create_pending-OneOpen :
      (a : ProposedAction) (d : PolicyDecision) (run : String)
      → Preserves OneOpen (create_pending e a d run)
  unfolding create_pending
  create_pending-OneOpen a d run = record { at = λ w h. record { at_run = h.at_run } }

  module _ (on : e.settings.escalation_dedupe ≡ true) where
    escalate-OneOpen :
        (a : ProposedAction) (d : PolicyDecision) (run : String)
        → Preserves OneOpen (escalate e a d run)
    unfolding escalate
    escalate-OneOpen a d run = record {
      at = λ w h.
          let row : Intervention = record {
            experiment_run = run;
            agent = a.agent;
            action_type = a.action_type;
            reason = d.reason;
            requested_ts = w.now;
            completed_ts = none;
          } in
          record {
            at_run = λ r. ground (
              arith,
              h.at_run r,
              eq_iff run r,
              count-append (is_open r) w.interventions (row ∷ []),
              count-eq-zero_of_any (is_open run) w.interventions,
              on,
            );
          };
    }

    execute-Preserves-OneOpen :
        (a : ProposedAction) (d : PolicyDecision) (run : String)
        → Preserves OneOpen (execute e a d run)
    execute-Preserves-OneOpen =
        execute-Preserves e OneOpen
          (handle-Preserves e OneOpen λ w p h. record { at_run = h.at_run }) notify-OneOpen
          escalate-OneOpen create_pending-OneOpen

    -- With `escalation_dedupe`, whatever the action, the decision and the run, and whether or not
    -- the execution raises, `execute` keeps it that each run has one open intervention at most.
    pub execute-OneOpen :
        (a : ProposedAction) (d : PolicyDecision) (run : String) (w : World)
        → OneOpen w
        → OneOpen (execute e a d run w).1
    execute-OneOpen a d run w h = (execute-Preserves-OneOpen a d run).at w h

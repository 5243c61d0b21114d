-- ===== src/Tests/Actions.antt =====
-- The executor, the agents' cycle and the approvals at concrete data.
use agentic_cloud_pipeline_g.Prelude.{◌<◌, ◌≡◌, refl, ◌⊎◌, some, [], ◌∷◌, count, arith}
use agentic_cloud_pipeline_g.Json.{are_finite, one_unit}
use agentic_cloud_pipeline_g.Contracts.{
  model_validate, scale_target_param, recovery, replay, rollback,
}
use agentic_cloud_pipeline_g.World.{World, Approval, ApprovalStatus, Message}
use agentic_cloud_pipeline_g.Exec.{ok}
use agentic_cloud_pipeline_g.Executor.{apply_action, is_auto, execute}
use agentic_cloud_pipeline_g.Executor.Handlers.{trigger, handle}
use agentic_cloud_pipeline_g.Executor.Safety.{execute-pipeline}
use agentic_cloud_pipeline_g.Executor.Escalations.{OneOpen, execute-OneOpen}
use agentic_cloud_pipeline_g.Executor.Outcomes.{queued}
use agentic_cloud_pipeline_g.Agents.{has_id, act, carry_out}
use agentic_cloud_pipeline_g.Agents.Audit.{act-IsAudited}
use agentic_cloud_pipeline_g.Agents.Logged.{IsLogged, carry_out-IsLogged}
use agentic_cloud_pipeline_g.Approvals.{approve, reject, load_pending, not_found, decided}
use agentic_cloud_pipeline_g.Approvals.Decided.{approve_once}
use agentic_cloud_pipeline_g.Tests.Samples.{allow, deny, env, world, action, snapshot}

execute-pipeline_example :
    (execute (env "shadow") (action replay) allow "run" world).1.pipeline ≡ world.pipeline
unfolding is_auto
execute-pipeline_example = execute-pipeline (env "shadow") (action replay) allow "run" world refl

no_open_intervention : OneOpen world
no_open_intervention = record { at_run = λ r. omega arith }

execute-OneOpen_example : OneOpen (execute (env "autonomous") (action rollback) deny "run" world).1
execute-OneOpen_example =
    execute-OneOpen (env "autonomous") refl (action rollback) deny "run" world no_open_intervention

act-IsAudited_example :
    ((act (env "autonomous") recovery (action replay) snapshot "run" world).1 ≡ world)
    ⊎ (0
        < count
            (has_id 5)
            (act (env "autonomous") recovery (action replay) snapshot "run" world).1.agent_actions)
act-IsAudited_example =
    act-IsAudited (env "autonomous") recovery (action replay) "run" world snapshot

carry_out-IsLogged_example :
    IsLogged
      (action replay)
      "run"
      allow
      world
      (carry_out (env "autonomous") recovery (action replay) "run" allow world).0
      (carry_out (env "autonomous") recovery (action replay) "run" allow world).1.agent_actions
unfolding are_finite
carry_out-IsLogged_example =
    carry_out-IsLogged (env "autonomous") recovery (action replay) "run" allow world refl refl

-- One action that waits for approval.
abbrev queue : World
queue = record world { approvals = queued (env "approval") (action replay) allow "run" world ∷ [] }

approved : approve (env "approval") 7 "ann" queue ≡ (
  ok (decided ApprovalStatus.executed (some (Message.triggered_dag_run 0))),
  (approve (env "approval") 7 "ann" queue).1,
)
unfolding approve load_pending model_validate one_unit scale_target_param apply_action handle
    trigger
approved = refl

approve_once_example :
    (approve (env "approval") 7 "bob" (approve (env "approval") 7 "ann" queue).1
      ≡ (ok (not_found 7), (approve (env "approval") 7 "ann" queue).1))
    × (reject 7 "bob" "again" (approve (env "approval") 7 "ann" queue).1
        ≡ (ok (not_found 7), (approve (env "approval") 7 "ann" queue).1))
approve_once_example =
    approve_once (env "approval") 7 "ann" queue _ (approve (env "approval") 7 "ann" queue).1 "bob"
      "again" approved

abbrev waiting : Approval
waiting = queued (env "approval") (action replay) allow "run" world

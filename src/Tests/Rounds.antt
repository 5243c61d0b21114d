-- ===== src/Tests/Rounds.antt =====
-- Failure events, the kill switch and the control loop at concrete data.
use agentic_cloud_pipeline_g.Prelude.{
  ℕ, ◌+◌, ◌≤◌, String, ◌≡◌, refl, true, none, List, [], ◌∷◌, All, arith,
}
use agentic_cloud_pipeline_g.Contracts.{
  AgentName, monitoring, schema, recovery, optimization, raise_anomaly, replay, Payload,
}
use agentic_cloud_pipeline_g.World.{World, ActionRow, ActionStatus, policy_allowed}
use agentic_cloud_pipeline_g.Agents.Detection.{Snapshot}
use agentic_cloud_pipeline_g.Agents.Monitoring.{observe_and_file}
use agentic_cloud_pipeline_g.Agents.{on_after_act}
use agentic_cloud_pipeline_g.Agents.Lifecycle.{
  AllOrdered, start, next, hooked, observed, waited, Reach-AllOrdered,
}
use agentic_cloud_pipeline_g.Exec.{ok}
use agentic_cloud_pipeline_g.Control.{is_paused, set_paused}
use agentic_cloud_pipeline_g.Control.Laws.{is_paused-set_paused}
use agentic_cloud_pipeline_g.Loop.{full, act_on, run_ticks}
use agentic_cloud_pipeline_g.Loop.Paused.{Idle, run_ticks-Idle}
use agentic_cloud_pipeline_g.Loop.Capped.{executed_in_last_hour, act_on-capped}
use agentic_cloud_pipeline_g.Loop.Bids.{Proposal, resolve_conflicts}
use agentic_cloud_pipeline_g.Loop.Bids.Unique.{IsUnbeaten, resolve_conflicts-IsUnbeaten}
use agentic_cloud_pipeline_g.Tests.Samples.{env, world, action, snapshot, payload}

abbrev quiet : World
quiet = record world { failure_events = [] }

-- The failed task is filed, detected, and a minute later resolved.
abbrev filed : World
filed = (observe_and_file (env "autonomous") "run" quiet).1

abbrev seen : World
seen = on_after_act monitoring raise_anomaly true "run" filed

abbrev later : World
later = record seen { now = seen.now + 60000000 }

Reach-AllOrdered_example : AllOrdered (on_after_act recovery replay true "run" later)
Reach-AllOrdered_example = Reach-AllOrdered (env "autonomous") (
    next
      (next
        (next (next (start quiet refl) (observed "run" quiet))
          (hooked monitoring raise_anomaly true "run" filed))
        (waited seen 60000000))
      (hooked recovery replay true "run" later))

abbrev isoformat : ℕ → String
isoformat n = "2026"

abbrev paused : World
paused = (set_paused true "ann" world).1

abbrev llm : ℕ → AgentName → Snapshot → Payload
llm n g s = payload g

switched_off : is_paused paused.desired_state ≡ ok true
switched_off = (is_paused-set_paused isoformat true "ann" "run" world).0

run_ticks-Idle_example :
    Idle paused (run_ticks (env "autonomous") llm isoformat "run" full (10 ∷ 10 ∷ []) paused)
run_ticks-Idle_example =
    run_ticks-Idle (env "autonomous") llm isoformat "run" full (10 ∷ 10 ∷ []) paused switched_off

-- One action on the target has been executed in the last hour; the cap is two.
abbrev acted : ActionRow
acted = record {
  action = record (action replay) { action_id = 4 };
  experiment_run = "run";
  policy_decision = policy_allowed;
  policy_reason = "within budget";
  executed = true;
  outcome = none;
  status = ActionStatus.executed;
  ts = 90;
}

abbrev once : World
once = record world { agent_actions = acted ∷ [] }

below_cap : (t : String) → executed_in_last_hour "run" t 100 once.agent_actions ≤ 2
below_cap t = ground arith

act_on-capped_example :
    executed_in_last_hour "run" "ingest" 100
      (act_on (env "autonomous") "run" recovery (action replay) snapshot once).1.agent_actions
    ≤ 2
act_on-capped_example =
    act_on-capped (env "autonomous") recovery (action replay) "run" once refl 1 snapshot refl
      below_cap "ingest"

abbrev proposal : AgentName → Proposal
proposal g = record { agent = g; action = action replay; snapshot = snapshot }

abbrev contenders : List Proposal
contenders = proposal schema ∷ proposal recovery ∷ proposal optimization ∷ []

resolve_conflicts-IsUnbeaten_example :
    All (λ w. All (IsUnbeaten w) contenders) (resolve_conflicts contenders).winners
resolve_conflicts-IsUnbeaten_example = resolve_conflicts-IsUnbeaten contenders

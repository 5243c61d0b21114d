-- ===== src/Tests/Reports.antt =====
-- The report of the decisions at concrete data: a task that failed and was run again, and a fault that
-- the taxonomy does not have.
use agentic_cloud_pipeline_g.Prelude.{
  ◌+◌, ◌≡◌, ◌&&◌, true, none, some, [], ◌∷◌, count, str_eq, String,
}
use agentic_cloud_pipeline_g.Contracts.{replay}
use agentic_cloud_pipeline_g.World.{World, FailureEvent, ActionRow, policy_allowed, ActionStatus}
use agentic_cloud_pipeline_g.Quality.{Quality, bucket_of, live_decision_quality, quality_of}
use agentic_cloud_pipeline_g.Quality.Incidents.{
  is_incident, is_known, is_answered, live_decision_quality-counted,
}
use agentic_cloud_pipeline_g.Tests.Samples.{action, open_fault, world}

abbrev resolved : String → FailureEvent
resolved fault = record open_fault {
  fault_type = fault;
  detected_ts = some 60;
  resolved_ts = some 80;
}

abbrev rerun : ActionRow
rerun = record {
  action = action replay;
  experiment_run = "run";
  policy_decision = policy_allowed;
  policy_reason = "within budget";
  executed = true;
  outcome = none;
  status = ActionStatus.executed;
  ts = 70;
}

abbrev month : World
month = record world {
  failure_events = resolved "task_failed" ∷ resolved "open_fault:task_failed" ∷ open_fault ∷ [];
  agent_actions = rerun ∷ [];
}

abbrev quality : Quality
quality = quality_of (live_decision_quality (λ a b. a) 1000 month)

live_decision_quality-counted_example :
    ((bucket_of "task_failed" quality.by_fault_type).total
      ≡ count
          (λ f.
            is_incident 100 1000 f && (str_eq f.fault_type "task_failed" && is_known f.fault_type))
          month.failure_events)
    × ((bucket_of "task_failed" quality.by_fault_type).correct
        ≡ count
            (λ f.
              is_incident 100 1000 f
              && (str_eq f.fault_type "task_failed" && is_answered (rerun ∷ []) f))
            month.failure_events)
    × (quality.total
        ≡ count (λ f. is_incident 100 1000 f && is_known f.fault_type) month.failure_events)
    × (quality.correct
        ≡ count (λ f. is_incident 100 1000 f && is_answered (rerun ∷ []) f) month.failure_events)
    × (quality.unscored + quality.total ≡ count (is_incident 100 1000) month.failure_events)
live_decision_quality-counted_example =
    live_decision_quality-counted (λ a b. a) 1000 month "task_failed"

-- ===== src/Tests/Samples.antt =====
-- Data for the tests: settings, services outside the program, tables and actions.
use agentic_cloud_pipeline_g.Prelude.{
  ℕ, String, true, false, none, some, [], ◌∷◌, ◌==◌, leb, length, if◌then◌else◌,
}
use agentic_cloud_pipeline_g.Prelude.Int.{pos}
use agentic_cloud_pipeline_g.Json.{int}
use agentic_cloud_pipeline_g.Contracts.{
  AgentName, recovery, optimization, ActionType, scale_workers, ProposedAction, Payload,
  PolicyDecision,
}
use agentic_cloud_pipeline_g.Opa.{PolicyInput, unknown}
use agentic_cloud_pipeline_g.Env.{Settings, Env, Reply, unavailable, answer}
use agentic_cloud_pipeline_g.Gate.Decision.{encode}
use agentic_cloud_pipeline_g.World.{World, FailureEvent, TaskRun}
use agentic_cloud_pipeline_g.Agents.Detection.{Snapshot}

abbrev pub allow : PolicyDecision
allow = record { allowed = true; escalate = false; reason = "within budget"; policy_id = "cost" }

abbrev pub deny : PolicyDecision
deny = record {
  allowed = false;
  escalate = true;
  reason = "no prior version";
  policy_id = "rollback";
}

abbrev pub settings : String → Settings
settings mode = record {
  acde_mode = mode;
  approval_required = λ t. false;
  escalation_dedupe = true;
  executor_retry_attempts = 3;
  stream_default_workers = 2;
  unit_marginal_cost = 5;
  budget_default = pos 100;
  blast_radius_max_per_hour = pos 2;
  tenant_id = "default";
  environment = "dev";
  freshness_sla_streaming = 30;
  cpu_high_pct = 85;
  webhook_event = λ v. true;
  webhook_url = true;
  pagerduty_key = false;
}

-- Airflow fails until it has been sent a request; the policy server is down on the first attempt.
abbrev pub env : String → Env
env mode = record {
  settings = settings mode;
  airflow = λ sent r. leb 1 (length sent);
  opa = λ now n i. if n == 0 then unavailable else answer (encode allow);
  parse_int = λ s. none;
  adapt = λ j. none;
  str = λ j. "";
  try_lock = λ now t. true;
}

abbrev pub with_opa : (ℕ → ℕ → PolicyInput → Reply) → Env
with_opa f = record (env "autonomous") { opa = f }

abbrev pub late_task : TaskRun
late_task = record {
  experiment_run = "run";
  dag_id = "ingest";
  task_id = "load";
  state = "failed";
  start_ts = some 40;
}

abbrev pub open_fault : FailureEvent
open_fault = record {
  event_id = 1;
  experiment_run = "run";
  scenario = "ingest";
  fault_type = "schema_drift";
  injected_ts = 50;
  detected_ts = none;
  resolved_ts = none;
  resolution = none;
}

abbrev pub world : World
world = record {
  pipeline = record { requests = []; partitions = []; quarantine_events = []; desired_state = [] };
  task_runs = late_task ∷ [];
  resource_usage = [];
  pipeline_metrics = [];
  failure_events = open_fault ∷ [];
  agent_actions = [];
  interventions = [];
  approvals = [];
  notices = [];
  invalid_outputs = 0;
  next_id = 7;
  now = 100;
}

abbrev pub action : ActionType → ProposedAction
action t = record {
  action_id = 5;
  agent = recovery;
  action_type = t;
  target = "ingest";
  params = [];
  justification = "late";
  confidence = 3;
}

abbrev pub input : PolicyInput
input = record {
  agent = optimization;
  action_type = scale_workers;
  projected_marginal_cost = pos 10;
  budget_remaining_units = pos 40;
  actions_last_10min = 1;
  schema_compat = unknown;
  has_prior_version = false;
}

abbrev pub snapshot : Snapshot
snapshot = record {
  task_runs = [];
  resource_usage = [];
  freshness = none;
  schema_compat = unknown;
  open_anomalies = [];
}

abbrev pub payload : AgentName → Payload
payload g = record {
  action_id = 5;
  agent = g;
  action_type = scale_workers;
  target = "stream";
  params = ("n_workers", int (pos 4)) ∷ [];
  justification = "burst";
  confidence = pos 9;
}

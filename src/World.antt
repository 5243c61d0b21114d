-- ===== src/World.antt =====
-- The tables that the components share (infra/postgres/init), with the columns that the modelled
-- code reads or writes, and what leaves the process. `now` is the database's clock, in
-- microseconds: it stands still within an operation and moves between them.
use agentic_cloud_pipeline_g.Prelude.{ℕ, String, Bool, Option, List}
use agentic_cloud_pipeline_g.Prelude.Dict.{Dict}
use agentic_cloud_pipeline_g.Json.{Json, Params}
use agentic_cloud_pipeline_g.Contracts.{AgentName, ActionType, ProposedAction}
use agentic_cloud_pipeline_g.Env.{Request, Event}
use agentic_cloud_pipeline_g.Partitions.{Registry}

-- The texts by which an outcome is reported, one constructor for each format string.
pub data Message : Type 0 where
  triggered_dag_run : ℕ → Message
  cleared_tasks : Json → String → Message
  rolled_back : String → String → ℕ → Message
  no_prior_version : Message
  workers_set pool_set priority_set : String → Json → Message
  quarantined : String → String → Message
  mapping_stored blocked : String → Message
  acknowledged : ActionType → Message
  invalid_target : String → Message
  execution_failed : Message
  shadow : ActionType → String → Message
  pending : ℕ → Message
  escalated_to_human : Message
  denied : String → Message

-- telemetry.failure_events
pub record FailureEvent : Type 0 where
  pub event_id : ℕ
  pub experiment_run : String
  pub scenario : String
  pub fault_type : String
  pub injected_ts : ℕ
  pub detected_ts : Option ℕ
  pub resolved_ts : Option ℕ
  pub resolution : Option ActionType

pub data PolicyState : Type 0 where
  policy_escalated policy_allowed policy_denied : PolicyState

pub data ActionStatus : Type 0 where
  executing executed denied escalated failed : ActionStatus

-- telemetry.agent_actions
pub record ActionRow : Type 0 where
  pub action : ProposedAction
  pub experiment_run : String
  pub policy_decision : PolicyState
  pub policy_reason : String
  pub executed : Bool
  pub outcome : Option (List Message)
  pub status : ActionStatus
  pub ts : ℕ

-- telemetry.manual_interventions
pub record Intervention : Type 0 where
  pub experiment_run : String
  pub agent : AgentName
  pub action_type : ActionType
  pub reason : String
  pub requested_ts : ℕ
  pub completed_ts : Option ℕ

pub data ApprovalStatus : Type 0 where
  pending executed failed rejected : ApprovalStatus

-- telemetry.action_approvals
pub record Approval : Type 0 where
  pub approval_id : ℕ
  pub experiment_run : String
  pub action : ProposedAction
  pub policy_reason : String
  pub requested_ts : ℕ
  pub status : ApprovalStatus
  pub decided_ts : Option ℕ
  pub decided_by : Option String
  pub decision_note : Option String
  pub outcome : Option Message

-- warehouse.quarantine_events
pub record QuarantineEvent : Type 0 where
  pub dataset : String
  pub partition_key : String
  pub reason : String
  pub payload : Params
  pub experiment_run : String

-- telemetry.task_runs, resource_usage and pipeline_metrics, which the agents read.
pub record TaskRun : Type 0 where
  pub experiment_run : String
  pub dag_id : String
  pub task_id : String
  pub state : String
  pub start_ts : Option ℕ

-- A NULL in `cpu_pct` or `workers` is read as 0: the agents take the two for the same.
pub record Usage : Type 0 where
  pub experiment_run : String
  pub component : String
  pub cpu_pct : ℕ
  pub workers : ℕ
  pub ts : ℕ

pub record Metric : Type 0 where
  pub experiment_run : String
  pub metric : String
  pub value : ℕ
  pub ts : ℕ

-- A row of control.desired_state; its key is the primary key.
pub record Desired : Type 0 where
  pub value : Json
  pub updated_ts : ℕ

-- What the agents' actions act on: Airflow's requests, the partitions and their quarantine, and the
-- desired state that the services poll.
pub record Pipeline : Type 0 where
  pub requests : List Request
  pub partitions : Registry
  pub quarantine_events : List QuarantineEvent
  pub desired_state : Dict Desired

-- A notification handed to the delivery threads, with the approval it names.
pub record Notice : Type 0 where
  pub event : Event
  pub action_id : ℕ
  pub approval_id : Option ℕ
  pub webhook : Bool
  pub pagerduty : Bool

pub record World : Type 0 where
  pub pipeline : Pipeline
  pub open pipeline use *
  pub task_runs : List TaskRun
  pub resource_usage : List Usage
  pub pipeline_metrics : List Metric
  pub failure_events : List FailureEvent
  pub agent_actions : List ActionRow
  pub interventions : List Intervention
  pub approvals : List Approval
  pub notices : List Notice
  -- validation failures of the model's output
  pub invalid_outputs : ℕ
  pub next_id : ℕ
  pub now : ℕ

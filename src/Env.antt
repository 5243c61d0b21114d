-- ===== src/Env.antt =====
-- What the code takes from outside: the settings of src/acde/config.py that the modelled code reads,
-- and third-party code as functions. Nothing is assumed of the functions here; a theorem that needs
-- a fact about one has it as a hypothesis.
use agentic_cloud_pipeline_g.Prelude.{ℕ, String, Bool, Option, List}
use agentic_cloud_pipeline_g.Prelude.Int.{ℤ}
use agentic_cloud_pipeline_g.Json.{Json}
use agentic_cloud_pipeline_g.Contracts.{ActionType}
use agentic_cloud_pipeline_g.Opa.{PolicyInput}

-- Requests to Airflow's REST interface.
pub data Request : Type 0 where
  trigger_dag : String → Request
  clear_tasks : String → Json → Request
  patch_pool : String → ℤ → Request

-- What a query of the policy server comes to: an `httpx.HTTPError`, a body that is no JSON, or the
-- member `result` of the body (`{}` if it has none).
pub data Reply : Type 0 where
  unavailable undecodable : Reply
  answer : Json → Reply

-- The kinds of operator notification.
pub data Event : Type 0 where
  shadow_proposal pending_approval escalation execution_failure : Event

pub record Settings : Type 0 where
  pub acde_mode : String
  -- membership in `approval_required_set`
  pub approval_required : ActionType → Bool
  pub escalation_dedupe : Bool
  pub executor_retry_attempts : ℕ
  pub stream_default_workers : ℕ
  -- the price of one worker over one cost window, and the budget, in one unit of cost
  pub unit_marginal_cost : ℕ
  pub budget_default : ℤ
  pub blast_radius_max_per_hour : ℤ
  pub tenant_id : String
  pub environment : String
  pub freshness_sla_streaming : ℕ
  pub cpu_high_pct : ℕ
  -- membership in `webhook_event_set`
  pub webhook_event : Event → Bool
  -- whether `webhook_url` and `pagerduty_routing_key` are set
  pub webhook_url : Bool
  pub pagerduty_key : Bool

pub record Env : Type 0 where
  pub settings : Settings
  -- whether Airflow answers a request with success, by the requests sent before it
  pub airflow : List Request → Request → Bool
  -- the policy server, by the time, the number of the attempt and the input
  pub opa : ℕ → ℕ → PolicyInput → Reply
  -- `int` of a text
  pub parse_int : String → Option ℤ
  -- a value that is no text, adapted by the database driver where a text is wanted; `none` is its
  -- error
  pub adapt : Json → Option String
  -- `str` of a value that is no text
  pub str : Json → String
  -- `pg_try_advisory_lock` on the key of a target, by the time
  pub try_lock : ℕ → String → Bool

-- ===== src/Agents.antt =====
-- The agents' common cycle, src/acde/agents/base.py, and the hooks of the four agents
-- (monitoring.py, optimization.py, schema.py, recovery.py).
pub mod Detection
pub mod Monitoring
pub mod Audit
pub mod Logged
pub mod Lifecycle
use agentic_cloud_pipeline_g.Prelude.{
  ℕ, ◌+◌, String, Bool, true, false, not, ◌&&◌, ◌||◌, Option, none, some, List, [], ◌∷◌, ◌++◌, ◌==◌,
  str_eq, if◌then◌else◌,
}
use agentic_cloud_pipeline_g.Json.{are_finite}
use agentic_cloud_pipeline_g.Contracts.{
  AgentName, monitoring, optimization, schema, recovery, ActionType, raise_anomaly, no_action,
  scale_workers, adjust_pool_slots, reprioritize_pipeline, apply_mapping, quarantine_partition,
  block_ingestion, retry_with_backoff, replay, rollback, partial_recompute, ProposedAction, Payload,
  PolicyDecision, Validated, valid, invalid, model_validate,
}
use agentic_cloud_pipeline_g.Env.{Env}
use agentic_cloud_pipeline_g.World.{
  World, FailureEvent, ActionRow, PolicyState, policy_escalated, policy_allowed, policy_denied,
  ActionStatus, Usage, Message,
}
use agentic_cloud_pipeline_g.Executor.Handlers.{check_jsonb}
use agentic_cloud_pipeline_g.Exec.{Exec, Result, ok, raised, pure, update, ◌>>=◌, ◌>>◌}
use agentic_cloud_pipeline_g.Executor.{Execution, execute}
use agentic_cloud_pipeline_g.Gate.{build_context, evaluate}
use agentic_cloud_pipeline_g.Agents.Detection.{Snapshot}

-- The action types by which an agent resolves faults.
unfoldable pub is_resolving : AgentName → ActionType → Bool
is_resolving schema quarantine_partition = true
is_resolving schema block_ingestion = true
is_resolving schema apply_mapping = true
is_resolving recovery retry_with_backoff = true
is_resolving recovery replay = true
is_resolving recovery rollback = true
is_resolving recovery partial_recompute = true
is_resolving optimization scale_workers = true
is_resolving optimization adjust_pool_slots = true
is_resolving optimization reprioritize_pipeline = true
is_resolving _ _ = false

-- The fault types that the UPDATE of an agent's hook selects.
unfoldable pub in_scope : AgentName → String → Bool
in_scope schema fault = str_eq fault "schema_drift"
in_scope optimization fault = str_eq fault "ingress_burst" || str_eq fault "resource_contention"
in_scope _ fault = true

abbrev pub is_unset : Option ℕ → Bool
is_unset none = true
is_unset (some t) = false

-- SET resolved_ts = now() WHERE ... detected_ts IS NOT NULL AND resolved_ts IS NULL
unfoldable pub resolve : AgentName → ActionType → String → ℕ → List FailureEvent → List FailureEvent
unfolding in_scope
resolve g t run now [] = []
resolve g t run now (f ∷ fs) =
    (if str_eq f.experiment_run run
        && (in_scope g f.fault_type && (not (is_unset f.detected_ts) && is_unset f.resolved_ts))
      then record f { resolved_ts = some now; resolution = some t }
      else f)
    ∷ resolve g t run now fs

-- SET detected_ts = now() WHERE ... detected_ts IS NULL
unfoldable pub mark_detected : String → ℕ → List FailureEvent → List FailureEvent
mark_detected run now [] = []
mark_detected run now (f ∷ fs) =
    (if str_eq f.experiment_run run && is_unset f.detected_ts
      then record f { detected_ts = some now }
      else f)
    ∷ mark_detected run now fs

abbrev pub is_raise : ActionType → Bool
is_raise raise_anomaly = true
is_raise _ = false

-- `on_after_act`
unfoldable pub on_after_act : AgentName → ActionType → Bool → String → World → World
unfolding is_resolving resolve mark_detected
on_after_act monitoring t executed run w =
    if is_raise t then record w { failure_events = mark_detected run w.now w.failure_events } else w
on_after_act g t executed run w =
    if executed && is_resolving g t
    then record w { failure_events = resolve g t run w.now w.failure_events }
    else w

abbrev pub has_id : ℕ → ActionRow → Bool
has_id i r = r.action.action_id == i

-- The UPDATE that records an outcome.
unfoldable pub set_outcome :
    ℕ → Bool → List Message → ActionStatus → List ActionRow → List ActionRow
set_outcome i executed outcome status [] = []
set_outcome i executed outcome status (r ∷ rs) =
    (if has_id i r
      then record r { executed = executed; outcome = some outcome; status = status }
      else r)
    ∷ set_outcome i executed outcome status rs

unfoldable pub policy_state : PolicyDecision → PolicyState
policy_state d =
    if d.escalate && not d.allowed
    then policy_escalated
    else if d.allowed
    then policy_allowed
    else policy_denied

unfoldable pub final_status : Bool → PolicyState → ActionStatus
final_status true s = ActionStatus.executed
final_status false policy_denied = ActionStatus.denied
final_status false policy_escalated = ActionStatus.escalated
final_status false policy_allowed = ActionStatus.failed

-- The write-ahead row.
abbrev pub intent : ProposedAction → String → PolicyDecision → ℕ → ActionRow
intent a run d now = record {
  action = a;
  experiment_run = run;
  policy_decision = policy_state d;
  policy_reason = d.reason;
  executed = false;
  outcome = none;
  status = ActionStatus.executing;
  ts = now;
}

unfoldable pub write_ahead : ProposedAction → String → PolicyDecision → Exec (Unit {0})
unfolding check_jsonb are_finite
write_ahead a run d = do
  check_jsonb (are_finite a.params)
  update (λ w. record w { agent_actions = w.agent_actions ++ intent a run d w.now ∷ [] })

-- `_current_workers`
unfoldable pub current_workers : ℕ → List Usage → ℕ
current_workers default [] = default
current_workers default (u ∷ us) =
    if str_eq u.component "streaming" then u.workers else current_workers default us

-- `CycleResult`, without the action that the caller has.
pub record CycleResult : Type 0 where
  pub executed : Bool
  pub outcome : List Message
  pub policy_id : String

module _ (e : Env) where
  unfoldable pub finish :
      AgentName → ProposedAction → String → PolicyDecision → Execution → Exec CycleResult
  unfolding set_outcome policy_state final_status on_after_act
  finish g a run d x w =
      let status = final_status x.executed (policy_state d) in
      let rows = set_outcome a.action_id x.executed x.outcome status w.agent_actions in
      let result : CycleResult = record {
        executed = x.executed;
        outcome = x.outcome;
        policy_id = d.policy_id;
      } in
      (ok result, on_after_act g a.action_type x.executed run (record w { agent_actions = rows }))

  -- What `act` does with the gate's decision.
  unfoldable pub carry_out : AgentName → ProposedAction → String → PolicyDecision → Exec CycleResult
  unfolding write_ahead finish
  carry_out g a run d = do write_ahead a run d; x ← execute e a d run; finish g a run d x

  unfoldable pub act : AgentName → ProposedAction → Snapshot → String → Exec CycleResult
  unfolding carry_out current_workers
  act g a s run = do
    context ←
        build_context e a run (current_workers e.settings.stream_default_workers s.resource_usage)
          s.schema_compat
    d ← evaluate e context
    carry_out g a run d

  -- `reason`: the proposal of the model, validated, or `no_action`.
  unfoldable pub reason : AgentName → Payload → Exec ProposedAction
  reason g proposal w =
      elim (model_validate (record proposal { agent = g; action_id = w.next_id })) [
        | valid a ↦ (ok a, record w { next_id = w.next_id + 1 })
        | invalid x ↦ (
          ok (record {
            action_id = w.next_id + 1;
            agent = g;
            action_type = no_action;
            target = "none";
            params = [];
            justification = "invalid LLM output; degraded to no_action";
            confidence = 0;
          }),
          record w { invalid_outputs = w.invalid_outputs + 1; next_id = w.next_id + 2 },
        )
      ]

-- ===== src/Gate.antt =====
-- The policy gate: src/acde/policy/gate.py.
pub mod Decision
pub mod Agreement
pub mod Reads
use agentic_cloud_pipeline_g.Prelude.{
  ℕ, zero, suc, ◌+◌, ◌*◌, String, Bool, true, false, not, ◌&&◌, Option, none, some, List, [], ◌∷◌,
  str_eq, leb, ltb, ◌==◌, if◌then◌else◌, count, length, any,
}
use agentic_cloud_pipeline_g.Prelude.Int.{ℤ, pos, negsuc, ◌-ℤ◌, ◌*ℤ◌}
use agentic_cloud_pipeline_g.Json.{
  Json, null, boolean, int, float, units, nonfinite, text, array, nil, cons, object, Fields, end,
  field,
}
use agentic_cloud_pipeline_g.Contracts.{
  AgentName, ActionType, scale_workers, adjust_pool_slots, rollback, ProposedAction, PolicyDecision,
}
use agentic_cloud_pipeline_g.Opa.{PolicyInput, SchemaCompat, agent_eq}
use agentic_cloud_pipeline_g.Env.{Env, Reply, unavailable, undecodable, answer}
use agentic_cloud_pipeline_g.Partitions.{Registry, PartitionVersion, get_active, list_versions}
use agentic_cloud_pipeline_g.World.{World, ActionRow}
use agentic_cloud_pipeline_g.Exec.{
  Exec, Result, ok, raised, Exception, http_error, type_error, key_error, decode_error, pure, raise,
  ◌>>=◌,
}
use agentic_cloud_pipeline_g.Executor.Handlers.{int_param, dataset_of, partition_key_of}

-- Ten minutes, in microseconds.
abbrev pub ten_minutes : ℕ
ten_minutes = 600000000

-- The rows that `_actions_last_10min` counts.
abbrev pub is_recent : AgentName → String → ℕ → ActionRow → Bool
is_recent g run now r =
    agent_eq r.action.agent g && (str_eq r.experiment_run run && leb now (r.ts + ten_minutes))

unfoldable pub actions_last_10min : AgentName → String → World → ℕ
actions_last_10min g run w = count (is_recent g run w.now) w.agent_actions

-- `_has_prior_version`, once it has the active row and the versions of the partition.
unfoldable pub any_prior : Option PartitionVersion → List PartitionVersion → Bool
any_prior none versions = leb 1 (length versions)
any_prior (some active) versions =
    any (λ (v : PartitionVersion). ltb v.version active.version) versions

unfoldable pub prior_exists : String → String → Registry → Bool
unfolding any_prior
prior_exists d k g = any_prior (get_active d k g) (list_versions d k g)

-- The truth value of a JSON value.
unfoldable pub truthy : Json → Bool
truthy null = false
truthy (boolean b) = b
truthy (int (pos n)) = not (n == 0)
truthy (int (negsuc n)) = true
truthy (float (units (pos u))) = not (u == 0)
truthy (float (units (negsuc u))) = true
truthy (float nonfinite) = true
truthy (text s) = not (str_eq s "")
truthy (array nil) = false
truthy (array (cons x xs)) = true
truthy (object end) = false
truthy (object (field k v fs)) = true

find_field : String → Fields → Result Json
find_field k end = raised key_error
find_field k (field j v fs) = if str_eq j k then ok v else find_field k fs

-- `result[key]`
unfoldable pub subscript : Json → String → Result Json
unfolding find_field
subscript (object fs) k = find_field k fs
subscript _ k = raised type_error

-- _ESCALATE_ON_FAILURE
abbrev pub escalate_on_failure : PolicyDecision
escalate_on_failure = record {
  allowed = false;
  escalate = true;
  reason = "OPA unavailable; failing safe by escalating";
  policy_id = "gate_failsafe";
}

module _ (e : Env) where
  unfoldable pub projected_marginal_cost : ProposedAction → ℕ → Exec ℤ
  unfolding int_param
  projected_marginal_cost a current = elim a.action_type [
    | scale_workers ↦ (do
      target ← int_param e "n_workers" current a.params
      pure ((target -ℤ pos current) *ℤ e.settings.unit_marginal_cost))
    | adjust_pool_slots ↦ (do
      target ← int_param e "slots" current a.params
      pure ((target -ℤ pos current) *ℤ e.settings.unit_marginal_cost))
    | _ ↦ pure (pos 0)
  ]

  unfoldable pub prior_of : ProposedAction → Exec Bool
  unfolding dataset_of partition_key_of
  prior_of a = do
    d ← dataset_of e a
    k ← partition_key_of e a
    λ w. (ok (prior_exists d k w.partitions), w)

  unfoldable pub has_prior_version : ProposedAction → Exec Bool
  unfolding prior_of
  has_prior_version a = elim a.action_type [ rollback ↦ prior_of a | _ ↦ pure false ]

  -- `build_context`, as `BaseAgent.act` calls it, with the action that goes with it.
  unfoldable pub build_context : ProposedAction → String → ℕ → SchemaCompat → Exec PolicyInput
  unfolding projected_marginal_cost has_prior_version
  build_context a run current compat = do
    cost ← projected_marginal_cost a current
    n ← λ w. (ok (actions_last_10min a.agent run w), w)
    prior ← has_prior_version a
    pure (record {
      agent = a.agent;
      action_type = a.action_type;
      projected_marginal_cost = cost;
      budget_remaining_units = e.settings.budget_default;
      actions_last_10min = n;
      schema_compat = compat;
      has_prior_version = prior;
    })

  -- `_query_opa`: `stop_after_attempt(3)`, repeated on HTTP errors alone.
  unfoldable pub query_from : ℕ → ℕ → ℕ → PolicyInput → Reply
  query_from zero now attempt i = e.opa now attempt i
  query_from (suc more) now attempt i =
      let again = query_from more now (suc attempt) i in
      elim (e.opa now attempt i) [
        | unavailable ↦ again
        | undecodable ↦ undecodable
        | answer j ↦ answer j
      ]

  unfoldable pub query_opa : ℕ → PolicyInput → Reply
  unfolding query_from
  query_opa now i = query_from 2 now 0 i

  -- `str` of a value.
  abbrev pub text_of : Json → String
  text_of (text s) = s
  text_of v = e.str v

  -- The members that the decision is built from, in their order.
  unfoldable pub decode_rest : Json → Json → Exec PolicyDecision
  decode_rest r allowed = do
    escalate ← λ w. (subscript r "escalate", w)
    reason ← λ w. (subscript r "reason", w)
    policy_id ← λ w. (subscript r "policy_id", w)
    pure (record {
      allowed = truthy allowed;
      escalate = truthy escalate;
      reason = text_of reason;
      policy_id = text_of policy_id;
    })

  unfoldable pub decode_decision : Json → Exec PolicyDecision
  unfolding decode_rest
  decode_decision r = do allowed ← λ w. (subscript r "allowed", w); decode_rest r allowed

  unfoldable pub decide_reply : Reply → Exec PolicyDecision
  unfolding decode_decision
  decide_reply unavailable w = (ok escalate_on_failure, w)
  decide_reply undecodable w = (raised decode_error, w)
  decide_reply (answer r) w = if truthy r then decode_decision r w else (ok escalate_on_failure, w)

  unfoldable pub evaluate : PolicyInput → Exec PolicyDecision
  unfolding query_opa decide_reply
  evaluate i w = decide_reply (query_opa w.now i) w

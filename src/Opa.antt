-- ===== src/Opa.antt =====
-- The policies that the gate asks Open Policy Agent to evaluate: infra/opa/policies/*.rego. A
-- complete rule has a value for each of its bodies that holds; Rego takes the value that they agree
-- on, takes the default if none holds, and fails if two differ.
pub mod Laws
use agentic_cloud_pipeline_g.Prelude.{
  ℕ, String, Bool, true, false, not, ◌&&◌, ◌||◌, Option, none, some, List, [], ◌∷◌, ◌++◌, ltb, leb,
  if◌then◌else◌,
}
use agentic_cloud_pipeline_g.Prelude.Int.{ℤ, pos, leb_ℤ, ltb_ℤ}
use agentic_cloud_pipeline_g.Contracts.{
  AgentName, monitoring, optimization, schema, recovery, ActionType, raise_anomaly, escalate,
  no_action, scale_workers, adjust_pool_slots, reprioritize_pipeline, allow_compatible,
  apply_mapping, quarantine_partition, block_ingestion, retry_with_backoff, replay, rollback,
  partial_recompute, escalate_to_human, PolicyDecision,
}

pub data SchemaCompat : Type 0 where
  backward breaking unknown : SchemaCompat

-- `input`, with what the policies read of the action and the context. Costs are in one unit.
pub record PolicyInput : Type 0 where
  pub agent : AgentName
  pub action_type : ActionType
  pub projected_marginal_cost : ℤ
  pub budget_remaining_units : ℤ
  pub actions_last_10min : ℕ
  pub schema_compat : SchemaCompat
  pub has_prior_version : Bool

abbrev pub verdict : Bool → Bool → String → String → PolicyDecision
verdict allowed escalates reason policy = record {
  allowed = allowed;
  escalate = escalates;
  reason = reason;
  policy_id = policy;
}

-- One body of a rule: its value, if it holds.
abbrev pub when : Bool → PolicyDecision → List PolicyDecision
when b d = if b then d ∷ [] else []

-- Tests on action types, the sets that the policies name.
abbrev pub is_no_action : ActionType → Bool
is_no_action no_action = true
is_no_action _ = false

abbrev pub is_scaling : ActionType → Bool
is_scaling scale_workers = true
is_scaling adjust_pool_slots = true
is_scaling _ = false

abbrev pub is_auto_recovery : ActionType → Bool
is_auto_recovery retry_with_backoff = true
is_auto_recovery replay = true
is_auto_recovery partial_recompute = true
is_auto_recovery _ = false

abbrev pub is_compatible : ActionType → Bool
is_compatible allow_compatible = true
is_compatible apply_mapping = true
is_compatible _ = false

abbrev pub is_containment : ActionType → Bool
is_containment quarantine_partition = true
is_containment block_ingestion = true
is_containment _ = false

abbrev pub is_raise_anomaly : ActionType → Bool
is_raise_anomaly raise_anomaly = true
is_raise_anomaly _ = false

abbrev pub is_escalate : ActionType → Bool
is_escalate escalate = true
is_escalate _ = false

abbrev pub is_reprioritize : ActionType → Bool
is_reprioritize reprioritize_pipeline = true
is_reprioritize _ = false

abbrev pub is_rollback : ActionType → Bool
is_rollback rollback = true
is_rollback _ = false

abbrev pub is_escalate_to_human : ActionType → Bool
is_escalate_to_human escalate_to_human = true
is_escalate_to_human _ = false

abbrev pub is_backward : SchemaCompat → Bool
is_backward backward = true
is_backward _ = false

abbrev pub agent_eq : AgentName → AgentName → Bool
agent_eq monitoring monitoring = true
agent_eq optimization optimization = true
agent_eq schema schema = true
agent_eq recovery recovery = true
agent_eq _ _ = false

-- `sprintf` is Rego's.
module _ (sprintf : String → List ℤ → String) where
  -- cost_budget.rego
  unfoldable pub cost_budget : PolicyInput → List PolicyDecision
  cost_budget i =
      when (leb_ℤ i.projected_marginal_cost (pos 0))
        (verdict true false "scale-down or zero marginal cost" "cost_budget")
      ++ (when
            (ltb_ℤ (pos 0) i.projected_marginal_cost
              && leb_ℤ i.projected_marginal_cost i.budget_remaining_units)
            (verdict true false "within remaining budget" "cost_budget")
          ++ when (ltb_ℤ i.budget_remaining_units i.projected_marginal_cost) (
              verdict false false
                (sprintf "projected marginal cost %v exceeds remaining budget %v"
                  (i.projected_marginal_cost ∷ i.budget_remaining_units ∷ []))
                "cost_budget"))

  -- rate_limit.rego
  unfoldable pub rate_limit : PolicyInput → List PolicyDecision
  rate_limit i = when (leb 5 i.actions_last_10min) (
      verdict false false
        (sprintf "rate limit: %v actions in the last 10 minutes" (pos i.actions_last_10min ∷ []))
        "rate_limit")

  -- recovery_approval.rego
  unfoldable pub recovery_approval : PolicyInput → List PolicyDecision
  recovery_approval i =
      when (is_auto_recovery i.action_type)
        (verdict true false "auto-approved recovery action" "recovery_approval")
      ++ (when (is_rollback i.action_type && i.has_prior_version)
            (verdict true false "rollback to an existing prior version" "recovery_approval")
          ++ (when (is_rollback i.action_type && not i.has_prior_version) (
                verdict false true "rollback requested but no prior version exists"
                  "recovery_approval")
              ++ when (is_escalate_to_human i.action_type) (
                  verdict false true "escalated to human by the recovery agent"
                    "recovery_approval")))

  -- schema_compat.rego
  unfoldable pub schema_compat : PolicyInput → List PolicyDecision
  schema_compat i =
      when (is_compatible i.action_type && is_backward i.schema_compat)
        (verdict true false "backward-compatible schema change" "schema_compat")
      ++ (when (is_compatible i.action_type && not (is_backward i.schema_compat)) (
            verdict false true "compatible action rejected: drift is not backward-compatible"
              "schema_compat")
          ++ when (is_containment i.action_type)
              (verdict true true "breaking drift contained; human notified" "schema_compat"))

  -- main.rego: the values of `decision` whose bodies hold.
  unfoldable pub decision_values : PolicyInput → List PolicyDecision
  unfolding cost_budget rate_limit recovery_approval schema_compat
  decision_values i =
      let within_rate = ltb i.actions_last_10min 5 in
      (if not within_rate then rate_limit i else [])
      ++ (when (within_rate && is_no_action i.action_type) (verdict true false "no action" "noop")
          ++ (when (within_rate && (agent_eq i.agent monitoring && is_raise_anomaly i.action_type))
                (verdict true false "anomaly raised" "monitoring")
              ++ (when (within_rate && (agent_eq i.agent monitoring && is_escalate i.action_type))
                    (verdict false true "monitoring escalation" "monitoring")
                  ++ ((if within_rate && (agent_eq i.agent optimization && is_scaling i.action_type)
                        then cost_budget i
                        else [])
                      ++ (when
                            (within_rate
                              && (agent_eq i.agent optimization && is_reprioritize i.action_type))
                            (verdict true false "pipeline reprioritization" "optimization")
                          ++ ((if within_rate
                                  && (agent_eq i.agent recovery && not (is_no_action i.action_type))
                                then recovery_approval i
                                else [])
                              ++ (if within_rate
                                    && (agent_eq i.agent schema && not (is_no_action i.action_type))
                                  then schema_compat i
                                  else [])))))))

abbrev pub default_decision : PolicyDecision
default_decision = verdict false true "no matching policy; escalated for safety" "default"

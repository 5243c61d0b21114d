-- ===== src/Opa/Laws.antt =====
-- The policies give each permitted action exactly one value, and what that value is.
use agentic_cloud_pipeline_g.Prelude.{
  ℕ, String, ◌≡◌, ◌≢◌, Bool, true, not, ◌&&◌, ◌||◌, List, [], ◌∷◌, arith, ltb,
}
use agentic_cloud_pipeline_g.Prelude.Int.{ℤ, pos, ◌≤ℤ◌, leb_ℤ, ltb_ℤ}
use agentic_cloud_pipeline_g.Contracts.{
  AgentName, monitoring, optimization, schema, recovery, ActionType, PolicyDecision, is_allowed,
}
use agentic_cloud_pipeline_g.Opa.{
  PolicyInput, SchemaCompat, is_scaling, is_compatible, is_containment, is_rollback, is_escalate,
  is_escalate_to_human, is_backward, decision_values, cost_budget,
}

-- A list of one decision, with the given flags.
abbrev pub IsSingle : List PolicyDecision → Bool → Bool → Type 0
IsSingle [] a x = ⊥
IsSingle (d ∷ []) a x = (d.allowed ≡ a) × (d.escalate ≡ x)
IsSingle (_ ∷ _ ∷ _) a x = ⊥

-- Two decisions of which one allows and the other does not.
abbrev pub IsConflict : List PolicyDecision → Type 0
IsConflict (d ∷ d' ∷ []) = d.allowed ≢ d'.allowed
IsConflict _ = ⊥

-- What the policies allow and escalate, by the action type alone.
abbrev pub allows : PolicyInput → Bool
allows i =
    ltb i.actions_last_10min 5
    && (not (is_escalate i.action_type)
        && (not (is_escalate_to_human i.action_type)
            && ((not (is_scaling i.action_type)
                  || (leb_ℤ i.projected_marginal_cost (pos 0)
                      || leb_ℤ i.projected_marginal_cost i.budget_remaining_units))
                && ((not (is_rollback i.action_type) || i.has_prior_version)
                    && (not (is_compatible i.action_type) || is_backward i.schema_compat)))))

abbrev pub escalates : PolicyInput → Bool
escalates i =
    ltb i.actions_last_10min 5
    && (is_escalate i.action_type
        || (is_escalate_to_human i.action_type
            || (is_containment i.action_type
                || ((is_rollback i.action_type && not i.has_prior_version)
                    || (is_compatible i.action_type && not (is_backward i.schema_compat))))))

abbrev input : AgentName → ActionType → ℤ → ℤ → ℕ → SchemaCompat → Bool → PolicyInput
input g t c b n s p = record {
  agent = g;
  action_type = t;
  projected_marginal_cost = c;
  budget_remaining_units = b;
  actions_last_10min = n;
  schema_compat = s;
  has_prior_version = p;
}

module _ (sprintf : String → List ℤ → String) where
  decision_values_at :
      (g : AgentName) (t : ActionType) (c b : ℤ) (n : ℕ) (s : SchemaCompat) (p : Bool)
      → is_allowed g t ≡ true
      → pos 0 ≤ℤ b
      → IsSingle
          (decision_values sprintf (input g t c b n s p))
          (allows (input g t c b n s p))
          (escalates (input g t c b n s p))
  unfolding decision_values is_allowed
  decision_values_at monitoring ActionType.no_action c b n s p h k = ground arith
  decision_values_at optimization ActionType.no_action c b n s p h k = ground arith
  decision_values_at schema ActionType.no_action c b n s p h k = ground arith
  decision_values_at recovery ActionType.no_action c b n s p h k = ground arith
  decision_values_at _ _ c b n s p h k = ground arith

  -- For an action type that its agent may propose, and a budget that is not negative, exactly one
  -- body of the policies holds: there is neither a conflict nor the default. It allows the action
  -- exactly if the agent took under five actions, the type is no escalation, a scaling is free or
  -- within the budget, a rollback has a prior version, and a compatible change meets a
  -- backward-compatible drift; and it escalates it exactly if the agent took under five actions
  -- and the type is an escalation or a containment, or is a rollback without a prior version or
  -- a compatible change without such a drift. After five actions or more it is neither allowed
  -- nor escalated.
  pub decision_values-IsSingle :
      (i : PolicyInput)
      → is_allowed i.agent i.action_type ≡ true
      → pos 0 ≤ℤ i.budget_remaining_units
      → IsSingle (decision_values sprintf i) (allows i) (escalates i)
  decision_values-IsSingle i h k =
      decision_values_at i.agent i.action_type i.projected_marginal_cost i.budget_remaining_units
        i.actions_last_10min i.schema_compat i.has_prior_version h k

  -- A scale-down or a free change meets a conflict of two bodies, one that allows it and one that
  -- denies it, when the remaining budget is below its cost.
  pub cost_budget-IsConflict :
      (i : PolicyInput)
      → i.projected_marginal_cost ≤ℤ pos 0
      → ltb_ℤ i.budget_remaining_units i.projected_marginal_cost ≡ true
      → IsConflict (cost_budget sprintf i)
  unfolding cost_budget
  cost_budget-IsConflict i h k = ground arith

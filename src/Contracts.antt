-- ===== src/Contracts.antt =====
-- The agents' output contract: src/acde/contracts/actions.py.
pub mod Validation
use Prim.Native.String.{count as characters}
use agentic_cloud_pipeline_g.Prelude.{
  ℕ, ◌/◌, ◌%◌, String, Bool, true, false, ◌&&◌, Option, none, some, ◌==◌, ltb, leb, if◌then◌else◌,
}
use agentic_cloud_pipeline_g.Prelude.Int.{ℤ, pos, negsuc}
use agentic_cloud_pipeline_g.Prelude.Dict.{lookup, insert}
use agentic_cloud_pipeline_g.Json.{
  Json, int, float, units, nonfinite, null, boolean, text, array, object, Params, one_unit,
}

pub data AgentName : Type 0 where
  monitoring optimization schema recovery : AgentName

-- The texts that the code names, and any other text.
pub data ActionType : Type 0 where
  raise_anomaly escalate no_action : ActionType
  scale_workers adjust_pool_slots reprioritize_pipeline : ActionType
  allow_compatible apply_mapping quarantine_partition block_ingestion : ActionType
  retry_with_backoff replay rollback partial_recompute escalate_to_human : ActionType
  other : String → ActionType

pub record ProposedAction : Type 0 where
  pub action_id : ℕ
  pub agent : AgentName
  pub action_type : ActionType
  pub target : String
  pub params : Params
  pub justification : String
  -- in units of 2^-1074
  pub confidence : ℕ

-- A payload with fields of the declared types that no constraint has been checked of.
pub record Payload : Type 0 where
  pub action_id : ℕ
  pub agent : AgentName
  pub action_type : ActionType
  pub target : String
  pub params : Params
  pub justification : String
  pub confidence : ℤ

pub record PolicyDecision : Type 0 where
  pub allowed : Bool
  pub escalate : Bool
  pub reason : String
  pub policy_id : String

-- ACTION_TYPES, as the membership test that the validator makes.
unfoldable pub is_allowed : AgentName → ActionType → Bool
is_allowed monitoring raise_anomaly = true
is_allowed monitoring escalate = true
is_allowed optimization scale_workers = true
is_allowed optimization adjust_pool_slots = true
is_allowed optimization reprioritize_pipeline = true
is_allowed schema allow_compatible = true
is_allowed schema apply_mapping = true
is_allowed schema quarantine_partition = true
is_allowed schema block_ingestion = true
is_allowed recovery retry_with_backoff = true
is_allowed recovery replay = true
is_allowed recovery rollback = true
is_allowed recovery partial_recompute = true
is_allowed recovery escalate_to_human = true
is_allowed _ no_action = true
is_allowed _ _ = false

-- SCALE_TARGET_PARAM
unfoldable pub scale_target_param : ActionType → Option String
scale_target_param scale_workers = some "n_workers"
scale_target_param adjust_pool_slots = some "slots"
scale_target_param _ = none

at_least_one : ℕ → Option ℕ
at_least_one n = if leb 1 n then some n else none

unfoldable pub positive_int : Json → Option ℕ
unfolding at_least_one
positive_int (int (pos n)) = at_least_one n
positive_int (float (units (pos u))) =
    if u % one_unit == 0 then at_least_one (u / one_unit) else none
positive_int _ = none

pub data Invalid : Type 0 where
  justification_too_long confidence_out_of_range : Invalid
  action_type_not_allowed : AgentName → ActionType → Invalid
  scale_target_not_positive : String → Json → Invalid

pub data Validated : Type 0 where
  valid : ProposedAction → Validated
  invalid : Invalid → Validated

-- The constraints of the fields: `max_length` of the justification, `ge` and `le` of the confidence.
check_fields : Payload → Validated
check_fields p =
    if ltb 1200 (characters p.justification)
    then invalid justification_too_long
    else elim p.confidence [
      | negsuc n ↦ invalid confidence_out_of_range
      | pos c ↦
          if ltb one_unit c
          then invalid confidence_out_of_range
          else valid (record {
            action_id = p.action_id;
            agent = p.agent;
            action_type = p.action_type;
            target = p.target;
            params = p.params;
            justification = p.justification;
            confidence = c;
          })
    ]

action_type_allowed_for_agent : ProposedAction → Validated
unfolding is_allowed
action_type_allowed_for_agent a =
    if is_allowed a.agent a.action_type
    then valid a
    else invalid (action_type_not_allowed a.agent a.action_type)

-- The parameter under its key is normalised to an integer.
set_scale_target : ProposedAction → String → Json → Option ℕ → Validated
set_scale_target a key value none = invalid (scale_target_not_positive key value)
set_scale_target a key value (some n) =
    valid (record a { params = insert key (int (pos n)) a.params })

scale_at : ProposedAction → String → Option Json → Validated
unfolding set_scale_target
scale_at a key none = valid a
scale_at a key (some value) = set_scale_target a key value (positive_int value)

scale_target_at : ProposedAction → Option String → Validated
unfolding scale_at
scale_target_at a none = valid a
scale_target_at a (some key) = scale_at a key (lookup key a.params)

scale_target_is_a_positive_integer : ProposedAction → Validated
unfolding scale_target_at
scale_target_is_a_positive_integer a = scale_target_at a (scale_target_param a.action_type)

infixl 5 ◌>>=◌
abbrev pub ◌>>=◌ : Validated → (ProposedAction → Validated) → Validated
valid a >>= f = f a
invalid e >>= f = invalid e

-- `ProposedAction.model_validate`: the fields first, then the model validators in their order.
unfoldable pub model_validate : Payload → Validated
unfolding check_fields action_type_allowed_for_agent scale_target_is_a_positive_integer
model_validate p = do
  a ← check_fields p
  b ← action_type_allowed_for_agent a
  scale_target_is_a_positive_integer b

-- ===== src/Contracts/Validation.antt =====
-- What a validated action satisfies.
use Prim.Native.String.{count as characters}
use agentic_cloud_pipeline_g.Prelude.{
  ℕ, ◌≤◌, String, ◌≡◌, sym, refl, true, Option, none, some, arith, eq_iff,
}
use mathlib.Core.Path.{subst}
use agentic_cloud_pipeline_g.Prelude.Int.{pos}
use agentic_cloud_pipeline_g.Prelude.Dict.{lookup, insert, lookup-insert}
use agentic_cloud_pipeline_g.Json.{Json, int, Params, one_unit}
use agentic_cloud_pipeline_g.Contracts.{
  ProposedAction, Payload, is_allowed, scale_target_param, positive_int, Validated, valid, invalid,
  ◌>>=◌, model_validate, set_scale_target, scale_at, scale_target_at, check_fields,
  action_type_allowed_for_agent, scale_target_is_a_positive_integer,
}

-- Whatever the parameter under the key is, it is an integer of at least 1.
abbrev pub IsPositiveAt : String → Params → Type 0
IsPositiveAt key m = (v : Json) → lookup key m ≡ some v → (n : ℕ) × (1 ≤ n) × (v ≡ int (pos n))

abbrev pub HasScaleTarget : Option String → Params → Type 0
HasScaleTarget none m = Unit
HasScaleTarget (some key) m = IsPositiveAt key m

pub record IsValid (a : ProposedAction) : Type 0 where
  pub permitted : is_allowed a.agent a.action_type ≡ true
  pub short : characters a.justification ≤ 1200
  pub bounded : a.confidence ≤ one_unit
  pub scaled : HasScaleTarget (scale_target_param a.action_type) a.params

positive_int_pos : (v : Json) (n : ℕ) → positive_int v ≡ some n → 1 ≤ n
unfolding positive_int
positive_int_pos v n h = ground arith

check_fields_bounds :
    (p : Payload) (a : ProposedAction)
    → check_fields p ≡ valid a
    → (characters a.justification ≤ 1200) × (a.confidence ≤ one_unit)
unfolding check_fields
check_fields_bounds p a h = ground arith

action_type_allowed_lem :
    (a b : ProposedAction)
    → action_type_allowed_for_agent a ≡ valid b
    → (b ≡ a) × (is_allowed a.agent a.action_type ≡ true)
unfolding action_type_allowed_for_agent
action_type_allowed_lem a b h = (ground arith, ground arith)

IsPositiveAt-insert :
    (key : String) (n : ℕ) (m : Params) → 1 ≤ n → IsPositiveAt key (insert key (int (pos n)) m)
IsPositiveAt-insert key n m p v e =
    (n, p, ground (arith, lookup-insert key key (int (pos n)) m, eq_iff key key))

-- What the last validator leaves: the action with other parameters, in which the scaling target
-- is positive.
abbrev Scaled : ProposedAction → Option String → ProposedAction → Type 0
Scaled a key b = (m : Params) × (b ≡ record a { params = m }) × HasScaleTarget key m

set_scale_target-Scaled :
    (a : ProposedAction) (key : String) (v : Json) (o : Option ℕ) (b : ProposedAction)
    → positive_int v ≡ o
    → set_scale_target a key v o ≡ valid b
    → Scaled a (some key) b
unfolding set_scale_target
set_scale_target-Scaled a key v none b e h = cc
set_scale_target-Scaled a key v (some n) b e h = (
  insert key (int (pos n)) a.params,
  ground arith,
  IsPositiveAt-insert key n a.params (positive_int_pos v n e),
)

scale_at-Scaled :
    (a : ProposedAction) (key : String) (o : Option Json) (b : ProposedAction)
    → lookup key a.params ≡ o
    → scale_at a key o ≡ valid b
    → Scaled a (some key) b
unfolding scale_at
scale_at-Scaled a key none b e h = (a.params, ground arith, λ v l. cc)
scale_at-Scaled a key (some v) b e h = set_scale_target-Scaled a key v (positive_int v) b refl h

scale_target_at-Scaled :
    (a : ProposedAction) (key : Option String) (b : ProposedAction)
    → scale_target_at a key ≡ valid b
    → Scaled a key b
unfolding scale_target_at
scale_target_at-Scaled a none b h = (a.params, ground arith, tt)
scale_target_at-Scaled a (some key) b h = scale_at-Scaled a key (lookup key a.params) b refl h

>>=-eq-valid :
    (m : Validated) (f : ProposedAction → Validated) {b : ProposedAction}
    → (m >>= f) ≡ valid b
    → (a : ProposedAction) × (m ≡ valid a) × (f a ≡ valid b)
>>=-eq-valid (valid a) f h = (a, refl, h)
>>=-eq-valid (invalid e) f h = cc

Scaled-IsValid :
    (a c : ProposedAction)
    → (characters a.justification ≤ 1200) × (a.confidence ≤ one_unit)
    → is_allowed a.agent a.action_type ≡ true
    → Scaled a (scale_target_param a.action_type) c
    → IsValid c
Scaled-IsValid a c f t (m, e, s) =
    subst IsValid (sym e) (record { permitted = t; short = f.0; bounded = f.1; scaled = s })

-- An action that `model_validate` accepts has an action type of its agent, a justification of at
-- most 1200 characters, a confidence between 0 and 1, and, if it scales, either no target
-- parameter or one that is an integer of at least 1.
pub model_validate-IsValid :
    (p : Payload) (c : ProposedAction) → model_validate p ≡ valid c → IsValid c
unfolding model_validate
model_validate-IsValid p c h =
    let (a, ea, ha) = >>=-eq-valid (check_fields p) _ h in
    let (b, eb, hb) = >>=-eq-valid (action_type_allowed_for_agent a) _ ha in
    let (e, t) = action_type_allowed_lem a b eb in
    Scaled-IsValid a c (check_fields_bounds p a ea) t (
      scale_target_at-Scaled a _ c
        (subst (λ x. scale_target_is_a_positive_integer x ≡ valid c) e hb))

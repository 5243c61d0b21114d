-- ===== src/Settings/Roles.antt =====
-- Which roles the settings give.
use agentic_cloud_pipeline_g.Prelude.{
  String, ◌≡◌, ◌∙◌, refl, ap, true, false, ◌≢◌, none, List, [], ◌∷◌, arith, str_eq, eq_iff,
  if◌then◌else◌, ◌⊎◌, Bool-cases, inl, inr,
}
use agentic_cloud_pipeline_g.Prelude.Dict.{Dict, lookup, insert, lookup-insert}
use agentic_cloud_pipeline_g.Settings.{
  Credentials, is_empty, after, contains, strip_left, strip_right, strip, colon, actor_of, key_of,
  role_of, add_key, add_role, fold_pairs, pairs_of, operator_with, api_key_map, role_map, role_rank,
}

-- Every actor of one table is in the other.
abbrev Covers : Dict String → Dict String → Type 0
Covers roles keys = (a : String) → lookup a keys ≢ none → lookup a roles ≢ none

lookup-some :
    (key other : String) (new : String) (d : Dict String)
    → lookup other (insert key new d) ≢ none
    → (key ≡ other) ⊎ (lookup other d ≢ none)
lookup-some key other new d h = elim (Bool-cases (str_eq key other)) [
  | inl t ↦ inl ((eq_iff key other).0 t)
  | inr f ↦ inr (λ z. h (ground (arith, f, z, lookup-insert key other new d)))
]

Covers-add :
    (pair : String) (roles keys : Dict String)
    → Covers roles keys
    → Covers (add_role pair roles) (add_key pair keys)
unfolding add_role add_key
Covers-add pair roles keys h a k z =
    let role = if is_empty (role_of pair) then "admin" else role_of pair in
    ground (
      arith,
      z,
      k,
      h a,
      lookup-insert (actor_of pair) a (key_of pair) keys,
      lookup-insert (actor_of pair) a role roles,
    )

Covers-fold :
    (pairs : List String) (roles keys : Dict String)
    → Covers roles keys
    → Covers (fold_pairs add_role pairs roles) (fold_pairs add_key pairs keys)
Covers-fold [] roles keys h = h
Covers-fold (pair ∷ pairs) roles keys h =
    Covers-fold pairs (add_role pair roles) (add_key pair keys) (Covers-add pair roles keys h)

-- Whatever the settings say, every actor that has a key also has a role of its own: the role that
-- the routes fall back on, the administrator's, is never given to one.
pub role_map-covers :
    (c : Credentials) (actor : String)
    → lookup actor (api_key_map c) ≢ none
    → lookup actor (role_map c) ≢ none
unfolding role_map api_key_map lookup
role_map-covers c =
    Covers-fold (pairs_of c) (operator_with "admin" c) (operator_with c.api_key c)
      (λ a k z. ground (arith, k, z))

contains-strip_left : (s : String) → contains colon (strip_left s) ≡ contains colon s
unfolding contains strip_left
contains-strip_left String.[] = refl
contains-strip_left (String.◌∷◌ c s) = ground (arith, contains-strip_left s)

contains-empty : (s : String) → is_empty s ≡ true → contains colon s ≡ false
unfolding contains
contains-empty String.[] h = refl
contains-empty (String.◌∷◌ c s) h = absurd (ground (arith, h))

contains-strip_right : (s : String) → contains colon (strip_right s) ≡ contains colon s
unfolding contains strip_right
contains-strip_right String.[] = refl
contains-strip_right (String.◌∷◌ c s) =
    ground (arith, contains-strip_right s, contains-empty (strip_right s))

other_role :
    (role name : String)
    → contains colon name ≡ false
    → contains colon role ≡ true
    → str_eq role name ≡ false
other_role role name n h = elim (Bool-cases (str_eq role name)) [
  | inl t ↦ absurd (ground (arith, n, h, ap (contains colon) ((eq_iff role name).0 t)))
  | inr f ↦ f
]

role_rank-contains : (role : String) → contains colon role ≡ true → role_rank role ≡ none
unfolding role_rank contains
role_rank-contains role h =
    rw
      (
        role_rank,
        other_role role "viewer" refl h,
        other_role role "approver" refl h,
        other_role role "admin" refl h,
      )
      refl

-- A pair with a fourth field, which binds its actor to a tenant, gives a role that has no rank: what
-- is read as the role is the third and the fourth field together.
pub role_of-bound :
    (pair : String)
    → contains colon (after colon (after colon pair)) ≡ true
    → role_rank (role_of pair) ≡ none
unfolding role_of strip
role_of-bound pair h =
    let field = after colon (after colon pair) in
    role_rank-contains (strip_right (strip_left field))
      (contains-strip_right (strip_left field) ∙ contains-strip_left field ∙ h)

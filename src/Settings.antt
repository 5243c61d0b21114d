-- ===== src/Settings.antt =====
-- The credentials in the settings: `api_key_map`, `role_map` and `tenant_map` of src/acde/config.py, and
-- the ranks of the roles of src/acde/server/app.py. Texts are ASCII: the white space that is stripped
-- is the ASCII one.
pub mod Roles
use Prim.Native.Char.{code}
use agentic_cloud_pipeline_g.Prelude.{
  ℕ, String, Bool, true, false, not, ◌&&◌, ◌||◌, Option, none, some, List, [], ◌∷◌, map, leb, ◌==◌,
  str_eq, if◌then◌else◌,
}
use agentic_cloud_pipeline_g.Prelude.Dict.{Dict, lookup, insert}

-- `text.partition(sep)`: what is before the separator and what is after it.
unfoldable pub before : ℕ → String → String
before sep String.[] = String.[]
before sep (String.◌∷◌ c s) =
    let rest = before sep s in if code c == sep then String.[] else String.◌∷◌ c rest

unfoldable pub after : ℕ → String → String
after sep String.[] = String.[]
after sep (String.◌∷◌ c s) = let rest = after sep s in if code c == sep then s else rest

unfoldable pub contains : ℕ → String → Bool
contains sep String.[] = false
contains sep (String.◌∷◌ c s) = code c == sep || contains sep s

-- `text.split(sep)`
unfoldable pub push : ℕ → ℕ → String → List String → List String
push sep n s [] = s ∷ []
push sep n s (x ∷ xs) = if n == sep then String.[] ∷ x ∷ xs else s ∷ xs

abbrev first_of : List String → String
first_of [] = String.[]
first_of (x ∷ xs) = x

unfoldable pub split : ℕ → String → List String
unfolding push
split sep String.[] = String.[] ∷ []
split sep (String.◌∷◌ c s) =
    let rest = split sep s in push sep (code c) (String.◌∷◌ c (first_of rest)) rest

-- `text.strip()`
abbrev pub is_space : ℕ → Bool
is_space n = (leb 9 n && leb n 13) || (leb 28 n && leb n 32)

abbrev pub is_empty : String → Bool
is_empty String.[] = true
is_empty (String.◌∷◌ c s) = false

unfoldable pub strip_left : String → String
strip_left String.[] = String.[]
strip_left (String.◌∷◌ c s) =
    let rest = strip_left s in if is_space (code c) then rest else String.◌∷◌ c s

unfoldable pub strip_right : String → String
strip_right String.[] = String.[]
strip_right (String.◌∷◌ c s) =
    let rest = strip_right s in
    if is_empty rest && is_space (code c) then String.[] else String.◌∷◌ c rest

unfoldable pub strip : String → String
unfolding strip_left strip_right
strip s = strip_right (strip_left s)

abbrev pub colon : ℕ
colon = b':'

-- The settings that are read here.
pub record Credentials : Type 0 where
  pub api_key : String
  pub api_keys : String

-- The fields of a pair actor:key:role:tenant.
unfoldable pub actor_of : String → String
unfolding strip before
actor_of pair = strip (before colon pair)

unfoldable pub key_of : String → String
unfolding strip before after
key_of pair = strip (before colon (after colon pair))

unfoldable pub role_of : String → String
unfolding strip after
role_of pair = strip (after colon (after colon pair))

unfoldable pub tenant_of : String → String
unfolding strip after
tenant_of pair = strip (after colon (after colon (after colon pair)))

abbrev or_admin : String → String
or_admin s = if is_empty s then "admin" else s

-- The bodies of the three loops.
unfoldable pub add_key : String → Dict String → Dict String
unfolding contains actor_of key_of insert
add_key pair keys =
    if contains colon pair && (not (is_empty (actor_of pair)) && not (is_empty (key_of pair)))
    then insert (actor_of pair) (key_of pair) keys
    else keys

unfoldable pub add_role : String → Dict String → Dict String
unfolding contains actor_of role_of insert
add_role pair roles =
    if contains colon pair && not (is_empty (actor_of pair))
    then insert (actor_of pair) (or_admin (role_of pair)) roles
    else roles

unfoldable pub add_tenant : String → Dict String → Dict String
unfolding contains actor_of tenant_of insert
add_tenant pair tenants =
    if contains colon pair && (not (is_empty (actor_of pair)) && not (is_empty (tenant_of pair)))
    then insert (actor_of pair) (tenant_of pair) tenants
    else tenants

abbrev pub fold_pairs :
    (String → Dict String → Dict String) → List String → Dict String → Dict String
fold_pairs add [] d = d
fold_pairs add (pair ∷ pairs) d = fold_pairs add pairs (add pair d)

unfoldable pub pairs_of : Credentials → List String
unfolding split strip
pairs_of c = map strip (split b',' c.api_keys)

abbrev pub operator_with : String → Credentials → Dict String
operator_with value c = if is_empty c.api_key then [] else ("operator", value) ∷ []

unfoldable pub api_key_map : Credentials → Dict String
unfolding add_key pairs_of
api_key_map c = fold_pairs add_key (pairs_of c) (operator_with c.api_key c)

unfoldable pub role_map : Credentials → Dict String
unfolding add_role pairs_of
role_map c = fold_pairs add_role (pairs_of c) (operator_with "admin" c)

unfoldable pub tenant_map : Credentials → Dict String
unfolding add_tenant pairs_of
tenant_map c = fold_pairs add_tenant (pairs_of c) []

-- `_ROLE_RANK`; `none` stands for the rank -1 of an unknown role.
unfoldable pub role_rank : String → Option ℕ
role_rank role =
    if str_eq role "viewer"
    then some 0
    else (if str_eq role "approver" then some 1 else (if str_eq role "admin" then some 2 else none))

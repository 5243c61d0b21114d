-- ===== src/Server.antt =====
-- Who may call the operator's HTTP interface, and the export of the audit trail: src/acde/server/app.py
-- (`_authenticate`, `_rate_limit_key`, `_check_tenant_active`, `require_role`, `tenant_scope`,
-- `actor_role`, the middleware and `_audit_rows_paginated`), with the tenants of src/acde/tenancy.py. What
-- the framework decodes of a request's headers is given. A refusal is its HTTP status.
pub mod Access
pub mod Batches
pub mod Export
pub mod Limits
use agentic_cloud_pipeline_g.Prelude.{
  ℕ, zero, suc, String, Bool, true, false, not, ◌&&◌, ◌||◌, Option, none, some, List, [], ◌∷◌, ◌++◌,
  ltb, leb, ◌==◌, str_eq, if◌then◌else◌, length, select, first,
}
use agentic_cloud_pipeline_g.Prelude.Sorting.{sort_by}
use agentic_cloud_pipeline_g.Prelude.Dict.{Dict, lookup}
use agentic_cloud_pipeline_g.RateLimit.{RateLimiter, Verdict, check}
use agentic_cloud_pipeline_g.Settings.{
  Credentials, is_empty, api_key_map, role_map, tenant_map, role_rank,
}

pub record Tenant : Type 0 where
  pub tenant_id : String
  pub display_name : String
  pub status : String
  pub created : ℕ

pub data Reply (A : Type 0) : Type 0 where
  ok : A → Reply A
  refused : ℕ → Reply A

-- The table of tenants: `none` is the ValueError.
unfoldable pub get_tenant : String → List Tenant → Option Tenant
get_tenant id = first (λ t. str_eq t.tenant_id id)

unfoldable pub create_tenant : String → String → ℕ → List Tenant → Option (List Tenant)
unfolding get_tenant
create_tenant id name now tenants = elim (get_tenant id tenants) [
  | some t ↦ none
  | none ↦ some (
      tenants
      ++ record { tenant_id = id; display_name = name; status = "active"; created = now } ∷ [])
]

unfoldable pub set_status : String → String → List Tenant → List Tenant
set_status id status [] = []
set_status id status (t ∷ ts) =
    (if str_eq t.tenant_id id then record t { status = status } else t) ∷ set_status id status ts

unfoldable pub set_tenant_status : String → String → List Tenant → Option (List Tenant)
unfolding get_tenant set_status
set_tenant_status id status tenants =
    if str_eq status "active" || str_eq status "suspended"
    then (elim (get_tenant id tenants) [
      | none ↦ none
      | some t ↦ some (set_status id status tenants)
    ])
    else none

pub record BasicCredentials : Type 0 where
  pub username : String
  pub password : String

-- A request: the header X-API-Key, empty if it is missing, what the framework makes of the header
-- Authorization, what the middleware makes of it, the client's address and the path.
pub record Request : Type 0 where
  pub x_api_key : String
  pub basic : Option BasicCredentials
  pub decoded : Option BasicCredentials
  pub host : Option String
  pub path : String

-- The actor whose key it is: the first, in the table's order.
unfoldable pub actor_with_key : String → Dict String → Option String
actor_with_key key [] = none
actor_with_key key ((actor, k) ∷ rest) =
    if str_eq key k then some actor else actor_with_key key rest

-- The actor of a name and a password.
unfoldable pub actor_with_password : BasicCredentials → Dict String → Option String
unfolding lookup
actor_with_password b keys = elim (lookup b.username keys) [
  | none ↦ none
  | some key ↦ if str_eq b.password key then some b.username else none
]

module _ (c : Credentials) where
  unfoldable pub is_tenant_active : List Tenant → String → Bool
  unfolding tenant_map lookup get_tenant
  is_tenant_active tenants actor = elim (lookup actor (tenant_map c)) [
    | none ↦ true
    | some id ↦ elim (get_tenant id tenants) [ none ↦ false | some t ↦ str_eq t.status "active" ]
  ]

  -- The credentials of a request: the actor that they are of.
  unfoldable pub resolve : String → Option BasicCredentials → Option String
  unfolding api_key_map actor_with_key actor_with_password
  resolve key basic =
      if not (is_empty key)
      then actor_with_key key (api_key_map c)
      else (elim basic [ none ↦ none | some b ↦ actor_with_password b (api_key_map c) ])

  -- `_check_tenant_active` on the actor, if there is one.
  unfoldable pub admit : List Tenant → Option String → Reply String
  unfolding is_tenant_active
  admit tenants none = refused 401
  admit tenants (some actor) = if is_tenant_active tenants actor then ok actor else refused 403

  unfoldable pub authenticate : List Tenant → Request → Reply String
  unfolding admit resolve
  authenticate tenants r = admit tenants (resolve r.x_api_key r.basic)

  unfoldable pub host_of : Option String → String
  host_of none = "unknown"
  host_of (some h) = h

  unfoldable pub key_or_host : Option String → Request → String
  unfolding host_of
  key_or_host none r = host_of r.host
  key_or_host (some actor) r = actor

  unfoldable pub rate_limit_key : Request → String
  unfolding resolve key_or_host
  rate_limit_key r = key_or_host (resolve r.x_api_key r.decoded) r

  unfoldable pub actor_role : String → String
  unfolding role_map lookup
  actor_role actor = elim (lookup actor (role_map c)) [ none ↦ "admin" | some role ↦ role ]

  unfoldable pub tenant_scope : String → Option String
  unfolding tenant_map lookup
  tenant_scope actor = lookup actor (tenant_map c)

  abbrev pub is_ranked : ℕ → Option ℕ → Bool
  is_ranked least none = false
  is_ranked least (some n) = leb least n

  unfoldable pub check_role : ℕ → Reply String → Reply String
  unfolding actor_role role_rank
  check_role least (refused n) = refused n
  check_role least (ok actor) =
      if is_ranked least (role_rank (actor_role actor)) then ok actor else refused 403

  -- `require_role`, at the rank of the least role.
  unfoldable pub require_role : ℕ → List Tenant → Request → Reply String
  unfolding authenticate check_role
  require_role least tenants r = check_role least (authenticate tenants r)

  -- The middleware: `none` lets the request through, else the 429 with its time to wait.
  unfoldable pub answer : Verdict → Option ℕ
  answer v = if v.allowed then none else some v.retry_after

  unfoldable pub rate_limit_middleware : Request → ℕ → RateLimiter → Option ℕ × RateLimiter
  unfolding check rate_limit_key answer
  rate_limit_middleware r now l =
      let (v, l') = check (rate_limit_key r) now l in
      if str_eq r.path "/health" then (none, l) else (answer v, l')

  -- Requests, with their times, through the middleware in their order.
  unfoldable pub serve_requests : List (Request × ℕ) → RateLimiter → List (Request × Option ℕ)
  unfolding rate_limit_middleware
  serve_requests [] l = []
  serve_requests ((r, now) ∷ rs) l =
      let (o, l') = rate_limit_middleware r now l in (r, o) ∷ serve_requests rs l'

-- A row of the audit table: its time, its id (a UUID, as the number it is), its tenant, and the other
-- columns of the export.
pub record AuditRow (V : Type 0) : Type 0 where
  pub ts : ℕ
  pub action_id : ℕ
  pub tenant_id : String
  pub columns : V

-- The conditions of the export, and the place after which a batch begins.
pub record Filter : Type 0 where
  pub since : Option ℕ
  pub until : Option ℕ
  pub tenant : Option String

module _ {V : Type 0} where
  -- ORDER BY ts, action_id
  abbrev pub row_order : AuditRow V → AuditRow V → Bool
  row_order a b = ltb a.ts b.ts || (a.ts == b.ts && leb a.action_id b.action_id)

  unfoldable pub is_wanted : Filter → AuditRow V → Bool
  is_wanted q r =
      (elim q.since [ none ↦ true | some t ↦ leb t r.ts ])
      && ((elim q.until [ none ↦ true | some t ↦ leb r.ts t ])
          && (elim q.tenant [ none ↦ true | some t ↦ str_eq r.tenant_id t ]))

  -- (ts, action_id) > (cursor)
  unfoldable pub is_after : Option (ℕ × ℕ) → AuditRow V → Bool
  is_after none r = true
  is_after (some (t, i)) r = ltb t r.ts || (t == r.ts && ltb i r.action_id)

  unfoldable pub take : ℕ → List (AuditRow V) → List (AuditRow V)
  take zero rs = []
  take (suc n) [] = []
  take (suc n) (r ∷ rs) = r ∷ take n rs

  -- The query of one batch.
  unfoldable pub fetch_batch : ℕ → Filter → Option (ℕ × ℕ) → List (AuditRow V) → List (AuditRow V)
  unfolding take sort_by is_wanted is_after
  fetch_batch size q cursor table =
      take size (sort_by row_order (select (λ r. is_wanted q r && is_after cursor r) table))

  -- The cursor after the rows of a batch.
  unfoldable pub cursor_after : AuditRow V → List (AuditRow V) → ℕ × ℕ
  cursor_after r [] = (r.ts, r.action_id)
  cursor_after r (s ∷ rs) = cursor_after s rs

  -- What is yielded from a batch on, with what comes after it.
  unfoldable pub yield_batch :
      ℕ → List (AuditRow V) → (ℕ × ℕ → Option (List (AuditRow V))) → Option (List (AuditRow V))
  unfolding cursor_after
  yield_batch size [] more = some []
  yield_batch size (r ∷ rs) more =
      let rest = more (cursor_after r rs) in
      if ltb (length (r ∷ rs)) size
      then some (r ∷ rs)
      else (elim rest [ none ↦ none | some later ↦ some ((r ∷ rs) ++ later) ])

  -- `_audit_rows_paginated`, on a table that does not change meanwhile; `none` if the fuel is out.
  unfoldable pub audit_rows_paginated :
      ℕ → ℕ → Filter → Option (ℕ × ℕ) → List (AuditRow V) → Option (List (AuditRow V))
  unfolding fetch_batch yield_batch
  audit_rows_paginated zero size q cursor table = none
  audit_rows_paginated (suc fuel) size q cursor table =
      yield_batch size (fetch_batch size q cursor table)
        (λ last. audit_rows_paginated fuel size q (some last) table)

-- ===== src/Tests/Callers.antt =====
-- The callers of the HTTP interface at concrete data: an approver, and a viewer bound to a tenant.
use agentic_cloud_pipeline_g.Prelude.{
  ℕ, ◌≤◌, String, ◌≡◌, refl, none, some, List, [], ◌∷◌, arith, count,
}
use agentic_cloud_pipeline_g.Prelude.Sorting.{sort_by}
use agentic_cloud_pipeline_g.Prelude.Int.{pos}
use agentic_cloud_pipeline_g.RateLimit.{RateLimiter}
use agentic_cloud_pipeline_g.Settings.{Credentials, role_rank, role_of, after}
use agentic_cloud_pipeline_g.Server.{
  Request, AuditRow, Filter, require_role, serve_requests, is_wanted, audit_rows_paginated,
}
use agentic_cloud_pipeline_g.Server.Access.{IsAllowed, require_role-IsAllowed}
use agentic_cloud_pipeline_g.Server.Limits.{has_passed, AreInSpan, serve_requests-bounded}
use agentic_cloud_pipeline_g.Server.Batches.{IsKeyed}
use agentic_cloud_pipeline_g.Server.Export.{audit_rows_paginated-sorted}

-- The role of a pair that binds its actor to a tenant has no rank.
bound : role_rank (role_of "al:key2:approver:beta") ≡ none
unfolding role_rank role_of after
bound = refl

abbrev credentials : Credentials
credentials = record { api_key = ""; api_keys = "bo:k2:viewer:acme, al:k1:approver" }

abbrev request : String → String → Request
request key path = record {
  x_api_key = key;
  basic = none;
  decoded = none;
  host = some "10.0.0.1";
  path = path;
}

require_role-IsAllowed_example : IsAllowed credentials [] 1 (request "k1" "/approvals") "al"
unfolding require_role
require_role-IsAllowed_example =
    require_role-IsAllowed credentials [] 1 (request "k1" "/approvals") "al" refl

abbrev limiter : RateLimiter
limiter = record { limit_per_minute = pos 1; window = 60; windows = []; total_rate_limited = 0 }

abbrev requests : List (Request × ℕ)
requests = (request "k1" "/audit", 5) ∷ (request "" "/health", 6) ∷ (request "k1" "/audit", 7) ∷ []

in_span : AreInSpan 5 60 requests
in_span =
    ((omega arith, omega arith), ((omega arith, omega arith), ((omega arith, omega arith), tt)))

serve_requests-bounded_example :
    count (has_passed credentials "al") (serve_requests credentials requests limiter) ≤ 2
serve_requests-bounded_example =
    serve_requests-bounded credentials "al" 0 5 60 requests limiter refl refl in_span

abbrev audit_row : ℕ → ℕ → AuditRow ℕ
audit_row t i = record { ts = t; action_id = i; tenant_id = "acme"; columns = i }

abbrev table : List (AuditRow ℕ)
table = audit_row 3 7 ∷ audit_row 1 9 ∷ audit_row 3 2 ∷ []

abbrev everything : Filter
everything = record { since = none; until = none; tenant = none }

keyed : IsKeyed table
keyed i = ground arith

audit_rows_paginated-sorted_example :
    audit_rows_paginated 4 2 everything none table
    ≡ some (audit_row 1 9 ∷ audit_row 3 2 ∷ audit_row 3 7 ∷ [])
unfolding is_wanted sort_by
audit_rows_paginated-sorted_example =
    audit_rows_paginated-sorted 2 everything table 4 (omega arith) (omega arith) keyed

-- ===== src/RateLimit.antt =====
-- The request limiter of the operator's HTTP interface: src/acde/server/ratelimit.py. The time is
-- the process's monotonic clock, in microseconds, as is the time to wait, which the code rounds.
pub mod Bounds
use agentic_cloud_pipeline_g.Prelude.{
  ℕ, ◌+◌, ◌-◌, String, Bool, true, false, Option, none, some, List, [], ◌∷◌, leb, if◌then◌else◌,
}
use agentic_cloud_pipeline_g.Prelude.Int.{ℤ, pos, leb_ℤ, ltb_ℤ}
use agentic_cloud_pipeline_g.Prelude.Dict.{Dict, lookup, insert}

-- A window: its start, and the requests counted in it.
pub record Window : Type 0 where
  pub window_start : ℕ
  pub count : ℕ

-- The limiter, with the process's count of the requests that it rejected.
pub record RateLimiter : Type 0 where
  pub limit_per_minute : ℤ
  pub window : ℕ
  pub windows : Dict Window
  pub total_rate_limited : ℕ

unfoldable pub fresh_limiter : ℤ → ℕ → RateLimiter
fresh_limiter limit window = record {
  limit_per_minute = limit;
  window = window;
  windows = [];
  total_rate_limited = 0;
}

-- What `check` returns.
pub record Verdict : Type 0 where
  pub allowed : Bool
  pub retry_after : ℕ

abbrev pub new_window : ℕ → Window
new_window now = record { window_start = now; count = 0 }

-- The window that a request falls into: a new one if its key has none, or one that is over.
unfoldable pub window_at : ℕ → ℕ → Option Window → Window
window_at width now none = new_window now
window_at width now (some v) = if leb width (now - v.window_start) then new_window now else v

unfoldable pub count_in : String → ℕ → Window → RateLimiter → Verdict × RateLimiter
unfolding insert
count_in key now v l =
    let v' : Window = record v { count = v.count + 1 } in
    let l' : RateLimiter = record l { windows = insert key v' l.windows } in
    let wait : Verdict = record {
      allowed = false;
      retry_after = l.window - (now - v.window_start);
    } in
    if ltb_ℤ l.limit_per_minute (pos (v.count + 1))
    then (wait, record l' { total_rate_limited = l.total_rate_limited + 1 })
    else (record { allowed = true; retry_after = 0 }, l')

unfoldable pub check : String → ℕ → RateLimiter → Verdict × RateLimiter
unfolding lookup window_at count_in
check key now l =
    if leb_ℤ l.limit_per_minute (pos 0)
    then (record { allowed = true; retry_after = 0 }, l)
    else count_in key now (window_at l.window now (lookup key l.windows)) l

-- A request: its key and its time.
pub record Arrival : Type 0 where
  pub key : String
  pub at : ℕ

-- The verdicts on requests in their order.
unfoldable pub serve : List Arrival → RateLimiter → List (String × Verdict)
unfolding check
serve [] l = []
serve (r ∷ rs) l = let (v, l') = check r.key r.at l in (r.key, v) ∷ serve rs l'

-- ===== src/Server/Limits.antt =====
-- The middleware bounds the requests of each caller.
use agentic_cloud_pipeline_g.Prelude.{
  ℕ, suc, ◌+◌, ◌*◌, ◌≤◌, ◌<◌, String, Bool, ◌≡◌, refl, true, false, not, ◌&&◌, Option, none, some,
  List, [], ◌∷◌, arith, str_eq, if◌then◌else◌, count, All, Bool-cases, inl, inr,
}
use agentic_cloud_pipeline_g.Prelude.Int.{pos}
use agentic_cloud_pipeline_g.RateLimit.{RateLimiter, Verdict, Arrival, check, serve}
use agentic_cloud_pipeline_g.RateLimit.Bounds.{let_through, InSpan, serve-burst}
use agentic_cloud_pipeline_g.Settings.{Credentials}
use agentic_cloud_pipeline_g.Server.{
  Request, rate_limit_key, answer, rate_limit_middleware, serve_requests,
}

abbrev is_health : Request → Bool
is_health r = str_eq r.path "/health"

-- The request was let through, and is counted under the name.
abbrev pub has_passed : Credentials → String → Request × Option ℕ → Bool
has_passed c name (r, none) = not (is_health r) && str_eq (rate_limit_key c r) name
has_passed c name (r, some wait) = false

abbrev arrivals : Credentials → List (Request × ℕ) → List Arrival
arrivals c [] = []
arrivals c ((r, now) ∷ rs) =
    if is_health r
    then arrivals c rs
    else record { key = rate_limit_key c r; at = now } ∷ arrivals c rs

-- The requests come within a span that is shorter than the window.
abbrev pub AreInSpan : ℕ → ℕ → List (Request × ℕ) → Type 0
AreInSpan start width = All (λ p. (start ≤ p.1) × (p.1 < start + width))

arrivals-InSpan :
    (c : Credentials) (start width : ℕ) (rs : List (Request × ℕ))
    → AreInSpan start width rs
    → InSpan start width (arrivals c rs)
arrivals-InSpan c start width [] h = tt
arrivals-InSpan c start width ((r, now) ∷ rs) h = elim (Bool-cases (is_health r)) [
  | inl t ↦ rw t (arrivals-InSpan c start width rs h.1)
  | inr f ↦ rw f (h.0, arrivals-InSpan c start width rs h.1)
]

has_passed-answer :
    (c : Credentials) (name : String) (r : Request) (v : Verdict)
    → is_health r ≡ false
    → has_passed c name (r, answer c v) ≡ (str_eq (rate_limit_key c r) name && v.allowed)
unfolding answer
has_passed-answer c name r v f = ground (arith, f)

module _ (c : Credentials) (r : Request) (now : ℕ) (l : RateLimiter) where
  middleware_health : is_health r ≡ true → rate_limit_middleware c r now l ≡ (none, l)
  unfolding rate_limit_middleware
  middleware_health t = rw t refl

  middleware_other :
      is_health r ≡ false
      → rate_limit_middleware c r now l
        ≡ (answer c (check (rate_limit_key c r) now l).0, (check (rate_limit_key c r) now l).1)
  unfolding rate_limit_middleware
  middleware_other f = rw f refl

passed-serve :
    (c : Credentials) (name : String) (rs : List (Request × ℕ)) (l : RateLimiter)
    → count (has_passed c name) (serve_requests c rs l) ≡ let_through name (serve (arrivals c rs) l)
unfolding serve_requests serve
passed-serve c name [] l = refl
passed-serve c name ((r, now) ∷ rs) l = elim (Bool-cases (is_health r)) [
  | inl t ↦ rw (middleware_health c r now l t, t) (omega (arith, passed-serve c name rs l))
  | inr f ↦
      let v = (check (rate_limit_key c r) now l).0 in
      let l' = (check (rate_limit_key c r) now l).1 in
      rw (middleware_other c r now l f, f, has_passed-answer c name r v f)
        (omega (arith, passed-serve c name rs l'))
]

-- Of the requests that come within a span shorter than the limiter's window, and not to the health
-- check, the interface lets through at most twice the limit that are counted under one name,
-- whatever the limiter has counted before.
pub serve_requests-bounded :
    (c : Credentials) (name : String) (n start width : ℕ) (rs : List (Request × ℕ))
    (l : RateLimiter)
    → l.limit_per_minute ≡ pos (suc n)
    → l.window ≡ width
    → AreInSpan start width rs
    → count (has_passed c name) (serve_requests c rs l) ≤ 2 * suc n
serve_requests-bounded c name n start width rs l h w s =
    rw (passed-serve c name rs l)
      (serve-burst n start width name (arrivals c rs) l h w (arrivals-InSpan c start width rs s))

-- ===== src/RateLimit/Bounds.antt =====
-- How many requests of a key the limiter lets through.
use mathlib.Core.Path.{subst}
use agentic_cloud_pipeline_g.Prelude.{
  ℕ, suc, ◌+◌, ◌-◌, ◌*◌, ◌≤◌, ◌<◌, String, ◌≡◌, ◌∙◌, refl, sym, sym, true, ◌&&◌, Option, none, some,
  List, [], ◌∷◌, arith, eq_iff, str_eq, leb, if◌then◌else◌, count, All, Bool-cases, Option-cases,
  inl, inr,
}
use agentic_cloud_pipeline_g.Prelude.Int.{pos}
use agentic_cloud_pipeline_g.Prelude.Dict.{lookup, lookup-insert}
use agentic_cloud_pipeline_g.RateLimit.{
  Window, RateLimiter, Verdict, Arrival, new_window, window_at, count_in, check, serve,
}

-- How many requests of a key were let through.
abbrev pub let_through : String → List (String × Verdict) → ℕ
let_through k = count (λ v. str_eq v.0 k && v.1.allowed)

-- The requests of the list come within a span that is shorter than the window.
abbrev pub InSpan : ℕ → ℕ → List Arrival → Type 0
InSpan start width = All (λ r. (start ≤ r.at) × (r.at < start + width))

-- What a key has left: the rest of its window, if it has one, and a whole one.
abbrev left : ℕ → Option Window → ℕ
left limit none = limit
left limit (some v) = limit - v.count + limit

check-window :
    (n : ℕ) (k key : String) (now : ℕ) (l : RateLimiter)
    → l.limit_per_minute ≡ pos (suc n)
    → lookup k (check key now l).1.windows ≡ (
        if str_eq key k
        then some (
            let v = window_at l.window now (lookup key l.windows) in
            record v { count = v.count + 1 })
        else lookup k l.windows)
unfolding check count_in
check-window n k key now l h = ground (
  arith,
  h,
  lookup-insert key k
      (record (window_at l.window now (lookup key l.windows)) {
        count = (window_at l.window now (lookup key l.windows)).count + 1;
      })
      l.windows,
)

check-allowed :
    (n : ℕ) (key : String) (now : ℕ) (l : RateLimiter)
    → l.limit_per_minute ≡ pos (suc n)
    → (check key now l).0.allowed
      ≡ leb ((window_at l.window now (lookup key l.windows)).count + 1) (suc n)
unfolding check count_in
check-allowed n key now l h = ground (arith, h)

check-limit :
    (key : String) (now : ℕ) (l : RateLimiter)
    → ((check key now l).1.limit_per_minute ≡ l.limit_per_minute)
      × ((check key now l).1.window ≡ l.window)
unfolding check count_in
check-limit key now l = ground arith

-- A request of the key itself, that falls into the window `v`.
abbrev Own : ℕ → String → Window → Verdict × RateLimiter → Type 0
Own n k v o =
    (lookup k o.1.windows ≡ some (record v { count = v.count + 1 }))
    × (o.0.allowed ≡ leb (v.count + 1) (suc n))

check-Own :
    (n : ℕ) (k key : String) (now : ℕ) (l : RateLimiter) (v : Window)
    → l.limit_per_minute ≡ pos (suc n)
    → str_eq key k ≡ true
    → window_at l.window now (lookup k l.windows) ≡ v
    → Own n k v (check key now l)
check-Own n k key now l v h t e =
    subst (λ j. Own n k v (check j now l)) (sym ((eq_iff key k).0 t))
      (rw (sym e)
        (ground (arith, check-window n k k now l h, eq_iff k k), check-allowed n k now l h))

window_at_open :
    (start width now : ℕ) (v : Window)
    → start ≤ v.window_start
    → start ≤ now
    → now < start + width
    → window_at width now (some v) ≡ v
unfolding window_at
window_at_open start width now v b a s = ground arith

module _ (n start width : ℕ) (k : String) where
  -- The key's window lasts beyond the span: what is left of it bounds what is let through.
  within_window :
      (rs : List Arrival) (v : Window) (l : RateLimiter)
      → l.limit_per_minute ≡ pos (suc n)
      → l.window ≡ width
      → lookup k l.windows ≡ some v
      → start ≤ v.window_start
      → InSpan start width rs
      → let_through k (serve rs l) ≤ suc n - v.count
  unfolding serve
  within_window [] v l h w q b s = omega arith
  within_window (r ∷ rs) v l h w q b s = elim (Bool-cases (str_eq r.key k)) [
    | inr f ↦
        let i =
          within_window rs v (check r.key r.at l).1 ((check-limit r.key r.at l).0 ∙ h)
            ((check-limit r.key r.at l).1 ∙ w)
            (ground (arith, f, q, check-window n k r.key r.at l h)) b s.1 in
        ground (arith, f, i)
    | inl t ↦
        let u : Window = record v { count = v.count + 1 } in
        let o =
          check-Own n k r.key r.at l v h t
            (rw (q, w) (window_at_open start width r.at v b s.0.0 s.0.1)) in
        let i =
          within_window rs u (check r.key r.at l).1 ((check-limit r.key r.at l).0 ∙ h)
            ((check-limit r.key r.at l).1 ∙ w) o.0 b s.1 in
        ground (arith, t, i, o.1)
  ]

  -- A request of the key that opens a window.
  at_new_window :
      (r : Arrival) (rs : List Arrival) (l : RateLimiter)
      → l.limit_per_minute ≡ pos (suc n)
      → l.window ≡ width
      → str_eq r.key k ≡ true
      → window_at l.window r.at (lookup k l.windows) ≡ new_window r.at
      → InSpan start width (r ∷ rs)
      → let_through k (serve (r ∷ rs) l) ≤ suc n
  unfolding serve
  at_new_window r rs l h w t e s =
      let o = check-Own n k r.key r.at l (new_window r.at) h t e in
      let u : Window = record { window_start = r.at; count = 1 } in
      let i =
        within_window rs u (check r.key r.at l).1 ((check-limit r.key r.at l).0 ∙ h)
          ((check-limit r.key r.at l).1 ∙ w) o.0 s.0.0 s.1 in
      ground (arith, t, i, o.1)

  serve-left :
      (rs : List Arrival) (l : RateLimiter) (o : Option Window)
      → l.limit_per_minute ≡ pos (suc n)
      → l.window ≡ width
      → lookup k l.windows ≡ o
      → InSpan start width rs
      → let_through k (serve rs l) ≤ left (suc n) o
  unfolding serve window_at
  serve-left [] l o h w q s = omega arith
  serve-left (r ∷ rs) l o h w q s = elim (Bool-cases (str_eq r.key k)) [
    | inr f ↦
        let i =
          serve-left rs (check r.key r.at l).1 o ((check-limit r.key r.at l).0 ∙ h)
            ((check-limit r.key r.at l).1 ∙ w)
            (ground (arith, f, q, check-window n k r.key r.at l h)) s.1 in
        ground (arith, f, i)
    | inl t ↦ own_request o q t (λ l' o' a b c. serve-left rs l' o' a b c s.1)
  ]
    where
      own_request :
          (p : Option Window)
          → lookup k l.windows ≡ p
          → str_eq r.key k ≡ true
          → ((l' : RateLimiter) (o' : Option Window)
              → l'.limit_per_minute ≡ pos (suc n)
              → l'.window ≡ width
              → lookup k l'.windows ≡ o'
              → let_through k (serve rs l') ≤ left (suc n) o')
          → let_through k (serve (r ∷ rs) l) ≤ left (suc n) p
      own_request none e t rest = at_new_window r rs l h w t (rw e refl) s
      own_request (some v) e t rest = elim (Bool-cases (leb width (r.at - v.window_start))) [
        | inl y ↦ ground (arith, at_new_window r rs l h w t (rw (e, w, y) refl) s)
        | inr z ↦
            let u : Window = record v { count = v.count + 1 } in
            let c = check-Own n k r.key r.at l v h t (rw (e, w, z) refl) in
            let i =
              rest (check r.key r.at l).1 (some u) ((check-limit r.key r.at l).0 ∙ h)
                ((check-limit r.key r.at l).1 ∙ w) c.0 in
            ground (arith, t, i, c.1)
      ]

  -- Whatever the limiter has counted before, of the requests that come within a span shorter than its
  -- window it lets through at most twice its limit for each key.
  pub serve-burst :
      (rs : List Arrival) (l : RateLimiter)
      → l.limit_per_minute ≡ pos (suc n)
      → l.window ≡ width
      → InSpan start width rs
      → let_through k (serve rs l) ≤ 2 * suc n
  serve-burst rs l h w s = elim (Option-cases (lookup k l.windows)) [
    | inl q ↦ ground (arith, serve-left rs l none h w q s)
    | inr (v, q) ↦ ground (arith, serve-left rs l (some v) h w q s)
  ]

  -- If the key has no window yet, it lets through at most the limit.
  pub serve-limited :
      (rs : List Arrival) (l : RateLimiter)
      → l.limit_per_minute ≡ pos (suc n)
      → l.window ≡ width
      → lookup k l.windows ≡ none
      → InSpan start width rs
      → let_through k (serve rs l) ≤ suc n
  serve-limited rs l h w q s = serve-left rs l none h w q s

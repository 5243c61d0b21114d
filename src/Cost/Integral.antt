-- ===== src/Cost/Integral.antt =====
-- The step integral of a series of worker counts is the sum of the counts in effect.
use agentic_cloud_pipeline_g.Prelude.{
  ℕ, zero, suc, ◌+◌, ◌-◌, ◌≤◌, ◌<◌, ◌≡◌, ◌∙◌, refl, ap, true, false, ◌⊎◌, Option, none, some, List,
  [], ◌∷◌, arith, leb, All, Bool-cases, inl, inr,
}
use agentic_cloud_pipeline_g.Prelude.Sorting.{sort_by, IsSorted, sort_by-IsSorted}
use agentic_cloud_pipeline_g.Cost.{
  Sample, is_earlier, count_at, charge, integrate_from, integrate_worker_seconds,
}

-- The sum of a function over `n` microseconds from `lo`.
abbrev pub area : (ℕ → ℕ) → ℕ → ℕ → ℕ
area f lo zero = 0
area f lo (suc n) = f lo + area f (lo + 1) n

-- The workers at a time.
abbrev pub level : List Sample → Option ℕ → ℕ → ℕ
level ss current t = charge (count_at t ss current) 1

pub area-cong :
    (f g : ℕ → ℕ) (n lo : ℕ)
    → ((t : ℕ) → lo ≤ t → t < lo + n → f t ≡ g t)
    → area f lo n ≡ area g lo n
area-cong f g zero lo h = refl
area-cong f g (suc n) lo h = omega (
  arith,
  h lo (omega arith) (omega arith),
  area-cong f g n (lo + 1) (λ t a b. h t (omega arith) (omega arith)),
)

pub area-split :
    (f : ℕ → ℕ) (m n k lo mid : ℕ)
    → lo + m ≡ mid
    → m + n ≡ k
    → area f lo k ≡ area f lo m + area f mid n
area-split f zero n k lo mid e i =
    let e' : mid ≡ lo = omega arith in let i' : k ≡ n = omega arith in rw (e', i') (omega arith)
area-split f (suc m) n zero lo mid e i = absurd (omega arith)
area-split f (suc m) n (suc k) lo mid e i =
    omega (arith, area-split f m n k (lo + 1) mid (omega arith) (omega arith))

area-charge : (o : Option ℕ) (n lo : ℕ) → area (λ t. charge o 1) lo n ≡ charge o n
area-charge none zero lo = refl
area-charge (some w) zero lo = omega arith
area-charge none (suc n) lo = omega (arith, area-charge none n (lo + 1))
area-charge (some w) (suc n) lo = grind (arith, area-charge (some w) n (lo + 1))

pub sort_by-IsSorted_samples : (ss : List Sample) → IsSorted is_earlier (sort_by is_earlier ss)
sort_by-IsSorted_samples =
    sort_by-IsSorted is_earlier (λ a b h. ground arith) (λ a b c h k. ground arith)

-- Before the first sample that is left the count does not change.
count_at-before :
    (t from : ℕ) (ss : List Sample) (o : Option ℕ)
    → t < from
    → All (λ s. leb from s.ts ≡ true) ss
    → count_at t ss o ≡ o
unfolding count_at
count_at-before t from [] o l h = refl
count_at-before t from (s ∷ ss) o l h = ground (arith, h.0, count_at-before t from ss o l h.1)

level-before :
    (t from : ℕ) (ss : List Sample) (o : Option ℕ)
    → t < from
    → All (λ s. leb from s.ts ≡ true) ss
    → level ss o t ≡ charge o 1
level-before t from ss o l h = ap (λ q. charge q 1) (count_at-before t from ss o l h)

module _ (s : Sample) (ss : List Sample) (o : Option ℕ) (t : ℕ) where
  level-later : t < s.ts → level (s ∷ ss) o t ≡ level ss o t
  unfolding count_at
  level-later h = ground arith

  level-since : s.ts ≤ t → level (s ∷ ss) o t ≡ level ss (some s.workers) t
  unfolding count_at
  level-since h = ground arith

-- The sum up to a sample, and from it on.
area-sample :
    (s : Sample) (ss : List Sample) (o : Option ℕ) (cursor hi : ℕ)
    → cursor ≤ s.ts
    → s.ts ≤ hi
    → All (λ r. leb s.ts r.ts ≡ true) ss
    → area (level (s ∷ ss) o) cursor (hi - cursor)
      ≡ charge o (s.ts - cursor) + area (level ss (some s.workers)) s.ts (hi - s.ts)
area-sample s ss o cursor hi a b q = omega (
  arith,
  area-split (level (s ∷ ss) o) (s.ts - cursor) (hi - s.ts) (hi - cursor) cursor s.ts (omega arith)
      (omega arith),
  area-cong (level (s ∷ ss) o) (λ t. charge o 1) (s.ts - cursor) cursor
      (λ t c d. level-later s ss o t (omega arith) ∙ level-before t s.ts ss o (omega arith) q),
  area-charge o (s.ts - cursor) cursor,
  area-cong (level (s ∷ ss) o) (level ss (some s.workers)) (hi - s.ts) s.ts
      (λ t c d. level-since s ss o t c),
)

-- The loop from a sample on, past the start of the window.
integrate_from-area :
    (lo hi cursor sum : ℕ) (ss : List Sample) (o : Option ℕ)
    → cursor ≤ hi
    → All (λ s. leb cursor s.ts ≡ true) ss
    → All (λ s. leb (lo + 1) s.ts ≡ true) ss
    → IsSorted is_earlier ss
    → integrate_from lo hi ss sum cursor o ≡ sum + area (level ss o) cursor (hi - cursor)
unfolding integrate_from count_at
integrate_from-area lo hi cursor sum [] o b c l q =
    omega (arith, area-charge o (hi - cursor) cursor)
integrate_from-area lo hi cursor sum (s ∷ ss) o b c l q = elim (Bool-cases (leb hi s.ts)) [
  | inl e ↦ ground (
    arith,
    e,
    integrate_from-area lo hi cursor sum ss o b c.1 l.1 q.1,
    area-cong (level (s ∷ ss) o) (level ss o) (hi - cursor) cursor
        (λ t f g. level-later s ss o t (ground arith)),
  )
  | inr e ↦ ground (
    arith,
    e,
    l.0,
    integrate_from-area lo hi s.ts (sum + charge o (s.ts - cursor)) ss (some s.workers)
        (ground arith) q.0 l.1 q.1,
    area-sample s ss o cursor hi (ground (arith, c.0)) (ground arith) q.0,
  )
]

All-from :
    (a b : ℕ) (ss : List Sample)
    → a ≤ b
    → All (λ s. leb b s.ts ≡ true) ss
    → All (λ s. leb a s.ts ≡ true) ss
All-from a b [] h l = tt
All-from a b (s ∷ ss) h l = (ground (arith, l.0), All-from a b ss h l.1)

integrate-past :
    (lo hi : ℕ) (ss : List Sample) (o : Option ℕ)
    → lo < hi
    → All (λ s. leb (lo + 1) s.ts ≡ true) ss
    → IsSorted is_earlier ss
    → integrate_from lo hi ss 0 lo (count_at lo ss o) ≡ area (level ss o) lo (hi - lo)
integrate-past lo hi ss o b l q = rw (count_at-before lo (lo + 1) ss o (omega arith) l) (
    omega (
      arith,
      integrate_from-area lo hi lo 0 ss o (omega arith) (All-from lo (lo + 1) ss (omega arith) l) l
          q,
    ))

-- The whole loop: samples up to the start of the window only set the count.
integrate-area :
    (lo hi : ℕ) (ss : List Sample) (o : Option ℕ)
    → lo < hi
    → IsSorted is_earlier ss
    → integrate_from lo hi ss 0 lo (count_at lo ss o) ≡ area (level ss o) lo (hi - lo)
unfolding integrate_from count_at
integrate-area lo hi [] o b q = omega (arith, area-charge o (hi - lo) lo)
integrate-area lo hi (s ∷ ss) o b q =
    split (Bool-cases (leb s.ts lo)) (integrate-area lo hi ss (some s.workers) b q.1)
  where
    split :
        (leb s.ts lo ≡ true) ⊎ (leb s.ts lo ≡ false)
        → integrate_from lo hi ss 0 lo (count_at lo ss (some s.workers))
          ≡ area (level ss (some s.workers)) lo (hi - lo)
        → integrate_from lo hi (s ∷ ss) 0 lo (count_at lo (s ∷ ss) o)
          ≡ area (level (s ∷ ss) o) lo (hi - lo)
    split (inr e) i =
        integrate-past lo hi (s ∷ ss) o b
          (ground arith, All-from (lo + 1) s.ts ss (ground arith) q.0) q
    split (inl e) i = ground (
      arith,
      e,
      i,
      area-cong (level (s ∷ ss) o) (level ss (some s.workers)) (hi - lo) lo
          (λ t f g. level-since s ss o t (ground arith)),
    )

-- Over any window, for samples in any order, the step integral is the sum over the microseconds of
-- the window of the count of the last sample at or before each of them, where a microsecond before
-- the first sample counts as none.
pub integrate_worker_seconds-area :
    (samples : List Sample) (lo hi : ℕ)
    → integrate_worker_seconds samples lo hi
      ≡ area (level (sort_by is_earlier samples) none) lo (hi - lo)
unfolding integrate_worker_seconds
integrate_worker_seconds-area samples lo hi = elim (Bool-cases (leb hi lo)) [
  | inl e ↦ let z : hi - lo ≡ 0 = ground arith in rw (e, z) refl
  | inr e ↦ rw e (
      integrate-area lo hi (sort_by is_earlier samples) none (ground arith)
        (sort_by-IsSorted_samples samples))
]

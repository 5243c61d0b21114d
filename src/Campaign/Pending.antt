-- ===== src/Campaign/Pending.antt =====
-- The arm that runs next is one with runs left, and there is none only if every arm is done.
use mathlib.Core.Path.{subst}
use agentic_cloud_pipeline_g.Prelude.{
  ℕ, ◌<◌, ◌≤◌, ◌≡◌, ◌≢◌, ◌∙◌, refl, sym, ◌⊎◌, inl, inr, Option, none, some, List, [], ◌∷◌, arith,
  ltb, if◌then◌else◌, length, All, Bool-cases, either_way,
}
use agentic_cloud_pipeline_g.Prelude.Sorting.{total}
use agentic_cloud_pipeline_g.Campaign.Runs.{Run, Arm}
use agentic_cloud_pipeline_g.Campaign.{
  CampaignConfig, Effects, Best, index_of, better, remaining, next_from, next_pending,
}

-- An arm is one of a list.
abbrev pub IsIn : Arm → List Arm → Type 0
IsIn a [] = ⊥
IsIn a (b ∷ bs) = (a ≡ b) ⊎ IsIn a bs

pub List-cases : {A : Type 0} (xs : List A) → (xs ≡ []) ⊎ ((r : A) × (rs : List A) × (xs ≡ r ∷ rs))
List-cases [] = inl refl
List-cases (r ∷ rs) = inr (r, rs, refl)

module _ {W : Type 0} (c : CampaignConfig) (e : Effects W) (w : W) where
  -- An arm of the campaign with its runs, of which there are some.
  abbrev pub IsNext : List Arm → Arm → List Run → Type 0
  IsNext arms a p = (p ≡ remaining c e a w) × (0 < length p) × IsIn a arms

  abbrev BestIsNext : List Arm → Option Best → Type 0
  BestIsNext arms none = Unit
  BestIsNext arms (some b) = IsNext arms b.arm b.pending

  abbrev FoundIsNext : List Arm → Option (Arm × List Run) → Type 0
  FoundIsNext arms none = Unit
  FoundIsNext arms (some (a, p)) = IsNext arms a p

  better-IsNext :
      (arms : List Arm) (o : Option Best) (b : Best)
      → BestIsNext arms o
      → IsNext arms b.arm b.pending
      → BestIsNext arms (some (better o b))
  unfolding better
  better-IsNext arms none b h n = n
  better-IsNext arms (some a) b h n = elim (Bool-cases (ltb b.position a.position)) [
    | inl t ↦ rw t n
    | inr f ↦ rw f h
  ]

  next_from-done :
      (o : Option Best) (a : Arm) (rest : List Arm)
      → remaining c e a w ≡ []
      → next_from c e w o (a ∷ rest) ≡ next_from c e w o rest
  unfolding next_from
  next_from-done none a rest q = rw (next_from, q) refl
  next_from-done (some b) a rest q = rw (next_from, q) refl

  abbrev found : Arm → Run → List Run → Best
  found a r rs = record { position = index_of r (e.runs a.profile); arm = a; pending = r ∷ rs }

  next_from-found :
      (o : Option Best) (a : Arm) (rest : List Arm) (r : Run) (rs : List Run)
      → remaining c e a w ≡ r ∷ rs
      → next_from c e w o (a ∷ rest) ≡ (
          if c.interleave
          then next_from c e w (some (better o (found a r rs))) rest
          else some (a, r ∷ rs))
  unfolding next_from
  next_from-found none a rest r rs q = rw (next_from, q) refl
  next_from-found (some b) a rest r rs q = rw (next_from, q) refl

  next_from-IsNext :
      (all : List Arm) (o : Option Best) (rest : List Arm)
      → All (λ a. IsIn a all) rest
      → BestIsNext all o
      → FoundIsNext all (next_from c e w o rest)
  unfolding next_from
  next_from-IsNext all none [] i h = tt
  next_from-IsNext all (some b) [] i h = h
  next_from-IsNext all o (a ∷ rest) i h = elim (List-cases (remaining c e a w)) [
    | inl q ↦
        subst (FoundIsNext all) (sym (next_from-done o a rest q))
          (next_from-IsNext all o rest i.1 h)
    | inr (r, rs, q) ↦
        let n : IsNext all a (r ∷ rs) = (sym q, omega arith, i.0) in
        let k =
          next_from-IsNext all (some (better o (found a r rs))) rest i.1
            (better-IsNext all o (found a r rs) h n) in
        subst (FoundIsNext all) (sym (next_from-found o a rest r rs q))
          (either_way (FoundIsNext all) c.interleave _ _ (λ t. k) (λ t. n))
  ]

  next_from-some : (b : Best) (rest : List Arm) → next_from c e w (some b) rest ≢ none
  unfolding next_from
  next_from-some b [] z = ground (arith, z)
  next_from-some b (a ∷ rest) z = elim (List-cases (remaining c e a w)) [
    | inl q ↦ next_from-some b rest (sym (next_from-done (some b) a rest q) ∙ z)
    | inr (r, rs, q) ↦ ground (
      arith,
      z,
      next_from-found (some b) a rest r rs q,
      next_from-some (better (some b) (found a r rs)) rest,
    )
  ]

  pub next_from-none :
      (rest : List Arm) → next_from c e w none rest ≡ none → All (λ a. remaining c e a w ≡ []) rest
  next_from-none [] z = tt
  next_from-none (a ∷ rest) z = elim (List-cases (remaining c e a w)) [
    | inl q ↦ (q, next_from-none rest (sym (next_from-done none a rest q) ∙ z))
    | inr (r, rs, q) ↦ absurd (
        ground (
          arith,
          z,
          next_from-found none a rest r rs q,
          next_from-some (better none (found a r rs)) rest,
        ))
  ]

All-IsIn : (arms : List Arm) → All (λ a. IsIn a arms) arms
All-IsIn arms = go arms arms (λ a h. h)
  where
    go : (all rest : List Arm) → ((a : Arm) → IsIn a rest → IsIn a all) → All (λ a. IsIn a all) rest
    go all [] f = tt
    go all (a ∷ rest) f = (f a (inl refl), go all rest (λ b h. f b (inr h)))

pub next_pending-IsNext :
    {W : Type 0} (c : CampaignConfig) (e : Effects W) (w : W) (a : Arm) (p : List Run)
    → next_pending c e w ≡ some (a, p)
    → IsNext c e w c.arms a p
unfolding next_pending
next_pending-IsNext c e w a p q =
    subst (FoundIsNext c e w c.arms) q
      (next_from-IsNext c e w c.arms none c.arms (All-IsIn c.arms) tt)

pub next_pending-none :
    {W : Type 0} (c : CampaignConfig) (e : Effects W) (w : W)
    → next_pending c e w ≡ none
    → All (λ a. remaining c e a w ≡ []) c.arms
unfolding next_pending
next_pending-none c e w q = next_from-none c e w c.arms q

pub total-leq :
    (f g : Arm → ℕ) (arms : List Arm) → ((b : Arm) → f b ≤ g b) → total f arms ≤ total g arms
total-leq f g [] le = omega arith
total-leq f g (b ∷ bs) le = omega (arith, le b, total-leq f g bs le)

-- If no count grows and that of one arm falls, the sum falls.
pub total-less :
    (f g : Arm → ℕ) (a : Arm) (arms : List Arm)
    → ((b : Arm) → f b ≤ g b)
    → f a < g a
    → IsIn a arms
    → total f arms < total g arms
total-less f g a [] le l i = absurd i
total-less f g a (b ∷ bs) le l (inl q) =
    let r : f b < g b = subst (λ x. f x < g x) q l in omega (arith, r, total-leq f g bs le)
total-less f g a (b ∷ bs) le l (inr i) = omega (arith, le b, total-less f g a bs le l i)

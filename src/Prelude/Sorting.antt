-- ===== src/Prelude/Sorting.antt =====
-- Python's `sorted` with a key: stable, by insertion. `le a b` is the test that the key of `a` is
-- at most that of `b`.
use Prim.Native.Nat.{ℕ, ◌+◌}
use mathlib.Core.Path.{◌≡◌, refl}
use mathlib.Core.Bool.{Bool, true, false}
use mathlib.Core.List.{List, [], ◌∷◌, ◌++◌}
use native.Mathlib.Omega.{arith}
use agentic_cloud_pipeline_g.Prelude.Tests.{if◌then◌else◌, Bool-cases}
use agentic_cloud_pipeline_g.Prelude.Lists.{count, select, All, All-select}
use mathlib.Core.Logic.{inl, inr}

-- The sum of what a function gives on the elements.
abbrev pub total {ℓ} : {A : Type ℓ} → (A → ℕ) → List A → ℕ
total f [] = 0
total f (x ∷ xs) = f x + total f xs

pub total-append {ℓ} :
    {A : Type ℓ} (f : A → ℕ) (xs ys : List A) → total f (xs ++ ys) ≡ total f xs + total f ys
total-append f [] ys = omega arith
total-append f (x ∷ xs) ys = omega (arith, total-append f xs ys)

module _ {ℓ} {A : Type ℓ} (le : A → A → Bool) where
  insert_sorted : A → List A → List A
  insert_sorted a [] = a ∷ []
  insert_sorted a (x ∷ xs) = if le a x then a ∷ x ∷ xs else x ∷ insert_sorted a xs

  unfoldable pub sort_by : List A → List A
  unfolding insert_sorted
  sort_by [] = []
  sort_by (x ∷ xs) = insert_sorted x (sort_by xs)

  -- Every element is at most all that follow it.
  abbrev pub IsSorted : List A → Type 0
  IsSorted [] = Unit
  IsSorted (x ∷ xs) = All (λ y. le x y ≡ true) xs × IsSorted xs

  count-insert_sorted :
      (p : A → Bool) (a : A) (xs : List A) → count p (insert_sorted a xs) ≡ count p (a ∷ xs)
  unfolding insert_sorted
  count-insert_sorted p a [] = refl
  count-insert_sorted p a (x ∷ xs) = ground (arith, count-insert_sorted p a xs)

  -- The sort keeps how many elements pass any test.
  pub count-sort_by : (p : A → Bool) (xs : List A) → count p (sort_by xs) ≡ count p xs
  unfolding sort_by
  count-sort_by p [] = refl
  count-sort_by p (x ∷ xs) =
      ground (arith, count-insert_sorted p x (sort_by xs), count-sort_by p xs)

  total-insert_sorted :
      (f : A → ℕ) (a : A) (xs : List A) → total f (insert_sorted a xs) ≡ total f (a ∷ xs)
  unfolding insert_sorted
  total-insert_sorted f a [] = refl
  total-insert_sorted f a (x ∷ xs) = ground (arith, total-insert_sorted f a xs)

  -- The sort keeps the sum.
  pub total-sort_by : (f : A → ℕ) (xs : List A) → total f (sort_by xs) ≡ total f xs
  unfolding sort_by
  total-sort_by f [] = refl
  total-sort_by f (x ∷ xs) =
      ground (arith, total-insert_sorted f x (sort_by xs), total-sort_by f xs)

  All-insert_sorted {κ} :
      (P : A → Type κ) (a : A) (xs : List A) → P a → All P xs → All P (insert_sorted a xs)
  unfolding insert_sorted
  All-insert_sorted P a [] pa h = (pa, tt)
  All-insert_sorted P a (x ∷ xs) pa h = elim (Bool-cases (le a x)) [
    | inl e ↦ rw e (pa, h)
    | inr e ↦ rw e (h.0, All-insert_sorted P a xs pa h.1)
  ]

  pub All-sort_by {κ} : (P : A → Type κ) (xs : List A) → All P xs → All P (sort_by xs)
  unfolding sort_by
  All-sort_by P [] h = tt
  All-sort_by P (x ∷ xs) h = All-insert_sorted P x (sort_by xs) h.0 (All-sort_by P xs h.1)

  -- A list in order is left as it is.
  pub sort_by-sorted : (xs : List A) → IsSorted xs → sort_by xs ≡ xs
  unfolding sort_by insert_sorted
  sort_by-sorted [] h = refl
  sort_by-sorted (x ∷ []) h = refl
  sort_by-sorted (x ∷ y ∷ ys) h = rw (sort_by-sorted (y ∷ ys) h.1) (rw h.0.0 refl)

  -- What a filter leaves of a list in order is in order.
  pub select-IsSorted : (p : A → Bool) (xs : List A) → IsSorted xs → IsSorted (select p xs)
  select-IsSorted p [] h = tt
  select-IsSorted p (x ∷ xs) h = elim (Bool-cases (p x)) [
    | inl e ↦ rw e (All-select (λ y. le x y ≡ true) p xs h.0, select-IsSorted p xs h.1)
    | inr e ↦ rw e (select-IsSorted p xs h.1)
  ]

  module _ (total : (a b : A) → le a b ≡ false → le b a ≡ true)
      (trans : (a b c : A) → le a b ≡ true → le b c ≡ true → le a c ≡ true) where
    All-le_trans :
        (a x : A) (xs : List A)
        → le a x ≡ true
        → All (λ y. le x y ≡ true) xs
        → All (λ y. le a y ≡ true) xs
    All-le_trans a x [] e h = tt
    All-le_trans a x (y ∷ ys) e h = (trans a x y e h.0, All-le_trans a x ys e h.1)

    insert_sorted-IsSorted : (a : A) (xs : List A) → IsSorted xs → IsSorted (insert_sorted a xs)
    unfolding insert_sorted
    insert_sorted-IsSorted a [] h = (tt, tt)
    insert_sorted-IsSorted a (x ∷ xs) h = elim (Bool-cases (le a x)) [
      | inl e ↦ rw e ((e, All-le_trans a x xs e h.0), h)
      | inr e ↦ rw e (
        All-insert_sorted (λ y. le x y ≡ true) a xs (total a x e) h.0,
        insert_sorted-IsSorted a xs h.1,
      )
    ]

    pub sort_by-IsSorted : (xs : List A) → IsSorted (sort_by xs)
    unfolding sort_by
    sort_by-IsSorted [] = tt
    sort_by-IsSorted (x ∷ xs) = insert_sorted-IsSorted x (sort_by xs) (sort_by-IsSorted xs)

    insert_sorted-least :
        (a : A) (ys : List A) → All (λ y. le a y ≡ true) ys → insert_sorted a ys ≡ a ∷ ys
    unfolding insert_sorted
    insert_sorted-least a [] h = refl
    insert_sorted-least a (y ∷ ys) h = rw (h.0) refl

    select-insert_sorted :
        (p : A → Bool) (a : A) (xs : List A)
        → IsSorted xs
        → select p (insert_sorted a xs)
          ≡ (if p a then insert_sorted a (select p xs) else select p xs)
    unfolding insert_sorted
    select-insert_sorted p a [] h = ground arith
    select-insert_sorted p a (x ∷ xs) h = elim (Bool-cases (le a x)) [
      | inl e ↦
          rw (insert_sorted, e)
            (ground (
              arith,
              insert_sorted-least a (select p (x ∷ xs))
                  (All-select (λ y. le a y ≡ true) p (x ∷ xs) (e, All-le_trans a x xs e h.0)),
            ))
      | inr e ↦ elim (Bool-cases (p x)) [
        | inl t ↦ ground (arith, e, t, select-insert_sorted p a xs h.1)
        | inr f ↦ ground (arith, e, f, select-insert_sorted p a xs h.1)
      ]
    ]

    -- A filter before the sort gives what the filter after it gives.
    pub select-sort_by :
        (p : A → Bool) (xs : List A) → select p (sort_by xs) ≡ sort_by (select p xs)
    unfolding sort_by
    select-sort_by p [] = refl
    select-sort_by p (x ∷ xs) =
        ground
          (arith, select-insert_sorted p x (sort_by xs) (sort_by-IsSorted xs), select-sort_by p xs)

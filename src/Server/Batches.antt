-- ===== src/Server/Batches.antt =====
-- Rows in the order of the export, and what is left of them after a batch.
use agentic_cloud_pipeline_g.Prelude.{
  ℕ, zero, suc, ◌≤◌, ◌<◌, Bool, ◌≡◌, refl, ap, true, false, ◌&&◌, Option, none, some, List, [], ◌∷◌,
  ◌++◌, arith, ◌==◌, length, select, count, All, Bool-cases, inl, inr,
}
use agentic_cloud_pipeline_g.Prelude.Sorting.{sort_by, IsSorted, sort_by-IsSorted}
use agentic_cloud_pipeline_g.Server.{AuditRow, row_order, is_after, take, cursor_after}

module _ {V : Type 0} where
  abbrev pub has_id : ℕ → AuditRow V → Bool
  has_id i r = r.action_id == i

  -- No two rows have one id: the table's primary key.
  abbrev pub IsKeyed : List (AuditRow V) → Type 0
  IsKeyed table = (i : ℕ) → count (has_id i) table ≤ 1

  abbrev pub drop : ℕ → List (AuditRow V) → List (AuditRow V)
  drop zero rs = rs
  drop (suc n) [] = []
  drop (suc n) (r ∷ rs) = drop n rs

  pub take-drop : (n : ℕ) (rs : List (AuditRow V)) → take n rs ++ drop n rs ≡ rs
  unfolding take
  take-drop zero rs = refl
  take-drop (suc n) [] = refl
  take-drop (suc n) (r ∷ rs) = ap (λ xs. r ∷ xs) (take-drop n rs)

  pub take-whole : (n : ℕ) (rs : List (AuditRow V)) → length (take n rs) < n → take n rs ≡ rs
  unfolding take
  take-whole zero rs h = absurd (omega (arith, h))
  take-whole (suc n) [] h = refl
  take-whole (suc n) (r ∷ rs) h = ap (λ xs. r ∷ xs) (take-whole n rs (omega (arith, h)))

  pub length-drop : (n : ℕ) (rs : List (AuditRow V)) → length (drop n rs) ≤ length rs
  length-drop zero rs = omega arith
  length-drop (suc n) [] = omega arith
  length-drop (suc n) (r ∷ rs) = omega (arith, length-drop n rs)

  pub select-narrow :
      (p q : AuditRow V → Bool) (rs : List (AuditRow V))
      → ((r : AuditRow V) → p r ≡ true → q r ≡ true)
      → select p (select q rs) ≡ select p rs
  select-narrow p q [] h = refl
  select-narrow p q (r ∷ rs) h = ground (arith, h r, select-narrow p q rs h)

  pub select-both :
      (p q : AuditRow V → Bool) (rs : List (AuditRow V))
      → select (λ r. p r && q r) rs ≡ select q (select p rs)
  select-both p q [] = refl
  select-both p q (r ∷ rs) = ground (arith, select-both p q rs)

  pub count-select :
      (p q : AuditRow V → Bool) (rs : List (AuditRow V)) → count p (select q rs) ≤ count p rs
  count-select p q [] = omega arith
  count-select p q (r ∷ rs) = ground (arith, count-select p q rs)

  pub sort_by-IsSorted_rows : (rs : List (AuditRow V)) → IsSorted row_order (sort_by row_order rs)
  sort_by-IsSorted_rows =
      sort_by-IsSorted row_order (λ a b h. ground arith) (λ a b d h k. ground arith)

  -- Every row comes after those before it.
  abbrev pub key_of : AuditRow V → Option (ℕ × ℕ)
  key_of r = some (r.ts, r.action_id)

  abbrev pub IsStrict : List (AuditRow V) → Type 0
  IsStrict [] = Unit
  IsStrict (r ∷ rs) = All (λ s. is_after (key_of r) s ≡ true) rs × IsStrict rs

  All-after :
      (r : AuditRow V) (rs : List (AuditRow V))
      → All (λ s. row_order r s ≡ true) rs
      → count (has_id r.action_id) rs ≡ 0
      → All (λ s. is_after (key_of r) s ≡ true) rs
  unfolding is_after
  All-after r [] h z = tt
  All-after r (s ∷ rs) h z = (ground (arith, h.0, z), All-after r rs h.1 (ground (arith, z)))

  pub sorted-IsStrict : (rs : List (AuditRow V)) → IsSorted row_order rs → IsKeyed rs → IsStrict rs
  sorted-IsStrict [] h k = tt
  sorted-IsStrict (r ∷ rs) h k = (
    All-after r rs h.0 (ground (arith, k r.action_id)),
    sorted-IsStrict rs h.1 (λ i. ground (arith, k i)),
  )

  -- What holds of the keys of all rows holds of the key of the last one of a batch.
  pub cursor-All :
      (Q : ℕ × ℕ → Type 0) (n : ℕ) (r : AuditRow V) (rs : List (AuditRow V))
      → Q (r.ts, r.action_id)
      → All (λ s. Q (s.ts, s.action_id)) rs
      → Q (cursor_after r (take n rs))
  unfolding cursor_after take
  cursor-All Q zero r rs q h = q
  cursor-All Q (suc n) r [] q h = q
  cursor-All Q (suc n) r (s ∷ rs) q h = cursor-All Q n s rs h.0 h.1

  pub after_trans :
      (o : Option (ℕ × ℕ)) (s x : AuditRow V)
      → is_after o s ≡ true
      → is_after (key_of s) x ≡ true
      → is_after o x ≡ true
  unfolding is_after
  after_trans none s x h k = refl
  after_trans (some (t, i)) s x h k = ground (arith, h, k)

  after_asym : (r s : AuditRow V) → is_after (key_of r) s ≡ true → is_after (key_of s) r ≡ false
  unfolding is_after
  after_asym r s h = ground (arith, h)

  after_irrefl : (r : AuditRow V) → is_after (key_of r) r ≡ false
  unfolding is_after
  after_irrefl r = ground arith

  All-asym :
      (r : AuditRow V) (rs : List (AuditRow V))
      → All (λ s. is_after (key_of r) s ≡ true) rs
      → All (λ s. is_after (key_of s) r ≡ false) rs
  All-asym r [] h = tt
  All-asym r (s ∷ rs) h = (after_asym r s h.0, All-asym r rs h.1)

  pub select-all :
      (p : AuditRow V → Bool) (rs : List (AuditRow V)) → All (λ s. p s ≡ true) rs → select p rs ≡ rs
  select-all p [] h = refl
  select-all p (r ∷ rs) h = rw (h.0) (ap (λ xs. r ∷ xs) (select-all p rs h.1))

  pub All-selected :
      (p : AuditRow V → Bool) (rs : List (AuditRow V)) → All (λ s. p s ≡ true) (select p rs)
  All-selected p [] = tt
  All-selected p (r ∷ rs) = elim (Bool-cases (p r)) [
    | inl t ↦ rw t (t, All-selected p rs)
    | inr f ↦ rw f (All-selected p rs)
  ]

  pub drop-IsStrict : (n : ℕ) (rs : List (AuditRow V)) → IsStrict rs → IsStrict (drop n rs)
  drop-IsStrict zero rs h = h
  drop-IsStrict (suc n) [] h = h
  drop-IsStrict (suc n) (r ∷ rs) h = drop-IsStrict n rs h.1

  -- After the cursor of a batch come the rows that are left.
  pub select-cursor :
      (n : ℕ) (r : AuditRow V) (rs : List (AuditRow V))
      → IsStrict (r ∷ rs)
      → select (is_after (some (cursor_after r (take n rs)))) (r ∷ rs) ≡ drop n rs
  unfolding cursor_after take
  select-cursor zero r rs h = rw (after_irrefl r) (select-all (is_after (key_of r)) rs h.0)
  select-cursor (suc n) r [] h = rw (after_irrefl r) refl
  select-cursor (suc n) r (s ∷ rs) h =
      rw
        (cursor-All (λ k. is_after (some k) r ≡ false) n s rs (after_asym r s h.0.0)
          (All-asym r rs h.0.1))
        (select-cursor n s rs h.1)

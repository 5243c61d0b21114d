-- ===== src/Server/Export.antt =====
-- The export in batches gives the whole filtered table in order.
use mathlib.Core.Path.{subst}
use agentic_cloud_pipeline_g.Prelude.{
  ℕ, zero, suc, ◌<◌, ◌≡◌, ◌∙◌, refl, sym, ap, true, Option, none, some, List, [], ◌∷◌, arith, ltb,
  length, select, All, Bool-cases, inl, inr,
}
use agentic_cloud_pipeline_g.Prelude.Sorting.{sort_by, select-sort_by, count-sort_by}
use agentic_cloud_pipeline_g.Server.{
  AuditRow, Filter, row_order, is_wanted, is_after, take, fetch_batch, cursor_after, yield_batch,
  audit_rows_paginated,
}
use agentic_cloud_pipeline_g.Server.Batches.{
  has_id, IsKeyed, drop, key_of, IsStrict, take-whole, take-drop, length-drop, select-narrow,
  select-both, count-select, sort_by-IsSorted_rows, sorted-IsStrict, cursor-All, after_trans,
  select-all, All-selected, drop-IsStrict, select-cursor,
}

module _ {V : Type 0} where
  fetch_batch_lem :
      (size : ℕ) (q : Filter) (o : Option (ℕ × ℕ)) (table : List (AuditRow V))
      → fetch_batch size q o table
        ≡ take size (select (is_after o) (sort_by row_order (select (is_wanted q) table)))
  unfolding fetch_batch
  fetch_batch_lem size q o table = ap (take size) (
      ap (sort_by row_order) (select-both (is_wanted q) (is_after o) table)
      ∙ sym (
          select-sort_by row_order (λ a b h. ground arith) (λ a b d h k. ground arith) (is_after o)
            (select (is_wanted q) table)))

  module _ (size : ℕ) (q : Filter) (table : List (AuditRow V)) where
    abbrev wanted : List (AuditRow V)
    wanted = sort_by row_order (select (is_wanted q) table)

    yield_batch_lem :
        (n : ℕ) (r : AuditRow V) (rs : List (AuditRow V))
        (more : ℕ × ℕ → Option (List (AuditRow V)))
        → more (cursor_after r (take n rs)) ≡ some (drop n rs)
        → yield_batch (suc n) (r ∷ take n rs) more ≡ some (r ∷ rs)
    unfolding yield_batch
    yield_batch_lem n r rs more h = elim (Bool-cases (ltb (length (r ∷ take n rs)) (suc n))) [
      | inl t ↦ rw t (ap (λ xs. some (r ∷ xs)) (take-whole n rs (ground (arith, t))))
      | inr f ↦ rw (f, h) (ap (λ xs. some (r ∷ xs)) (take-drop n rs))
    ]

    -- A row after the last one of a batch is after every cursor that the batch is after.
    cursor_mono :
        (n : ℕ) (o : Option (ℕ × ℕ)) (r : AuditRow V) (rs : List (AuditRow V))
        → All (λ s. is_after o s ≡ true) (r ∷ rs)
        → (x : AuditRow V) → is_after (some (cursor_after r (take n rs))) x ≡ true
        → is_after o x ≡ true
    cursor_mono n o r rs h =
        cursor-All (λ k. (x : AuditRow V) → is_after (some k) x ≡ true → is_after o x ≡ true) n r rs
          (λ x. after_trans o r x h.0) (go rs h.1)
      where
        go :
            (ss : List (AuditRow V))
            → All (λ s. is_after o s ≡ true) ss
            → All (λ s. (x : AuditRow V) → is_after (key_of s) x ≡ true → is_after o x ≡ true) ss
        go [] a = tt
        go (s ∷ ss) a = (λ x. after_trans o s x a.0, go ss a.1)

    paginated_from :
        (fuel : ℕ) (o : Option (ℕ × ℕ)) (rest : List (AuditRow V))
        → 0 < size
        → length rest < fuel
        → IsStrict rest
        → select (is_after o) wanted ≡ rest
        → audit_rows_paginated fuel size q o table ≡ some rest
    unfolding audit_rows_paginated take yield_batch
    paginated_from zero o rest b f h e = absurd (omega (arith, f))
    paginated_from (suc fuel) o rest b f h e =
        ap
          (λ rows.
            yield_batch size rows (λ last. audit_rows_paginated fuel size q (some last) table))
          (fetch_batch_lem size q o table ∙ ap (take size) e)
        ∙ go size rest b f h e (λ l. paginated_from fuel (some l))
      where
        go :
            (k : ℕ) (suf : List (AuditRow V))
            → 0 < k
            → length suf < suc fuel
            → IsStrict suf
            → select (is_after o) wanted ≡ suf
            → ((l : ℕ × ℕ) (later : List (AuditRow V))
                → 0 < size
                → length later < fuel
                → IsStrict later
                → select (is_after (some l)) wanted ≡ later
                → audit_rows_paginated fuel size q (some l) table ≡ some later)
            → yield_batch k
                (take k suf)
                (λ last. audit_rows_paginated fuel size q (some last) table)
              ≡ some suf
        go zero suf c l s i next = absurd (omega (arith, c))
        go (suc n) [] c l s i next = refl
        go (suc n) (r ∷ rs) c l s i next =
            let last = cursor_after r (take n rs) in
            yield_batch_lem n r rs (λ k. audit_rows_paginated fuel size q (some k) table)
              (next last (drop n rs) b (omega (arith, l, length-drop n rs)) (drop-IsStrict n rs s.1)
                (sym (
                    select-narrow (is_after (some last)) (is_after o) wanted (
                      cursor_mono n o r rs (
                        subst (All (λ x. is_after o x ≡ true)) i
                          (All-selected (is_after o) wanted))))
                  ∙ ap (select (is_after (some last))) i
                  ∙ select-cursor n r rs s))

    -- On a table with one row for each id that does not change meanwhile, with batches that are not
    -- empty, the export is over after at most one batch more than there are rows that the filter
    -- wants, and has yielded exactly those rows, once each, in the order of their times and ids.
    pub audit_rows_paginated-sorted :
        (fuel : ℕ)
        → 0 < size
        → length wanted < fuel
        → IsKeyed table
        → audit_rows_paginated fuel size q none table ≡ some wanted
    unfolding is_after
    audit_rows_paginated-sorted fuel b f k =
        paginated_from fuel none wanted b f
          (sorted-IsStrict wanted (sort_by-IsSorted_rows (select (is_wanted q) table)) (λ i.
            ground (
              arith,
              k i,
              count-sort_by row_order (has_id i) (select (is_wanted q) table),
              count-select (has_id i) (is_wanted q) table,
            )))
          (select-all (is_after none) wanted (everything wanted))
      where
        everything : (rs : List (AuditRow V)) → All (λ s. is_after none s ≡ true) rs
        everything [] = tt
        everything (r ∷ rs) = (refl, everything rs)

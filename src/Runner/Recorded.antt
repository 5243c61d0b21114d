-- ===== src/Runner/Recorded.antt =====
-- The rows of one run in raw.csv: what a rewrite and an append change of them.
use mathlib.Core.List.{append-nil}
use agentic_cloud_pipeline_g.Prelude.{
  ℕ, String, ◌≡◌, ◌≢◌, ◌∙◌, refl, Bool, true, false, Option, none, some, List, [], ◌∷◌, ◌++◌, take,
  str_eq, select, select-append, select-none, select-all, select-disjoint, select-within, All,
  All-take, arith, eq_iff,
}
use agentic_cloud_pipeline_g.Prelude.Dict.{Dict}
use agentic_cloud_pipeline_g.Campaign.Runs.{Run}
use agentic_cloud_pipeline_g.Runner.{
  Row, csv_header, is_kept, drop_run_rows, opened, Conditions, id_of, metric_rows,
}

abbrev pub is_row_of : String → Row → Bool
is_row_of id [] = false
is_row_of id (cell ∷ cells) = str_eq cell id

-- The rows of a run below the header.
abbrev pub rows_of : String → Option (List Row) → List Row
rows_of id none = []
rows_of id (some []) = []
rows_of id (some (header ∷ rows)) = select (is_row_of id) rows

-- There is no file, or one with a first row.
abbrev pub IsHeaded : Option (List Row) → Type 0
IsHeaded none = Unit
IsHeaded (some []) = ⊥
IsHeaded (some (header ∷ rows)) = header ≡ csv_header

kept_of_other :
    (id run : String) → id ≢ run → (r : Row) → is_row_of id r ≡ true → is_kept run r ≡ true
kept_of_other id run n [] h = h
kept_of_other id run n (cell ∷ cells) h = ground (arith, n, eq_iff cell id, eq_iff cell run)

kept_of_self : (run : String) (r : Row) → is_kept run r ≡ true → is_row_of run r ≡ false
kept_of_self run [] h = refl
kept_of_self run (cell ∷ cells) h = ground arith

module _ {V : Type 0} (c : Conditions V) (r : Run) (seed : ℕ) where
  metric_rows-own :
      (m : Dict V) → All (λ row. is_row_of (id_of c r) row ≡ true) (metric_rows c r seed m)
  unfolding metric_rows
  metric_rows-own [] = tt
  metric_rows-own (x ∷ m) = (ground (arith, eq_iff (id_of c r) (id_of c r)), metric_rows-own m)

  metric_rows-foreign :
      (id : String)
      → id ≢ id_of c r
      → (m : Dict V) → All (λ row. is_row_of id row ≡ false) (metric_rows c r seed m)
  unfolding metric_rows
  metric_rows-foreign id n [] = tt
  metric_rows-foreign id n (x ∷ m) =
      (ground (arith, n, eq_iff (id_of c r) id), metric_rows-foreign id n m)

  -- A rewrite for this run and an append of rows of it.
  abbrev pub rewritten : Option (List Row) → List Row → Option (List Row)
  rewritten raw rows = some (opened (drop_run_rows (id_of c r) raw) ++ rows)

  rows_of-rewritten :
      (id : String) (raw : Option (List Row)) (rows : List Row)
      → IsHeaded raw
      → rows_of id (rewritten raw rows)
        ≡ rows_of id (drop_run_rows (id_of c r) raw) ++ select (is_row_of id) rows
  unfolding drop_run_rows
  rows_of-rewritten id none rows h = refl
  rows_of-rewritten id (some []) rows h = absurd h
  rows_of-rewritten id (some (header ∷ old)) rows h =
      select-append (is_row_of id) (select (is_kept (id_of c r)) old) rows

  rows_of-dropped :
      (id : String) (raw : Option (List Row))
      → id ≢ id_of c r
      → rows_of id (drop_run_rows (id_of c r) raw) ≡ rows_of id raw
  unfolding drop_run_rows
  rows_of-dropped id none n = refl
  rows_of-dropped id (some []) n = refl
  rows_of-dropped id (some (header ∷ old)) n =
      select-within (is_row_of id) (is_kept (id_of c r)) (kept_of_other id (id_of c r) n) old

  rows_of-dropped_self :
      (raw : Option (List Row)) → rows_of (id_of c r) (drop_run_rows (id_of c r) raw) ≡ []
  unfolding drop_run_rows
  rows_of-dropped_self none = refl
  rows_of-dropped_self (some []) = refl
  rows_of-dropped_self (some (header ∷ old)) =
      select-disjoint (is_row_of (id_of c r)) (is_kept (id_of c r)) (kept_of_self (id_of c r)) old

  -- The rows of another run are as before, however many rows of this one get written.
  pub rows_of-other :
      (id : String) (raw : Option (List Row)) (n : ℕ) (m : Dict V)
      → IsHeaded raw
      → id ≢ id_of c r
      → rows_of id (rewritten raw (take n (metric_rows c r seed m))) ≡ rows_of id raw
  rows_of-other id raw n m h k =
      rows_of-rewritten id raw (take n (metric_rows c r seed m)) h
      ∙ rw
          (
            rows_of-dropped id raw k,
            select-none (is_row_of id) (take n (metric_rows c r seed m))
                (All-take _ n (metric_rows c r seed m) (metric_rows-foreign id k m)),
          )
          (append-nil (rows_of id raw))

  -- The rows of this run are those that are written, and no others.
  pub rows_of_self :
      (raw : Option (List Row)) (m : Dict V)
      → IsHeaded raw
      → rows_of (id_of c r) (rewritten raw (metric_rows c r seed m)) ≡ metric_rows c r seed m
  rows_of_self raw m h =
      rows_of-rewritten (id_of c r) raw (metric_rows c r seed m) h
      ∙ rw (rows_of-dropped_self raw)
          (select-all (is_row_of (id_of c r)) (metric_rows c r seed m) (metric_rows-own m))

  pub rewritten-IsHeaded :
      (raw : Option (List Row)) (rows : List Row) → IsHeaded raw → IsHeaded (rewritten raw rows)
  unfolding drop_run_rows
  rewritten-IsHeaded none rows h = refl
  rewritten-IsHeaded (some []) rows h = absurd h
  rewritten-IsHeaded (some (header ∷ old)) rows h = h

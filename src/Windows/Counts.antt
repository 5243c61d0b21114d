-- ===== src/Windows/Counts.antt =====
-- No event is lost or counted twice by the windows.
use agentic_cloud_pipeline_g.Prelude.{
  ℕ, ◌+◌, String, ◌≡◌, refl, not, List, [], ◌∷◌, ◌++◌, arith, eq_iff, str_eq, if◌then◌else◌, select,
}
use agentic_cloud_pipeline_g.Prelude.Sorting.{sort_by, total, total-sort_by}
use agentic_cloud_pipeline_g.Windows.{
  WindowState, StreamEvent, Op, arrived, advanced, add_value, new_cell, is_cell_of, add, in_order,
  is_done, flush, aggregate,
}

-- How many events of a key a window has counted.
abbrev pub of_key : {V : Type 0} → String → WindowState V → ℕ
of_key k c = if str_eq c.key k then c.count else 0

abbrev pub counted : {V : Type 0} → String → List (WindowState V) → ℕ
counted k = total (of_key k)

abbrev pub arrivals : {V : Type 0} → String → List (Op V) → ℕ
arrivals k [] = 0
arrivals k (arrived v ∷ ops) = (if str_eq v.key k then 1 else 0) + arrivals k ops
arrivals k (advanced t ∷ ops) = arrivals k ops

counted-append :
    {V : Type 0} (k : String) (cs ds : List (WindowState V))
    → counted k (cs ++ ds) ≡ counted k cs + counted k ds
counted-append k [] ds = omega arith
counted-append k (c ∷ cs) ds = omega (arith, counted-append k cs ds)

counted-select :
    {V : Type 0} (k : String) (t : ℕ) (cs : List (WindowState V))
    → counted k (select (is_done t) cs) + counted k (select (λ c. not (is_done t c)) cs)
      ≡ counted k cs
counted-select k t [] = refl
counted-select k t (c ∷ cs) = ground (arith, counted-select k t cs)

module _ {V : Type 0} (zero : V) (plus : V → V → V) (width : ℕ) where
  counted-add :
      (k : String) (v : StreamEvent V) (cs : List (WindowState V))
      → counted k (add zero plus width v cs) ≡ (if str_eq v.key k then 1 else 0) + counted k cs
  unfolding add add_value new_cell is_cell_of
  counted-add k v [] = ground arith
  counted-add k v (c ∷ cs) =
      ground (arith, counted-add k v cs, eq_iff c.key v.key, eq_iff c.key k, eq_iff v.key k)

  -- Whatever events arrive and however the watermark moves, for each key the flushed windows and
  -- those that are open at the end have together counted the events that arrived, and those that
  -- were open at the start: none is dropped and none is counted twice.
  pub aggregate-counted :
      (k : String) (ops : List (Op V)) (cs : List (WindowState V))
      → let (flushed, rest) = aggregate zero plus width ops cs in
        counted k flushed + counted k rest ≡ arrivals k ops + counted k cs
  unfolding aggregate flush
  aggregate-counted k [] cs = refl
  aggregate-counted k (arrived v ∷ ops) cs =
      omega (arith, aggregate-counted k ops (add zero plus width v cs), counted-add k v cs)
  aggregate-counted k (advanced t ∷ ops) cs = omega (
    arith,
    aggregate-counted k ops (select (λ c. not (is_done t c)) cs),
    counted-append k (sort_by in_order (select (is_done t) cs))
        (aggregate zero plus width ops (select (λ c. not (is_done t c)) cs)).0,
    total-sort_by in_order (of_key k) (select (is_done t) cs),
    counted-select k t cs,
  )

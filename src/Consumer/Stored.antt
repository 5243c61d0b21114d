-- ===== src/Consumer/Stored.antt =====
-- What an upsert adds to the table, and what an event and a flush do to the open windows.
use agentic_cloud_pipeline_g.Prelude.{
  ℕ, ◌+◌, ◌*◌, ◌≤◌, ◌<◌, String, ◌≡◌, ◌∙◌, refl, Bool, not, ◌&&◌, some, List, [], ◌∷◌, ◌++◌, ◌==◌,
  leb, str_eq, if◌then◌else◌, count, select, All, count-append, either_way, arith, eq_iff,
}
use agentic_cloud_pipeline_g.Prelude.Sorting.{total, total-append}
use agentic_cloud_pipeline_g.Windows.{
  WindowState, StreamEvent, window_start, one_second, add_value, new_cell, is_cell_of, add, is_done,
}
use agentic_cloud_pipeline_g.Consumer.{
  Aggregate, same_run, conflicts, upsert, SessionConfig, Step, took, woke, row_of, write,
}

module _ {V : Type 0} (c : SessionConfig V) (run : String) where
  -- A window of a key: an open cell of it, and a row of it that this session writes.
  abbrev pub is_at : String → ℕ → WindowState V → Bool
  is_at k t cell = str_eq cell.key k && cell.start == t

  abbrev pub row_at : String → ℕ → Aggregate V → Bool
  row_at k t r =
      str_eq r.pipeline_id c.pipeline_id
      && (str_eq r.agg_key k && (r.window_start == t && same_run r.experiment_run (some run)))

  abbrev pub in_cell : String → ℕ → WindowState V → ℕ
  in_cell k t cell = if is_at k t cell then cell.count else 0

  abbrev pub in_row : String → ℕ → Aggregate V → ℕ
  in_row k t r = if row_at k t r then r.event_count else 0

  -- How many events of a key that fall into a window were taken.
  abbrev pub taken : String → ℕ → List (Step V) → ℕ
  taken k t [] = 0
  taken k t (took v ∷ xs) =
      (if str_eq v.key k && window_start v.event_ts c.width == t then 1 else 0) + taken k t xs
  taken k t (woke now ∷ xs) = taken k t xs

  -- The windows that are open and those that are stored are all different.
  abbrev pub AreApart : List (WindowState V) → List (Aggregate V) → Type 0
  AreApart cells table =
      (k : String) (t : ℕ) → count (is_at k t) cells + count (row_at k t) table ≤ 1

  module _ (e : c.experiment_run ≡ some run) where
    upsert-fresh :
        (now : ℕ) (cell : WindowState V) (table : List (Aggregate V))
        → count (row_at cell.key cell.start) table ≡ 0
        → upsert (row_of c now cell) table ≡ table ++ row_of c now cell ∷ []
    unfolding upsert conflicts
    upsert-fresh now cell [] h = refl
    upsert-fresh now cell (r ∷ table) h = grind (arith, e, upsert-fresh now cell table)

    row_at-row_of :
        (k : String) (t now : ℕ) (cell : WindowState V)
        → row_at k t (row_of c now cell) ≡ is_at k t cell
    row_at-row_of k t now cell =
        rw e (ground (arith, eq_iff c.pipeline_id c.pipeline_id, eq_iff run run))

    -- The first of some cells has no row yet, and with its row the others are apart still.
    first-fresh :
        (cell : WindowState V) (cells : List (WindowState V)) (table : List (Aggregate V))
        → AreApart (cell ∷ cells) table
        → count (row_at cell.key cell.start) table ≡ 0
    first-fresh cell cells table h = ground (arith, h cell.key cell.start, eq_iff cell.key cell.key)

    count-row :
        (k : String) (t now : ℕ) (cell : WindowState V) (table : List (Aggregate V))
        → count (row_at k t) (table ++ row_of c now cell ∷ [])
          ≡ count (row_at k t) table + (if is_at k t cell then 1 else 0)
    count-row k t now cell table =
        count-append (row_at k t) table (row_of c now cell ∷ [])
        ∙ rw (row_at-row_of k t now cell) (omega arith)

    total-row :
        (k : String) (t now : ℕ) (cell : WindowState V) (table : List (Aggregate V))
        → total (in_row k t) (table ++ row_of c now cell ∷ [])
          ≡ total (in_row k t) table + in_cell k t cell
    total-row k t now cell table =
        total-append (in_row k t) table (row_of c now cell ∷ [])
        ∙ rw (row_at-row_of k t now cell) (omega arith)

    AreApart-row :
        (now : ℕ) (cell : WindowState V) (cells : List (WindowState V)) (table : List (Aggregate V))
        → AreApart (cell ∷ cells) table
        → AreApart cells (table ++ row_of c now cell ∷ [])
    AreApart-row now cell cells table h k t = ground (arith, h k t, count-row k t now cell table)

    -- Windows that are apart from what is stored are stored as they are.
    pub write-stored :
        (now : ℕ) (cells : List (WindowState V)) (table : List (Aggregate V))
        → AreApart cells table
        → (k : String) (t : ℕ)
        → (total (in_row k t) (write c now cells table)
            ≡ total (in_row k t) table + total (in_cell k t) cells)
          × (count (row_at k t) (write c now cells table)
              ≡ count (row_at k t) table + count (is_at k t) cells)
    unfolding write
    write-stored now [] table h k t = (omega arith, omega arith)
    write-stored now (cell ∷ cells) table h k t =
        let (stored, counted) =
          write-stored now cells (table ++ row_of c now cell ∷ [])
            (AreApart-row now cell cells table h) k t in
        rw (upsert-fresh now cell table (first-fresh cell cells table h)) (
          omega (arith, stored, total-row k t now cell table),
          omega (arith, counted, count-row k t now cell table),
        )

  -- How an event changes the open windows.
  pub count-add :
      (k : String) (t : ℕ) (v : StreamEvent V) (cells : List (WindowState V))
      → count (is_at k t) (add c.zero c.plus c.width v cells) ≡ (
          if str_eq v.key k
            && window_start v.event_ts c.width == t
            && leb (count (is_at k t) cells) 0
          then 1
          else count (is_at k t) cells)
  unfolding add add_value new_cell is_cell_of
  count-add k t v [] = ground arith
  count-add k t v (cell ∷ cells) =
      ground
        (arith, count-add k t v cells, eq_iff cell.key v.key, eq_iff cell.key k, eq_iff v.key k)

  pub total-add :
      (k : String) (t : ℕ) (v : StreamEvent V) (cells : List (WindowState V))
      → total (in_cell k t) (add c.zero c.plus c.width v cells)
        ≡ (if str_eq v.key k && window_start v.event_ts c.width == t then 1 else 0)
          + total (in_cell k t) cells
  unfolding add add_value new_cell is_cell_of
  total-add k t v [] = ground arith
  total-add k t v (cell ∷ cells) =
      ground
        (arith, total-add k t v cells, eq_iff cell.key v.key, eq_iff cell.key k, eq_iff v.key k)

  abbrev pub span : ℕ
  span = c.width * one_second

  abbrev pub IsWide : WindowState V → Type 0
  IsWide cell = cell.end ≡ cell.start + span

  pub add-IsWide :
      (v : StreamEvent V) (cells : List (WindowState V))
      → All IsWide cells
      → All IsWide (add c.zero c.plus c.width v cells)
  unfolding add add_value new_cell is_cell_of
  add-IsWide v [] h = (refl, tt)
  add-IsWide v (cell ∷ cells) h =
      either_way (All IsWide) (is_cell_of c.zero c.plus c.width v cell) _ _ (λ b. (h.0, h.1))
        (λ b. (h.0, add-IsWide v cells h.1))

  -- What the flush takes and what it leaves.
  pub total-flush :
      (k : String) (t m : ℕ) (cells : List (WindowState V))
      → total (in_cell k t) (select (is_done m) cells)
          + total (in_cell k t) (select (λ cell. not (is_done m cell)) cells)
        ≡ total (in_cell k t) cells
  total-flush k t m [] = refl
  total-flush k t m (cell ∷ cells) = ground (arith, total-flush k t m cells)

  pub count-flush :
      (k : String) (t m : ℕ) (cells : List (WindowState V))
      → count (is_at k t) (select (is_done m) cells)
          + count (is_at k t) (select (λ cell. not (is_done m cell)) cells)
        ≡ count (is_at k t) cells
  count-flush k t m [] = refl
  count-flush k t m (cell ∷ cells) = ground (arith, count-flush k t m cells)

  pub flushed_past :
      (k : String) (t m : ℕ) (cells : List (WindowState V))
      → All IsWide cells
      → 0 < count (is_at k t) (select (is_done m) cells)
      → t + span ≤ m
  flushed_past k t m [] h n = absurd (omega (arith, n))
  flushed_past k t m (cell ∷ cells) h n = ground (arith, h.0, flushed_past k t m cells h.1)

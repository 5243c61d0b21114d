-- ===== src/Consumer/InTime.antt =====
-- What a session without late events has stored at its end.
use agentic_cloud_pipeline_g.Prelude.{
  ℕ, ◌+◌, ◌≤◌, ◌<◌, String, ◌≡◌, refl, sym, Bool, true, not, ◌&&◌, inl, inr, Option, none, some,
  List, [], ◌∷◌, ◌==◌, ltb, str_eq, if◌then◌else◌, count, select, All, All-select, arith,
  Bool-cases,
}
use mathlib.Core.Path.{subst}
use agentic_cloud_pipeline_g.Prelude.Sorting.{sort_by, total, total-sort_by, count-sort_by}
use agentic_cloud_pipeline_g.Windows.{
  WindowState, StreamEvent, latest, window_start, in_order, is_done, flush, flush_all,
}
use agentic_cloud_pipeline_g.Consumer.{
  Aggregate, SessionConfig, Session, Step, took, woke, work, flush_done, step, steps_of, stop,
  run_session,
}
use agentic_cloud_pipeline_g.Consumer.Stored.{
  is_at, row_at, in_cell, in_row, taken, AreApart, span, IsWide, write-stored, count-add, total-add,
  add-IsWide, total-flush, count-flush, flushed_past,
}

-- The newest event is at least as late as a time.
abbrev pub IsPast : ℕ → Option ℕ → Type 0
IsPast t none = ⊥
IsPast t (some m) = t ≤ m

IsPast-latest : (t u : ℕ) (m : Option ℕ) → IsPast t m → IsPast t (latest m u)
IsPast-latest t u none h = absurd h
IsPast-latest t u (some m) h = ground (arith, h)

module _ {V : Type 0} (c : SessionConfig V) (run : String) where
  -- No event is taken when the window that it falls into has ended by the newest event's time.
  abbrev pub AreInTime : List (Step V) → Option ℕ → Type 0
  AreInTime [] m = Unit
  AreInTime (took v ∷ xs) m =
      ¬ IsPast (window_start v.event_ts c.width + span c run) m × AreInTime xs (latest m v.event_ts)
  AreInTime (woke now ∷ xs) m = AreInTime xs m

  -- The windows, open and stored, have together counted `n` events of a key and a window.
  record IsFaithful (n : String → ℕ → ℕ) (s : Session V) : Type 0 where
    counted :
        (k : String) (t : ℕ)
        → total (in_row c run k t) s.table + total (in_cell c run k t) s.cells ≡ n k t
    apart : AreApart c run s.cells s.table
    wide : All (IsWide c run) s.cells
    past :
        (k : String) (t : ℕ)
        → 0 < count (row_at c run k t) s.table
        → IsPast (t + span c run) s.max_event_ts

  abbrev falls : StreamEvent V → String → ℕ → Bool
  falls v k t = str_eq v.key k && window_start v.event_ts c.width == t

  -- The window of an event in time has no row.
  unstored :
      (n : String → ℕ → ℕ) (s : Session V) (v : StreamEvent V) (k : String) (t : ℕ)
      → IsFaithful n s
      → ¬ IsPast (window_start v.event_ts c.width + span c run) s.max_event_ts
      → falls v k t ≡ true
      → count (row_at c run k t) s.table ≡ 0
  unstored n s v k t f late h = elim (Bool-cases (ltb 0 (count (row_at c run k t) s.table))) [
    | inr z ↦ ground (arith, z)
    | inl p ↦
        let same : t ≡ window_start v.event_ts c.width = ground (arith, h) in
        absurd (
          late (
            subst (λ u. IsPast (u + span c run) s.max_event_ts) same
              (f.past k t (ground (arith, p)))))
  ]

  work-IsFaithful :
      (n : String → ℕ → ℕ) (s : Session V) (v : StreamEvent V)
      → IsFaithful n s
      → ¬ IsPast (window_start v.event_ts c.width + span c run) s.max_event_ts
      → IsFaithful (λ k t. (if falls v k t then 1 else 0) + n k t) (work c v s)
  unfolding work
  work-IsFaithful n s v f late = record {
    counted = λ k t. omega (arith, f.counted k t, total-add c run k t v s.cells);
    apart = λ k t. elim (Bool-cases (falls v k t)) [
      | inl h ↦
          ground (arith, h, f.apart k t, count-add c run k t v s.cells, unstored n s v k t f late h)
      | inr h ↦ ground (arith, h, f.apart k t, count-add c run k t v s.cells)
    ];
    wide = add-IsWide c run v s.cells f.wide;
    past = λ k t h. IsPast-latest _ _ s.max_event_ts (f.past k t h);
  }

  module _ (e : c.experiment_run ≡ some run) where
    abbrev max_event_ts_of : Session V → Option ℕ
    max_event_ts_of s = s.max_event_ts

    -- The windows of a flush are apart from the table, and those that it leaves from the new table.
    apart_done :
        (m : ℕ) (cells : List (WindowState V)) (table : List (Aggregate V))
        → AreApart c run cells table
        → AreApart c run (sort_by in_order (select (is_done m) cells)) table
    apart_done m cells table h k t = omega (
      arith,
      h k t,
      count-sort_by in_order (is_at c run k t) (select (is_done m) cells),
      count-flush c run k t m cells,
    )

    flush_done-IsFaithful :
        (n : String → ℕ → ℕ) (now : ℕ) (cells : List (WindowState V)) (newest : Option ℕ)
        (table : List (Aggregate V))
        → IsFaithful n (record { cells = cells; max_event_ts = newest; table = table })
        → IsFaithful n
            (flush_done c now (record { cells = cells; max_event_ts = newest; table = table }))
    unfolding flush_done flush
    flush_done-IsFaithful n now cells none table f = f
    flush_done-IsFaithful n now cells (some m) table f =
        let done = sort_by in_order (select (is_done m) cells) in
        let stored = write-stored c run e now done table (apart_done m cells table f.apart) in
        record {
          counted = λ k t. omega (
            arith,
            f.counted k t,
            (stored k t).0,
            total-sort_by in_order (in_cell c run k t) (select (is_done m) cells),
            total-flush c run k t m cells,
          );
          apart = λ k t. omega (
            arith,
            f.apart k t,
            (stored k t).1,
            count-sort_by in_order (is_at c run k t) (select (is_done m) cells),
            count-flush c run k t m cells,
          );
          wide = All-select (IsWide c run) (λ cell. not (is_done m cell)) cells f.wide;
          past = λ k t h. elim (Bool-cases (ltb 0 (count (row_at c run k t) table))) [
            | inl p ↦ f.past k t (ground (arith, p))
            | inr z ↦ flushed_past c run k t m cells f.wide (
                ground (
                  arith,
                  z,
                  h,
                  (stored k t).1,
                  count-sort_by in_order (is_at c run k t) (select (is_done m) cells),
                ))
          ];
        }

    flush_done-newest :
        (now : ℕ) (cells : List (WindowState V)) (newest : Option ℕ) (table : List (Aggregate V))
        → max_event_ts_of
            (flush_done c now (record { cells = cells; max_event_ts = newest; table = table }))
          ≡ newest
    unfolding flush_done
    flush_done-newest now cells none table = refl
    flush_done-newest now cells (some m) table = refl

    total_unstored :
        (k : String) (t : ℕ) (table : List (Aggregate V))
        → count (row_at c run k t) table ≡ 0
        → total (in_row c run k t) table ≡ 0
    total_unstored k t [] h = refl
    total_unstored k t (r ∷ table) h = ground (arith, h, total_unstored k t table)

    begun-IsFaithful :
        (table : List (Aggregate V))
        → ((k : String) (t : ℕ) → count (row_at c run k t) table ≡ 0)
        → IsFaithful (λ k t. 0) (record { cells = []; max_event_ts = none; table = table })
    begun-IsFaithful table h = record {
      counted = λ k t. omega (arith, total_unstored k t table (h k t));
      apart = λ k t. omega (arith, h k t);
      wide = tt;
      past = λ k t p. ground (arith, h k t, p);
    }

    stop-stored :
        (n : String → ℕ → ℕ) (now : ℕ) (s : Session V)
        → IsFaithful n s
        → (k : String) (t : ℕ)
        → (total (in_row c run k t) (stop c now s).table ≡ n k t)
          × (count (row_at c run k t) (stop c now s).table ≤ 1)
    unfolding stop flush_all
    stop-stored n now s f k t =
        let cells = sort_by in_order s.cells in
        let (stored, counted) =
          write-stored c run e now cells s.table
            (λ k t. omega (arith, f.apart k t, count-sort_by in_order (is_at c run k t) s.cells)) k
            t in
        (
          omega (arith, stored, f.counted k t, total-sort_by in_order (in_cell c run k t) s.cells),
          omega (arith, counted, f.apart k t, count-sort_by in_order (is_at c run k t) s.cells),
        )

    steps_of-IsFaithful :
        (n : String → ℕ → ℕ) (xs : List (Step V)) (s : Session V)
        → AreInTime xs s.max_event_ts
        → IsFaithful n s
        → IsFaithful (λ k t. taken c run k t xs + n k t) (steps_of c xs s)
    unfolding steps_of step work
    steps_of-IsFaithful n [] s h f = record {
      counted = λ k t. omega (arith, f.counted k t);
      apart = f.apart;
      wide = f.wide;
      past = f.past;
    }
    steps_of-IsFaithful n (took v ∷ xs) s h f =
        let g =
          steps_of-IsFaithful (λ k t. (if falls v k t then 1 else 0) + n k t) xs (work c v s) h.1
            (work-IsFaithful n s v f h.0) in
        record {
          counted = λ k t. omega (arith, g.counted k t);
          apart = g.apart;
          wide = g.wide;
          past = g.past;
        }
    steps_of-IsFaithful n (woke now ∷ xs) s h f =
        steps_of-IsFaithful n xs (flush_done c now s)
          (subst (AreInTime xs) (sym (flush_done-newest now s.cells s.max_event_ts s.table)) h)
          (flush_done-IsFaithful n now s.cells s.max_event_ts s.table f)

    -- A session of a named run, over any sequence of the workers' and the flusher's steps in which no
    -- event is so late that its window has ended by the time of the newest event: if the table has no
    -- row of the session at its beginning, then at its end it has for each key and window at most
    -- one, which counts all the events of the key and the window that were taken, and none twice.
    pub run_session-stored :
        (xs : List (Step V)) (now : ℕ) (table : List (Aggregate V))
        → AreInTime xs none
        → ((k : String) (t : ℕ) → count (row_at c run k t) table ≡ 0)
        → (k : String) (t : ℕ)
        → (total (in_row c run k t) (run_session c xs now table) ≡ taken c run k t xs)
          × (count (row_at c run k t) (run_session c xs now table) ≤ 1)
    unfolding run_session
    run_session-stored xs now table late none_stored k t =
        let f = steps_of-IsFaithful (λ k t. 0) xs _ late (begun-IsFaithful table none_stored) in
        let (stored, once) = stop-stored _ now _ f k t in (omega (arith, stored), once)

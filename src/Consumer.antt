-- ===== src/Consumer.antt =====
-- A session of the streaming consumer: src/acde/dataplane/streaming/consumer.py, over the windows of
-- Windows, and the table warehouse.stream_aggregates that it writes. The workers and the flusher run
-- on one event loop and hold a lock: a session is the sequence of their steps, in any order. A record
-- that no worker takes before the session stops is no step. The rounding of a sum is a parameter.
pub mod Stored
pub mod InTime
use agentic_cloud_pipeline_g.Prelude.{
  ℕ, String, Bool, true, false, ◌&&◌, Option, none, some, List, [], ◌∷◌, ◌==◌, str_eq,
  if◌then◌else◌,
}
use agentic_cloud_pipeline_g.Windows.{WindowState, StreamEvent, latest, add, flush, flush_all}

-- A row of warehouse.stream_aggregates. The text of its run may be NULL.
pub record Aggregate (V : Type 0) : Type 0 where
  pub pipeline_id : String
  pub agg_key : String
  pub window_start : ℕ
  pub window_end : ℕ
  pub event_count : ℕ
  pub sum_value : V
  pub event_ts : Option ℕ
  pub materialized_ts : ℕ
  pub experiment_run : Option String

-- No NULL is equal to another in a unique constraint.
abbrev pub same_run : Option String → Option String → Bool
same_run (some a) (some b) = str_eq a b
same_run _ _ = false

-- UNIQUE (pipeline_id, agg_key, window_start, experiment_run)
unfoldable pub conflicts : {V : Type 0} → Aggregate V → Aggregate V → Bool
conflicts new r =
    str_eq r.pipeline_id new.pipeline_id
    && (str_eq r.agg_key new.agg_key
        && (r.window_start == new.window_start && same_run r.experiment_run new.experiment_run))

-- INSERT ... ON CONFLICT ... DO UPDATE SET
unfoldable pub upsert : {V : Type 0} → Aggregate V → List (Aggregate V) → List (Aggregate V)
unfolding conflicts
upsert new [] = new ∷ []
upsert new (r ∷ rs) =
    let rest = upsert new rs in
    if conflicts new r
    then record r {
      event_count = new.event_count;
      sum_value = new.sum_value;
      event_ts = new.event_ts;
      materialized_ts = new.materialized_ts;
    }
      ∷ rs
    else r ∷ rest

-- What a session is given.
pub record SessionConfig (V : Type 0) : Type 0 where
  pub pipeline_id : String
  pub experiment_run : Option String
  pub width : ℕ
  pub zero : V
  pub plus : V → V → V
  pub rounded : V → V

pub record Session (V : Type 0) : Type 0 where
  pub cells : List (WindowState V)
  pub max_event_ts : Option ℕ
  pub table : List (Aggregate V)

-- A worker takes a record, or the flusher wakes at a time.
pub data Step (V : Type 0) : Type 0 where
  took : StreamEvent V → Step V
  woke : ℕ → Step V

module _ {V : Type 0} (c : SessionConfig V) where
  abbrev pub row_of : ℕ → WindowState V → Aggregate V
  row_of now cell = record {
    pipeline_id = c.pipeline_id;
    agg_key = cell.key;
    window_start = cell.start;
    window_end = cell.end;
    event_count = cell.count;
    sum_value = c.rounded cell.sum_value;
    event_ts = cell.event_ts;
    materialized_ts = now;
    experiment_run = c.experiment_run;
  }

  -- `_write`
  unfoldable pub write : ℕ → List (WindowState V) → List (Aggregate V) → List (Aggregate V)
  unfolding upsert
  write now [] table = table
  write now (cell ∷ cells) table = write now cells (upsert (row_of now cell) table)

  -- The body of `_worker`.
  unfoldable pub work : StreamEvent V → Session V → Session V
  unfolding add
  work v s = record s {
    cells = add c.zero c.plus c.width v s.cells;
    max_event_ts = latest s.max_event_ts v.event_ts;
  }

  -- The body of `_flusher`.
  unfoldable pub flush_done : ℕ → Session V → Session V
  unfolding flush write
  flush_done now s = elim s.max_event_ts [
    | none ↦ s
    | some watermark ↦
        let (done, open_cells) = flush watermark s.cells in
        record s { cells = open_cells; table = write now done s.table }
  ]

  unfoldable pub step : Step V → Session V → Session V
  unfolding work flush_done
  step (took v) s = work v s
  step (woke now) s = flush_done now s

  unfoldable pub steps_of : List (Step V) → Session V → Session V
  unfolding step
  steps_of [] s = s
  steps_of (x ∷ xs) s = steps_of xs (step x s)

  -- The end of `run`: what is left is written.
  unfoldable pub stop : ℕ → Session V → Session V
  unfolding flush_all write
  stop now s =
      let (remaining, none_open) = flush_all s.cells in
      record s { cells = none_open; table = write now remaining s.table }

  -- `run`, from a session that has begun with a table.
  unfoldable pub run_session : List (Step V) → ℕ → List (Aggregate V) → List (Aggregate V)
  unfolding steps_of stop
  run_session xs now table =
      (stop now (steps_of xs (record { cells = []; max_event_ts = none; table = table }))).table

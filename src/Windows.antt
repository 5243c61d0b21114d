-- ===== src/Windows.antt =====
-- Tumbling windows of the streaming data plane: src/acde/dataplane/streaming/windows.py. Times are in
-- microseconds since the epoch, and the width of a window is a whole number of seconds, not 0. The
-- values and their addition, floats in the code, are parameters.
pub mod Counts
use Prim.Native.Nat.{Ordering}
use Prim.Native.String.{compare}
use agentic_cloud_pipeline_g.Prelude.{
  ℕ, ◌+◌, ◌*◌, ◌/◌, String, Bool, true, false, not, ◌&&◌, ◌||◌, Option, none, some, List, [], ◌∷◌,
  ◌++◌, ltb, leb, ◌==◌, str_eq, if◌then◌else◌, select,
}
use agentic_cloud_pipeline_g.Prelude.Sorting.{sort_by}

abbrev pub one_second : ℕ
one_second = 1000000

-- The start of the window of a time; the width is in seconds.
unfoldable pub window_start : ℕ → ℕ → ℕ
window_start t width = t / one_second / width * width * one_second

pub record WindowState (V : Type 0) : Type 0 where
  pub key : String
  pub start : ℕ
  pub end : ℕ
  pub count : ℕ
  pub sum_value : V
  pub event_ts : Option ℕ

-- An event of the stream.
pub record StreamEvent (V : Type 0) : Type 0 where
  pub key : String
  pub event_ts : ℕ
  pub value : V

abbrev pub latest : Option ℕ → ℕ → Option ℕ
latest none t = some t
latest (some u) t = if ltb u t then some t else some u

module _ {V : Type 0} (zero : V) (plus : V → V → V) (width : ℕ) where
  -- `WindowState.add`
  unfoldable pub add_value : StreamEvent V → WindowState V → WindowState V
  add_value v c = record c {
    count = c.count + 1;
    sum_value = plus c.sum_value v.value;
    event_ts = latest c.event_ts v.event_ts;
  }

  unfoldable pub new_cell : StreamEvent V → WindowState V
  unfolding window_start
  new_cell v = record {
    key = v.key;
    start = window_start v.event_ts width;
    end = window_start v.event_ts width + width * one_second;
    count = 0;
    sum_value = zero;
    event_ts = none;
  }

  -- Whether an event falls into a cell: the cell's key in the dictionary.
  unfoldable pub is_cell_of : StreamEvent V → WindowState V → Bool
  unfolding window_start
  is_cell_of v c = str_eq c.key v.key && c.start == window_start v.event_ts width

  -- `WindowAggregator.add`
  unfoldable pub add : StreamEvent V → List (WindowState V) → List (WindowState V)
  unfolding add_value new_cell is_cell_of
  add v [] = add_value v (new_cell v) ∷ []
  add v (c ∷ cs) = let rest = add v cs in if is_cell_of v c then add_value v c ∷ cs else c ∷ rest

abbrev pub in_order : {V : Type 0} → WindowState V → WindowState V → Bool
in_order c d =
    ltb c.start d.start
    || (c.start == d.start && (elim (compare c.key d.key) [ Ordering.gt ↦ false | _ ↦ true ]))

abbrev pub is_done : {V : Type 0} → ℕ → WindowState V → Bool
is_done watermark c = leb c.end watermark

-- What is flushed, and what stays.
unfoldable pub flush :
    {V : Type 0} → ℕ → List (WindowState V) → List (WindowState V) × List (WindowState V)
unfolding sort_by
flush watermark cs =
    (sort_by in_order (select (is_done watermark) cs), select (λ c. not (is_done watermark c)) cs)

unfoldable pub flush_all :
    {V : Type 0} → List (WindowState V) → List (WindowState V) × List (WindowState V)
unfolding sort_by
flush_all cs = (sort_by in_order cs, [])

-- A run of the aggregator: what it flushed, and the cells that are open.
pub data Op (V : Type 0) : Type 0 where
  arrived : StreamEvent V → Op V
  advanced : ℕ → Op V

module _ {V : Type 0} (zero : V) (plus : V → V → V) (width : ℕ) where
  unfoldable pub aggregate :
      List (Op V) → List (WindowState V) → List (WindowState V) × List (WindowState V)
  unfolding add flush
  aggregate [] cs = ([], cs)
  aggregate (arrived v ∷ ops) cs = aggregate ops (add zero plus width v cs)
  aggregate (advanced t ∷ ops) cs =
      let (done, open_cells) = flush t cs in
      let (later, rest) = aggregate ops open_cells in (done ++ later, rest)

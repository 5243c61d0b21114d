-- ===== src/Runner.antt =====
-- The runner of the experiment: src/acde/experiments/runner.py, with the files that a run leaves in
-- the results directory. What a run does to the system between the reset and the harvest (`conduct`),
-- the digest of a seed's text and the texts of numbers are parameters. The files are read as rows of
-- raw.csv and records of manifest.jsonl; a manifest that is missing is read as one without records.
pub mod Resumed
pub mod Recorded
pub mod Attempts
pub mod Complete
pub mod Calls
pub mod Supervised
use Prim.Native.String.{◌++◌ as ◌<>◌}
use agentic_cloud_pipeline_g.Prelude.{
  ℕ, zero, suc, ◌+◌, ◌%◌, ◌^◌, String, Bool, true, false, not, ◌&&◌, ◌||◌, Option, none, some, List,
  [], ◌∷◌, ◌++◌, map, str_eq, if◌then◌else◌, select, any, take, length, leb,
}
use agentic_cloud_pipeline_g.Prelude.Dict.{Dict, lookup, insert}
use agentic_cloud_pipeline_g.Prelude.Sorting.{sort_by}
use agentic_cloud_pipeline_g.Env.{Env}
use agentic_cloud_pipeline_g.World.{World, ActionRow, FailureEvent}
use agentic_cloud_pipeline_g.Exec.{Exec, Result, ok, raised, key_error, value_error}
use agentic_cloud_pipeline_g.Campaign.Runs.{Run, run_id_for, single_ablations, all_configs}
use agentic_cloud_pipeline_g.Isolation.{reset_run, reset_run_state}

abbrev pub Row : Type 0
Row = List String

-- A line of the manifest; the time of its writing and the provenance are left out.
pub record ManifestRecord (V : Type 0) : Type 0 where
  pub run_id : String
  pub config : String
  pub scenario : String
  pub replicate : ℕ
  pub seed : ℕ
  pub mttr : V
  pub wall : V
  pub llm_mode : String

pub record ResultsDir (V : Type 0) : Type 0 where
  -- raw.csv, `none` if there is no such file
  pub raw : Option (List Row)
  pub manifest : List (ManifestRecord V)
  -- actions/<run_id>.jsonl and events/<run_id>.jsonl
  pub actions : Dict (List ActionRow)
  pub events : Dict (List FailureEvent)

-- CSV_HEADER
abbrev pub csv_header : Row
csv_header = "run_id" ∷ "config" ∷ "scenario" ∷ "replicate" ∷ "seed" ∷ "metric" ∷ "value" ∷ []

-- `r and r[0] != run_id`
abbrev pub is_kept : String → Row → Bool
is_kept id [] = false
is_kept id (cell ∷ cells) = not (str_eq cell id)

-- `_drop_run_rows`: the first row is kept, whatever it is.
unfoldable pub drop_run_rows : String → Option (List Row) → Option (List Row)
drop_run_rows id none = none
drop_run_rows id (some []) = some []
drop_run_rows id (some (first_row ∷ rows)) = some (first_row ∷ select (is_kept id) rows)

-- The file that an append finds, with the header if it creates it; the two reach the disk together,
-- which a kill before the first flush would prevent.
abbrev pub opened : Option (List Row) → List Row
opened none = csv_header ∷ []
opened (some rows) = rows

unfoldable pub uses_llm : String → Bool
uses_llm config = any (str_eq config) ("full" ∷ "hybrid" ∷ single_ablations)

unfoldable pub llm_mode_of : Bool → String → String
unfolding uses_llm
llm_mode_of mock config = if not (uses_llm config) then "none" else if mock then "mock" else "live"

-- What one call runs: the configurations, if they are restricted, and the most runs.
pub record Invocation : Type 0 where
  pub profile : String
  pub configs : Option (List String)
  pub max_runs : Option ℕ

-- What the runner uses: the texts of a whole number and of a value, the values 1.0 and 0.0, whether
-- the model is a mock, the digest of a text, the pools with their slots, and what a run does to the
-- system from the warmup to the harvest, at the timings of a profile: it gives the metrics or raises.
pub record Conditions (V : Type 0) : Type 0 where
  pub env : Env
  pub decimal : ℕ → String
  pub shown : V → String
  pub one : V
  pub zero : V
  pub mock_llm : Bool
  pub digest : String → ℕ
  pub pools : List (String × ℕ)
  pub conduct : String → Run → ℕ → Exec (Dict V)
  -- `profile_runs`, `none` for a profile that is not known
  pub runs : String → Option (List Run)

module _ {V : Type 0} (c : Conditions V) where
  -- `run_seed`
  unfoldable pub run_seed : Bool → Run → ℕ
  run_seed paired r =
      c.digest (
        if paired
        then r.scenario <> ":" <> c.decimal r.replicate
        else r.config <> ":" <> r.scenario <> ":" <> c.decimal r.replicate)
      % 2 ^ 32

  abbrev pub id_of : Run → String
  id_of = run_id_for c.decimal

  -- The row of one metric.
  abbrev pub metric_row : Run → ℕ → String × V → Row
  metric_row r seed (metric, value) =
      id_of r
      ∷ r.config
      ∷ r.scenario
      ∷ c.decimal r.replicate
      ∷ c.decimal seed
      ∷ metric
      ∷ c.shown value
      ∷ []

  unfoldable pub metric_rows : Run → ℕ → Dict V → List Row
  metric_rows r seed = map (metric_row r seed)

  -- `_write_rows`
  unfoldable pub write_rows : Run → ℕ → Dict V → Option (List Row) → Option (List Row)
  unfolding drop_run_rows metric_rows
  write_rows r seed m raw = some (opened (drop_run_rows (id_of r) raw) ++ metric_rows r seed m)

  abbrev pub record_of : Run → ℕ → V → V → ManifestRecord V
  record_of r seed mttr wall = record {
    run_id = id_of r;
    config = r.config;
    scenario = r.scenario;
    replicate = r.replicate;
    seed = seed;
    mttr = mttr;
    wall = wall;
    llm_mode = llm_mode_of c.mock_llm r.config;
  }

  abbrev pub appended :
      Run → ℕ → Option V → Option V → List (ManifestRecord V) → Option (List (ManifestRecord V))
  appended r seed (some mttr) (some wall) lines = some (lines ++ record_of r seed mttr wall ∷ [])
  appended r seed _ _ lines = none

  -- `_append_manifest`; `none` is the KeyError on a metric that is missing.
  unfoldable pub append_manifest :
      Run → ℕ → Dict V → List (ManifestRecord V) → Option (List (ManifestRecord V))
  append_manifest r seed m = appended r seed (lookup "mttr_s" m) (lookup "wall_clock_s" m)

  -- `_export_actions`; a table's rows are exported whole.
  unfoldable pub export_actions : String → World → ResultsDir V → ResultsDir V
  unfolding insert sort_by
  export_actions run w d = record d {
    actions =
        insert run
          (sort_by (λ (a b : ActionRow). leb a.ts b.ts)
            (select (λ (a : ActionRow). str_eq a.experiment_run run) w.agent_actions))
          d.actions;
    events =
        insert run
          (sort_by (λ (f g : FailureEvent). leb f.injected_ts g.injected_ts)
            (select (λ (f : FailureEvent). str_eq f.experiment_run run) w.failure_events))
          d.events;
  }

  -- The end of `run_one`: the rows are on disk when the manifest is written.
  abbrev pub listed :
      ResultsDir V → Dict V → Option (List (ManifestRecord V)) → Result (Dict V) × ResultsDir V
  listed d m none = (raised key_error, d)
  listed d m (some lines) = (ok m, record d { manifest = lines })

  unfoldable pub persist : Run → ℕ → Dict V → World → ResultsDir V → Result (Dict V) × ResultsDir V
  unfolding write_rows append_manifest export_actions
  persist r seed m w d =
      let exported = export_actions (id_of r) w d in
      let d' : ResultsDir V = record exported { raw = write_rows r seed m exported.raw } in
      listed d' m (append_manifest r seed m d'.manifest)

  abbrev pub Outcome : Type 0
  Outcome = (Result (Dict V) × ResultsDir V) × World

  abbrev pub harvested : Run → ℕ → Bool → ResultsDir V → Result (Dict V) × World → Outcome
  harvested r seed reset d (raised x, w) = ((raised x, d), w)
  harvested r seed reset d (ok m, w) =
      (persist r seed (insert "state_reset_ok" (if reset then c.one else c.zero) m) w d, w)

  abbrev pub conducted : String → Run → ℕ → ResultsDir V → Result Bool × World → Outcome
  conducted profile r seed d (raised x, w) = ((raised x, d), w)
  conducted profile r seed d (ok reset, w) = harvested r seed reset d (c.conduct profile r seed w)

  unfoldable pub run_one : String → Bool → Run → ResultsDir V → World → Outcome
  unfolding run_seed reset_run reset_run_state
  run_one profile paired r d w =
      conducted profile r (run_seed paired r) d
        (reset_run_state c.env c.pools (reset_run (id_of r) w))

  -- `load_completed`
  abbrev pub completed : List (ManifestRecord V) → List String
  completed = map (λ line. line.run_id)

  abbrev pub is_listed : String → ResultsDir V → Bool
  is_listed id d = any (str_eq id) (completed d.manifest)

  abbrev pub is_chosen : Option (List String) → Run → Bool
  is_chosen none r = true
  is_chosen (some configs) r = any (str_eq r.config) configs

  -- `remaining_runs`
  unfoldable pub todo_of : Option (List String) → List Run → ResultsDir V → List Run
  todo_of configs runs d = select (λ r. not (is_listed (id_of r) d) && is_chosen configs r) runs

  abbrev pub limited : Option ℕ → List Run → List Run
  limited none todo = todo
  limited (some n) todo = take n todo

  abbrev pub Ran : Type 0
  Ran = (Result ℕ × ResultsDir V) × World

  -- The loop of `run_profile`, which a run that raises ends.
  unfoldable pub run_all : String → List Run → ℕ → ResultsDir V → World → Ran
  unfolding run_one
  run_all profile [] ran d w = ((ok ran, d), w)
  run_all profile (r ∷ todo) ran d w =
      let ((result, d'), w') = run_one profile (str_eq profile "paper_v2") r d w in
      let rest = run_all profile todo (ran + 1) d' w' in
      elim result [ raised x ↦ ((raised x, d'), w') | ok m ↦ rest ]

  -- Whether a name of the restriction is no configuration.
  abbrev pub has_unknown : Option (List String) → Bool
  has_unknown none = false
  has_unknown (some configs) = any (λ config. not (any (str_eq config) all_configs)) configs

  unfoldable pub run_known : Invocation → ResultsDir V → World → Option (List Run) → Ran
  unfolding todo_of run_all
  run_known q d w none = ((raised key_error, d), w)
  run_known q d w (some runs) =
      run_all q.profile (limited q.max_runs (todo_of q.configs runs d)) 0 d w

  unfoldable pub run_profile : Invocation → ResultsDir V → World → Ran
  unfolding run_known
  run_profile q d w =
      let known = run_known q d w (c.runs q.profile) in
      if has_unknown q.configs then ((raised value_error, d), w) else known

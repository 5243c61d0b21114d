-- ===== src/Cost.antt =====
-- The cost ledger: src/acde/telemetry/cost.py. Times and spans are in microseconds, counts of
-- workers are whole numbers, the size of the warehouse is in bytes and the rates are per worker and
-- microsecond and per byte and microsecond, so that what are floats in the code are exact here. The
-- loops over windows run on fuel and give `none` when it is out. The run is always given; the code
-- takes the configured one if it is not.
pub mod Integral
pub mod Rows
pub mod Ledger
use agentic_cloud_pipeline_g.Prelude.{
  ℕ, zero, suc, ◌+◌, ◌-◌, ◌*◌, String, Bool, not, ◌&&◌, ◌||◌, Option, none, some, List, [], ◌∷◌,
  ◌++◌, map, ltb, leb, ◌==◌, str_eq, if◌then◌else◌, select, any,
}
use agentic_cloud_pipeline_g.Prelude.Sorting.{sort_by}

abbrev pub compute_components : List String
compute_components = "streaming" ∷ "batch" ∷ []

abbrev pub storage_component : String
storage_component = "postgres"

-- The settings that the ledger reads, with the scope of the process.
pub record CostSettings : Type 0 where
  pub cost_window : ℕ
  pub cost_rate_compute : ℕ
  pub cost_rate_storage : ℕ
  pub provisioned_units_rightsized : ℕ
  pub provisioned_units_static : ℕ
  pub provisioning_horizon : ℕ
  pub tenant_id : String
  pub environment : String

abbrev pub rightsizing_configs : List String
rightsizing_configs = "autoscale" ∷ "optimization_only" ∷ "full" ∷ []

-- A row of the table of samples, and of the ledger.
pub record UsageRow : Type 0 where
  pub experiment_run : String
  pub component : String
  pub ts : ℕ
  pub workers : Option ℕ

pub record CostRow : Type 0 where
  pub experiment_run : String
  pub component : String
  pub compute_unit_seconds : ℕ
  pub storage_gb_hours : ℕ
  pub cost_units : ℕ
  pub window_start : ℕ
  pub window_end : ℕ
  pub tenant_id : String
  pub environment : String

pub record Sample : Type 0 where
  pub ts : ℕ
  pub workers : ℕ

abbrev pub is_earlier : Sample → Sample → Bool
is_earlier a b = leb a.ts b.ts

-- The count in effect at a time: that of the last sample at or before it.
unfoldable pub count_at : ℕ → List Sample → Option ℕ → Option ℕ
count_at t [] current = current
count_at t (s ∷ ss) current = count_at t ss (if leb s.ts t then some s.workers else current)

abbrev pub charge : Option ℕ → ℕ → ℕ
charge none span = 0
charge (some workers) span = workers * span

-- The second loop of `integrate_worker_seconds` with its last addition.
unfoldable pub integrate_from : ℕ → ℕ → List Sample → ℕ → ℕ → Option ℕ → ℕ
integrate_from lo hi [] sum cursor current = sum + charge current (hi - cursor)
integrate_from lo hi (s ∷ ss) sum cursor current =
    if leb s.ts lo || leb hi s.ts
    then integrate_from lo hi ss sum cursor current
    else integrate_from lo hi ss (sum + charge current (s.ts - cursor)) s.ts (some s.workers)

unfoldable pub integrate_worker_seconds : List Sample → ℕ → ℕ → ℕ
unfolding sort_by count_at integrate_from
integrate_worker_seconds samples lo hi =
    let ordered = sort_by is_earlier samples in
    if leb hi lo then 0 else integrate_from lo hi ordered 0 lo (count_at lo ordered none)

abbrev or_zero : Option ℕ → ℕ
or_zero none = 0
or_zero (some n) = n

abbrev pub sample_of : UsageRow → Sample
sample_of r = record { ts = r.ts; workers = or_zero r.workers }

abbrev pub is_sample_of : String → String → UsageRow → Bool
is_sample_of run component r = str_eq r.experiment_run run && str_eq r.component component

-- The samples of a component, in the order of their times.
unfoldable pub all_samples : String → String → List UsageRow → List Sample
unfolding sort_by
all_samples run component usage =
    sort_by is_earlier (map sample_of (select (is_sample_of run component) usage))

unfoldable pub worker_samples : String → String → ℕ → List UsageRow → List Sample
unfolding all_samples
worker_samples run component window_end usage =
    select (λ s. leb s.ts window_end) (all_samples run component usage)

unfoldable pub cost_units : CostSettings → ℕ → ℕ → ℕ
cost_units c compute storage = compute * c.cost_rate_compute + storage * c.cost_rate_storage

unfoldable pub provisioning_units_for : CostSettings → String → ℕ
provisioning_units_for c config =
    if any (str_eq config) rightsizing_configs
    then c.provisioned_units_rightsized
    else c.provisioned_units_static

unfoldable pub provisioning_cost : CostSettings → String → ℕ
unfolding cost_units provisioning_units_for
provisioning_cost c config =
    cost_units c (provisioning_units_for c config * c.provisioning_horizon) 0

-- The ledger, with the count of the rows that a run of the code wrote.
pub record Written : Type 0 where
  pub rows : List CostRow
  pub written : ℕ

abbrev pub earliest : ℕ → List UsageRow → ℕ
earliest t [] = t
earliest t (r ∷ rs) = earliest (if ltb r.ts t then r.ts else t) rs

abbrev pub last : ℕ → List UsageRow → ℕ
last t [] = t
last t (r ∷ rs) = last (if ltb t r.ts then r.ts else t) rs

abbrev pub is_of_run : String → UsageRow → Bool
is_of_run run r = str_eq r.experiment_run run

-- `MIN(ts)` and `MAX(ts)` of the rows of a run.
unfoldable pub span_of : List UsageRow → Option (ℕ × ℕ)
span_of [] = none
span_of (r ∷ rs) = some (earliest r.ts rs, last r.ts rs)

unfoldable pub cut : ℕ → ℕ → ℕ
cut hi end = if ltb hi end then hi else end

module _ (c : CostSettings) (run : String) (storage : ℕ) (usage : List UsageRow) where
  -- `_insert_ledger`
  unfoldable pub insert_ledger : String → ℕ → ℕ → ℕ → ℕ → Written → Written
  unfolding cost_units
  insert_ledger component compute stored start end w = record {
    rows =
        w.rows
        ++ record {
          experiment_run = run;
          component = component;
          compute_unit_seconds = compute;
          storage_gb_hours = stored;
          cost_units = cost_units c compute stored;
          window_start = start;
          window_end = end;
          tenant_id = c.tenant_id;
          environment = c.environment;
        }
          ∷ [];
    written = w.written + 1;
  }

  -- The body of the loop of `_write_window`, and the loop over the components.
  unfoldable pub write_component : String → ℕ → ℕ → Written → Written
  unfolding insert_ledger integrate_worker_seconds worker_samples
  write_component component start end w =
      let samples = worker_samples run component end usage in
      let cus = integrate_worker_seconds samples start end in
      if cus == 0 then w else insert_ledger component cus 0 start end w

  unfoldable pub write_compute : List String → ℕ → ℕ → Written → Written
  unfolding write_component
  write_compute [] start end w = w
  write_compute (d ∷ ds) start end w = write_compute ds start end (write_component d start end w)

  unfoldable pub write_window : ℕ → ℕ → Written → Written
  unfolding insert_ledger write_compute
  write_window start end w =
      insert_ledger storage_component 0 (storage * (end - start)) start end
        (write_compute compute_components start end w)

  -- The loop of `_compute_fixed_span`: windows up to `hi`, the last one cut there.
  unfoldable pub fixed_windows : ℕ → ℕ → ℕ → ℕ → Written → Option Written
  unfolding write_window cut
  fixed_windows zero delta hi start w = if ltb start hi then none else some w
  fixed_windows (suc fuel) delta hi start w =
      let end = cut hi (start + delta) in
      let rest = fixed_windows fuel delta hi end (write_window start end w) in
      if ltb start hi then rest else some w

  -- The loop of `compute_cost_windows`: whole windows that start before `limit`.
  unfoldable pub whole_windows : ℕ → ℕ → ℕ → ℕ → Written → Option Written
  unfolding write_window
  whole_windows zero delta limit start w = if ltb start limit then none else some w
  whole_windows (suc fuel) delta limit start w =
      let rest =
        whole_windows fuel delta limit (start + delta) (write_window start (start + delta) w) in
      if ltb start limit then rest else some w

-- `DELETE` of the rows of a run.
abbrev pub without_run : String → List CostRow → List CostRow
without_run run = select (λ r. not (str_eq r.experiment_run run))

abbrev window_or : ℕ → Option ℕ → ℕ
window_or default none = default
window_or default (some d) = d

module _ (fuel : ℕ) (c : CostSettings) (run : String) (storage : ℕ) (usage : List UsageRow) where
  unfoldable pub compute_fixed_span : ℕ → ℕ → List CostRow → Option Written
  unfolding span_of fixed_windows
  compute_fixed_span delta span ledger = elim (span_of (select (is_of_run run) usage)) [
    | none ↦ some (record { rows = ledger; written = 0 })
    | some (lo, _) ↦
        fixed_windows c run storage usage fuel delta (lo + span) lo
          (record { rows = without_run run ledger; written = 0 })
  ]

  unfoldable pub compute_whole_windows : ℕ → List CostRow → Option Written
  unfolding span_of whole_windows
  compute_whole_windows delta ledger = elim (span_of (select (is_of_run run) usage)) [
    | none ↦ some (record { rows = ledger; written = 0 })
    | some (lo, hi) ↦
        whole_windows c run storage usage fuel delta (hi + delta) lo
          (record { rows = without_run run ledger; written = 0 })
  ]

  unfoldable pub compute_cost_windows : Option ℕ → Option ℕ → List CostRow → Option Written
  unfolding compute_fixed_span compute_whole_windows
  compute_cost_windows window (some span) ledger =
      compute_fixed_span (window_or c.cost_window window) span ledger
  compute_cost_windows window none ledger =
      compute_whole_windows (window_or c.cost_window window) ledger

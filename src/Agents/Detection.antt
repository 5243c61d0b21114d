-- ===== src/Agents/Detection.antt =====
-- Anomaly detection: src/acde/agents/detection.py, with the snapshot that it reads
-- (src/acde/contracts/telemetry.py) and `BaseAgent.observe`, which builds it.
use Prim.Native.String.{◌++◌ as ◌<>◌}
use agentic_cloud_pipeline_g.Prelude.{
  ℕ, String, Bool, true, false, ◌||◌, ◌&&◌, Option, none, some, List, [], ◌∷◌, ◌++◌, ltb, leb, ◌==◌,
  str_eq, if◌then◌else◌, select, any, take, map,
}
use agentic_cloud_pipeline_g.Prelude.Sorting.{sort_by}
use agentic_cloud_pipeline_g.Opa.{SchemaCompat, breaking, unknown}
use agentic_cloud_pipeline_g.Env.{Env}
use agentic_cloud_pipeline_g.World.{World, FailureEvent, TaskRun, Usage, Metric}

pub record Anomaly : Type 0 where
  pub kind : String
  pub target : String

pub record OpenAnomaly : Type 0 where
  pub event_id : ℕ
  pub scenario : String
  pub fault_type : String

pub record Snapshot : Type 0 where
  pub task_runs : List TaskRun
  pub resource_usage : List Usage
  pub freshness : Option ℕ
  pub schema_compat : SchemaCompat
  pub open_anomalies : List OpenAnomaly

-- experiment_run = %s AND resolved_ts IS NULL
abbrev pub is_unresolved : String → FailureEvent → Bool
is_unresolved run f =
    str_eq f.experiment_run run && (elim f.resolved_ts [ none ↦ true | some t ↦ false ])

abbrev pub as_open : FailureEvent → OpenAnomaly
as_open f = record { event_id = f.event_id; scenario = f.scenario; fault_type = f.fault_type }

-- ORDER BY ... DESC, NULLS LAST for task runs.
newer_task : TaskRun → TaskRun → Bool
newer_task a b = elim b.start_ts [
  | none ↦ true
  | some t ↦ elim a.start_ts [ none ↦ false | some s ↦ leb t s ]
]

newer_usage : Usage → Usage → Bool
newer_usage a b = leb b.ts a.ts

newer_metric : Metric → Metric → Bool
newer_metric a b = leb b.ts a.ts

-- The latest value of a metric of the run.
unfoldable pub latest_metric : String → String → World → Option ℕ
unfolding newer_metric sort_by
latest_metric run name w =
    elim (sort_by newer_metric (
      select (λ (m : Metric). str_eq m.experiment_run run && str_eq m.metric name)
        w.pipeline_metrics)) [ [] ↦ none | m ∷ _ ↦ some m.value ]

-- `r["workers"] or 1`
abbrev pub at_least_one : Usage → Usage
at_least_one u = record u { workers = if u.workers == 0 then 1 else u.workers }

-- `BaseAgent.observe`
unfoldable pub observe : String → World → Snapshot
unfolding newer_task newer_usage sort_by latest_metric
observe run w =
    let open_faults = select (is_unresolved run) w.failure_events in
    record {
      task_runs =
          take 50 (
            sort_by newer_task (select (λ (t : TaskRun). str_eq t.experiment_run run) w.task_runs));
      resource_usage = map at_least_one (
          take 50 (
            sort_by newer_usage
              (select (λ (u : Usage). str_eq u.experiment_run run) w.resource_usage)));
      freshness = latest_metric run "freshness_s" w;
      schema_compat =
          if any (λ (f : FailureEvent). str_eq f.fault_type "schema_drift") open_faults
          then breaking
          else unknown;
      open_anomalies = map as_open open_faults;
    }

unfoldable pub task_anomalies : List TaskRun → List Anomaly
task_anomalies [] = []
task_anomalies (t ∷ ts) =
    let rest = task_anomalies ts in
    if str_eq t.state "failed" || str_eq t.state "up_for_retry"
    then record { kind = "task_failed"; target = t.dag_id } ∷ rest
    else rest

unfoldable pub cpu_anomalies : ℕ → List Usage → List Anomaly
cpu_anomalies limit [] = []
cpu_anomalies limit (u ∷ us) =
    let rest = cpu_anomalies limit us in
    if ltb limit u.cpu_pct then record { kind = "cpu_high"; target = u.component } ∷ rest else rest

-- Open faults come back under this prefix.
abbrev pub echoed : OpenAnomaly → Anomaly
echoed o = record { kind = "open_fault:" <> o.fault_type; target = o.scenario }

unfoldable pub detect_anomalies : Env → Snapshot → List Anomaly
unfolding task_anomalies cpu_anomalies
detect_anomalies e s =
    task_anomalies s.task_runs
    ++ ((elim s.freshness [
      | none ↦ []
      | some f ↦
          if ltb e.settings.freshness_sla_streaming f
          then record { kind = "freshness_breach"; target = "streaming" } ∷ []
          else []
    ])
        ++ (cpu_anomalies e.settings.cpu_high_pct s.resource_usage
            ++ (map echoed s.open_anomalies ++ (elim s.schema_compat [
              | breaking ↦ record { kind = "schema_breaking"; target = "schema" } ∷ []
              | _ ↦ []
            ]))))

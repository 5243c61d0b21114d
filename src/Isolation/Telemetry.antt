-- ===== src/Isolation/Telemetry.antt =====
-- The reset of a run's telemetry: what the agents observe afterwards.
use agentic_cloud_pipeline_g.Prelude.{
  String, ◌≡◌, ◌≢◌, refl, Bool, true, not, none, ◌&&◌, List, [], str_eq, select, select-disjoint,
  select-within, arith, eq_iff,
}
use agentic_cloud_pipeline_g.Prelude.Sorting.{sort_by}
use agentic_cloud_pipeline_g.Opa.{unknown}
use agentic_cloud_pipeline_g.Env.{Env}
use agentic_cloud_pipeline_g.World.{World, FailureEvent, Usage, Metric, TaskRun}
use agentic_cloud_pipeline_g.Agents.Detection.{
  observe, latest_metric, detect_anomalies, task_anomalies, cpu_anomalies, is_unresolved,
}
use agentic_cloud_pipeline_g.Isolation.{reset_run}

-- A table without the rows of a run, read for that run and for another.
module _ {A : Type 0} (run_of : A → String) (run : String) where
  -- The test selects rows of one run only.
  abbrev IsOf : String → (A → Bool) → Type 0
  IsOf at p = (a : A) → p a ≡ true → str_eq (run_of a) at ≡ true

  select-of_reset :
      (p : A → Bool)
      → IsOf run p
      → (xs : List A) → select p (select (λ a. not (str_eq (run_of a) run)) xs) ≡ []
  select-of_reset p h = select-disjoint _ _ λ a k. ground (arith, h a)

  select-of_other :
      (other : String) (p : A → Bool)
      → IsOf other p
      → run ≢ other
      → (xs : List A) → select p (select (λ a. not (str_eq (run_of a) run)) xs) ≡ select p xs
  select-of_other other p h n =
      select-within _ _
        λ a k. ground (arith, n, h a k, eq_iff (run_of a) run, eq_iff (run_of a) other)

abbrev task_of : String → TaskRun → Bool
task_of at t = str_eq t.experiment_run at

abbrev usage_of : String → Usage → Bool
usage_of at u = str_eq u.experiment_run at

abbrev freshness_of : String → Metric → Bool
freshness_of at m = str_eq m.experiment_run at && str_eq m.metric "freshness_s"

module _ (run : String) (w : World) where
  latest_metric-reset : latest_metric run "freshness_s" (reset_run run w) ≡ none
  unfolding latest_metric reset_run sort_by
  latest_metric-reset =
      rw
        (
          latest_metric,
          select-of_reset (λ (m : Metric). m.experiment_run) run (freshness_of run)
              (λ a h. ground arith) w.pipeline_metrics,
        )
        refl

  latest_metric-reset_other :
      (other : String)
      → run ≢ other
      → latest_metric other "freshness_s" (reset_run run w) ≡ latest_metric other "freshness_s" w
  unfolding latest_metric reset_run
  latest_metric-reset_other other n =
      rw
        (
          latest_metric,
          select-of_other (λ (m : Metric). m.experiment_run) run other (freshness_of other)
              (λ a h. ground arith) n w.pipeline_metrics,
        )
        refl

  observe-reset : observe run (reset_run run w) ≡ record {
    task_runs = [];
    resource_usage = [];
    freshness = none;
    schema_compat = unknown;
    open_anomalies = [];
  }
  unfolding observe reset_run sort_by
  observe-reset =
      rw
        (
          select-of_reset (λ (t : TaskRun). t.experiment_run) run (task_of run) (λ a h. h)
              w.task_runs,
          select-of_reset (λ (u : Usage). u.experiment_run) run (usage_of run) (λ a h. h)
              w.resource_usage,
          latest_metric-reset,
          select-of_reset (λ (f : FailureEvent). f.experiment_run) run (is_unresolved run)
              (λ a h. ground arith) w.failure_events,
        )
        refl

  observe-reset_other :
      (other : String) → run ≢ other → observe other (reset_run run w) ≡ observe other w
  unfolding observe reset_run
  observe-reset_other other n =
      rw
        (
          select-of_other (λ (t : TaskRun). t.experiment_run) run other (task_of other) (λ a h. h) n
              w.task_runs,
          select-of_other (λ (u : Usage). u.experiment_run) run other (usage_of other) (λ a h. h) n
              w.resource_usage,
          latest_metric-reset_other other n,
          select-of_other (λ (f : FailureEvent). f.experiment_run) run other (is_unresolved other)
              (λ a h. ground arith) n w.failure_events,
        )
        refl

-- After the reset of a run, the agents detect no anomaly in what they observe of that run: no row
-- of an earlier attempt is taken for a fault of this one. What they observe of any other run is as
-- before.
pub reset_run-detected :
    (e : Env) (run other : String) (w : World)
    → run ≢ other
    → (detect_anomalies e (observe run (reset_run run w)) ≡ [])
      × (observe other (reset_run run w) ≡ observe other w)
unfolding detect_anomalies task_anomalies cpu_anomalies
reset_run-detected e run other w n =
    (rw (observe-reset run w) refl, observe-reset_other run w other n)

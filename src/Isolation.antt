-- ===== src/Isolation.antt =====
-- What is put back before a run of the experiment: src/acde/experiments/isolation.py, and
-- `_reset_run` of src/acde/experiments/runner.py. The slots of the configured pools are a parameter.
pub mod Undone
pub mod Telemetry
use text.Mathlib.Text.{starts_with}
use agentic_cloud_pipeline_g.Prelude.{
  ℕ, String, Bool, true, false, not, ◌||◌, List, [], ◌∷◌, ◌≢◌, str_eq, select,
}
use agentic_cloud_pipeline_g.Prelude.Int.{pos}
use agentic_cloud_pipeline_g.Prelude.Dict.{Dict}
use agentic_cloud_pipeline_g.Env.{Env, patch_pool}
use agentic_cloud_pipeline_g.World.{
  World, Desired, FailureEvent, ActionRow, Intervention, Usage, Metric, TaskRun,
}
use agentic_cloud_pipeline_g.Exec.{Exec, Result, ok, raised, http_error, pure, update, ◌>>=◌, ◌>>◌}
use agentic_cloud_pipeline_g.Executor.Handlers.{request}

-- RUN_STATE_KEYS and RUN_STATE_PREFIXES, as the DELETE's condition. No prefix has a wildcard of LIKE.
unfoldable pub is_run_state : String → Bool
is_run_state key =
    str_eq key "streaming.workers"
    || (starts_with key "ingestion.blocked."
        || (starts_with key "pipeline.priority." || starts_with key "schema.mapping."))

abbrev pub is_operator_state : String × Desired → Bool
is_operator_state row = not (is_run_state row.0)

unfoldable pub without_run_state : Dict Desired → Dict Desired
without_run_state = select is_operator_state

unfoldable pub reset_desired_state : World → World
unfolding without_run_state
reset_desired_state w = record w {
  pipeline = record w.pipeline { desired_state = without_run_state w.desired_state };
}

-- The pools with their slots, in the order of the setting.
unfoldable pub reset_airflow_pools : Env → List (String × ℕ) → Exec (Unit {0})
unfolding request
reset_airflow_pools e [] = pure tt
reset_airflow_pools e ((pool, slots) ∷ pools) = do
  request e (patch_pool pool (pos slots))
  reset_airflow_pools e pools

-- `except httpx.HTTPError`
abbrev pub succeeded : Result (Unit {0}) × World → Result Bool × World
succeeded (ok u, w) = (ok true, w)
succeeded (raised http_error, w) = (ok false, w)
succeeded (raised x, w) = (raised x, w)

unfoldable pub reset_run_state : Env → List (String × ℕ) → Exec Bool
unfolding reset_desired_state reset_airflow_pools
reset_run_state e pools w = succeeded (reset_airflow_pools e pools (reset_desired_state w))

-- `_reset_run`: DELETE ... WHERE experiment_run = %s on each of the tables. The ledger of costs is in
-- Cost.
unfoldable pub reset_run : String → World → World
reset_run run w = record w {
  failure_events =
      select (λ (r : FailureEvent). not (str_eq r.experiment_run run)) w.failure_events;
  agent_actions = select (λ (r : ActionRow). not (str_eq r.experiment_run run)) w.agent_actions;
  interventions = select (λ (r : Intervention). not (str_eq r.experiment_run run)) w.interventions;
  resource_usage = select (λ (r : Usage). not (str_eq r.experiment_run run)) w.resource_usage;
  pipeline_metrics = select (λ (r : Metric). not (str_eq r.experiment_run run)) w.pipeline_metrics;
  task_runs = select (λ (r : TaskRun). not (str_eq r.experiment_run run)) w.task_runs;
}

-- ===== src/Executor/Handlers.antt =====
-- The handlers of src/acde/policy/executor.py, one for each kind of side effect, and the table that
-- dispatches to them.
use Prim.Native.String.{◌++◌ as ◌<>◌}
use agentic_cloud_pipeline_g.Prelude.{
  ℕ, zero, suc, ◌-◌, ◌/◌, String, Bool, true, false, Option, none, some, [], ◌∷◌, ◌++◌, ◌==◌,
  if◌then◌else◌,
}
use agentic_cloud_pipeline_g.Prelude.Int.{ℤ, pos, negsuc, sub_ℕ}
use agentic_cloud_pipeline_g.Prelude.Dict.{lookup, insert}
use agentic_cloud_pipeline_g.Json.{
  Json, boolean, int, float, units, nonfinite, text, array, nil, object, end, field, Params,
  one_unit, is_finite, are_finite,
}
use agentic_cloud_pipeline_g.Contracts.{
  ActionType, no_action, scale_workers, adjust_pool_slots, reprioritize_pipeline, apply_mapping,
  quarantine_partition, block_ingestion, retry_with_backoff, replay, partial_recompute,
  ProposedAction,
}
use agentic_cloud_pipeline_g.Contracts
use agentic_cloud_pipeline_g.Env.{Env, Request, trigger_dag, clear_tasks, patch_pool}
use agentic_cloud_pipeline_g.Partitions
use agentic_cloud_pipeline_g.World.{
  World, Pipeline, Message, triggered_dag_run, cleared_tasks, rolled_back, no_prior_version,
  workers_set, pool_set, priority_set, quarantined, mapping_stored, blocked, acknowledged,
}
use agentic_cloud_pipeline_g.Exec.{
  Exec, ok, raised, http_error, value_error, type_error, database_error, pure, raise, update, clock,
  ◌>>=◌, ◌>>◌,
}

abbrev pub on_pipeline : (Pipeline → Pipeline) → Exec (Unit {0})
on_pipeline f = update (λ w. record w { pipeline = f w.pipeline })

unfoldable pub upsert_desired_state : String → Json → Exec (Unit {0})
upsert_desired_state key value w = (
  ok tt,
  record w {
    pipeline = record w.pipeline {
      desired_state = insert key (record { value = value; updated_ts = w.now }) w.desired_state;
    };
  },
)

-- A write of a JSON value that the database refuses is an error and changes nothing.
unfoldable pub check_jsonb : Bool → Exec (Unit {0})
check_jsonb is_valid = if is_valid then pure tt else raise database_error

module _ (e : Env) where
  -- One request, repeated on failure at most `more` times.
  unfoldable pub send : ℕ → Request → Exec (Unit {0})
  send zero r w =
      let w' : World = record w {
        pipeline = record w.pipeline { requests = w.requests ++ r ∷ [] };
      } in
      if e.airflow w.requests r then (ok tt, w') else (raised http_error, w')
  send (suc more) r w =
      let w' : World = record w {
        pipeline = record w.pipeline { requests = w.requests ++ r ∷ [] };
      } in
      let again = send more r w' in if e.airflow w.requests r then (ok tt, w') else again

  -- `stop_after_attempt(executor_retry_attempts)`: the first attempt is always made.
  unfoldable pub request : Request → Exec (Unit {0})
  unfolding send
  request r = send (e.settings.executor_retry_attempts - 1) r

  -- `int` of a value.
  unfoldable pub to_int : Json → Exec ℤ
  to_int (int z) = pure z
  to_int (boolean true) = pure (pos 1)
  to_int (boolean false) = pure (pos 0)
  to_int (float (units (pos u))) = pure (pos (u / one_unit))
  to_int (float (units (negsuc n))) = pure (sub_ℕ 0 (suc n / one_unit))
  to_int (float nonfinite) = raise value_error
  to_int (text s) = elim (e.parse_int s) [ none ↦ raise value_error | some z ↦ pure z ]
  to_int _ = raise type_error

  -- A value where the database wants a text.
  unfoldable pub as_text : Json → Exec String
  as_text (text s) = pure s
  as_text v = elim (e.adapt v) [ none ↦ raise database_error | some s ↦ pure s ]

  -- `action.params.get(key, default)`, used as a text and as a number.
  unfoldable pub text_param : String → String → Params → Exec String
  unfolding as_text
  text_param key default m = elim (lookup key m) [ none ↦ pure default | some v ↦ as_text v ]

  unfoldable pub int_param : String → ℕ → Params → Exec ℤ
  unfolding to_int
  int_param key default m = elim (lookup key m) [ none ↦ pure (pos default) | some v ↦ to_int v ]

  unfoldable pub dataset_of : ProposedAction → Exec String
  unfolding text_param
  dataset_of a = text_param "dataset" a.target a.params

  -- The same value where it goes into a formatted text.
  unfoldable pub dataset_text : ProposedAction → String
  dataset_text a = elim (lookup "dataset" a.params) [
    | none ↦ a.target
    | some (text s) ↦ s
    | some v ↦ e.str v
  ]

  unfoldable pub partition_key_of : ProposedAction → Exec String
  unfolding text_param
  partition_key_of a = text_param "partition_key" "2026-01" a.params

  -- `retry_with_backoff` and `replay`. The run's id is the time in milliseconds.
  unfoldable pub trigger : ProposedAction → Exec Message
  unfolding request
  trigger a = do now ← clock; request (trigger_dag a.target); pure (triggered_dag_run (now / 1000))

  unfoldable pub recompute : ProposedAction → Exec Message
  unfolding request
  recompute a =
      let task_ids : Json = elim (lookup "task_ids" a.params) [ none ↦ array nil | some v ↦ v ] in
      do request (clear_tasks a.target task_ids); pure (cleared_tasks task_ids a.target)

  -- `f"rolled back ..." if version else "no prior version"`
  unfoldable pub rollback_message : String → String → Option ℕ → Message
  rollback_message d k none = no_prior_version
  rollback_message d k (some v) = if v == 0 then no_prior_version else rolled_back d k v

  unfoldable pub rollback_partition : String → String → Exec Message
  unfolding rollback_message
  rollback_partition d k w =
      let (version, registry) = Partitions.rollback d k w.partitions in
      (
        ok (rollback_message d k version),
        record w { pipeline = record w.pipeline { partitions = registry } },
      )

  unfoldable pub roll_back : ProposedAction → Exec Message
  unfolding dataset_of partition_key_of rollback_partition
  roll_back a = do d ← dataset_of a; k ← partition_key_of a; rollback_partition d k

  unfoldable pub set_workers : ProposedAction → Exec Message
  unfolding int_param upsert_desired_state
  set_workers a = do
    n ← int_param "n_workers" e.settings.stream_default_workers a.params
    upsert_desired_state "streaming.workers" (object (field "n" (int n) end))
    pure (workers_set "streaming.workers" (int n))

  unfoldable pub set_pool_slots : ProposedAction → Exec Message
  unfolding int_param request
  set_pool_slots a = do
    slots ← int_param "slots" 1 a.params
    request (patch_pool a.target slots)
    pure (pool_set a.target (int slots))

  -- The UPDATE and the INSERT of a quarantine.
  unfoldable pub quarantine_rows : String → String → ProposedAction → String → Exec Message
  unfolding check_jsonb are_finite
  quarantine_rows d k a run = do
    on_pipeline (λ p. record p { partitions = Partitions.deactivate d k p.partitions })
    check_jsonb (are_finite a.params)
    on_pipeline (λ p. record p {
      quarantine_events =
          p.quarantine_events
          ++ record {
            dataset = d;
            partition_key = k;
            reason = a.justification;
            payload = a.params;
            experiment_run = run;
          }
            ∷ [];
    })
    pure (quarantined d k)

  unfoldable pub quarantine : ProposedAction → String → Exec Message
  unfolding dataset_of partition_key_of quarantine_rows
  quarantine a run = do d ← dataset_of a; k ← partition_key_of a; quarantine_rows d k a run

  unfoldable pub store_mapping : ProposedAction → Exec Message
  unfolding dataset_text upsert_desired_state check_jsonb is_finite
  store_mapping a =
      let mapping : Json = elim (lookup "mapping" a.params) [ none ↦ object end | some v ↦ v ] in
      do
        check_jsonb (is_finite mapping)
        upsert_desired_state ("schema.mapping." <> dataset_text a) mapping
        pure (mapping_stored (dataset_text a))

  unfoldable pub block : ProposedAction → Exec Message
  unfolding dataset_text upsert_desired_state
  block a = do
    upsert_desired_state ("ingestion.blocked." <> dataset_text a)
        (object (field "blocked" (boolean true) end))
    pure (blocked (dataset_text a))

  unfoldable pub reprioritize : ProposedAction → Exec Message
  unfolding int_param upsert_desired_state
  reprioritize a = do
    priority ← int_param "priority" 1 a.params
    upsert_desired_state ("pipeline.priority." <> a.target)
        (object (field "priority" (int priority) end))
    pure (priority_set a.target (int priority))

  -- `_HANDLERS.get(action.action_type, _noop)`
  unfoldable pub handle : ActionType → ProposedAction → String → Exec Message
  handle retry_with_backoff a run = trigger a
  handle replay a run = trigger a
  handle partial_recompute a run = recompute a
  handle Contracts.rollback a run = roll_back a
  handle scale_workers a run = set_workers a
  handle adjust_pool_slots a run = set_pool_slots a
  handle quarantine_partition a run = quarantine a run
  handle apply_mapping a run = store_mapping a
  handle block_ingestion a run = block a
  handle reprioritize_pipeline a run = reprioritize a
  handle t a run = pure (acknowledged t)

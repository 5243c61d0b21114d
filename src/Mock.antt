-- ===== src/Mock.antt =====
-- The deterministic stand-in for the model: src/acde/llm/mock.py. The order in which a set is walked,
-- the text of a list and the length of a minute in the unit of the metrics are parameters.
pub mod Accepted
use Prim.Native.String.{◌++◌ as ◌<>◌}
use agentic_cloud_pipeline_g.Prelude.{
  ℕ, ◌*◌, ◌^◌, String, Bool, true, false, ◌||◌, Option, none, some, List, [], ◌∷◌, map, any, ltb,
  str_eq, if◌then◌else◌,
}
use agentic_cloud_pipeline_g.Prelude.Int.{pos}
use agentic_cloud_pipeline_g.Json.{int, text, Params}
use agentic_cloud_pipeline_g.Contracts.{
  AgentName, monitoring, optimization, schema, recovery, ActionType, raise_anomaly, no_action,
  scale_workers, adjust_pool_slots, quarantine_partition, allow_compatible, replay,
  retry_with_backoff, Payload,
}
use agentic_cloud_pipeline_g.Opa.{SchemaCompat, breaking, backward}
use agentic_cloud_pipeline_g.World.{TaskRun}
use agentic_cloud_pipeline_g.Agents.Detection.{Snapshot, OpenAnomaly}

pub record Rendering : Type 0 where
  -- the element that the walk of a set of texts, of which there are some, comes to first
  pub first_of : String → List String → String
  -- the text of a sorted list
  pub shown : List String → String
  pub minute : ℕ

unfoldable pub open_fault_types : Snapshot → List String
open_fault_types s = map (λ (o : OpenAnomaly). o.fault_type) s.open_anomalies

-- The confidences 0.9, 0.85, 0.8, 0.7 and 0.5, as the doubles they are.
unfoldable pub confidence_90 : ℕ
confidence_90 = 8106479329266893 * 2 ^ 1021

unfoldable pub confidence_85 : ℕ
confidence_85 = 7656119366529843 * 2 ^ 1021

unfoldable pub confidence_80 : ℕ
confidence_80 = 3602879701896397 * 2 ^ 1022

unfoldable pub confidence_70 : ℕ
confidence_70 = 3152519739159347 * 2 ^ 1022

unfoldable pub confidence_50 : ℕ
confidence_50 = 2 ^ 1073

-- `_action`
unfoldable pub action_of : AgentName → ActionType → String → String → ℕ → Params → Payload
action_of agent t target justification confidence params = record {
  action_id = 0;
  agent = agent;
  action_type = t;
  target = target;
  params = params;
  justification = justification;
  confidence = pos confidence;
}

-- `_no_action`
unfoldable pub nothing : AgentName → String → Payload
unfolding action_of confidence_50
nothing agent why = action_of agent no_action "none" why confidence_50 []

abbrev pub is_in_state : String → TaskRun → Bool
is_in_state state t = str_eq t.state state

abbrev pub is_breaking : SchemaCompat → Bool
is_breaking breaking = true
is_breaking _ = false

abbrev pub is_backward : SchemaCompat → Bool
is_backward backward = true
is_backward _ = false

abbrev pub is_some : Option String → Bool
is_some none = false
is_some (some t) = true

abbrev pub is_slow : ℕ → Option ℕ → Bool
is_slow limit none = false
is_slow limit (some f) = ltb limit f

module _ (e : Rendering) where
  -- `sorted(faults) or 'task failure'`
  unfoldable pub anomaly_text : List String → String
  anomaly_text [] = "anomaly detected: task failure"
  anomaly_text (f ∷ fs) = "anomaly detected: " <> e.shown (f ∷ fs)

  -- `next(iter(faults), "pipeline")`
  unfoldable pub anomaly_target : List String → String
  anomaly_target [] = "pipeline"
  anomaly_target (f ∷ fs) = e.first_of f fs

  abbrev pub is_nonempty : List String → Bool
  is_nonempty [] = false
  is_nonempty (f ∷ fs) = true

  unfoldable pub mock_monitoring : Snapshot → Payload
  unfolding open_fault_types anomaly_text anomaly_target action_of nothing confidence_90
  mock_monitoring s =
      let faults = open_fault_types s in
      let failed = any (λ t. is_in_state "failed" t || is_in_state "up_for_retry" t) s.task_runs in
      if is_nonempty faults || failed
      then action_of monitoring raise_anomaly (anomaly_target faults) (anomaly_text faults)
          confidence_90 []
      else nothing monitoring "all pipelines nominal"

  unfoldable pub mock_recovery : Snapshot → Payload
  unfolding open_fault_types action_of nothing confidence_85 confidence_80
  mock_recovery s =
      if any (str_eq "upstream_delay") (open_fault_types s)
      then action_of recovery replay "tpcds_ingest"
          "upstream stabilized; replay the delayed window instead of blind retry" confidence_85 []
      else if any (is_in_state "failed") s.task_runs
      then action_of recovery retry_with_backoff "tpcds_ingest"
          "transient task failure; retry with backoff" confidence_80 []
      else nothing recovery "no recoverable task failure"

  unfoldable pub mock_optimization : Snapshot → Payload
  unfolding open_fault_types action_of nothing confidence_80 confidence_70
  mock_optimization s =
      let faults = open_fault_types s in
      if any (str_eq "ingress_burst") faults || is_slow e.minute s.freshness
      then action_of optimization scale_workers "streaming"
          "ingress burst raising freshness lag; scale streaming workers up" confidence_80
          (("n_workers", int (pos 6)) ∷ [])
      else if any (str_eq "resource_contention") faults
      then action_of optimization adjust_pool_slots "default_pool"
          "CPU contention; reduce batch pool slots to relieve pressure" confidence_70
          (("slots", int (pos 4)) ∷ [])
      else nothing optimization "resource usage within targets"

  unfoldable pub mock_schema : Snapshot → Payload
  unfolding open_fault_types action_of nothing confidence_90 confidence_80
  mock_schema s =
      if is_breaking s.schema_compat || any (str_eq "schema_drift") (open_fault_types s)
      then action_of schema quarantine_partition "tpcds_daily_revenue"
          "breaking schema drift; quarantine the partition, other pipelines continue" confidence_90
          (("dataset", text "tpcds_daily_revenue") ∷ ("partition_key", text "2026-01") ∷ [])
      else if is_backward s.schema_compat
      then action_of schema allow_compatible "tpcds_daily_revenue"
          "backward-compatible change; allow" confidence_80 []
      else nothing schema "no schema change observed"

  -- `mock_propose`, by `_HANDLERS`
  unfoldable pub mock_propose : AgentName → Snapshot → Payload
  unfolding mock_monitoring mock_recovery mock_optimization mock_schema
  mock_propose monitoring s = mock_monitoring s
  mock_propose recovery s = mock_recovery s
  mock_propose optimization s = mock_optimization s
  mock_propose schema s = mock_schema s

-- ===== src/Tests/Harvests.antt =====
-- The metrics of a run at concrete data: an incident that was injected, and an event of the monitor's.
use agentic_cloud_pipeline_g.Prelude.{◌+◌, ◌≡◌, some, List, [], ◌∷◌, arith, eq_iff}
use agentic_cloud_pipeline_g.Prelude.Int.{ℤ, pos}
use agentic_cloud_pipeline_g.World.{FailureEvent}
use agentic_cloud_pipeline_g.Cost.{CostSettings, CostRow}
use agentic_cloud_pipeline_g.Harvest.{Metrics, Remains, harvest_metrics}
use agentic_cloud_pipeline_g.Harvest.Injected.{with_events, harvest_metrics-injected}
use agentic_cloud_pipeline_g.Tests.Samples.{open_fault, world}

abbrev settings : CostSettings
settings = record {
  cost_window = 60;
  cost_rate_compute = 5;
  cost_rate_storage = 1;
  provisioned_units_rightsized = 3;
  provisioned_units_static = 8;
  provisioning_horizon = 300;
  tenant_id = "acme";
  environment = "prod";
}

abbrev cost_row : CostRow
cost_row = record {
  experiment_run = "run";
  component = "streaming";
  compute_unit_seconds = 10;
  storage_gb_hours = 0;
  cost_units = 50;
  window_start = 0;
  window_end = 60;
  tenant_id = "acme";
  environment = "prod";
}

abbrev injected : FailureEvent
injected = record open_fault { detected_ts = some 60; resolved_ts = some 90 }

abbrev host_load : FailureEvent
host_load = record open_fault {
  scenario = "scheduler";
  detected_ts = some 70;
  resolved_ts = some 75;
}

abbrev remains : Remains
remains = record { world = record world { failure_events = injected ∷ [] }; ledger = cost_row ∷ [] }

abbrev least : List ℤ → ℤ
least [] = pos 0
least (x ∷ xs) = x

abbrev alone : Metrics
alone = harvest_metrics least settings "run" "ingest" "full" remains

abbrev beside : Metrics
beside = harvest_metrics least settings "run" "ingest" "full" (with_events (host_load ∷ []) remains)

harvest_metrics-injected_example :
    (beside.mttr_injection ≡ alone.mttr_injection)
    × (beside.detection_delay ≡ alone.detection_delay)
    × (beside.escalated_incidents ≡ alone.escalated_incidents)
    × (beside.cost_units
        ≡ beside.cost_compute_units + beside.cost_storage_units + beside.cost_provisioning_units)
harvest_metrics-injected_example =
    harvest_metrics-injected least settings "run" "ingest" "full" remains (host_load ∷ [])
      (ground (arith, eq_iff "ingest" "")) (ground (arith, eq_iff "scheduler" "ingest"), tt)

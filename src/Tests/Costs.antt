-- ===== src/Tests/Costs.antt =====
-- The cost ledger at concrete data: two samples of one component, and one after the span.
use agentic_cloud_pipeline_g.Prelude.{ℕ, ◌≡◌, refl, Option, none, some, List, [], ◌∷◌}
use agentic_cloud_pipeline_g.Cost.{CostSettings, UsageRow, Sample, integrate_worker_seconds}

abbrev samples : List Sample
samples = record { ts = 30; workers = 1 } ∷ record { ts = 10; workers = 2 } ∷ []

integral_runs : integrate_worker_seconds samples 5 40 ≡ 50
unfolding integrate_worker_seconds
integral_runs = refl

abbrev costs : CostSettings
costs = record {
  cost_window = 60;
  cost_rate_compute = 5;
  cost_rate_storage = 1;
  provisioned_units_rightsized = 3;
  provisioned_units_static = 8;
  provisioning_horizon = 300;
  tenant_id = "acme";
  environment = "prod";
}

abbrev usage_row : ℕ → Option ℕ → UsageRow
usage_row t n = record { experiment_run = "r"; component = "streaming"; ts = t; workers = n }

abbrev usage : List UsageRow
usage = usage_row 10 (some 2) ∷ usage_row 40 none ∷ usage_row 200 (some 4) ∷ []

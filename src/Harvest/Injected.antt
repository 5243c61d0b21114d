-- ===== src/Harvest/Injected.antt =====
-- The metrics of the incident that was injected, and the parts of the cost.
use agentic_cloud_pipeline_g.Prelude.{
  ℕ, ◌+◌, ◌≤◌, String, ◌≡◌, ◌≢◌, refl, ap, Bool, List, [], ◌∷◌, ◌++◌, map, str_eq, select, count,
  All, arith, eq_iff,
}
use agentic_cloud_pipeline_g.Prelude.Sorting.{total}
use agentic_cloud_pipeline_g.Prelude.Int.{ℤ}
use agentic_cloud_pipeline_g.World.{FailureEvent, Intervention}
use agentic_cloud_pipeline_g.Cost.{CostSettings, CostRow, storage_component}
use agentic_cloud_pipeline_g.Harvest.{
  Spans, closed_events, is_of_scenario, is_escalated, Remains, median_or_zero, harvest_metrics,
}

total-select_le :
    (f : CostRow → ℕ) (p : CostRow → Bool) (rows : List CostRow)
    → total f (select p rows) ≤ total f rows
total-select_le f p [] = omega arith
total-select_le f p (r ∷ rows) = ground (arith, total-select_le f p rows)

-- Events that the monitor raised beside the injected one: of another scenario.
abbrev pub AreSecondary : String → List FailureEvent → Type 0
AreSecondary scenario = All λ (f : FailureEvent). f.scenario ≢ scenario

module _ (run scenario : String) (named : scenario ≢ "") where
  injected-append :
      (fs more : List FailureEvent)
      → AreSecondary scenario more
      → select (λ (e : Spans). is_of_scenario scenario e.scenario) (closed_events run (fs ++ more))
        ≡ select (λ (e : Spans). is_of_scenario scenario e.scenario) (closed_events run fs)
  unfolding closed_events
  injected-append [] [] h = refl
  injected-append [] (f ∷ more) h = ground (
    arith,
    h.0,
    named,
    injected-append [] more h.1,
    eq_iff f.scenario scenario,
    eq_iff scenario "",
  )
  injected-append (f ∷ fs) more h = ground (arith, injected-append fs more h)

  escalated-append :
      (ms : List Intervention) (fs more : List FailureEvent)
      → AreSecondary scenario more
      → count (is_escalated run scenario ms) (fs ++ more) ≡ count (is_escalated run scenario ms) fs
  unfolding is_escalated
  escalated-append ms [] [] h = refl
  escalated-append ms [] (f ∷ more) h = ground (
    arith,
    h.0,
    named,
    escalated-append ms [] more h.1,
    eq_iff f.scenario scenario,
    eq_iff scenario "",
  )
  escalated-append ms (f ∷ fs) more h = ground (arith, escalated-append ms fs more h)

-- Some more events in what a run has left.
abbrev pub with_events : List FailureEvent → Remains → Remains
with_events more r = record r {
  world = record r.world { failure_events = r.world.failure_events ++ more };
}

-- Events of other scenarios than that of a run, such as the monitor's own, change neither the
-- recovery from the injection nor the delay of the detection nor the count of incidents that were
-- escalated; and the cost is the sum of its compute, its storage and its provisioning.
pub harvest_metrics-injected :
    (median : List ℤ → ℤ) (settings : CostSettings) (run scenario config : String) (r : Remains)
    (more : List FailureEvent)
    → scenario ≢ ""
    → AreSecondary scenario more
    → let m = harvest_metrics median settings run scenario config r in
      let m' = harvest_metrics median settings run scenario config (with_events more r) in
      (m'.mttr_injection ≡ m.mttr_injection)
      × (m'.detection_delay ≡ m.detection_delay)
      × (m'.escalated_incidents ≡ m.escalated_incidents)
      × (m'.cost_units ≡ m'.cost_compute_units + m'.cost_storage_units + m'.cost_provisioning_units)
unfolding harvest_metrics
harvest_metrics-injected median settings run scenario config r more named h =
    let fs = r.world.failure_events in
    (
      ap (λ es. median_or_zero median (map (λ (e : Spans). e.stall) es))
          (injected-append run scenario named fs more h),
      ap (λ es. median_or_zero median (map (λ (e : Spans). e.detect) es))
          (injected-append run scenario named fs more h),
      escalated-append run scenario named r.world.interventions fs more h,
      omega (
        arith,
        total-select_le (λ (c : CostRow). c.cost_units)
            (λ (c : CostRow). str_eq c.component storage_component)
            (select (λ (c : CostRow). str_eq c.experiment_run run) r.ledger),
      ),
    )

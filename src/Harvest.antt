-- ===== src/Harvest.antt =====
-- The metrics that one finished run contributes: src/acde/experiments/metrics.py. The median of some
-- times is a parameter; the counts of tokens and calls, which the model's client keeps, are left out.
pub mod Injected
use agentic_cloud_pipeline_g.Prelude.{
  ℕ, ◌+◌, ◌-◌, String, Bool, true, false, not, ◌&&◌, ◌||◌, Option, none, some, List, [], ◌∷◌, map,
  leb, str_eq, if◌then◌else◌, select, count, any,
}
use agentic_cloud_pipeline_g.Prelude.Sorting.{total}
use agentic_cloud_pipeline_g.Prelude.Int.{ℤ, pos, sub_ℕ}
use agentic_cloud_pipeline_g.World.{World, FailureEvent, Intervention, ActionRow}
use agentic_cloud_pipeline_g.Cost.{CostSettings, CostRow, storage_component, provisioning_cost}
use agentic_cloud_pipeline_g.Quality.{is_correct}

-- A row of the query for the events: the differences of the times of one that was detected and
-- resolved.
pub record Spans : Type 0 where
  pub mttr : ℤ
  pub stall : ℤ
  pub detect : ℤ
  pub fault_type : String
  pub scenario : String

abbrev pub spans_of : FailureEvent → ℕ → ℕ → Spans
spans_of f detected resolved = record {
  mttr = sub_ℕ resolved detected;
  stall = sub_ℕ resolved f.injected_ts;
  detect = sub_ℕ detected f.injected_ts;
  fault_type = f.fault_type;
  scenario = f.scenario;
}

unfoldable pub closed_events : String → List FailureEvent → List Spans
closed_events run [] = []
closed_events run (f ∷ fs) =
    let rest = closed_events run fs in
    elim f.detected_ts [
      | none ↦ rest
      | some detected ↦ elim f.resolved_ts [
        | none ↦ rest
        | some resolved ↦
            if str_eq f.experiment_run run then spans_of f detected resolved ∷ rest else rest
      ]
    ]

-- No scenario stands for all of them.
abbrev pub is_of_scenario : String → String → Bool
is_of_scenario scenario s = str_eq scenario "" || str_eq s scenario

-- FRESHNESS_FAULTS
abbrev pub stalls_stream : Spans → Bool
stalls_stream e = str_eq e.fault_type "upstream_delay" || str_eq e.fault_type "ingress_burst"

-- Whether a request was filed while the fault was open.
abbrev pub is_paged : FailureEvent → Intervention → Bool
is_paged f m =
    str_eq m.experiment_run f.experiment_run
    && (leb f.injected_ts m.requested_ts
        && (elim f.resolved_ts [ none ↦ true | some resolved ↦ leb m.requested_ts resolved ]))

unfoldable pub is_escalated : String → String → List Intervention → FailureEvent → Bool
is_escalated run scenario ms f =
    str_eq f.experiment_run run && (is_of_scenario scenario f.scenario && any (is_paged f) ms)

abbrev pub is_secondary : String → String → FailureEvent → Bool
is_secondary run scenario f =
    str_eq f.experiment_run run && (not (str_eq scenario "") && not (str_eq f.scenario scenario))

abbrev pub executed_types_of : String → ActionRow → Bool
executed_types_of run a = str_eq a.experiment_run run && a.executed

pub record Metrics : Type 0 where
  pub mttr : ℤ
  pub mttr_injection : ℤ
  pub detection_delay : ℤ
  pub cost_units : ℕ
  pub cost_compute_units : ℕ
  pub cost_storage_units : ℕ
  pub cost_provisioning_units : ℕ
  pub manual_interventions : ℕ
  pub escalated_incidents : ℕ
  pub secondary_events : ℕ
  pub freshness : ℤ
  pub decision_correct : Bool

-- What a run has left: the tables and the ledger of its costs.
pub record Remains : Type 0 where
  pub world : World
  pub ledger : List CostRow

module _ (median : List ℤ → ℤ) where
  -- `statistics.median(xs) if xs else 0.0`
  abbrev pub median_or_zero : List ℤ → ℤ
  median_or_zero [] = pos 0
  median_or_zero (x ∷ xs) = median (x ∷ xs)

  unfoldable pub harvest_metrics : CostSettings → String → String → String → Remains → Metrics
  unfolding closed_events is_escalated is_correct provisioning_cost
  harvest_metrics settings run scenario config r =
      let w = r.world in
      let events = closed_events run w.failure_events in
      let injected = select (λ (e : Spans). is_of_scenario scenario e.scenario) events in
      let of_run = select (λ (c : CostRow). str_eq c.experiment_run run) r.ledger in
      let metered = total (λ (c : CostRow). c.cost_units) of_run in
      let storage =
        total (λ (c : CostRow). c.cost_units)
          (select (λ (c : CostRow). str_eq c.component storage_component) of_run) in
      let provisioning = provisioning_cost settings config in
      record {
        mttr = median_or_zero (map (λ (e : Spans). e.mttr) events);
        mttr_injection = median_or_zero (map (λ (e : Spans). e.stall) injected);
        detection_delay = median_or_zero (map (λ (e : Spans). e.detect) injected);
        cost_units = metered + provisioning;
        cost_compute_units = metered - storage;
        cost_storage_units = storage;
        cost_provisioning_units = provisioning;
        manual_interventions =
            count (λ (m : Intervention). str_eq m.experiment_run run) w.interventions;
        escalated_incidents = count (is_escalated run scenario w.interventions) w.failure_events;
        secondary_events = count (is_secondary run scenario) w.failure_events;
        freshness = median_or_zero (map (λ (e : Spans). e.stall) (select stalls_stream events));
        decision_correct = is_correct scenario (
            map (λ (a : ActionRow). a.action.action_type)
              (select (executed_types_of run) w.agent_actions));
      }

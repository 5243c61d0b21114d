-- ===== src/Agents/Monitoring.antt =====
-- The monitoring agent's observation, which files the anomalies that are new:
-- src/acde/agents/monitoring.py.
pub mod Filed
use agentic_cloud_pipeline_g.Prelude.{
  ℕ, ◌+◌, String, Bool, ◌&&◌, ◌||◌, Option, none, some, List, [], ◌∷◌, ◌++◌, str_eq, if◌then◌else◌,
  any,
}
use text.Mathlib.Text.{starts_with}
use agentic_cloud_pipeline_g.Env.{Env}
use agentic_cloud_pipeline_g.World.{World, FailureEvent}
use agentic_cloud_pipeline_g.Agents.Detection.{
  Anomaly, OpenAnomaly, Snapshot, observe, detect_anomalies,
}

-- Whether an anomaly is in the set of those that are open already.
abbrev pub is_known : List OpenAnomaly → Anomaly → Bool
is_known known a =
    any (λ (o : OpenAnomaly). str_eq o.fault_type a.kind && str_eq o.scenario a.target) known

abbrev pub fault_of : String → Anomaly → World → FailureEvent
fault_of run a w = record {
  event_id = w.next_id;
  experiment_run = run;
  scenario = a.target;
  fault_type = a.kind;
  injected_ts = w.now;
  detected_ts = none;
  resolved_ts = none;
  resolution = none;
}

abbrev pub entry_of : Anomaly → World → OpenAnomaly
entry_of a w = record { event_id = w.next_id; scenario = a.target; fault_type = a.kind }

abbrev pub with_fault : String → Anomaly → World → World
with_fault run a w = record w {
  failure_events = w.failure_events ++ fault_of run a w ∷ [];
  next_id = w.next_id + 1;
}

-- Echoes of open faults, and anomalies that are open or filed already, are passed over.
abbrev pub is_settled : List OpenAnomaly → Anomaly → Bool
is_settled known a = starts_with a.kind "open_fault:" || is_known known a

-- The loop over the anomalies. `known` holds what was open before and what the loop has filed; the
-- entries that it files come back with the world.
unfoldable pub file_new :
    String → List OpenAnomaly → List Anomaly → World → List OpenAnomaly × World
file_new run known [] w = ([], w)
file_new run known (a ∷ rest) w =
    let skip : List OpenAnomaly × World = file_new run known rest w in
    let filed : List OpenAnomaly × World =
      file_new run (entry_of a w ∷ known) rest (with_fault run a w) in
    if is_settled known a then skip else (entry_of a w ∷ filed.0, filed.1)

-- `MonitoringAgent.observe`
unfoldable pub observe_and_file : Env → String → World → Snapshot × World
unfolding file_new
observe_and_file e run w =
    let s = observe run w in
    let t = file_new run s.open_anomalies (detect_anomalies e s) w in
    (record s { open_anomalies = s.open_anomalies ++ t.0 }, t.1)

-- ===== src/Tests/Desks.antt =====
-- The responders at concrete data: a run with an open fault that the rules cover, and a request that
-- an agent has filed for it.
use agentic_cloud_pipeline_g.Prelude.{ℕ, ◌+◌, ◌*◌, ◌≡◌, refl, true, none, [], ◌∷◌, count}
use agentic_cloud_pipeline_g.Responders.{
  Incident, HumanPage, Desk, is_open_fault, rules_cover_run, resolve_via_human, resolve_via_rules,
}
use agentic_cloud_pipeline_g.Responders.Resolved.{resolve_via_human-resolved}
use agentic_cloud_pipeline_g.Responders.Covered.{resolve_via_rules-unpaged}

abbrev delays : ℕ → ℕ → ℕ
delays seed ordinal = seed + 10 * ordinal

abbrev burst : Incident
burst = record {
  event_id = 4;
  experiment_run = "run";
  fault_type = "ingress_burst";
  injected_ts = 30;
  detected_ts = none;
  resolved_ts = none;
  resolution = none;
}

abbrev request : HumanPage
request = record {
  id = 1;
  experiment_run = "run";
  requested_ts = 35;
  completed_ts = none;
  simulated_latency = none;
}

abbrev desk : Desk
desk = record { incidents = burst ∷ []; pages = request ∷ []; next_id = 2; now = 50 }

resolve_via_human-resolved_example :
    ((resolve_via_human delays "run" 7 true desk).0 ≡ 1)
    × (count (is_open_fault "run") (resolve_via_human delays "run" 7 true desk).1.incidents ≡ 0)
resolve_via_human-resolved_example = resolve_via_human-resolved delays "run" 7 true desk

resolve_via_rules-unpaged_example :
    ((resolve_via_rules delays 5 "run" 7 desk).0 ≡ 1)
    × (count (is_open_fault "run") (resolve_via_rules delays 5 "run" 7 desk).1.incidents ≡ 0)
    × ((resolve_via_rules delays 5 "run" 7 desk).1.pages ≡ request ∷ [])
unfolding rules_cover_run
resolve_via_rules-unpaged_example = resolve_via_rules-unpaged delays "run" 7 5 desk refl

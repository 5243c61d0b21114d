-- ===== src/Responders.antt =====
-- What responds to a fault where no agent does: src/acde/experiments/baseline.py (the simulated human
-- on call) and src/acde/experiments/baselines.py (rules and autoscaling), with the columns of
-- telemetry.failure_events and telemetry.manual_interventions that they read and write. The delay of
-- the human, drawn from a seed and an ordinal, is a parameter.
pub mod Resolved
pub mod Covered
use agentic_cloud_pipeline_g.Prelude.{
  ℕ, ◌+◌, ◌-◌, String, Bool, true, false, not, ◌&&◌, ◌||◌, Option, none, some, List, [], ◌∷◌, ◌++◌,
  map, leb, ltb, ◌==◌, str_eq, if◌then◌else◌, select, any,
}
use agentic_cloud_pipeline_g.Prelude.Sorting.{sort_by}

pub record Incident : Type 0 where
  pub event_id : ℕ
  pub experiment_run : String
  pub fault_type : String
  pub injected_ts : ℕ
  pub detected_ts : Option ℕ
  pub resolved_ts : Option ℕ
  pub resolution : Option String

-- A request to a human: a row of telemetry.manual_interventions.
pub record HumanPage : Type 0 where
  pub id : ℕ
  pub experiment_run : String
  pub requested_ts : ℕ
  pub completed_ts : Option ℕ
  pub simulated_latency : Option ℕ

pub record Desk : Type 0 where
  pub incidents : List Incident
  pub pages : List HumanPage
  pub next_id : ℕ
  pub now : ℕ

abbrev pub is_none : Option ℕ → Bool
is_none none = true
is_none (some t) = false

abbrev pub or_else : Option ℕ → ℕ → ℕ
or_else none t = t
or_else (some s) t = s

abbrev pub lacks_resolution : Incident → Bool
lacks_resolution f = is_none f.resolved_ts

abbrev pub is_open_fault : String → Incident → Bool
is_open_fault run f = str_eq f.experiment_run run && lacks_resolution f

-- SET detected_ts = COALESCE(detected_ts, injected_ts) WHERE ... resolved_ts IS NULL
unfoldable pub stamp_detected : String → List Incident → List Incident
stamp_detected run [] = []
stamp_detected run (f ∷ fs) =
    (if is_open_fault run f
      then record f { detected_ts = some (or_else f.detected_ts f.injected_ts) }
      else f)
    ∷ stamp_detected run fs

-- SET resolved_ts = %s, resolution = %s WHERE event_id = %s
unfoldable pub set_resolved : ℕ → ℕ → String → List Incident → List Incident
set_resolved id t label [] = []
set_resolved id t label (f ∷ fs) =
    (if f.event_id == id then record f { resolved_ts = some t; resolution = some label } else f)
    ∷ set_resolved id t label fs

-- ORDER BY requested_ts, id and ORDER BY injected_ts, event_id
abbrev pub earlier_page : HumanPage → HumanPage → Bool
earlier_page a b =
    ltb a.requested_ts b.requested_ts || (a.requested_ts == b.requested_ts && leb a.id b.id)

abbrev pub earlier_fault : Incident → Incident → Bool
earlier_fault f g =
    ltb f.injected_ts g.injected_ts || (f.injected_ts == g.injected_ts && leb f.event_id g.event_id)

-- The open requests of a run since a fault was injected.
abbrev pub is_request_for : String → Incident → HumanPage → Bool
is_request_for run f p =
    str_eq p.experiment_run run && (is_none p.completed_ts && leb f.injected_ts p.requested_ts)

-- The UPDATE of the request that is answered.
unfoldable pub answer_request : ℕ → ℕ → ℕ → List HumanPage → List HumanPage
answer_request id latency completed [] = []
answer_request id latency completed (p ∷ ps) =
    (if p.id == id
      then record p { simulated_latency = some latency; completed_ts = some completed }
      else p)
    ∷ answer_request id latency completed ps

-- The UPDATE of the requests that the same answer_request closes.
unfoldable pub close_others : String → Incident → ℕ → List HumanPage → List HumanPage
close_others run f completed [] = []
close_others run f completed (p ∷ ps) =
    (if is_request_for run f p && leb p.requested_ts completed
      then record p {
        completed_ts = some completed;
        simulated_latency = some (completed - p.requested_ts);
      }
      else p)
    ∷ close_others run f completed ps

-- The request that the human answers: the first one, or a new one at the detection.
unfoldable pub first_request : String → Incident → Desk → HumanPage × Desk
unfolding sort_by
first_request run f k = elim (sort_by earlier_page (select (is_request_for run f) k.pages)) [
  | p ∷ _ ↦ (p, k)
  | [] ↦
      let p : HumanPage = record {
        id = k.next_id;
        experiment_run = run;
        requested_ts = or_else f.detected_ts k.now;
        completed_ts = none;
        simulated_latency = none;
      } in
      (p, record k { pages = k.pages ++ p ∷ []; next_id = k.next_id + 1 })
]

-- RULE_COVERAGE and AUTOSCALE_COVERAGE
abbrev pub rule_coverage : List String
rule_coverage = "upstream_delay" ∷ "resource_contention" ∷ "ingress_burst" ∷ []

abbrev pub autoscale_coverage : List String
autoscale_coverage = "resource_contention" ∷ "ingress_burst" ∷ []

abbrev pub is_covered : List String → Incident → Bool
is_covered covered f = any (str_eq f.fault_type) covered

-- The loop of `_resolve_covered` over the open faults: how many it resolves.
unfoldable pub resolve_covered : List String → ℕ → String → List Incident → Desk → ℕ → ℕ × Desk
unfolding set_resolved
resolve_covered covered delay label [] k n = (n, k)
resolve_covered covered delay label (f ∷ fs) k n =
    let t = or_else f.detected_ts k.now + delay in
    let k' : Desk = record k { incidents = set_resolved f.event_id t label k.incidents } in
    let resolved = resolve_covered covered delay label fs k' (n + 1) in
    let skipped = resolve_covered covered delay label fs k n in
    if is_covered covered f then resolved else skipped

-- `rules_cover_run`
unfoldable pub rules_cover_run : String → Desk → Bool
rules_cover_run run k =
    any (is_open_fault run) k.incidents
    && not (any (λ f. is_open_fault run f && not (is_covered rule_coverage f)) k.incidents)

module _ (latency : ℕ → ℕ → ℕ) where
  -- `_page`: the time at which the human is done.
  unfoldable pub page : String → Incident → ℕ → ℕ → Desk → ℕ × Desk
  unfolding first_request answer_request close_others
  page run f ordinal seed k =
      let (first, k') = first_request run f k in
      let completed = first.requested_ts + latency seed ordinal in
      let answered = answer_request first.id (latency seed ordinal) completed k'.pages in
      (completed, record k' { pages = close_others run f completed answered })

  -- The loop of `resolve_via_human` over the faults of the run, from an ordinal.
  unfoldable pub resolve_faults : String → ℕ → ℕ → List Incident → Desk → ℕ → ℕ × Desk
  unfolding page set_resolved
  resolve_faults run seed ordinal [] k n = (n, k)
  resolve_faults run seed ordinal (f ∷ fs) k n =
      let (completed, k') = page run f ordinal seed k in
      let k'' : Desk = record k' {
        incidents = set_resolved f.event_id completed "human" k'.incidents;
      } in
      let resolved = resolve_faults run seed (ordinal + 1) fs k'' (n + 1) in
      let skipped = resolve_faults run seed (ordinal + 1) fs k n in
      if lacks_resolution f then resolved else skipped

  unfoldable pub resolve_via_human : String → ℕ → Bool → Desk → ℕ × Desk
  unfolding stamp_detected resolve_faults sort_by
  resolve_via_human run seed fixed_detection k =
      let incidents = if fixed_detection then stamp_detected run k.incidents else k.incidents in
      let faults = sort_by earlier_fault (select (λ f. str_eq f.experiment_run run) incidents) in
      resolve_faults run seed 0 faults (record k { incidents = incidents }) 0

  -- `_resolve_covered`: how many faults it resolves without the human.
  unfoldable pub resolve_automatically : List String → ℕ → String → String → ℕ → Desk → ℕ × Desk
  unfolding stamp_detected resolve_covered resolve_via_human
  resolve_automatically covered delay label run seed k =
      let stamped = stamp_detected run k.incidents in
      let (auto, k') =
        resolve_covered covered delay label (select (is_open_fault run) stamped)
          (record k { incidents = stamped }) 0 in
      let (by_human, k'') = resolve_via_human run seed true k' in (auto, k'')

  unfoldable pub resolve_via_rules : ℕ → String → ℕ → Desk → ℕ × Desk
  unfolding resolve_automatically
  resolve_via_rules delay = resolve_automatically rule_coverage delay "rule"

  unfoldable pub resolve_via_autoscale : ℕ → String → ℕ → Desk → ℕ × Desk
  unfolding resolve_automatically
  resolve_via_autoscale delay = resolve_automatically autoscale_coverage delay "autoscale"

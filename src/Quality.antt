-- ===== src/Quality.antt =====
-- Whether the actions on a fault were acceptable ones: src/acde/experiments/decision_quality.py, and
-- the report of src/acde/ops/decision_quality.py over all tenants, whose query is read as its result.
-- The rounded quotient is a parameter.
pub mod Scores
pub mod Incidents
pub mod Mitigations
use agentic_cloud_pipeline_g.Prelude.{
  ℕ, ◌+◌, ◌-◌, String, Bool, true, false, not, ◌&&◌, ◌||◌, Option, none, some, List, [], ◌∷◌, map,
  ltb, leb, ◌==◌, str_eq, if◌then◌else◌, select, any,
}
use agentic_cloud_pipeline_g.Prelude.Dict.{Dict, lookup, insert}
use agentic_cloud_pipeline_g.Contracts.{
  ActionType, scale_workers, adjust_pool_slots, reprioritize_pipeline, apply_mapping,
  quarantine_partition, block_ingestion, retry_with_backoff, replay, rollback, partial_recompute,
}
use agentic_cloud_pipeline_g.World.{World, FailureEvent, ActionRow}

-- The sets of EXPECTED_ACTIONS and LIVE_EXPECTED_ACTIONS, as membership tests.
abbrev pub mends_schema : ActionType → Bool
mends_schema quarantine_partition = true
mends_schema block_ingestion = true
mends_schema apply_mapping = true
mends_schema _ = false

abbrev pub catches_up : ActionType → Bool
catches_up replay = true
catches_up retry_with_backoff = true
catches_up partial_recompute = true
catches_up _ = false

abbrev pub adds_capacity : ActionType → Bool
adds_capacity scale_workers = true
adds_capacity adjust_pool_slots = true
adds_capacity _ = false

abbrev pub relieves_load : ActionType → Bool
relieves_load reprioritize_pipeline = true
relieves_load t = adds_capacity t

abbrev pub remediates : ActionType → Bool
remediates rollback = true
remediates t = catches_up t

abbrev pub catches_up_or_adds : ActionType → Bool
catches_up_or_adds t = catches_up t || adds_capacity t

-- `expected_for`; `none` is the empty set of an unknown scenario.
unfoldable pub expected_for : String → Option (ActionType → Bool)
expected_for scenario =
    if str_eq scenario "schema_drift"
    then some mends_schema
    else if str_eq scenario "upstream_delay"
    then some catches_up
    else if str_eq scenario "ingress_burst"
    then some adds_capacity
    else if str_eq scenario "resource_contention"
    then some relieves_load
    else none

unfoldable pub expected_for_live : String → Option (ActionType → Bool)
expected_for_live fault_type =
    if str_eq fault_type "task_failed"
    then some remediates
    else if str_eq fault_type "freshness_breach"
    then some catches_up_or_adds
    else if str_eq fault_type "cpu_high"
    then some relieves_load
    else if str_eq fault_type "schema_breaking"
    then some mends_schema
    else none

-- `_any_match`
unfoldable pub any_match : Option (ActionType → Bool) → List ActionType → Bool
any_match none actions = false
any_match (some expected) actions = any expected actions

unfoldable pub is_correct : String → List ActionType → Bool
unfolding expected_for any_match
is_correct scenario = any_match (expected_for scenario)

unfoldable pub is_correct_live : String → List ActionType → Bool
unfolding expected_for_live any_match
is_correct_live fault_type = any_match (expected_for_live fault_type)

-- A row of the query: an incident that was detected and resolved in the window, with the types of the
-- actions that were executed between.
pub record Scored : Type 0 where
  pub event_id : ℕ
  pub fault_type : String
  pub actions_taken : List ActionType

-- aa.ts BETWEEN fe.detected_ts AND fe.resolved_ts
abbrev pub was_within : FailureEvent → ℕ → ℕ → ActionRow → Bool
was_within f detected resolved a =
    str_eq a.experiment_run f.experiment_run
    && (a.executed && (leb detected a.ts && leb a.ts resolved))

-- fe.injected_ts > now() - interval
unfoldable pub incident_rows : ℕ → ℕ → List ActionRow → List FailureEvent → List Scored
incident_rows now window actions [] = []
incident_rows now window actions (f ∷ fs) =
    let rest = incident_rows now window actions fs in
    elim f.detected_ts [
      | none ↦ rest
      | some detected ↦ elim f.resolved_ts [
        | none ↦ rest
        | some resolved ↦
            if ltb now (f.injected_ts + window)
            then record {
              event_id = f.event_id;
              fault_type = f.fault_type;
              actions_taken =
                  map (λ (a : ActionRow). a.action.action_type)
                    (select (was_within f detected resolved) actions);
            }
              ∷ rest
            else rest
      ]
    ]

pub record Bucket : Type 0 where
  pub total : ℕ
  pub correct : ℕ

pub record Quality : Type 0 where
  pub by_fault_type : Dict Bucket
  pub correct : ℕ
  pub total : ℕ
  pub unscored : ℕ

abbrev pub bucket_of : String → Dict Bucket → Bucket
bucket_of fault_type d = elim (lookup fault_type d) [
  | none ↦ record { total = 0; correct = 0 }
  | some b ↦ b
]

abbrev pub one_if : Bool → ℕ
one_if b = if b then 1 else 0

-- `setdefault` and the increments.
unfoldable pub score_one : Bool → Bucket → Bucket
score_one ok b = record { total = b.total + 1; correct = b.correct + one_if ok }

unfoldable pub is_scored : Scored → Bool
unfolding expected_for_live
is_scored r = elim (expected_for_live r.fault_type) [ none ↦ false | some expected ↦ true ]

unfoldable pub is_mended : Scored → Bool
unfolding is_correct_live
is_mended r = is_correct_live r.fault_type r.actions_taken

-- The body of the loop.
unfoldable pub score : Scored → Quality → Quality
unfolding is_scored is_mended score_one lookup insert
score r q =
    if is_scored r
    then record q {
      by_fault_type =
          insert r.fault_type (score_one (is_mended r) (bucket_of r.fault_type q.by_fault_type))
            q.by_fault_type;
      correct = q.correct + one_if (is_mended r);
      total = q.total + 1;
    }
    else record q { unscored = q.unscored + 1 }

unfoldable pub score_all : List Scored → Quality → Quality
unfolding score
score_all [] q = q
score_all (r ∷ rs) q = score_all rs (score r q)

abbrev pub begun : Quality
begun = record { by_fault_type = []; correct = 0; total = 0; unscored = 0 }

pub record Report (V : Type 0) : Type 0 where
  pub quality : Quality
  pub accuracy : Option V

abbrev pub quality_of : {V : Type 0} → Report V → Quality
quality_of r = r.quality

module _ {V : Type 0} (quotient : ℕ → ℕ → V) where
  -- `live_decision_quality`, of a window in microseconds
  unfoldable pub live_decision_quality : ℕ → World → Report V
  unfolding incident_rows score_all
  live_decision_quality window w =
      let q = score_all (incident_rows w.now window w.agent_actions w.failure_events) begun in
      record {
        quality = q;
        accuracy = if q.total == 0 then none else some (quotient q.correct q.total);
      }

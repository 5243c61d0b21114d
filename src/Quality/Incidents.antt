-- ===== src/Quality/Incidents.antt =====
-- The report's numbers are counts of the incidents among the events.
use agentic_cloud_pipeline_g.Prelude.{
  ℕ, ◌+◌, String, ◌≡◌, ◌∙◌, ap, refl, Option-cases, inl, inr, Bool, false, ◌&&◌, ◌||◌, map, any,
  select, ltb, leb, none, some, List, [], ◌∷◌, str_eq, count, length, arith, eq_iff,
}
use agentic_cloud_pipeline_g.World.{World, FailureEvent, ActionRow}
use agentic_cloud_pipeline_g.Contracts.{
  ActionType, scale_workers, adjust_pool_slots, reprioritize_pipeline, apply_mapping,
  quarantine_partition, block_ingestion, retry_with_backoff, replay, rollback, partial_recompute,
}
use agentic_cloud_pipeline_g.Quality.{
  expected_for_live, was_within, Scored, bucket_of, is_scored, is_mended, incident_rows, any_match,
  is_correct_live, live_decision_quality, begun, quality_of,
}
use agentic_cloud_pipeline_g.Quality.Scores.{is_scored_as, is_mended_as, score_all-Counts}

module _ (now window : ℕ) where
  -- An incident of the report: detected and resolved, and injected in the window.
  abbrev pub is_incident : FailureEvent → Bool
  is_incident f = elim f.detected_ts [
    | none ↦ false
    | some detected ↦ elim f.resolved_ts [
      | none ↦ false
      | some resolved ↦ ltb now (f.injected_ts + window)
    ]
  ]

-- The fault types that an action of the type is accepted for.
abbrev pub is_accepted : ActionType → String → Bool
is_accepted rollback fault = str_eq fault "task_failed"
is_accepted replay fault = str_eq fault "task_failed" || str_eq fault "freshness_breach"
is_accepted retry_with_backoff fault = str_eq fault "task_failed" || str_eq fault "freshness_breach"
is_accepted partial_recompute fault = str_eq fault "task_failed" || str_eq fault "freshness_breach"
is_accepted scale_workers fault = str_eq fault "freshness_breach" || str_eq fault "cpu_high"
is_accepted adjust_pool_slots fault = str_eq fault "freshness_breach" || str_eq fault "cpu_high"
is_accepted reprioritize_pipeline fault = str_eq fault "cpu_high"
is_accepted quarantine_partition fault = str_eq fault "schema_breaking"
is_accepted block_ingestion fault = str_eq fault "schema_breaking"
is_accepted apply_mapping fault = str_eq fault "schema_breaking"
is_accepted _ fault = false

abbrev pub is_known : String → Bool
is_known fault =
    str_eq fault "task_failed"
    || (str_eq fault "freshness_breach"
        || (str_eq fault "cpu_high" || str_eq fault "schema_breaking"))

-- An executed action of the incident's run, from its detection to its resolution, of an accepted type.
abbrev pub mends : FailureEvent → ℕ → ℕ → ActionRow → Bool
mends f detected resolved a =
    a.executed
    && (str_eq a.experiment_run f.experiment_run
        && (leb detected a.ts
            && (leb a.ts resolved && is_accepted a.action.action_type f.fault_type)))

abbrev pub is_answered : List ActionRow → FailureEvent → Bool
is_answered actions f = elim f.detected_ts [
  | none ↦ false
  | some detected ↦ elim f.resolved_ts [
    | none ↦ false
    | some resolved ↦ any (mends f detected resolved) actions
  ]
]

is_scored-is_known : (r : Scored) → is_scored r ≡ is_known r.fault_type
unfolding is_scored expected_for_live
is_scored-is_known r = ground arith

-- A text is one of two different texts at most.
apart : (s a b : String) → str_eq a b ≡ false → (str_eq s a && str_eq s b) ≡ false
apart s a b h = ground (arith, h, eq_iff s a, eq_iff s b, eq_iff a b)

is_correct_live-cons :
    (fault : String) (t : ActionType) (ts : List ActionType)
    → is_correct_live fault (t ∷ ts) ≡ (is_accepted t fault || is_correct_live fault ts)
unfolding is_correct_live expected_for_live any_match
is_correct_live-cons fault t ts = ground (
  arith,
  apart fault "task_failed" "freshness_breach" refl,
  apart fault "task_failed" "cpu_high" refl,
  apart fault "task_failed" "schema_breaking" refl,
  apart fault "freshness_breach" "cpu_high" refl,
  apart fault "freshness_breach" "schema_breaking" refl,
  apart fault "cpu_high" "schema_breaking" refl,
)

is_correct_live-mends :
    (f : FailureEvent) (detected resolved : ℕ) (actions : List ActionRow)
    → is_correct_live f.fault_type (
        map
          (λ (a : ActionRow). a.action.action_type)
          (select (was_within f detected resolved) actions))
      ≡ any (mends f detected resolved) actions
unfolding is_correct_live expected_for_live any_match
is_correct_live-mends f d r [] = ground arith
is_correct_live-mends f d r (a ∷ actions) = ground (
  arith,
  is_correct_live-mends f d r actions,
  is_correct_live-cons f.fault_type a.action.action_type
      (map (λ (a : ActionRow). a.action.action_type) (select (was_within f d r) actions)),
)

module _ (actions : List ActionRow) where
  -- The row of an incident.
  abbrev row_of : FailureEvent → ℕ → ℕ → Scored
  row_of f detected resolved = record {
    event_id = f.event_id;
    fault_type = f.fault_type;
    actions_taken =
        map (λ (a : ActionRow). a.action.action_type)
          (select (was_within f detected resolved) actions);
  }

  count-incident_rows :
      (now window : ℕ) (P : Scored → Bool) (Q : FailureEvent → Bool)
      → ((f : FailureEvent) (detected resolved : ℕ)
          → f.detected_ts ≡ some detected
          → f.resolved_ts ≡ some resolved
          → P (row_of f detected resolved) ≡ Q f)
      → (fs : List FailureEvent)
      → count P (incident_rows now window actions fs)
        ≡ count (λ f. is_incident now window f && Q f) fs
  unfolding incident_rows
  count-incident_rows now window P Q h [] = refl
  count-incident_rows now window P Q h (f ∷ fs) =
      let ih = count-incident_rows now window P Q h fs in
      elim (Option-cases f.detected_ts) [
        | inl n ↦ rw n (omega (arith, ih))
        | inr (d, e) ↦ elim (Option-cases f.resolved_ts) [
          | inl n ↦ rw (e, n) (omega (arith, ih))
          | inr (r, k) ↦ rw (e, k) (ground (arith, ih, h f d r e k))
        ]
      ]

length-incident_rows :
    (now window : ℕ) (actions : List ActionRow) (fs : List FailureEvent)
    → length (incident_rows now window actions fs) ≡ count (is_incident now window) fs
unfolding incident_rows
length-incident_rows now window actions [] = refl
length-incident_rows now window actions (f ∷ fs) =
    let ih = length-incident_rows now window actions fs in
    elim (Option-cases f.detected_ts) [
      | inl n ↦ rw n (omega (arith, ih))
      | inr (d, e) ↦ elim (Option-cases f.resolved_ts) [
        | inl n ↦ rw (e, n) (omega (arith, ih))
        | inr (r, k) ↦ rw (e, k) (ground (arith, ih))
      ]
    ]

-- In the report each fault type of the taxonomy has as many incidents, and as many that were
-- answered correctly, as there are of it among the events, and every other type has none: an incident
-- is an event that was injected within the window, detected and resolved, and it was answered
-- correctly if between its detection and its resolution, both included, an action of its run was
-- executed whose type is accepted for the fault. The totals count the incidents of the types of the
-- taxonomy; those of the others are unscored, and each incident is one or the other.
pub live_decision_quality-counted :
    {V : Type 0} (quotient : ℕ → ℕ → V) (window : ℕ) (w : World) (fault : String)
    → let q = quality_of (live_decision_quality quotient window w) in
      ((bucket_of fault q.by_fault_type).total
        ≡ count
            (λ f.
              is_incident w.now window f && (str_eq f.fault_type fault && is_known f.fault_type))
            w.failure_events)
      × ((bucket_of fault q.by_fault_type).correct
          ≡ count
              (λ f.
                is_incident w.now window f
                && (str_eq f.fault_type fault && is_answered w.agent_actions f))
              w.failure_events)
      × (q.total
          ≡ count (λ f. is_incident w.now window f && is_known f.fault_type) w.failure_events)
      × (q.correct
          ≡ count
              (λ f. is_incident w.now window f && is_answered w.agent_actions f)
              w.failure_events)
      × (q.unscored + q.total ≡ count (is_incident w.now window) w.failure_events)
unfolding live_decision_quality is_mended
live_decision_quality-counted quotient window w fault =
    let rows = incident_rows w.now window w.agent_actions w.failure_events in
    let counted = count-incident_rows w.agent_actions w.now window in
    let c = score_all-Counts fault rows begun in
    let answered : (f : FailureEvent) (d r : ℕ)
        → f.detected_ts ≡ some d
        → f.resolved_ts ≡ some r
        → is_correct_live f.fault_type (
            map (λ (a : ActionRow). a.action.action_type)
              (select (was_within f d r) w.agent_actions))
          ≡ is_answered w.agent_actions f =
      λ f d r e k. rw (e, k) (is_correct_live-mends f d r w.agent_actions) in
    (
      omega (arith, c.in_bucket)
          ∙ counted (is_scored_as fault) (λ f. str_eq f.fault_type fault && is_known f.fault_type)
              (λ f d r e k.
                ap (λ b. str_eq f.fault_type fault && b)
                  (is_scored-is_known (row_of w.agent_actions f d r)))
              w.failure_events,
      omega (arith, c.correct_in_bucket)
          ∙ counted (is_mended_as fault)
              (λ f. str_eq f.fault_type fault && is_answered w.agent_actions f)
              (λ f d r e k. ap (λ b. str_eq f.fault_type fault && b) (answered f d r e k))
              w.failure_events,
      omega (arith, c.scored)
          ∙ counted is_scored (λ f. is_known f.fault_type)
              (λ f d r e k. is_scored-is_known (row_of w.agent_actions f d r)) w.failure_events,
      omega (arith, c.correct)
          ∙ counted is_mended (is_answered w.agent_actions) answered w.failure_events,
      omega (arith, c.all_counted)
          ∙ length-incident_rows w.now window w.agent_actions w.failure_events,
    )

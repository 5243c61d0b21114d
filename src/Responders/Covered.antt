-- ===== src/Responders/Covered.antt =====
-- Where the rules cover every open fault of the run, nobody is paged.
use agentic_cloud_pipeline_g.Prelude.{
  ℕ, ◌+◌, String, ◌≡◌, ◌∙◌, refl, sym, true, false, not, ◌&&◌, List, [], ◌∷◌, str_eq, count, select,
  any, All, arith, either_way,
}
use agentic_cloud_pipeline_g.Prelude.Sorting.{sort_by, count-sort_by}
use agentic_cloud_pipeline_g.Responders.{
  Incident, Desk, or_else, lacks_resolution, is_open_fault, is_covered, stamp_detected,
  earlier_fault, resolve_faults, resolve_via_human, resolve_covered, resolve_automatically,
  rule_coverage, rules_cover_run, resolve_via_rules,
}
use agentic_cloud_pipeline_g.Responders.Resolved.{
  stays_open, count-set_resolved, count-left_fault, count-open, none_stays, count-unresolved,
  count-stamped, resolve_via_human-resolved,
}

module _ (covered : List String) (run : String) where
  -- What the loop over the open faults comes to.
  abbrev Covers : List Incident → Desk → ℕ → ℕ × Desk → Type 0
  Covers fs k n (m, k') =
      (m ≡ n + count (is_covered covered) fs)
      × (count (is_open_fault run) k'.incidents
          ≡ count (stays_open (is_covered covered) run fs) k.incidents)
      × (k'.pages ≡ k.pages)

  resolve_covered-Covers :
      (delay : ℕ) (label : String) (fs : List Incident) (k : Desk) (n : ℕ)
      → Covers fs k n (resolve_covered covered delay label fs k n)
  unfolding resolve_covered
  resolve_covered-Covers delay label [] k n =
      (omega arith, count-open (is_covered covered) run k.incidents, refl)
  resolve_covered-Covers delay label (f ∷ fs) k n =
      either_way (Covers (f ∷ fs) k n) (is_covered covered f) _ _
        (λ h.
          let (e1, e2, e3) = resolve_covered-Covers delay label fs _ (n + 1) in
          (
            ground (arith, h, e1),
            e2
                ∙ count-set_resolved (is_covered covered) run f fs
                    (or_else f.detected_ts k.now + delay) label k.incidents h,
            e3,
          ))
        (λ h.
          let (e1, e2, e3) = resolve_covered-Covers delay label fs k n in
          (
            ground (arith, h, e1),
            e2 ∙ sym (count-left_fault (is_covered covered) run f fs k.incidents h),
            e3,
          ))

  -- Every open fault is covered.
  abbrev AreCovered : List Incident → Type 0
  AreCovered = All λ r. is_open_fault run r ≡ true → is_covered covered r ≡ true

  stamped-AreCovered :
      (rows : List Incident)
      → any (λ f. is_open_fault run f && not (is_covered covered f)) rows ≡ false
      → AreCovered (stamp_detected run rows)
  unfolding stamp_detected
  stamped-AreCovered [] h = tt
  stamped-AreCovered (f ∷ rows) h =
      (λ o. ground (arith, h, o), stamped-AreCovered rows (ground (arith, h)))

  count-covered :
      (rows : List Incident)
      → AreCovered rows
      → count (is_covered covered) (select (is_open_fault run) rows)
        ≡ count (is_open_fault run) rows
  count-covered [] h = refl
  count-covered (f ∷ rows) h = ground (arith, h.0, count-covered rows h.1)

module _ (latency : ℕ → ℕ → ℕ) (run : String) (seed : ℕ) where
  -- The human has nothing to do with faults that are resolved.
  resolve_faults_idle :
      (ordinal : ℕ) (fs : List Incident) (k : Desk) (n : ℕ)
      → count lacks_resolution fs ≡ 0
      → (resolve_faults latency run seed ordinal fs k n).1.pages ≡ k.pages
  unfolding resolve_faults
  resolve_faults_idle ordinal [] k n h = refl
  resolve_faults_idle ordinal (f ∷ fs) k n h =
      ground (arith, h, resolve_faults_idle (ordinal + 1) fs k n)

  resolve_via_human_idle :
      (k : Desk)
      → count (is_open_fault run) k.incidents ≡ 0
      → (resolve_via_human latency run seed true k).1.pages ≡ k.pages
  unfolding resolve_via_human
  resolve_via_human_idle k h =
      let stamped = stamp_detected run k.incidents in
      let of_run = select (λ f. str_eq f.experiment_run run) stamped in
      resolve_faults_idle 0 (sort_by earlier_fault of_run) (record k { incidents = stamped }) 0
        (omega (
          arith,
          h,
          count-sort_by earlier_fault lacks_resolution of_run,
          count-unresolved latency run stamped,
          count-stamped latency run k.incidents,
        ))

  -- If the rules cover the run, they resolve all of its open faults, none is open afterwards, and the
  -- requests to the human are as before: nobody is paged and no request is answered.
  pub resolve_via_rules-unpaged :
      (delay : ℕ) (k : Desk)
      → rules_cover_run run k ≡ true
      → let (n, k') = resolve_via_rules latency delay run seed k in
        (n ≡ count (is_open_fault run) k.incidents)
        × (count (is_open_fault run) k'.incidents ≡ 0)
        × (k'.pages ≡ k.pages)
  unfolding resolve_via_rules resolve_automatically rules_cover_run
  resolve_via_rules-unpaged delay k h =
      let stamped = stamp_detected run k.incidents in
      let begun : Desk = record k { incidents = stamped } in
      let faults = select (is_open_fault run) stamped in
      let all_covered = stamped-AreCovered rule_coverage run k.incidents (ground (arith, h)) in
      let (e1, e2, e3) = resolve_covered-Covers rule_coverage run delay "rule" faults begun 0 in
      let k' = (resolve_covered rule_coverage delay "rule" faults begun 0).1 in
      let closed : count (is_open_fault run) k'.incidents ≡ 0 =
        e2
        ∙ none_stays (is_covered rule_coverage) run faults stamped all_covered (λ r. omega arith) in
      (
        omega (
          arith,
          e1,
          count-covered rule_coverage run stamped all_covered,
          count-stamped latency run k.incidents,
        ),
        (resolve_via_human-resolved latency run seed true k').1,
        resolve_via_human_idle k' closed ∙ e3,
      )

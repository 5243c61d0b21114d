-- ===== src/Responders/Resolved.antt =====
-- After a responder, no fault of the run is open.
use agentic_cloud_pipeline_g.Prelude.{
  ℕ, ◌+◌, ◌≤◌, String, ◌≡◌, ◌∙◌, refl, sym, ap, Bool, true, false, ◌&&◌, inl, inr, List, [], ◌∷◌,
  leb, ◌==◌, str_eq, count, select, All, arith, Bool-cases, either_way,
}
use agentic_cloud_pipeline_g.Prelude.Sorting.{sort_by, count-sort_by}
use agentic_cloud_pipeline_g.Responders.{
  Incident, Desk, lacks_resolution, is_open_fault, stamp_detected, set_resolved, earlier_fault,
  first_request, page, resolve_faults, resolve_via_human,
}

-- How many faults of a list resolve an incident: those that the responder takes and that have its id.
abbrev pub closing : (Incident → Bool) → Incident → List Incident → ℕ
closing takes r = count λ f. takes f && f.event_id == r.event_id

-- An open incident that no fault of a list resolves.
abbrev pub stays_open : (Incident → Bool) → String → List Incident → Incident → Bool
stays_open takes run fs r = is_open_fault run r && leb (closing takes r fs) 0

module _ (takes : Incident → Bool) (run : String) where
  pub count-set_resolved :
      (f : Incident) (fs : List Incident) (t : ℕ) (label : String) (rows : List Incident)
      → takes f ≡ true
      → count (stays_open takes run fs) (set_resolved f.event_id t label rows)
        ≡ count (stays_open takes run (f ∷ fs)) rows
  unfolding set_resolved
  count-set_resolved f fs t label [] h = refl
  count-set_resolved f fs t label (r ∷ rows) h =
      ground (arith, h, count-set_resolved f fs t label rows h)

  pub count-left_fault :
      (f : Incident) (fs rows : List Incident)
      → takes f ≡ false
      → count (stays_open takes run (f ∷ fs)) rows ≡ count (stays_open takes run fs) rows
  count-left_fault f fs [] h = refl
  count-left_fault f fs (r ∷ rows) h = ground (arith, h, count-left_fault f fs rows h)

  pub count-open :
      (rows : List Incident) → count (is_open_fault run) rows ≡ count (stays_open takes run []) rows
  count-open [] = refl
  count-open (r ∷ rows) = ground (arith, count-open rows)

  -- Of some incidents none stays open if the faults have those of them that are open, and the
  -- responder takes these.
  pub none_stays :
      (fs rows : List Incident)
      → All (λ r. is_open_fault run r ≡ true → takes r ≡ true) rows
      → ((r : Incident) → closing takes r (select (is_open_fault run) rows) ≤ closing takes r fs)
      → count (stays_open takes run fs) rows ≡ 0
  none_stays fs [] t h = refl
  none_stays fs (r ∷ rows) t h = elim (Bool-cases (is_open_fault run r)) [
    | inl o ↦ ground (arith, o, t.0 o, h r, none_stays fs rows t.1 (λ q. ground (arith, o, h q)))
    | inr o ↦ ground (arith, o, none_stays fs rows t.1 (λ q. ground (arith, o, h q)))
  ]

  count-stays_sorted :
      (le : Incident → Incident → Bool) (fs rows : List Incident)
      → count (stays_open takes run (sort_by le fs)) rows ≡ count (stays_open takes run fs) rows
  count-stays_sorted le fs [] = refl
  count-stays_sorted le fs (r ∷ rows) = ground (
    arith,
    count-stays_sorted le fs rows,
    count-sort_by le (λ f. takes f && f.event_id == r.event_id) fs,
  )

first_request-incidents :
    (run : String) (f : Incident) (k : Desk) → (first_request run f k).1.incidents ≡ k.incidents
unfolding first_request
first_request-incidents run f k = ground arith

module _ (latency : ℕ → ℕ → ℕ) where
  page-incidents :
      (run : String) (f : Incident) (ordinal seed : ℕ) (k : Desk)
      → (page latency run f ordinal seed k).1.incidents ≡ k.incidents
  unfolding page
  page-incidents run f ordinal seed k = first_request-incidents run f k

  -- What the loop over some faults comes to.
  abbrev Resolves : String → List Incident → Desk → ℕ → ℕ × Desk → Type 0
  Resolves run fs k n (m, k') =
      (m ≡ n + count lacks_resolution fs)
      × (count (is_open_fault run) k'.incidents
          ≡ count (stays_open lacks_resolution run fs) k.incidents)

  resolve_faults-Resolves :
      (run : String) (seed ordinal : ℕ) (fs : List Incident) (k : Desk) (n : ℕ)
      → Resolves run fs k n (resolve_faults latency run seed ordinal fs k n)
  unfolding resolve_faults
  resolve_faults-Resolves run seed ordinal [] k n =
      (omega arith, count-open lacks_resolution run k.incidents)
  resolve_faults-Resolves run seed ordinal (f ∷ fs) k n =
      let (completed, k') = page latency run f ordinal seed k in
      either_way (Resolves run (f ∷ fs) k n) (lacks_resolution f) _ _
        (λ h.
          let (e1, e2) = resolve_faults-Resolves run seed (ordinal + 1) fs _ (n + 1) in
          (
            ground (arith, h, e1),
            e2
                ∙ count-set_resolved lacks_resolution run f fs completed "human" k'.incidents h
                ∙ ap (count (stays_open lacks_resolution run (f ∷ fs)))
                    (page-incidents run f ordinal seed k),
          ))
        (λ h.
          let (e1, e2) = resolve_faults-Resolves run seed (ordinal + 1) fs k n in
          (
            ground (arith, h, e1),
            e2 ∙ sym (count-left_fault lacks_resolution run f fs k.incidents h),
          ))

  -- The faults of a run are, for what is unresolved, its open ones.
  closing-of_run :
      (run : String) (r : Incident) (rows : List Incident)
      → closing lacks_resolution r (select (is_open_fault run) rows)
        ≤ closing lacks_resolution r (select (λ f. str_eq f.experiment_run run) rows)
  closing-of_run run r [] = omega arith
  closing-of_run run r (f ∷ rows) = ground (arith, closing-of_run run r rows)

  open-All :
      (run : String) (rows : List Incident)
      → All (λ r. is_open_fault run r ≡ true → lacks_resolution r ≡ true) rows
  open-All run [] = tt
  open-All run (r ∷ rows) = (λ h. ground (arith, h), open-All run rows)

  pub count-unresolved :
      (run : String) (rows : List Incident)
      → count lacks_resolution (select (λ f. str_eq f.experiment_run run) rows)
        ≡ count (is_open_fault run) rows
  count-unresolved run [] = refl
  count-unresolved run (f ∷ rows) = ground (arith, count-unresolved run rows)

  pub count-stamped :
      (run : String) (rows : List Incident)
      → count (is_open_fault run) (stamp_detected run rows) ≡ count (is_open_fault run) rows
  unfolding stamp_detected
  count-stamped run [] = refl
  count-stamped run (f ∷ rows) = ground (arith, count-stamped run rows)

  handled :
      (run : String) (seed : ℕ) (k : Desk)
      → let faults =
          sort_by earlier_fault (select (λ f. str_eq f.experiment_run run) k.incidents) in
        let (n, k') = resolve_faults latency run seed 0 faults k 0 in
        (n ≡ count (is_open_fault run) k.incidents) × (count (is_open_fault run) k'.incidents ≡ 0)
  handled run seed k =
      let of_run = select (λ f. str_eq f.experiment_run run) k.incidents in
      let (e1, e2) = resolve_faults-Resolves run seed 0 (sort_by earlier_fault of_run) k 0 in
      (
        omega (
          arith,
          e1,
          count-sort_by earlier_fault lacks_resolution of_run,
          count-unresolved run k.incidents,
        ),
        e2
            ∙ count-stays_sorted lacks_resolution run earlier_fault of_run k.incidents
            ∙ none_stays lacks_resolution run of_run k.incidents (open-All run k.incidents)
                (λ r. closing-of_run run r k.incidents),
      )

  -- The simulated human answers for every fault of the run that is open, whatever requests are open
  -- and whether or not the fixed monitor stamps the detection: it resolves as many as were open, and
  -- none of the run is open afterwards.
  pub resolve_via_human-resolved :
      (run : String) (seed : ℕ) (fixed_detection : Bool) (k : Desk)
      → let (n, k') = resolve_via_human latency run seed fixed_detection k in
        (n ≡ count (is_open_fault run) k.incidents) × (count (is_open_fault run) k'.incidents ≡ 0)
  unfolding resolve_via_human
  resolve_via_human-resolved run seed true k =
      let (e1, e2) = handled run seed (record k { incidents = stamp_detected run k.incidents }) in
      (e1 ∙ count-stamped run k.incidents, e2)
  resolve_via_human-resolved run seed false k = handled run seed k

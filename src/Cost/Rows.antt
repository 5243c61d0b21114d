-- ===== src/Cost/Rows.antt =====
-- The rows of the cost ledger, and what one window adds to them.
use agentic_cloud_pipeline_g.Prelude.{
  ℕ, ◌+◌, ◌-◌, ◌*◌, ◌≤◌, String, ◌≡◌, ◌∙◌, refl, ap, ◌&&◌, Option, none, some, List, [], ◌∷◌, ◌++◌,
  map, arith, leb, str_eq, eq_iff, if◌then◌else◌, select, count,
}
use agentic_cloud_pipeline_g.Prelude.Sorting.{
  sort_by, IsSorted, sort_by-sorted, select-IsSorted, total, total-append,
}
use agentic_cloud_pipeline_g.Cost.{
  sample_of, is_sample_of, CostSettings, UsageRow, CostRow, Sample, Written, compute_components,
  storage_component, is_earlier, count_at, charge, integrate_worker_seconds, all_samples,
  worker_samples, insert_ledger, write_component, write_compute, write_window, without_run,
}
use agentic_cloud_pipeline_g.Cost.Integral.{
  area, level, area-cong, sort_by-IsSorted_samples, integrate_worker_seconds-area,
}

-- What the ledger holds of a run: the compute of a component, and the storage.
abbrev pub computed : String → String → List CostRow → ℕ
computed run d =
    total (λ r.
      if str_eq r.experiment_run run && str_eq r.component d then r.compute_unit_seconds else 0)

abbrev pub stored : String → List CostRow → ℕ
stored run = total (λ r. if str_eq r.experiment_run run then r.storage_gb_hours else 0)

-- A component that is charged for compute.
abbrev pub IsCharged : String → Type 0
IsCharged d = count (λ x. str_eq x d) compute_components ≡ 1

count_at-select :
    (t hi : ℕ) (ss : List Sample) (o : Option ℕ)
    → t ≤ hi
    → count_at t (select (λ s. leb s.ts hi) ss) o ≡ count_at t ss o
unfolding count_at
count_at-select t hi [] o h = refl
count_at-select t hi (s ∷ ss) o h =
    ground (arith, count_at-select t hi ss o h, count_at-select t hi ss (some s.workers) h)

without_run-own :
    (run : String) (xs : List CostRow) (r : CostRow)
    → r.experiment_run ≡ run
    → without_run run (xs ++ r ∷ []) ≡ without_run run xs
without_run-own run [] r e = ground (arith, e, eq_iff r.experiment_run run)
without_run-own run (x ∷ xs) r e = ground (arith, without_run-own run xs r e)

pub without_run-twice :
    (run : String) (xs : List CostRow) → without_run run (without_run run xs) ≡ without_run run xs
without_run-twice run [] = refl
without_run-twice run (x ∷ xs) = ground (arith, without_run-twice run xs)

pub computed-without_run :
    (run d : String) (xs : List CostRow) → computed run d (without_run run xs) ≡ 0
computed-without_run run d [] = refl
computed-without_run run d (x ∷ xs) = ground (arith, computed-without_run run d xs)

pub stored-without_run : (run : String) (xs : List CostRow) → stored run (without_run run xs) ≡ 0
stored-without_run run [] = refl
stored-without_run run (x ∷ xs) = ground (arith, stored-without_run run xs)

module _ (c : CostSettings) (run : String) (storage : ℕ) (usage : List UsageRow) where
  -- The workers of a component at a time.
  abbrev pub workers_at : String → ℕ → ℕ
  workers_at d = level (all_samples run d usage) none

  window-area :
      (d : String) (lo hi : ℕ)
      → integrate_worker_seconds (worker_samples run d hi usage) lo hi
        ≡ area (workers_at d) lo (hi - lo)
  unfolding worker_samples all_samples
  window-area d lo hi =
      integrate_worker_seconds-area (worker_samples run d hi usage) lo hi
      ∙ area-cong (level (sort_by is_earlier (worker_samples run d hi usage)) none) (workers_at d)
          (hi - lo) lo
          (λ t a b.
            ap (λ ss. level ss none t)
              (sort_by-sorted is_earlier (worker_samples run d hi usage)
                (select-IsSorted is_earlier (λ s. leb s.ts hi) (all_samples run d usage) ordered))
            ∙ ap (λ o. charge o 1)
                (count_at-select t hi (all_samples run d usage) none (omega arith)))
    where
      ordered : IsSorted is_earlier (all_samples run d usage)
      ordered = sort_by-IsSorted_samples (map sample_of (select (is_sample_of run d) usage))

  -- A run of the code from one state of the ledger to another meters a span.
  pub record Meters (lo hi : ℕ) (w w' : Written) : Type 0 where
    pub compute :
        (d : String)
        → IsCharged d
        → computed run d w'.rows ≡ computed run d w.rows + area (workers_at d) lo (hi - lo)
    pub store : stored run w'.rows ≡ stored run w.rows + storage * (hi - lo)
    pub frame : without_run run w'.rows ≡ without_run run w.rows

  module _ (d : String) (n m lo hi : ℕ) (w : Written) where
    abbrev inserted : List CostRow
    inserted = (insert_ledger c run storage usage d n m lo hi w).rows

    insert-frame : without_run run inserted ≡ without_run run w.rows
    unfolding insert_ledger
    insert-frame = without_run-own run w.rows _ refl

    insert-computed :
        (e : String)
        → computed run e inserted ≡ computed run e w.rows + (if str_eq d e then n else 0)
    unfolding insert_ledger
    insert-computed e = total-append _ w.rows _ ∙ ground (arith, eq_iff run run)

    insert-stored : stored run inserted ≡ stored run w.rows + m
    unfolding insert_ledger
    insert-stored = total-append _ w.rows _ ∙ ground (arith, eq_iff run run)

  -- The effect of one component's turn, and of the loop over the components.
  write_component-frame :
      (lo hi : ℕ) (d : String) (w : Written)
      → (without_run run (write_component c run storage usage d lo hi w).rows
          ≡ without_run run w.rows)
        × (stored run (write_component c run storage usage d lo hi w).rows ≡ stored run w.rows)
  unfolding write_component
  write_component-frame lo hi d w =
      let n = integrate_worker_seconds (worker_samples run d hi usage) lo hi in
      ground (arith, insert-frame d n 0 lo hi w, insert-stored d n 0 lo hi w)

  write_component-computed :
      (lo hi : ℕ) (e d : String) (w : Written)
      → computed run e (write_component c run storage usage d lo hi w).rows
        ≡ computed run e w.rows + (if str_eq d e then area (workers_at e) lo (hi - lo) else 0)
  unfolding write_component
  write_component-computed lo hi e d w =
      let n = integrate_worker_seconds (worker_samples run d hi usage) lo hi in
      ground (
        arith,
        eq_iff d e,
        window-area d lo hi,
        ap (λ x. area (workers_at x) lo (hi - lo)),
        insert-computed d n 0 lo hi w e,
      )

  write_compute-frame :
      (lo hi : ℕ) (ds : List String) (w : Written)
      → (without_run run (write_compute c run storage usage ds lo hi w).rows
          ≡ without_run run w.rows)
        × (stored run (write_compute c run storage usage ds lo hi w).rows ≡ stored run w.rows)
  unfolding write_compute
  write_compute-frame lo hi [] w = (refl, refl)
  write_compute-frame lo hi (d ∷ ds) w =
      let i = write_component-frame lo hi d w in
      let j = write_compute-frame lo hi ds (write_component c run storage usage d lo hi w) in
      (j.0 ∙ i.0, j.1 ∙ i.1)

  write_compute-computed :
      (lo hi : ℕ) (e : String) (ds : List String) (w : Written)
      → computed run e (write_compute c run storage usage ds lo hi w).rows
        ≡ computed run e w.rows + count (λ d. str_eq d e) ds * area (workers_at e) lo (hi - lo)
  unfolding write_compute
  write_compute-computed lo hi e [] w = omega arith
  write_compute-computed lo hi e (d ∷ ds) w = grind (
    arith,
    write_component-computed lo hi e d w,
    write_compute-computed lo hi e ds (write_component c run storage usage d lo hi w),
  )

  pub write_window-Meters :
      (lo hi : ℕ) (w : Written) → Meters lo hi w (write_window c run storage usage lo hi w)
  unfolding write_window
  write_window-Meters lo hi w =
      let v = write_compute c run storage usage compute_components lo hi w in
      let q = storage * (hi - lo) in
      let i = write_compute-frame lo hi compute_components w in
      record {
        compute = λ d h. grind (
          arith,
          h,
          write_compute-computed lo hi d compute_components w,
          insert-computed storage_component 0 q lo hi v d,
        );
        store = insert-stored storage_component 0 q lo hi v ∙ ap (λ n. n + q) i.1;
        frame = insert-frame storage_component 0 q lo hi v ∙ i.0;
      }

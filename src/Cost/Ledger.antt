-- ===== src/Cost/Ledger.antt =====
-- What a run of the ledger's code writes: the integral of each component over the whole span.
use mathlib.Core.Option.{some-injective}
use mathlib.Core.Path.{subst}
use agentic_cloud_pipeline_g.Prelude.{
  ℕ, zero, suc, ◌+◌, ◌-◌, ◌*◌, ◌≤◌, ◌<◌, String, ◌≡◌, ◌∙◌, refl, sym, some, List, arith, ltb,
  select, Bool-cases, inl, inr,
}
use agentic_cloud_pipeline_g.Cost.{
  CostSettings, UsageRow, CostRow, Written, write_window, cut, fixed_windows, whole_windows,
  without_run, span_of, is_of_run, compute_fixed_span, compute_whole_windows,
}
use agentic_cloud_pipeline_g.Cost.Integral.{area, area-split}
use agentic_cloud_pipeline_g.Cost.Rows.{
  computed, stored, IsCharged, workers_at, Meters, write_window-Meters, computed-without_run,
  stored-without_run, without_run-twice,
}

cut-between : (delta lo hi : ℕ) → lo ≤ hi → lo ≤ cut hi (lo + delta)
unfolding cut
cut-between delta lo hi a = ground arith

cut-below : (hi end : ℕ) → cut hi end ≤ hi
unfolding cut
cut-below hi end = ground arith

cut-less : (fuel delta lo hi : ℕ) → 0 < delta → hi - lo ≤ suc fuel → hi - cut hi (lo + delta) ≤ fuel
unfolding cut
cut-less fuel delta lo hi d f = ground arith

module _ (c : CostSettings) (run : String) (storage : ℕ) (usage : List UsageRow) where
  Meters-trans :
      (lo mid hi : ℕ) (u v w : Written)
      → lo ≤ mid
      → mid ≤ hi
      → Meters c run storage usage lo mid u v
      → Meters c run storage usage mid hi v w
      → Meters c run storage usage lo hi u w
  Meters-trans lo mid hi u v w a b p q = record {
    compute = λ d h. omega (
      arith,
      p.compute d h,
      q.compute d h,
      area-split (workers_at c run storage usage d) (mid - lo) (hi - mid) (hi - lo) lo mid
          (omega arith) (omega arith),
    );
    store = grind (arith, p.store, q.store);
    frame = q.frame ∙ p.frame;
  }

  -- Nothing is metered over an empty span.
  Meters-refl : (lo hi : ℕ) (w : Written) → hi ≤ lo → Meters c run storage usage lo hi w w
  Meters-refl lo hi w h =
      let z : hi - lo ≡ 0 = omega arith in
      record { compute = λ d i. rw z (omega arith); store = rw z (omega arith); frame = refl }

  fixed_windows-Meters :
      (fuel delta lo hi : ℕ) (w : Written)
      → 0 < delta
      → lo ≤ hi
      → hi - lo ≤ fuel
      → (w' : Written) × (fixed_windows c run storage usage fuel delta hi lo w ≡ some w')
        × Meters c run storage usage lo hi w w'
  unfolding fixed_windows
  fixed_windows-Meters zero delta lo hi w d a f =
      (w, ground arith, Meters-refl lo hi w (omega arith))
  fixed_windows-Meters (suc fuel) delta lo hi w d a f =
      let mid = cut hi (lo + delta) in
      elim (Bool-cases (ltb lo hi)) [
        | inr e ↦ rw e (w, refl, Meters-refl lo hi w (ground arith))
        | inl e ↦
            let b : lo ≤ mid = cut-between delta lo hi a in
            let m : mid ≤ hi = cut-below hi (lo + delta) in
            let g : hi - mid ≤ fuel = cut-less fuel delta lo hi d f in
            let (w', r, k) =
              fixed_windows-Meters fuel delta mid hi (write_window c run storage usage lo mid w) d m
                g in
            rw e (
              w',
              r,
              Meters-trans lo mid hi w (write_window c run storage usage lo mid w) w' b m
                  (write_window-Meters c run storage usage lo mid w) k,
            )
      ]

  whole_windows-Meters :
      (fuel delta lo limit : ℕ) (w : Written)
      → 0 < delta
      → limit - lo ≤ fuel
      → lo < limit + delta
      → (hi : ℕ) × (w' : Written) × (whole_windows c run storage usage fuel delta limit lo w
          ≡ some w')
        × (limit ≤ hi)
        × (hi < limit + delta)
        × (lo ≤ hi)
        × Meters c run storage usage lo hi w w'
  unfolding whole_windows
  whole_windows-Meters zero delta lo limit w d f b =
      (lo, w, ground arith, omega arith, b, omega arith, Meters-refl lo lo w (omega arith))
  whole_windows-Meters (suc fuel) delta lo limit w d f b = elim (Bool-cases (ltb lo limit)) [
    | inr e ↦ rw e (lo, w, refl, ground arith, b, omega arith, Meters-refl lo lo w (omega arith))
    | inl e ↦
        let v = write_window c run storage usage lo (lo + delta) w in
        let (hi, w', r, k, l, n, q) =
          whole_windows-Meters fuel delta (lo + delta) limit v d (ground arith) (ground arith) in
        rw e (
          hi,
          w',
          r,
          k,
          l,
          omega arith,
          Meters-trans lo (lo + delta) hi w v w' (omega arith) n
              (write_window-Meters c run storage usage lo (lo + delta) w) q,
        )
  ]

-- The ledger of a run after a computation over a span: exactly what the integrals say, and the rows
-- of the other runs as they were.
pub record Holds (c : CostSettings) (run : String) (storage : ℕ) (usage : List UsageRow) (lo hi : ℕ)
    (ledger : List CostRow) (w : Written) : Type 0 where
  pub compute :
      (d : String)
      → IsCharged d
      → computed run d w.rows ≡ area (workers_at c run storage usage d) lo (hi - lo)
  pub store : stored run w.rows ≡ storage * (hi - lo)
  pub frame : without_run run w.rows ≡ without_run run ledger

module _ (c : CostSettings) (run : String) (storage : ℕ) (usage : List UsageRow) where
  Holds-Meters :
      (lo hi : ℕ) (ledger : List CostRow) (w : Written)
      → Meters c run storage usage lo hi (record { rows = without_run run ledger; written = 0 }) w
      → Holds c run storage usage lo hi ledger w
  Holds-Meters lo hi ledger w m = record {
    compute = λ d h. omega (arith, m.compute d h, computed-without_run run d ledger);
    store = omega (arith, m.store, stored-without_run run ledger);
    frame = m.frame ∙ without_run-twice run ledger;
  }

  pub compute_fixed_span-Holds :
      (delta span lo hi : ℕ) (ledger : List CostRow)
      → 0 < delta
      → span_of (select (is_of_run run) usage) ≡ some (lo, hi)
      → (w : Written) × (compute_fixed_span span c run storage usage delta span ledger ≡ some w)
        × Holds c run storage usage lo (lo + span) ledger w
  unfolding compute_fixed_span
  compute_fixed_span-Holds delta span lo hi ledger d e =
      let start : Written = record { rows = without_run run ledger; written = 0 } in
      let (w, r, m) =
        fixed_windows-Meters c run storage usage span delta lo (lo + span) start d (omega arith)
          (omega arith) in
      rw (compute_fixed_span, e) (w, r, Holds-Meters lo (lo + span) ledger w m)

  -- With windows longer than 0 the computation without a span returns too, and meters from the first
  -- sample to an end that is past the last sample, and less than two windows past it.
  pub compute_whole_windows-Holds :
      (delta lo hi : ℕ) (ledger : List CostRow)
      → 0 < delta
      → lo ≤ hi
      → span_of (select (is_of_run run) usage) ≡ some (lo, hi)
      → (end : ℕ) × (w : Written) × (compute_whole_windows
            (hi + delta - lo)
            c
            run
            storage
            usage
            delta
            ledger
          ≡ some w)
        × (hi + delta ≤ end)
        × (end < hi + 2 * delta)
        × Holds c run storage usage lo end ledger w
  unfolding compute_whole_windows
  compute_whole_windows-Holds delta lo hi ledger d o e =
      let start : Written = record { rows = without_run run ledger; written = 0 } in
      let (end, w, r, k, l, n, m) =
        whole_windows-Meters c run storage usage (hi + delta - lo) delta lo (hi + delta) start d
          (omega arith) (omega arith) in
      rw (compute_whole_windows, e) (end, w, r, k, omega arith, Holds-Meters lo end ledger w m)

  compute_fixed_span-cong :
      (fuel delta span lo hi : ℕ) (l m : List CostRow)
      → span_of (select (is_of_run run) usage) ≡ some (lo, hi)
      → without_run run l ≡ without_run run m
      → compute_fixed_span fuel c run storage usage delta span l
        ≡ compute_fixed_span fuel c run storage usage delta span m
  unfolding compute_fixed_span
  compute_fixed_span-cong fuel delta span lo hi l m e f = rw (compute_fixed_span, e, f) refl

  -- Computing the ledger of a run over a fixed span again, from the ledger that it left, writes the
  -- same ledger and reports the same count of rows.
  pub compute_fixed_span-again :
      (delta span lo hi : ℕ) (ledger : List CostRow) (w : Written)
      → 0 < delta
      → span_of (select (is_of_run run) usage) ≡ some (lo, hi)
      → compute_fixed_span span c run storage usage delta span ledger ≡ some w
      → compute_fixed_span span c run storage usage delta span w.rows ≡ some w
  compute_fixed_span-again delta span lo hi ledger w d e r =
      let (v, q, h) = compute_fixed_span-Holds delta span lo hi ledger d e in
      let same : v ≡ w = some-injective v w (sym q ∙ r) in
      compute_fixed_span-cong span delta span lo hi w.rows ledger e
        (subst (λ (u : Written). without_run run u.rows ≡ without_run run ledger) same h.frame)
      ∙ r

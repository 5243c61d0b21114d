-- ===== src/Loop/Bids/Best.antt =====
-- Within a group of contenders: the one winner has the highest bid.
use agentic_cloud_pipeline_g.Prelude.{
  String, ◌≡◌, ◌≢◌, ◌∙◌, sym, ap, refl, true, not, List, [], ◌∷◌, ◌++◌, arith, eq_iff, str_eq,
  count, All, All-append, Bool-cases, inl, inr,
}
use agentic_cloud_pipeline_g.Prelude.Sorting.{
  sort_by, count-sort_by, All-sort_by, IsSorted, sort_by-IsSorted,
}
use agentic_cloud_pipeline_g.Loop.Bids.{
  Proposal, Resolution, outbids, for_target, add_contender, group_by_target, rank, resolve_target,
}
use agentic_cloud_pipeline_g.Loop.Bids.Winners.{outbids_total, outbids_trans, ranked, rank-ranked}

abbrev pub Groups : Type 0
Groups = List (String × List Proposal)

abbrev pub IsFor : String → Proposal → Type 0
IsFor t p = for_target t p ≡ true

-- One winner, which is for the target and is outbid by none of the contenders.
abbrev pub Best : String → List Proposal → List Proposal → Type 0
Best t ps ws = (w : Proposal) × (ws ≡ w ∷ []) × IsFor t w × (count (λ q. not (outbids w q)) ps ≡ 0)

outbids_refl : (p : Proposal) → outbids p p ≡ true
unfolding outbids
outbids_refl p = ground arith

count-outbid :
    (w : Proposal) (ps : List Proposal)
    → All (λ q. outbids w q ≡ true) ps
    → count (λ q. not (outbids w q)) ps ≡ 0
count-outbid w [] h = refl
count-outbid w (p ∷ ps) h = ground (arith, h.0, count-outbid w ps h.1)

ranked-Best :
    (t : String) (l : List Proposal)
    → l ≢ []
    → All (IsFor t) l
    → IsSorted outbids l
    → Best t l (ranked l).winners
ranked-Best t [] n f s = absurd (n refl)
ranked-Best t (w ∷ rest) n f s =
    (w, refl, f.0, ground (arith, outbids_refl w, count-outbid w rest s.0))

sort_by-nonempty : (p : Proposal) (ps : List Proposal) → sort_by outbids (p ∷ ps) ≢ []
sort_by-nonempty p ps h =
    ground
      (arith, count-sort_by outbids (λ _. true) (p ∷ ps), ap (count (λ (_ : Proposal). true)) h)

rank-Best :
    (t : String) (p : Proposal) (ps : List Proposal)
    → All (IsFor t) (p ∷ ps)
    → Best t (p ∷ ps) (rank (p ∷ ps)).winners
rank-Best t p ps f =
    let s = sort_by outbids (p ∷ ps) in
    let (w, e, g, z) =
      ranked-Best t s (sort_by-nonempty p ps) (All-sort_by outbids (IsFor t) (p ∷ ps) f)
        (sort_by-IsSorted outbids outbids_total outbids_trans (p ∷ ps)) in
    (
      w,
      ap (λ (r : Resolution). r.winners) (rank-ranked (p ∷ ps)) ∙ e,
      g,
      sym (count-sort_by outbids (λ q. not (outbids w q)) (p ∷ ps)) ∙ z,
    )

pub resolve_target-Best :
    (t : String) (ps : List Proposal)
    → ps ≢ []
    → All (IsFor t) ps
    → Best t ps (resolve_target ps).winners
unfolding resolve_target
resolve_target-Best t [] n f = absurd (n refl)
resolve_target-Best t (p ∷ []) n f = (p, refl, f.0, ground (arith, outbids_refl p))
resolve_target-Best t (p ∷ q ∷ ps) n f = rank-Best t p (q ∷ ps) f

-- The groups: none is empty, each holds proposals for its target.
abbrev pub IsGrouped : Groups → Type 0
IsGrouped = All (λ g. (g.1 ≢ []) × All (IsFor g.0) g.1)

append_ne_nil : (ps : List Proposal) (p : Proposal) → ps ++ p ∷ [] ≢ []
append_ne_nil [] p h = cc
append_ne_nil (x ∷ xs) p h = cc

add_contender-IsGrouped :
    (p : Proposal) (gs : Groups) → IsGrouped gs → IsGrouped (add_contender p gs)
unfolding add_contender
add_contender-IsGrouped p [] h =
    (((λ e. cc), (ground (arith, eq_iff p.action.target p.action.target), tt)), tt)
add_contender-IsGrouped p ((t, ps) ∷ gs) h = elim (Bool-cases (str_eq t p.action.target)) [
  | inl e ↦ rw e (
    (
      append_ne_nil ps p,
      All-append (IsFor t) ps (p ∷ []) h.0.1
          (ground (arith, eq_iff t p.action.target, eq_iff p.action.target t), tt),
    ),
    h.1,
  )
  | inr e ↦ rw e (h.0, add_contender-IsGrouped p gs h.1)
]

pub group_by_target-IsGrouped :
    (gs : Groups) (ps : List Proposal) → IsGrouped gs → IsGrouped (group_by_target gs ps)
unfolding group_by_target
group_by_target-IsGrouped gs [] h = h
group_by_target-IsGrouped gs (p ∷ ps) h =
    group_by_target-IsGrouped (add_contender p gs) ps (add_contender-IsGrouped p gs h)

-- ===== src/Loop/Bids/Winners.antt =====
-- Who wins a contested target, and that no proposal is lost.
use agentic_cloud_pipeline_g.Prelude.{
  ℕ, ◌+◌, String, ◌≡◌, ◌∙◌, ap, refl, Bool, true, false, List, [], ◌∷◌, ◌++◌, map, arith,
  if◌then◌else◌, count, count-append,
}
use agentic_cloud_pipeline_g.Prelude.Sorting.{sort_by, count-sort_by}
use agentic_cloud_pipeline_g.Loop.Bids.{
  Proposal, Outbid, Resolution, outbids, add_contender, group_by_target, beaten_by, rank,
  resolve_target, resolve_groups, resolve_conflicts,
}

pub outbids_total : (a b : Proposal) → outbids a b ≡ false → outbids b a ≡ true
unfolding outbids
outbids_total a b h = ground arith

pub outbids_trans :
    (a b c : Proposal) → outbids a b ≡ true → outbids b c ≡ true → outbids a c ≡ true
unfolding outbids
outbids_trans a b c h k = ground arith

abbrev losing : List Outbid → List Proposal
losing = map (λ (o : Outbid). o.loser)

losing-beaten_by :
    (g : _) (Q : Proposal → Bool) (ps : List Proposal)
    → count Q (losing (map (beaten_by g) ps)) ≡ count Q ps
losing-beaten_by g Q [] = refl
losing-beaten_by g Q (p ∷ ps) = ground (arith, losing-beaten_by g Q ps)

losing-append :
    (Q : Proposal → Bool) (xs ys : List Outbid)
    → count Q (losing (xs ++ ys)) ≡ count Q (losing xs) + count Q (losing ys)
losing-append Q [] ys = omega arith
losing-append Q (x ∷ xs) ys = ground (arith, losing-append Q xs ys)

abbrev split_count : (Proposal → Bool) → Resolution → ℕ
split_count Q r = count Q r.winners + count Q (losing r.losers)

abbrev pub ranked : List Proposal → Resolution
ranked [] = record { winners = []; losers = [] }
ranked (w ∷ rest) = record { winners = w ∷ []; losers = map (beaten_by w.agent) rest }

pub rank-ranked : (ps : List Proposal) → rank ps ≡ ranked (sort_by outbids ps)
unfolding rank
rank-ranked ps = go (sort_by outbids ps)
  where
    go :
        (l : List Proposal)
        → (let r : Resolution = elim l [
          | [] ↦ record { winners = []; losers = [] }
          | w ∷ rest ↦ record { winners = w ∷ []; losers = map (beaten_by w.agent) rest }
        ] in
            r)
          ≡ ranked l
    go [] = refl
    go (w ∷ rest) = refl

count-ranked : (Q : Proposal → Bool) (l : List Proposal) → split_count Q (ranked l) ≡ count Q l
count-ranked Q [] = refl
count-ranked Q (w ∷ rest) = ground (arith, losing-beaten_by w.agent Q rest)

count-rank : (Q : Proposal → Bool) (ps : List Proposal) → split_count Q (rank ps) ≡ count Q ps
count-rank Q ps =
    ap (split_count Q) (rank-ranked ps)
    ∙ count-ranked Q (sort_by outbids ps)
    ∙ count-sort_by outbids Q ps

count-resolve_target :
    (Q : Proposal → Bool) (ps : List Proposal) → split_count Q (resolve_target ps) ≡ count Q ps
unfolding resolve_target
count-resolve_target Q [] = count-rank Q []
count-resolve_target Q (p ∷ []) = ground arith
count-resolve_target Q (p ∷ q ∷ ps) = count-rank Q (p ∷ q ∷ ps)

abbrev pub group_count : (Proposal → Bool) → List (String × List Proposal) → ℕ
group_count Q [] = 0
group_count Q ((t, ps) ∷ gs) = count Q ps + group_count Q gs

count-resolve_groups :
    (Q : Proposal → Bool) (gs : List (String × List Proposal))
    → split_count Q (resolve_groups gs) ≡ group_count Q gs
unfolding resolve_groups
count-resolve_groups Q [] = refl
count-resolve_groups Q ((t, ps) ∷ gs) = omega (
  arith,
  count-resolve_target Q ps,
  count-resolve_groups Q gs,
  count-append Q (resolve_target ps).winners (resolve_groups gs).winners,
  losing-append Q (resolve_target ps).losers (resolve_groups gs).losers,
)

group_count-add_contender :
    (Q : Proposal → Bool) (p : Proposal) (gs : List (String × List Proposal))
    → group_count Q (add_contender p gs) ≡ group_count Q gs + (if Q p then 1 else 0)
unfolding add_contender
group_count-add_contender Q p [] = ground arith
group_count-add_contender Q p ((t, ps) ∷ gs) =
    ground (arith, group_count-add_contender Q p gs, count-append Q ps (p ∷ []))

pub group_count-group_by_target :
    (Q : Proposal → Bool) (gs : List (String × List Proposal)) (ps : List Proposal)
    → group_count Q (group_by_target gs ps) ≡ group_count Q gs + count Q ps
unfolding group_by_target
group_count-group_by_target Q gs [] = omega arith
group_count-group_by_target Q gs (p ∷ ps) =
    omega (
      arith,
      group_count-group_by_target Q (add_contender p gs) ps,
      group_count-add_contender Q p gs,
    )

-- Every proposal ends as a winner or as a loser, and as one of them only: for any test, as many
-- proposals pass it as winners and losers together.
pub resolve_conflicts-count :
    (Q : Proposal → Bool) (ps : List Proposal)
    → count Q (resolve_conflicts ps).winners
        + count Q (map (λ (o : Outbid). o.loser) (resolve_conflicts ps).losers)
      ≡ count Q ps
unfolding resolve_conflicts
resolve_conflicts-count Q ps =
    count-resolve_groups Q (group_by_target [] ps)
    ∙ group_count-group_by_target Q [] ps
    ∙ omega arith

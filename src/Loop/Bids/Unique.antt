-- ===== src/Loop/Bids/Unique.antt =====
-- One winner for each target that is proposed for, and the highest bidder of them all.
use agentic_cloud_pipeline_g.Prelude.{
  ℕ, ◌<◌, ◌≤◌, ◌⊎◌, inl, inr, Bool-cases, ◌≢◌, String, ◌≡◌, ◌∙◌, ap, refl, Bool, true, false, not,
  ◌&&◌, ◌||◌, List, [], ◌∷◌, arith, eq_iff, str_eq, if◌then◌else◌, count, count-append, any, All,
  All-append,
}
use agentic_cloud_pipeline_g.Contracts.{AgentName, monitoring, optimization, schema, recovery}
use agentic_cloud_pipeline_g.Loop.Bids.{
  Proposal, agent_priority, outbids, for_target, add_contender, group_by_target, resolve_target,
  resolve_groups, resolve_conflicts,
}
use agentic_cloud_pipeline_g.Loop.Bids.Winners.{group_count, group_count-group_by_target}
use agentic_cloud_pipeline_g.Loop.Bids.Best.{
  Groups, IsFor, Best, resolve_target-Best, IsGrouped, group_by_target-IsGrouped,
}

-- Whether a target has a group.
abbrev has_group : String → Groups → Bool
has_group t gs = any (λ g. str_eq g.0 t) gs

-- No target has two groups.
abbrev Distinct : Groups → Type 0
Distinct [] = Unit
Distinct ((k, ps) ∷ gs) = (has_group k gs ≡ false) × Distinct gs

has_group-add_contender :
    (t : String) (p : Proposal) (gs : Groups)
    → has_group t (add_contender p gs) ≡ (has_group t gs || for_target t p)
unfolding add_contender
has_group-add_contender t p [] = ground arith
has_group-add_contender t p ((k, ps) ∷ gs) = ground (
  arith,
  has_group-add_contender t p gs,
  eq_iff k t,
  eq_iff k p.action.target,
  eq_iff p.action.target t,
)

add_contender-Distinct : (p : Proposal) (gs : Groups) → Distinct gs → Distinct (add_contender p gs)
unfolding add_contender
add_contender-Distinct p [] h = (refl, tt)
add_contender-Distinct p ((k, ps) ∷ gs) h = ground (
  arith,
  add_contender-Distinct p gs h.1,
  has_group-add_contender k p gs,
  h.0,
  eq_iff k p.action.target,
  eq_iff p.action.target k,
)

group_by_target-Distinct :
    (gs : Groups) (ps : List Proposal) → Distinct gs → Distinct (group_by_target gs ps)
unfolding group_by_target
group_by_target-Distinct gs [] h = h
group_by_target-Distinct gs (p ∷ ps) h =
    group_by_target-Distinct (add_contender p gs) ps (add_contender-Distinct p gs h)

has_group-group_by_target :
    (t : String) (gs : Groups) (ps : List Proposal)
    → has_group t (group_by_target gs ps) ≡ (has_group t gs || any (for_target t) ps)
unfolding group_by_target
has_group-group_by_target t gs [] = ground arith
has_group-group_by_target t gs (p ∷ ps) =
    ground
      (arith, has_group-group_by_target t (add_contender p gs) ps, has_group-add_contender t p gs)

winners_at :
    (t k : String) (ps : List Proposal) (ws : List Proposal)
    → Best k ps ws
    → count (for_target t) ws ≡ (if str_eq k t then 1 else 0)
winners_at t k ps ws (w, e, f, z) =
    ap (count (for_target t)) e
    ∙ ground (arith, f, eq_iff w.action.target k, eq_iff k t, eq_iff w.action.target t)

count-winners :
    (t : String) (gs : Groups)
    → IsGrouped gs
    → Distinct gs
    → count (for_target t) (resolve_groups gs).winners ≡ (if has_group t gs then 1 else 0)
unfolding resolve_groups
count-winners t [] h d = refl
count-winners t ((k, ps) ∷ gs) h d = ground (
  arith,
  winners_at t k ps _ (resolve_target-Best k ps h.0.0 h.0.1),
  count-winners t gs h.1 d.1,
  count-append (for_target t) (resolve_target ps).winners (resolve_groups gs).winners,
  eq_iff k t,
  d.0,
)

-- Each target that a proposal names has exactly one winner, and no other target has any.
pub resolve_conflicts-one :
    (t : String) (ps : List Proposal)
    → count (for_target t) (resolve_conflicts ps).winners ≡ (if any (for_target t) ps then 1 else 0)
unfolding resolve_conflicts
resolve_conflicts-one t ps = ground (
  arith,
  count-winners t (group_by_target [] ps) (group_by_target-IsGrouped [] ps tt)
      (group_by_target-Distinct [] ps tt),
  has_group-group_by_target t [] ps,
)

-- A contender for the winner's target that the winner does not outbid.
abbrev beats : Proposal → Proposal → Bool
beats w q = for_target w.action.target q && not (outbids w q)

abbrev HasGroups : Groups → List Proposal → Type 0
HasGroups gs = All (λ w. has_group w.action.target gs ≡ true)

All-weaken :
    {P Q : Proposal → Type 0} (ws : List Proposal)
    → ((w : Proposal) → P w → Q w)
    → All P ws
    → All Q ws
All-weaken [] f h = tt
All-weaken (w ∷ ws) f h = (f w h.0, All-weaken ws f h.1)

winners-HasGroups : (gs : Groups) → IsGrouped gs → HasGroups gs (resolve_groups gs).winners
unfolding resolve_groups
winners-HasGroups [] h = tt
winners-HasGroups ((k, ps) ∷ gs) h =
    let (w, e, f, z) = resolve_target-Best k ps h.0.0 h.0.1 in
    All-append _ (resolve_target ps).winners (resolve_groups gs).winners
      (rw e (ground (arith, f, eq_iff w.action.target k, eq_iff k w.action.target), tt))
      (All-weaken (resolve_groups gs).winners (λ v q. ground (arith, q)) (winners-HasGroups gs h.1))

-- No group but that of the target has a contender for it.
count-IsFor :
    (Q : Proposal → Bool) (t k : String) (ps : List Proposal)
    → All (IsFor k) ps
    → str_eq k t ≡ false
    → count (λ q. for_target t q && Q q) ps ≡ 0
count-IsFor Q t k [] h n = refl
count-IsFor Q t k (p ∷ ps) h n = ground (
  arith,
  h.0,
  count-IsFor Q t k ps h.1 n,
  eq_iff p.action.target k,
  eq_iff k t,
  eq_iff p.action.target t,
)

group_count-none :
    (Q : Proposal → Bool) (t : String) (gs : Groups)
    → IsGrouped gs
    → has_group t gs ≡ false
    → group_count (λ q. for_target t q && Q q) gs ≡ 0
group_count-none Q t [] h n = refl
group_count-none Q t ((k, ps) ∷ gs) h n =
    ground (arith, group_count-none Q t gs h.1, count-IsFor Q t k ps h.0.1)

count-weaker :
    (P Q : Proposal → Bool) (ps : List Proposal) → count Q ps ≡ 0 → count (λ q. P q && Q q) ps ≡ 0
count-weaker P Q [] h = refl
count-weaker P Q (p ∷ ps) h = ground (arith, count-weaker P Q ps)

winners-unbeaten :
    (gs : Groups)
    → IsGrouped gs
    → Distinct gs
    → All (λ w. group_count (beats w) gs ≡ 0) (resolve_groups gs).winners
unfolding resolve_groups
winners-unbeaten [] h d = tt
winners-unbeaten ((k, ps) ∷ gs) h d =
    let (w, e, f, z) = resolve_target-Best k ps h.0.0 h.0.1 in
    All-append _ (resolve_target ps).winners (resolve_groups gs).winners (rw e (head w f z, tt))
      (tail (resolve_groups gs).winners (winners-HasGroups gs h.1) (winners-unbeaten gs h.1 d.1))
  where
    head :
        (w : Proposal)
        → IsFor k w
        → count (λ q. not (outbids w q)) ps ≡ 0
        → group_count (beats w) ((k, ps) ∷ gs) ≡ 0
    head w f z = ground (
      arith,
      count-weaker (for_target w.action.target) (λ q. not (outbids w q)) ps z,
      group_count-none (λ q. not (outbids w q)) w.action.target gs h.1,
      d.0,
      f,
      eq_iff w.action.target k,
    )

    tail :
        (ws : List Proposal)
        → HasGroups gs ws
        → All (λ w. group_count (beats w) gs ≡ 0) ws
        → All (λ w. group_count (beats w) ((k, ps) ∷ gs) ≡ 0) ws
    tail [] q u = tt
    tail (w ∷ ws) q u = (
      ground (
        arith,
        q.0,
        u.0,
        d.0,
        eq_iff k w.action.target,
        count-IsFor (λ q. not (outbids w q)) w.action.target k ps h.0.1,
      ),
      tail ws q.1 u.1,
    )

-- Recovery before schema, schema before optimization, and monitoring last.
abbrev pub seniority : AgentName → ℕ
seniority recovery = 3
seniority schema = 2
seniority optimization = 1
seniority monitoring = 0

-- The second has another target, an agent of a lower priority, or one of the same priority and at
-- most the confidence of the first.
abbrev pub IsUnbeaten : Proposal → Proposal → Type 0
IsUnbeaten w q =
    (q.action.target ≢ w.action.target)
    ⊎ ((seniority q.agent < seniority w.agent)
        ⊎ ((seniority q.agent ≡ seniority w.agent) × (q.action.confidence ≤ w.action.confidence)))

agent_priority-seniority : (g : AgentName) → agent_priority g ≡ seniority g
unfolding agent_priority
agent_priority-seniority recovery = refl
agent_priority-seniority schema = refl
agent_priority-seniority optimization = refl
agent_priority-seniority monitoring = refl

beats-IsUnbeaten : (w q : Proposal) → beats w q ≡ false → IsUnbeaten w q
unfolding outbids
beats-IsUnbeaten w q h = elim (Bool-cases (for_target w.action.target q)) [
  | inl t ↦
      inr (ground (arith, t, h, agent_priority-seniority w.agent, agent_priority-seniority q.agent))
  | inr f ↦ inl λ e. ground (arith, f, e, eq_iff q.action.target w.action.target)
]

all-IsUnbeaten :
    (w : Proposal) (ps : List Proposal) → count (beats w) ps ≡ 0 → All (IsUnbeaten w) ps
all-IsUnbeaten w [] h = tt
all-IsUnbeaten w (q ∷ ps) h =
    (beats-IsUnbeaten w q (ground (arith, h)), all-IsUnbeaten w ps (ground (arith, h)))

-- Of all proposals for a winner's target, each comes from an agent of a lower priority than the
-- winner's, or from one of the same priority and with at most the winner's confidence: recovery
-- goes before schema, and schema before optimization.
pub resolve_conflicts-IsUnbeaten :
    (ps : List Proposal) → All (λ w. All (IsUnbeaten w) ps) (resolve_conflicts ps).winners
unfolding resolve_conflicts
resolve_conflicts-IsUnbeaten ps =
    All-weaken (resolve_conflicts ps).winners
      (λ w z. all-IsUnbeaten w ps (ground (arith, group_count-group_by_target (beats w) [] ps, z)))
      (winners-unbeaten (group_by_target [] ps) (group_by_target-IsGrouped [] ps tt)
        (group_by_target-Distinct [] ps tt))

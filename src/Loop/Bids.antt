-- ===== src/Loop/Bids.antt =====
-- The resolution of proposals that contend for a target: `_resolve_conflicts` of
-- src/acde/orchestrator/loop.py.
pub mod Winners
pub mod Best
pub mod Unique
use agentic_cloud_pipeline_g.Prelude.{
  ℕ, String, Bool, ◌&&◌, ◌||◌, List, [], ◌∷◌, ◌++◌, map, ◌==◌, ltb, leb, str_eq, if◌then◌else◌,
}
use agentic_cloud_pipeline_g.Prelude.Sorting.{sort_by}
use agentic_cloud_pipeline_g.Contracts.{
  AgentName, monitoring, optimization, schema, recovery, ProposedAction,
}
use agentic_cloud_pipeline_g.Agents.Detection.{Snapshot}

pub record Proposal : Type 0 where
  pub agent : AgentName
  pub action : ProposedAction
  pub snapshot : Snapshot

-- AGENT_PRIORITY. The monitoring agent proposes nothing here.
unfoldable pub agent_priority : AgentName → ℕ
agent_priority recovery = 3
agent_priority schema = 2
agent_priority optimization = 1
agent_priority monitoring = 0

-- The bid of the first, its priority and then its confidence, is at least that of the second.
unfoldable pub outbids : Proposal → Proposal → Bool
outbids p q =
    ltb (agent_priority q.agent) (agent_priority p.agent)
    || (agent_priority q.agent == agent_priority p.agent
        && leb q.action.confidence p.action.confidence)

abbrev pub for_target : String → Proposal → Bool
for_target t p = str_eq p.action.target t

-- `by_target.setdefault(p.action.target, []).append(p)`
unfoldable pub add_contender :
    Proposal → List (String × List Proposal) → List (String × List Proposal)
add_contender p [] = (p.action.target, p ∷ []) ∷ []
add_contender p ((t, ps) ∷ gs) =
    if str_eq t p.action.target then (t, ps ++ p ∷ []) ∷ gs else (t, ps) ∷ add_contender p gs

unfoldable pub group_by_target :
    List (String × List Proposal) → List Proposal → List (String × List Proposal)
unfolding add_contender
group_by_target gs [] = gs
group_by_target gs (p ∷ ps) = group_by_target (add_contender p gs) ps

-- A loser with the agent that outbid it.
pub record Outbid : Type 0 where
  pub loser : Proposal
  pub winner : AgentName

pub record Resolution : Type 0 where
  pub winners : List Proposal
  pub losers : List Outbid

abbrev pub beaten_by : AgentName → Proposal → Outbid
beaten_by g p = record { loser = p; winner = g }

-- The contenders in the order of their bids, the highest first; the sort is stable.
unfoldable pub rank : List Proposal → Resolution
unfolding sort_by outbids
rank ps = elim (sort_by outbids ps) [
  | [] ↦ record { winners = []; losers = [] }
  | w ∷ rest ↦ record { winners = w ∷ []; losers = map (beaten_by w.agent) rest }
]

-- One target: a single contender wins without a ranking.
unfoldable pub resolve_target : List Proposal → Resolution
unfolding rank
resolve_target (p ∷ []) = record { winners = p ∷ []; losers = [] }
resolve_target ps = rank ps

unfoldable pub resolve_groups : List (String × List Proposal) → Resolution
unfolding resolve_target
resolve_groups [] = record { winners = []; losers = [] }
resolve_groups ((t, ps) ∷ gs) =
    let r = resolve_target ps in
    let rest = resolve_groups gs in
    record { winners = r.winners ++ rest.winners; losers = r.losers ++ rest.losers }

unfoldable pub resolve_conflicts : List Proposal → Resolution
unfolding group_by_target resolve_groups
resolve_conflicts ps = resolve_groups (group_by_target [] ps)

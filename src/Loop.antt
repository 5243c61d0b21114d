-- ===== src/Loop.antt =====
-- The control loop: src/acde/orchestrator/loop.py, and the agent sets of configs.py beside it. The
-- model's proposal and the text of a time are parameters.
pub mod Bids
pub mod Capped
pub mod Paused
use agentic_cloud_pipeline_g.Prelude.{
  ℕ, ◌+◌, String, Bool, true, false, not, ◌&&◌, Option, none, some, List, [], ◌∷◌, if◌then◌else◌,
  ltb, count, map,
}
use agentic_cloud_pipeline_g.Contracts.{
  AgentName, monitoring, optimization, schema, recovery, ActionType, no_action, ProposedAction,
  Payload,
}
use agentic_cloud_pipeline_g.Env.{Env}
use agentic_cloud_pipeline_g.World.{World, Message}
use agentic_cloud_pipeline_g.Exec.{Exec, Result, ok, raised, pure, update, ◌>>=◌, ◌>>◌}
use agentic_cloud_pipeline_g.Agents.{CycleResult, act, reason}
use agentic_cloud_pipeline_g.Agents.Detection.{Snapshot, observe, is_unresolved}
use agentic_cloud_pipeline_g.Agents.Monitoring.{observe_and_file}
use agentic_cloud_pipeline_g.Control.{is_paused, record_heartbeat, blast_radius_exceeded}
use agentic_cloud_pipeline_g.Loop.Bids.{Proposal, resolve_conflicts}

-- The keys of AGENT_CONFIGS.
pub data Config : Type 0 where
  baseline monitor_only recovery_only optimization_only schema_only full hybrid : Config

unfoldable pub is_enabled : Config → AgentName → Bool
is_enabled baseline g = false
is_enabled monitor_only monitoring = true
is_enabled recovery_only monitoring = true
is_enabled recovery_only recovery = true
is_enabled optimization_only monitoring = true
is_enabled optimization_only optimization = true
is_enabled schema_only monitoring = true
is_enabled schema_only schema = true
is_enabled full g = true
is_enabled hybrid monitoring = true
is_enabled hybrid schema = true
is_enabled _ _ = false

-- What `_act_on` returns: a skip, or the outcome of the cycle.
pub data ActedOn : Type 0 where
  target_locked blast_radius_reached : String → ActedOn
  acted : List Message → ActedOn

abbrev pub is_no_action : ActionType → Bool
is_no_action no_action = true
is_no_action _ = false

-- `_open_faults`
abbrev pub open_faults : String → World → ℕ
open_faults run w = count (is_unresolved run) w.failure_events

module _ (e : Env) (run : String) where
  unfoldable pub act_under_cap : AgentName → ProposedAction → Snapshot → Exec ActedOn
  unfolding act
  act_under_cap g a s = do r ← act e g a s run; pure (acted r.outcome)

  unfoldable pub act_on : AgentName → ProposedAction → Snapshot → Exec ActedOn
  unfolding act_under_cap blast_radius_exceeded
  act_on g a s w =
      if not (e.try_lock w.now a.target)
      then (ok (target_locked a.target), w)
      else if blast_radius_exceeded e run a.target w
      then (ok (blast_radius_reached a.target), w)
      else act_under_cap g a s w

module _ (e : Env) (llm : ℕ → AgentName → Snapshot → Payload) (isoformat : ℕ → String)
    (run : String) where
  -- The monitoring agent files what it detects when it observes.
  unfoldable pub observe_as : AgentName → Exec Snapshot
  unfolding observe observe_and_file
  observe_as monitoring w = let (s, w') = observe_and_file e run w in (ok s, w')
  observe_as g w = (ok (observe run w), w)

  -- Observe and reason: `none` where the proposal is `no_action`.
  unfoldable pub propose : AgentName → Exec (Option Proposal)
  unfolding observe_as reason
  propose g = do
    s ← observe_as g
    a ← (λ w. reason e g (llm w.next_id g s) w)
    pure (
        if is_no_action a.action_type
        then none
        else some (record { agent = g; action = a; snapshot = s }))

  unfoldable pub act_on_proposal : Option Proposal → Exec (Unit {0})
  unfolding act_on
  act_on_proposal none = pure tt
  act_on_proposal (some p) = do act_on e run p.agent p.action p.snapshot; pure tt

  -- `_run_agent`
  unfoldable pub run_agent : AgentName → Exec (Unit {0})
  unfolding propose act_on_proposal
  run_agent g = do p ← propose g; act_on_proposal p

  abbrev pub cons_proposal : Option Proposal → List Proposal → List Proposal
  cons_proposal none ps = ps
  cons_proposal (some p) ps = p ∷ ps

  -- The loop over the agents that propose, in order.
  unfoldable pub collect : Config → List AgentName → Exec (List Proposal)
  unfolding propose
  collect c [] = pure []
  collect c (g ∷ gs) = do
    p ← if is_enabled c g then propose g else pure none
    ps ← collect c gs
    pure (cons_proposal p ps)

  unfoldable pub act_on_all : List Proposal → Exec (Unit {0})
  unfolding act_on_proposal
  act_on_all [] = pure tt
  act_on_all (p ∷ ps) = do act_on_proposal (some p); act_on_all ps

  abbrev pub reactive_order : List AgentName
  reactive_order = schema ∷ recovery ∷ optimization ∷ []

  -- All of them propose before any of the winners acts.
  unfoldable pub react : Config → Exec (Unit {0})
  unfolding collect act_on_all resolve_conflicts
  react c = do ps ← collect c reactive_order; act_on_all (resolve_conflicts ps).winners

  unfoldable pub react_to_faults : Config → Exec (Unit {0})
  unfolding react
  react_to_faults c w = if ltb 0 (open_faults run w) then react c w else (ok tt, w)

  unfoldable pub active_tick : Config → Exec (Unit {0})
  unfolding run_agent react_to_faults
  active_tick c = do
    if is_enabled c monitoring then run_agent monitoring else pure tt
    react_to_faults c

  unfoldable pub unless_paused : Config → Exec (Unit {0})
  unfolding is_paused active_tick
  unless_paused c = do
    paused ← λ w. (is_paused w.desired_state, w)
    if paused then pure tt else active_tick c

  unfoldable pub tick : Config → Exec (Unit {0})
  unfolding record_heartbeat unless_paused
  tick c = do record_heartbeat isoformat run; unless_paused c

  -- The loop of `run`: a tick that raises does not end it. The list holds the time that passes
  -- after each tick; how many ticks there are is the deadline's doing.
  unfoldable pub run_ticks : Config → List ℕ → World → World
  unfolding tick
  run_ticks c [] w = w
  run_ticks c (n ∷ ns) w = let w' = (tick c w).1 in run_ticks c ns (record w' { now = w'.now + n })

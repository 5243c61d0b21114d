-- ===== src/Loop/Paused.antt =====
-- What the loop leaves alone while the kill switch is engaged.
use agentic_cloud_pipeline_g.Prelude.{
  ℕ, ◌+◌, String, ◌≡◌, ◌∙◌, refl, true, false, str_eq, List, [], ◌∷◌, arith,
}
use agentic_cloud_pipeline_g.Prelude.Dict.{lookup, lookup-insert}
use agentic_cloud_pipeline_g.Json.{object, end, field, text}
use agentic_cloud_pipeline_g.Contracts.{AgentName, Payload}
use agentic_cloud_pipeline_g.Env.{Env}
use agentic_cloud_pipeline_g.World.{World, Desired}
use agentic_cloud_pipeline_g.Exec.{ok}
use agentic_cloud_pipeline_g.Agents.Detection.{Snapshot}
use agentic_cloud_pipeline_g.Control.{is_paused, record_heartbeat}
use agentic_cloud_pipeline_g.Loop.{Config, unless_paused, tick, run_ticks}

-- Nothing but the heartbeat, and the clock, has changed, and the switch is still engaged.
pub record Idle (w w' : World) : Type 0 where
  pub requests : w'.requests ≡ w.requests
  pub partitions : w'.partitions ≡ w.partitions
  pub quarantine_events : w'.quarantine_events ≡ w.quarantine_events
  pub desired_state :
      (k : String)
      → str_eq "acde.loop_heartbeat" k ≡ false
      → lookup k w'.desired_state ≡ lookup k w.desired_state
  pub agent_actions : w'.agent_actions ≡ w.agent_actions
  pub failure_events : w'.failure_events ≡ w.failure_events
  pub interventions : w'.interventions ≡ w.interventions
  pub approvals : w'.approvals ≡ w.approvals
  pub notices : w'.notices ≡ w.notices
  pub paused : is_paused w'.desired_state ≡ ok true

module _ (e : Env) (llm : ℕ → AgentName → Snapshot → Payload) (isoformat : ℕ → String)
    (run : String) where
  stamp : World → Desired
  stamp w = record {
    value = object (field "experiment_run" (text run) (field "ts" (text (isoformat w.now)) end));
    updated_ts = w.now;
  }

  record_heartbeat-lookup :
      (k : String) (w : World)
      → str_eq "acde.loop_heartbeat" k ≡ false
      → lookup k (record_heartbeat isoformat run w).1.desired_state ≡ lookup k w.desired_state
  unfolding record_heartbeat stamp
  record_heartbeat-lookup k w h =
      ground (arith, lookup-insert "acde.loop_heartbeat" k (stamp w) w.desired_state, h)

  record_heartbeat-is_paused :
      (w : World)
      → is_paused (record_heartbeat isoformat run w).1.desired_state ≡ is_paused w.desired_state
  unfolding is_paused record_heartbeat stamp
  record_heartbeat-is_paused w =
      ground (arith, lookup-insert "acde.loop_heartbeat" "acde.paused" (stamp w) w.desired_state)

  tick_paused :
      (c : Config) (w : World)
      → is_paused w.desired_state ≡ ok true
      → tick e llm isoformat run c w ≡ (ok tt, (record_heartbeat isoformat run w).1)
  unfolding tick unless_paused record_heartbeat
  tick_paused c w h = rw (record_heartbeat-is_paused w ∙ h) refl

  record_heartbeat-Idle :
      (w : World) (n : ℕ)
      → is_paused w.desired_state ≡ ok true
      → let w' = (record_heartbeat isoformat run w).1 in Idle w (record w' { now = w'.now + n })
  unfolding record_heartbeat
  record_heartbeat-Idle w n h = record {
    requests = refl;
    partitions = refl;
    quarantine_events = refl;
    desired_state = λ k q. record_heartbeat-lookup k w q;
    agent_actions = refl;
    failure_events = refl;
    interventions = refl;
    approvals = refl;
    notices = refl;
    paused = record_heartbeat-is_paused w ∙ h;
  }

  Idle-trans : (w w' w'' : World) → Idle w w' → Idle w' w'' → Idle w w''
  Idle-trans w w' w'' p q = record {
    requests = q.requests ∙ p.requests;
    partitions = q.partitions ∙ p.partitions;
    quarantine_events = q.quarantine_events ∙ p.quarantine_events;
    desired_state = λ k h. q.desired_state k h ∙ p.desired_state k h;
    agent_actions = q.agent_actions ∙ p.agent_actions;
    failure_events = q.failure_events ∙ p.failure_events;
    interventions = q.interventions ∙ p.interventions;
    approvals = q.approvals ∙ p.approvals;
    notices = q.notices ∙ p.notices;
    paused = q.paused;
  }

  Idle-refl : (w : World) → is_paused w.desired_state ≡ ok true → Idle w w
  Idle-refl w h = record {
    requests = refl;
    partitions = refl;
    quarantine_events = refl;
    desired_state = λ k q. refl;
    agent_actions = refl;
    failure_events = refl;
    interventions = refl;
    approvals = refl;
    notices = refl;
    paused = h;
  }

  -- While the kill switch is engaged the loop, in any configuration and for any number of ticks
  -- after any waits, acts on nothing: it sends no request, writes no row, notifies nobody, and of
  -- the desired state it writes its heartbeat alone, so that the switch stays engaged.
  pub run_ticks-Idle :
      (c : Config) (ns : List ℕ) (w : World)
      → is_paused w.desired_state ≡ ok true
      → Idle w (run_ticks e llm isoformat run c ns w)
  unfolding run_ticks
  run_ticks-Idle c [] w h = Idle-refl w h
  run_ticks-Idle c (n ∷ ns) w h =
      let i = record_heartbeat-Idle w n h in
      rw (tick_paused c w h) (Idle-trans w _ _ i (run_ticks-Idle c ns _ i.paused))

-- ===== src/Agents/Lifecycle.antt =====
-- The life of a failure event: filed, then detected, then resolved, in this order in time.
use agentic_cloud_pipeline_g.Prelude.{
  ℕ, ◌+◌, ◌≤◌, String, ◌≡◌, refl, Bool, Option, none, some, List, [], ◌∷◌, arith, All, All-append,
  Bool-cases, inl, inr,
}
use agentic_cloud_pipeline_g.Contracts.{AgentName, ActionType}
use agentic_cloud_pipeline_g.Env.{Env}
use agentic_cloud_pipeline_g.World.{World, FailureEvent}
use agentic_cloud_pipeline_g.Agents.{resolve, mark_detected, on_after_act}
use agentic_cloud_pipeline_g.Agents.Detection.{Anomaly, OpenAnomaly, observe, detect_anomalies}
use agentic_cloud_pipeline_g.Agents.Monitoring.{
  is_settled, entry_of, with_fault, fault_of, file_new, observe_and_file,
}

abbrev Resolved : ℕ → ℕ → Option ℕ → Type 0
Resolved now detected none = Unit
Resolved now detected (some t) = (detected ≤ t) × (t ≤ now)

abbrev Detected : ℕ → FailureEvent → Option ℕ → Type 0
Detected now f none = f.resolved_ts ≡ none
Detected now f (some t) = (f.injected_ts ≤ t) × (t ≤ now) × Resolved now t f.resolved_ts

-- An event is resolved only after it was detected, and detected only after it was filed; none of
-- this lies in the future.
abbrev pub IsOrdered : ℕ → FailureEvent → Type 0
IsOrdered now f = (f.injected_ts ≤ now) × Detected now f f.detected_ts

abbrev pub AllOrdered : World → Type 0
AllOrdered w = All (IsOrdered w.now) w.failure_events

resolve-AllOrdered :
    (g : AgentName) (t : ActionType) (run : String) (now : ℕ) (fs : List FailureEvent)
    → All (IsOrdered now) fs
    → All (IsOrdered now) (resolve g t run now fs)
unfolding resolve
resolve-AllOrdered g t run now [] h = tt
resolve-AllOrdered g t run now (f ∷ fs) h =
    (ground (arith, h.0), resolve-AllOrdered g t run now fs h.1)

mark_detected-AllOrdered :
    (run : String) (now : ℕ) (fs : List FailureEvent)
    → All (IsOrdered now) fs
    → All (IsOrdered now) (mark_detected run now fs)
unfolding mark_detected
mark_detected-AllOrdered run now [] h = tt
mark_detected-AllOrdered run now (f ∷ fs) h =
    (ground (arith, h.0), mark_detected-AllOrdered run now fs h.1)

on_after_act-AllOrdered :
    (g : AgentName) (t : ActionType) (x : Bool) (run : String) (w : World)
    → AllOrdered w
    → AllOrdered (on_after_act g t x run w)
unfolding on_after_act
on_after_act-AllOrdered AgentName.monitoring t x run w h =
    ground (arith, mark_detected-AllOrdered run w.now w.failure_events h)
on_after_act-AllOrdered AgentName.schema t x run w h =
    ground (arith, resolve-AllOrdered AgentName.schema t run w.now w.failure_events h)
on_after_act-AllOrdered AgentName.recovery t x run w h =
    ground (arith, resolve-AllOrdered AgentName.recovery t run w.now w.failure_events h)
on_after_act-AllOrdered AgentName.optimization t x run w h =
    ground (arith, resolve-AllOrdered AgentName.optimization t run w.now w.failure_events h)

file_new-AllOrdered :
    (run : String) (known : List OpenAnomaly) (as' : List Anomaly) (w : World)
    → AllOrdered w
    → AllOrdered (file_new run known as' w).1
unfolding file_new
file_new-AllOrdered run known [] w h = h
file_new-AllOrdered run known (a ∷ rest) w h = elim (Bool-cases (is_settled known a)) [
  | inl t ↦ rw t (file_new-AllOrdered run known rest w h)
  | inr f ↦ rw f (
      file_new-AllOrdered run (entry_of a w ∷ known) rest (with_fault run a w) (
        All-append (IsOrdered w.now) w.failure_events (fault_of run a w ∷ []) h
          ((omega arith, refl), tt)))
]

later :
    (now now' : ℕ) (fs : List FailureEvent)
    → now ≤ now'
    → All (IsOrdered now) fs
    → All (IsOrdered now') fs
later now now' [] p h = tt
later now now' (f ∷ fs) p h = (ground (arith, h.0), later now now' fs p h.1)

-- What changes failure events, or the time: the hooks of the agents, the monitoring agent's
-- observation, and the clock.
pub data Step (e : Env) : World → World → Type 0 where
  hooked :
      (g : AgentName) (t : ActionType) (x : Bool) (run : String) (w : World)
      → Step e w (on_after_act g t x run w)
  observed : (run : String) (w : World) → Step e w (observe_and_file e run w).1
  waited : (w : World) (n : ℕ) → Step e w (record w { now = w.now + n })

pub data Reach (e : Env) : World → Type 0 where
  start : (w : World) → w.failure_events ≡ [] → Reach e w
  next : {w w' : World} → Reach e w → Step e w w' → Reach e w'

Step-AllOrdered : {e : Env} {w w' : World} → Step e w w' → AllOrdered w → AllOrdered w'
unfolding observe_and_file
Step-AllOrdered (hooked g t x run w) h = on_after_act-AllOrdered g t x run w h
Step-AllOrdered {e} (observed run w) h =
    file_new-AllOrdered run (observe run w).open_anomalies (detect_anomalies e (observe run w)) w h
Step-AllOrdered (waited w n) h = later w.now (w.now + n) w.failure_events (omega arith) h

-- Whatever hooks run, whatever is observed and however time passes, in any order: an event that is
-- resolved was detected no later, an event that is detected was filed no later, and no event has a
-- time in the future.
pub Reach-AllOrdered : (e : Env) {w : World} → Reach e w → AllOrdered w
Reach-AllOrdered e (start w h) = rw h tt
Reach-AllOrdered e (next r s) = Step-AllOrdered s (Reach-AllOrdered e r)

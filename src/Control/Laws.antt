-- ===== src/Control/Laws.antt =====
-- The kill switch is what was last set, and the heartbeat is as old as its last stamp.
use agentic_cloud_pipeline_g.Prelude.{ℕ, ◌+◌, String, ◌≡◌, Bool, some, arith}
use agentic_cloud_pipeline_g.Prelude.Dict.{insert, lookup-insert, lookup-insert_self}
use agentic_cloud_pipeline_g.Json.{object, end, field, boolean, text}
use agentic_cloud_pipeline_g.World.{World, Desired}
use agentic_cloud_pipeline_g.Exec.{ok}
use agentic_cloud_pipeline_g.Control.{is_paused, set_paused, record_heartbeat, heartbeat_age}

stamp : (ℕ → String) → String → World → Desired
stamp isoformat run w = record {
  value = object (field "experiment_run" (text run) (field "ts" (text (isoformat w.now)) end));
  updated_ts = w.now;
}

switch : Bool → String → World → Desired
switch paused actor w = record {
  value = object (field "paused" (boolean paused) (field "by" (text actor) end));
  updated_ts = w.now;
}

-- The kill switch reads as it was last set, and a heartbeat after that leaves it so.
pub is_paused-set_paused :
    (isoformat : ℕ → String) (paused : Bool) (actor run : String) (w : World)
    → let w' = (set_paused paused actor w).1 in
      (is_paused w'.desired_state ≡ ok paused)
      × (is_paused (record_heartbeat isoformat run w').1.desired_state ≡ ok paused)
unfolding is_paused set_paused record_heartbeat stamp switch
is_paused-set_paused isoformat paused actor run w =
    let m = insert "acde.paused" (switch paused actor w) w.desired_state in
    (
      ground (arith, lookup-insert_self "acde.paused" (switch paused actor w) w.desired_state),
      ground (
        arith,
        lookup-insert_self "acde.paused" (switch paused actor w) w.desired_state,
        lookup-insert "acde.loop_heartbeat" "acde.paused" (stamp isoformat run w) m,
      ),
    )

-- Seconds after a heartbeat its age is the time that has passed since, whoever sets the kill switch
-- in between.
pub heartbeat_age-record_heartbeat :
    (isoformat : ℕ → String) (paused : Bool) (actor run : String) (w : World) (n : ℕ)
    → let w' = (record_heartbeat isoformat run w).1 in
      let w'' : World = record w' { now = w.now + n } in
      heartbeat_age (set_paused paused actor w'').1 ≡ some n
unfolding heartbeat_age record_heartbeat set_paused stamp switch
heartbeat_age-record_heartbeat isoformat paused actor run w n =
    let m = insert "acde.loop_heartbeat" (stamp isoformat run w) w.desired_state in
    let w'' : World = record w { now = w.now + n } in
    ground (
      arith,
      lookup-insert_self "acde.loop_heartbeat" (stamp isoformat run w) w.desired_state,
      lookup-insert "acde.paused" "acde.loop_heartbeat" (switch paused actor w'') m,
    )

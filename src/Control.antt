-- ===== src/Control.antt =====
-- The runtime controls of the loop: src/acde/orchestrator/control.py.
pub mod Laws
use agentic_cloud_pipeline_g.Prelude.{
  ℕ, ◌+◌, ◌-◌, String, Bool, true, false, ◌&&◌, Option, none, some, List, ltb, leb, str_eq,
  if◌then◌else◌, count,
}
use agentic_cloud_pipeline_g.Prelude.Int.{ℤ, pos, leb_ℤ}
use agentic_cloud_pipeline_g.Prelude.Dict.{Dict, lookup, insert}
use agentic_cloud_pipeline_g.Json.{Json, object, Fields, end, field, boolean, text}
use agentic_cloud_pipeline_g.Env.{Env}
use agentic_cloud_pipeline_g.World.{World, Desired, ActionRow}
use agentic_cloud_pipeline_g.Exec.{Exec, Result, ok, raised, attribute_error}
use agentic_cloud_pipeline_g.Executor.Handlers.{upsert_desired_state}
use agentic_cloud_pipeline_g.Gate.{truthy}

-- `dict.get` on a JSON object.
unfoldable pub get_field : String → Fields → Option Json
get_field k end = none
get_field k (field j v fs) = if str_eq j k then some v else get_field k fs

abbrev pub is_true : Option Json → Bool
is_true none = false
is_true (some v) = truthy v

-- `value.get("paused")`, which a value that is no object does not have.
unfoldable pub get_paused : Json → Result Bool
unfolding get_field truthy
get_paused (object fs) = ok (is_true (get_field "paused" fs))
get_paused _ = raised attribute_error

unfoldable pub paused_value : Json → Result Bool
unfolding get_paused truthy
paused_value v = if truthy v then get_paused v else ok false

unfoldable pub is_paused : Dict Desired → Result Bool
unfolding paused_value
is_paused rows = elim (lookup "acde.paused" rows) [
  | none ↦ ok false
  | some r ↦ paused_value r.value
]

unfoldable pub set_paused : Bool → String → Exec (Unit {0})
unfolding upsert_desired_state
set_paused paused actor =
    upsert_desired_state "acde.paused"
      (object (field "paused" (boolean paused) (field "by" (text actor) end)))

-- The heartbeat's value holds the time as a text, which `isoformat` makes of it.
unfoldable pub record_heartbeat : (ℕ → String) → String → Exec (Unit {0})
unfolding upsert_desired_state
record_heartbeat isoformat run w =
    upsert_desired_state "acde.loop_heartbeat"
      (object (field "experiment_run" (text run) (field "ts" (text (isoformat w.now)) end))) w

unfoldable pub heartbeat_age : World → Option ℕ
heartbeat_age w = elim (lookup "acde.loop_heartbeat" w.desired_state) [
  | none ↦ none
  | some r ↦ some (w.now - r.updated_ts)
]

-- One hour, in microseconds.
abbrev pub one_hour : ℕ
one_hour = 3600000000

-- The rows that the cap counts: executed on the target within the last hour.
abbrev pub in_last_hour : String → String → ℕ → ActionRow → Bool
in_last_hour run target now r =
    str_eq r.experiment_run run
    && (str_eq r.action.target target && (r.executed && ltb now (r.ts + one_hour)))

unfoldable pub blast_radius_exceeded : Env → String → String → World → Bool
blast_radius_exceeded e run target w =
    if leb_ℤ e.settings.blast_radius_max_per_hour (pos 0)
    then false
    else leb_ℤ e.settings.blast_radius_max_per_hour
        (pos (count (in_last_hour run target w.now) w.agent_actions))

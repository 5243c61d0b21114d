-- ===== src/Isolation/Undone.antt =====
-- What an agent's action writes to the desired state, the reset takes away.
use text.Mathlib.TextPositions.{starts_with-append}
use Prim.Native.String.{◌++◌ as ◌<>◌}
use agentic_cloud_pipeline_g.Prelude.{
  Bool, ℕ, zero, suc, String, ◌≡◌, ◌∙◌, refl, true, Option, [], ◌∷◌, ◌++◌, arith, eq_iff,
}
use agentic_cloud_pipeline_g.Prelude.Dict.{Dict, insert}
use agentic_cloud_pipeline_g.Json.{Json, Params}
use agentic_cloud_pipeline_g.Contracts.{ActionType, ProposedAction, PolicyDecision}
use agentic_cloud_pipeline_g.Contracts
use agentic_cloud_pipeline_g.Env.{Env, Event, Request}
use agentic_cloud_pipeline_g.World.{World, Desired}
use agentic_cloud_pipeline_g.Exec.{clock}
use agentic_cloud_pipeline_g.Exec.Preserves.{Preserves, preserves_rules}
use agentic_cloud_pipeline_g.Executor.{notify, escalate, create_pending, execute}
use agentic_cloud_pipeline_g.Executor.Handlers.{
  send, request, to_int, text_param, int_param, dataset_of, partition_key_of, trigger, recompute,
  rollback_partition, roll_back, set_workers, set_pool_slots, quarantine_rows, quarantine,
  store_mapping, block, reprioritize, handle, upsert_desired_state, check_jsonb,
}
use agentic_cloud_pipeline_g.Executor.Invariants.{execute-Preserves}
use agentic_cloud_pipeline_g.Isolation.{is_run_state, without_run_state, reset_desired_state}

without_run_state-insert :
    (key : String) (v : Desired) (d : Dict Desired)
    → is_run_state key ≡ true
    → without_run_state (insert key v d) ≡ without_run_state d
unfolding without_run_state insert
without_run_state-insert key v [] h = ground arith
without_run_state-insert key v ((at, u) ∷ rest) h =
    ground (arith, without_run_state-insert key v rest h, eq_iff at key)

-- The operator's part of the desired state is `d`.
pub record HasOperatorState (d : Dict Desired) (w : World) : Type 0 where
  pub same : without_run_state w.desired_state ≡ d

module _ (d : Dict Desired) where
  upsert-HasOperatorState :
      (key : String) (v : Json)
      → is_run_state key ≡ true
      → Preserves (HasOperatorState d) (upsert_desired_state key v)
  unfolding upsert_desired_state
  upsert-HasOperatorState key v h = record {
    at = λ w k. record {
      same =
          without_run_state-insert key (record { value = v; updated_ts = w.now }) w.desired_state h
          ∙ k.same;
    };
  }

  block-HasOperatorState :
      (name : String) (v : Json)
      → Preserves (HasOperatorState d) (upsert_desired_state ("ingestion.blocked." <> name) v)
  unfolding is_run_state
  block-HasOperatorState name v =
      upsert-HasOperatorState ("ingestion.blocked." <> name) v
        (ground (arith, starts_with-append "ingestion.blocked." name))

  mapping-HasOperatorState :
      (name : String) (v : Json)
      → Preserves (HasOperatorState d) (upsert_desired_state ("schema.mapping." <> name) v)
  unfolding is_run_state
  mapping-HasOperatorState name v =
      upsert-HasOperatorState ("schema.mapping." <> name) v
        (ground (arith, starts_with-append "schema.mapping." name))

  priority-HasOperatorState :
      (name : String) (v : Json)
      → Preserves (HasOperatorState d) (upsert_desired_state ("pipeline.priority." <> name) v)
  unfolding is_run_state
  priority-HasOperatorState name v =
      upsert-HasOperatorState ("pipeline.priority." <> name) v
        (ground (arith, starts_with-append "pipeline.priority." name))

  workers-HasOperatorState :
      (v : Json) → Preserves (HasOperatorState d) (upsert_desired_state "streaming.workers" v)
  unfolding is_run_state
  workers-HasOperatorState v = upsert-HasOperatorState "streaming.workers" v refl

  clock-HasOperatorState : Preserves (HasOperatorState d) clock
  clock-HasOperatorState = record { at = λ w h. h }

  module _ (e : Env) where
    send-desired :
        (more : ℕ) (r : Request) (w : World) → (send e more r w).1.desired_state ≡ w.desired_state
    unfolding send
    send-desired zero r w = ground arith
    send-desired (suc more) r w = ground (
      arith,
      send-desired more r
          (record w { pipeline = record w.pipeline { requests = w.requests ++ r ∷ [] } }),
    )

    request-HasOperatorState : (r : Request) → Preserves (HasOperatorState d) (request e r)
    unfolding request
    request-HasOperatorState r = record {
      at = λ w h. record { same = rw (send-desired _ r w) h.same };
    }

    text_param-HasOperatorState :
        (key default : String) (m : Params)
        → Preserves (HasOperatorState d) (text_param e key default m)
    unfolding text_param
    text_param-HasOperatorState key default m = record {
      at = λ w h. record { same = grind (arith, h.same) };
    }

    int_param-HasOperatorState :
        (key : String) (default : ℕ) (m : Params)
        → Preserves (HasOperatorState d) (int_param e key default m)
    unfolding int_param to_int
    int_param-HasOperatorState key default m = record {
      at = λ w h. record { same = grind (arith, h.same) };
    }

    rollback_partition-HasOperatorState :
        (t k : String) → Preserves (HasOperatorState d) (rollback_partition e t k)
    unfolding rollback_partition
    rollback_partition-HasOperatorState t k = record { at = λ w h. record { same = h.same } }

    quarantine_rows-HasOperatorState :
        (t k : String) (a : ProposedAction) (run : String)
        → Preserves (HasOperatorState d) (quarantine_rows e t k a run)
    unfolding quarantine_rows
    quarantine_rows-HasOperatorState t k a run = record {
      at = λ w h. record { same = grind (arith, h.same) };
    }

    check_jsonb-HasOperatorState : (b : Bool) → Preserves (HasOperatorState d) (check_jsonb b)
    unfolding check_jsonb
    check_jsonb-HasOperatorState b = record { at = λ w h. record { same = grind (arith, h.same) } }

    ruleset kept_rules = (
      preserves_rules, check_jsonb-HasOperatorState, block-HasOperatorState,
      mapping-HasOperatorState, priority-HasOperatorState, workers-HasOperatorState,
      clock-HasOperatorState, request-HasOperatorState, text_param-HasOperatorState,
      int_param-HasOperatorState, rollback_partition-HasOperatorState,
      quarantine_rows-HasOperatorState,
    )

    handle-HasOperatorState :
        (t : ActionType) (a : ProposedAction) (run : String)
        → Preserves (HasOperatorState d) (handle e t a run)
    unfolding handle trigger recompute roll_back dataset_of partition_key_of set_workers
        set_pool_slots quarantine store_mapping block reprioritize
    handle-HasOperatorState Contracts.retry_with_backoff a run = search kept_rules
    handle-HasOperatorState Contracts.rollback a run = search kept_rules
    handle-HasOperatorState _ a run = search kept_rules

    notify-HasOperatorState :
        (v : Event) (a : ProposedAction) (o : Option ℕ)
        → Preserves (HasOperatorState d) (notify e v a o)
    unfolding notify
    notify-HasOperatorState v a o = record { at = λ w h. record { same = grind (arith, h.same) } }

    escalate-HasOperatorState :
        (a : ProposedAction) (p : PolicyDecision) (run : String)
        → Preserves (HasOperatorState d) (escalate e a p run)
    unfolding escalate
    escalate-HasOperatorState a p run = record {
      at = λ w h. record { same = grind (arith, h.same) };
    }

    create_pending-HasOperatorState :
        (a : ProposedAction) (p : PolicyDecision) (run : String)
        → Preserves (HasOperatorState d) (create_pending e a p run)
    unfolding create_pending
    create_pending-HasOperatorState a p run = record { at = λ w h. record { same = h.same } }

    execute-HasOperatorState :
        (a : ProposedAction) (p : PolicyDecision) (run : String)
        → Preserves (HasOperatorState d) (execute e a p run)
    execute-HasOperatorState =
        execute-Preserves e (HasOperatorState d) handle-HasOperatorState notify-HasOperatorState
          escalate-HasOperatorState create_pending-HasOperatorState

-- Whatever action is executed, under whatever decision, and whether or not the execution raises,
-- the reset before the next run leaves the desired state that it would have left had the action
-- not been executed: no write of an agent to the desired state outlives its run.
pub reset_desired_state-execute :
    (e : Env) (a : ProposedAction) (p : PolicyDecision) (run : String) (w : World)
    → (reset_desired_state (execute e a p run w).1).desired_state
      ≡ (reset_desired_state w).desired_state
unfolding reset_desired_state
reset_desired_state-execute e a p run w =
    ((execute-HasOperatorState (without_run_state w.desired_state) e a p run).at w
      (record { same = refl })).same

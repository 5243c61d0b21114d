-- ===== src/Executor/Frame.antt =====
-- What the handlers of the executor may touch: the pipeline, and nothing else of the world.
use agentic_cloud_pipeline_g.Prelude.{
  ℕ, zero, suc, String, ◌≡◌, ◌∙◌, refl, ap, Bool, true, false, [], ◌∷◌, ◌++◌, if◌then◌else◌, arith,
}
use agentic_cloud_pipeline_g.Json.{Json, Params}
use agentic_cloud_pipeline_g.Contracts
use agentic_cloud_pipeline_g.Contracts.{ActionType, ProposedAction}
use agentic_cloud_pipeline_g.Env.{Env, Request}
use agentic_cloud_pipeline_g.World.{World}
use agentic_cloud_pipeline_g.Exec.{Exec, Result, ok, raised, pure, clock, ◌>>=◌}
use agentic_cloud_pipeline_g.Executor.Handlers.{
  send, request, to_int, text_param, int_param, dataset_of, partition_key_of, trigger, recompute,
  rollback_partition, roll_back, set_workers, set_pool_slots, quarantine_rows, quarantine,
  store_mapping, block, reprioritize, handle, upsert_desired_state, check_jsonb,
}

-- The code changes the pipeline alone, whether it returns or raises.
pub record Touches {ℓ} {A : Type ℓ} (m : Exec A) : Type ℓ where
  pub at : (w : World) → (m w).1 ≡ record w { pipeline = (m w).1.pipeline }

module _ {ℓ κ} {A : Type ℓ} {B : Type κ} where
  Touches-bind :
      (m : Exec A) (f : A → Exec B) → Touches m → ((a : A) → Touches (f a)) → Touches (m >>= f)
  Touches-bind m f h k = record { at = λ w. go (m w).0 (m w).1 w (h.at w) }
    where
      go :
          (r : Result A) (w' w : World)
          → w' ≡ record w { pipeline = w'.pipeline }
          → (◌>>=◌ (λ _. (r, w')) f w).1
            ≡ record w { pipeline = (◌>>=◌ (λ _. (r, w')) f w).1.pipeline }
      go (ok a) w' w e =
          (k a).at w' ∙ ap (λ (v : World). record v { pipeline = (f a w').1.pipeline }) e
      go (raised x) w' w e = e

module _ {ℓ} {A : Type ℓ} where
  Touches-pure : (a : A) → Touches (pure a)
  Touches-pure a = record { at = λ w. refl }

  Touches-if : (b : Bool) (m n : Exec A) → Touches m → Touches n → Touches (if b then m else n)
  Touches-if true m n h k = h
  Touches-if false m n h k = k

clock-Touches : Touches clock
clock-Touches = record { at = λ w. refl }

upsert_desired_state-Touches : (key : String) (v : Json) → Touches (upsert_desired_state key v)
unfolding upsert_desired_state
upsert_desired_state-Touches key v = record { at = λ w. refl }

check_jsonb-Touches : (b : Bool) → Touches (check_jsonb b)
unfolding check_jsonb
check_jsonb-Touches b = record { at = λ w. ground arith }

module _ (e : Env) where
  send-pipeline :
      (more : ℕ) (r : Request) (w : World)
      → (send e more r w).1 ≡ record w { pipeline = (send e more r w).1.pipeline }
  unfolding send
  send-pipeline zero r w = ground arith
  send-pipeline (suc more) r w = ground (
    arith,
    send-pipeline more r
        (record w { pipeline = record w.pipeline { requests = w.requests ++ r ∷ [] } }),
  )

  request-Touches : (r : Request) → Touches (request e r)
  unfolding request
  request-Touches r = record { at = send-pipeline _ r }

  to_int-Touches : (v : Json) → Touches (to_int e v)
  unfolding to_int
  to_int-Touches v = record { at = λ w. ground arith }

  text_param-Touches : (key default : String) (m : Params) → Touches (text_param e key default m)
  unfolding text_param
  text_param-Touches key default m = record { at = λ w. ground arith }

  int_param-Touches :
      (key : String) (default : ℕ) (m : Params) → Touches (int_param e key default m)
  unfolding int_param
  int_param-Touches key default m = record { at = λ w. ground arith }

  rollback_partition-Touches : (d k : String) → Touches (rollback_partition e d k)
  unfolding rollback_partition
  rollback_partition-Touches d k = record { at = λ w. refl }

  quarantine_rows-Touches :
      (d k : String) (a : ProposedAction) (run : String) → Touches (quarantine_rows e d k a run)
  unfolding quarantine_rows
  quarantine_rows-Touches d k a run = record { at = λ w. ground arith }

  ruleset touches = (
    Touches-bind, Touches-pure, check_jsonb-Touches, clock-Touches, upsert_desired_state-Touches,
    request-Touches, text_param-Touches, int_param-Touches, rollback_partition-Touches,
    quarantine_rows-Touches,
  )

  -- Every handler leaves what is not the pipeline as it was.
  pub handle-Touches :
      (t : ActionType) (a : ProposedAction) (run : String) → Touches (handle e t a run)
  unfolding handle trigger recompute roll_back dataset_of partition_key_of set_workers
      set_pool_slots quarantine store_mapping block reprioritize
  handle-Touches Contracts.retry_with_backoff a run = search touches
  handle-Touches Contracts.rollback a run = search touches
  handle-Touches _ a run = search touches

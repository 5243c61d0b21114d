-- ===== src/Mock/Accepted.antt =====
-- The contract accepts whatever the stand-in answers.
use Prim.Native.String.{count as characters}
use agentic_cloud_pipeline_g.Prelude.{
  ℕ, ◌≤◌, ◌≡◌, refl, false, ◌||◌, any, str_eq, ltb, ◌+◌, inl, inr, Bool-cases, arith,
}
use agentic_cloud_pipeline_g.Prelude.Dict.{lookup}
use agentic_cloud_pipeline_g.Json.{one_unit}
use agentic_cloud_pipeline_g.Contracts.{
  AgentName, monitoring, optimization, schema, recovery, ProposedAction, Payload, Validated, valid,
  invalid, model_validate, is_allowed, positive_int, scale_target_param,
}
use agentic_cloud_pipeline_g.Contracts.Validation.{IsValid, model_validate-IsValid}
use mathlib.Core.Path.{subst}
use agentic_cloud_pipeline_g.Env.{Env}
use agentic_cloud_pipeline_g.World.{World}
use agentic_cloud_pipeline_g.Exec.{ok}
use agentic_cloud_pipeline_g.Agents.{reason}
use agentic_cloud_pipeline_g.Agents.Detection.{Snapshot}
use agentic_cloud_pipeline_g.Mock.{
  Rendering, is_in_state, is_nonempty, is_slow, is_breaking, is_backward, open_fault_types,
  anomaly_text, mock_monitoring, mock_recovery, mock_optimization, mock_schema, mock_propose,
}

abbrev Succeeds : Validated → Type 0
Succeeds (valid a) = Unit
Succeeds (invalid x) = ⊥

-- The contract accepts the payload under whatever id it is given.
record IsAccepted (p : Payload) : Type 0 where
  at : (id : ℕ) → Succeeds (model_validate (record p { action_id = id }))

Succeeds-valid : (v : Validated) → Succeeds v → (a : ProposedAction) × (v ≡ valid a)
Succeeds-valid (valid a) h = (a, refl)
Succeeds-valid (invalid x) h = absurd h

module _ (e : Rendering) where
  -- The text of the anomalies fits the field that it goes into.
  abbrev pub Fits : Snapshot → Type 0
  Fits s = characters (anomaly_text e (open_fault_types s)) ≤ 1200

  mock_monitoring-IsAccepted : (s : Snapshot) → Fits s → IsAccepted (mock_monitoring e s)
  unfolding mock_monitoring model_validate is_allowed one_unit scale_target_param
  mock_monitoring-IsAccepted s h =
      let short : ltb 1200 (characters (anomaly_text e (open_fault_types s))) ≡ false =
        ground (arith, h) in
      elim (Bool-cases (
        is_nonempty e (open_fault_types s)
        || any (λ t. is_in_state "failed" t || is_in_state "up_for_retry" t) s.task_runs)) [
          | inl u ↦ rw (mock_monitoring, u) (record { at = λ id. rw short tt })
          | inr u ↦ rw (mock_monitoring, u) (record { at = λ id. tt })
        ]

  mock_recovery-IsAccepted : (s : Snapshot) → IsAccepted (mock_recovery e s)
  unfolding mock_recovery model_validate is_allowed one_unit scale_target_param
  mock_recovery-IsAccepted s =
      elim (Bool-cases (any (str_eq "upstream_delay") (open_fault_types s))) [
        | inl u ↦ rw (mock_recovery, u) (record { at = λ id. tt })
        | inr u ↦ elim (Bool-cases (any (is_in_state "failed") s.task_runs)) [
          | inl v ↦ rw (mock_recovery, u, v) (record { at = λ id. tt })
          | inr v ↦ rw (mock_recovery, u, v) (record { at = λ id. tt })
        ]
      ]

  mock_optimization-IsAccepted : (s : Snapshot) → IsAccepted (mock_optimization e s)
  unfolding mock_optimization model_validate is_allowed one_unit scale_target_param positive_int
      lookup
  mock_optimization-IsAccepted s =
      elim (Bool-cases
        (any (str_eq "ingress_burst") (open_fault_types s) || is_slow e.minute s.freshness)) [
          | inl u ↦ rw (mock_optimization, u) (record { at = λ id. tt })
          | inr u ↦ elim (Bool-cases (any (str_eq "resource_contention") (open_fault_types s))) [
            | inl v ↦ rw (mock_optimization, u, v) (record { at = λ id. tt })
            | inr v ↦ rw (mock_optimization, u, v) (record { at = λ id. tt })
          ]
        ]

  mock_schema-IsAccepted : (s : Snapshot) → IsAccepted (mock_schema e s)
  unfolding mock_schema model_validate is_allowed one_unit scale_target_param
  mock_schema-IsAccepted s =
      elim (Bool-cases
        (is_breaking s.schema_compat || any (str_eq "schema_drift") (open_fault_types s))) [
          | inl u ↦ rw (mock_schema, u) (record { at = λ id. tt })
          | inr u ↦ elim (Bool-cases (is_backward s.schema_compat)) [
            | inl v ↦ rw (mock_schema, u, v) (record { at = λ id. tt })
            | inr v ↦ rw (mock_schema, u, v) (record { at = λ id. tt })
          ]
        ]

  mock_propose-IsAccepted :
      (g : AgentName) (s : Snapshot) → Fits s → IsAccepted (mock_propose e g s)
  unfolding mock_propose
  mock_propose-IsAccepted monitoring s h = mock_monitoring-IsAccepted s h
  mock_propose-IsAccepted recovery s h = mock_recovery-IsAccepted s
  mock_propose-IsAccepted optimization s h = mock_optimization-IsAccepted s
  mock_propose-IsAccepted schema s h = mock_schema-IsAccepted s

  mock_propose-agent : (g : AgentName) (s : Snapshot) → (mock_propose e g s).agent ≡ g
  unfolding mock_propose mock_monitoring mock_recovery mock_optimization mock_schema
  mock_propose-agent monitoring s = ground arith
  mock_propose-agent recovery s = ground arith
  mock_propose-agent optimization s = ground arith
  mock_propose-agent schema s = ground arith

  reason-of :
      (env : Env) (g : AgentName) (p : Payload) (w : World) (a : ProposedAction)
      → model_validate (record p { agent = g; action_id = w.next_id }) ≡ valid a
      → reason env g p w ≡ (ok a, record w { next_id = w.next_id + 1 })
  unfolding reason
  reason-of env g p w a h = rw (reason, h) refl

  -- With the stand-in for the model, whatever an agent observes, if the text of the open anomalies
  -- fits its field, the agent reasons to an action that the contract accepts and that is permitted
  -- to it: no answer is degraded to `no_action` for being invalid.
  pub reason-mock_propose :
      (env : Env) (g : AgentName) (s : Snapshot) (w : World)
      → Fits s
      → (a : ProposedAction) × IsValid a
        × (reason env g (mock_propose e g s) w ≡ (ok a, record w { next_id = w.next_id + 1 }))
  reason-mock_propose env g s w h =
      let p : Payload = record (mock_propose e g s) { agent = g; action_id = w.next_id } in
      let (a, k) : (a : ProposedAction) × (model_validate p ≡ valid a) =
        subst
          (λ x.
            (a : ProposedAction) × (model_validate
                (record (mock_propose e g s) { agent = x; action_id = w.next_id })
              ≡ valid a))
          (mock_propose-agent g s)
          (Succeeds-valid _ ((mock_propose-IsAccepted g s h).at w.next_id)) in
      (a, model_validate-IsValid p a k, reason-of env g (mock_propose e g s) w a k)

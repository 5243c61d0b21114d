-- ===== src/Agents/Audit.antt =====
-- The write-ahead audit trail of `BaseAgent.act`.
use agentic_cloud_pipeline_g.Prelude.{
  ℕ, ◌<◌, String, ◌≡◌, ◌∙◌, ap, refl, ◌⊎◌, inl, inr, Bool, true, false, Option, List, [], ◌∷◌, ◌++◌,
  arith, count, count-append, Bool-cases,
}
use agentic_cloud_pipeline_g.Json.{are_finite}
use agentic_cloud_pipeline_g.Contracts.{AgentName, ActionType, ProposedAction, PolicyDecision}
use agentic_cloud_pipeline_g.Env.{Env, Event}
use agentic_cloud_pipeline_g.World.{World, ActionRow, ActionStatus, Message}
use agentic_cloud_pipeline_g.Exec.{Result, ok, raised, database_error, ◌>>=◌}
use agentic_cloud_pipeline_g.Exec.Preserves.{Preserves}
use agentic_cloud_pipeline_g.Executor.{Execution, notify, escalate, create_pending, execute}
use agentic_cloud_pipeline_g.Executor.Handlers.{check_jsonb}
use agentic_cloud_pipeline_g.Executor.Invariants.{handle-Preserves, execute-Preserves}
use agentic_cloud_pipeline_g.Gate.{build_context, evaluate}
use agentic_cloud_pipeline_g.Gate.Reads.{build_context-Same, evaluate-Same}
use agentic_cloud_pipeline_g.Opa.{PolicyInput}
use agentic_cloud_pipeline_g.Agents.Detection.{Snapshot}
use agentic_cloud_pipeline_g.Agents.{
  current_workers, CycleResult, has_id, intent, set_outcome, policy_state, final_status,
  on_after_act, write_ahead, finish, carry_out, act,
}

abbrev HasRows : List ActionRow → World → Type 0
HasRows rows w = w.agent_actions ≡ rows

module _ (e : Env) (rows : List ActionRow) where
  notify-HasRows :
      (v : Event) (a : ProposedAction) (o : Option ℕ) → Preserves (HasRows rows) (notify e v a o)
  unfolding notify
  notify-HasRows v a o = record { at = λ w h. ground arith }

  escalate-HasRows :
      (a : ProposedAction) (d : PolicyDecision) (run : String)
      → Preserves (HasRows rows) (escalate e a d run)
  unfolding escalate
  escalate-HasRows a d run = record { at = λ w h. ground arith }

  create_pending-HasRows :
      (a : ProposedAction) (d : PolicyDecision) (run : String)
      → Preserves (HasRows rows) (create_pending e a d run)
  unfolding create_pending
  create_pending-HasRows a d run = record { at = λ w h. h }

  execute-HasRows :
      (a : ProposedAction) (d : PolicyDecision) (run : String)
      → Preserves (HasRows rows) (execute e a d run)
  execute-HasRows =
      execute-Preserves e (HasRows rows) (handle-Preserves e (HasRows rows) λ w p h. h)
        notify-HasRows escalate-HasRows create_pending-HasRows

on_after_act-rows :
    (g : AgentName) (t : ActionType) (x : Bool) (run : String) (w : World)
    → (on_after_act g t x run w).agent_actions ≡ w.agent_actions
unfolding on_after_act
on_after_act-rows AgentName.monitoring t x run w = ground arith
on_after_act-rows _ t x run w = ground arith

-- The audit rows that a run of `carry_out` leaves, by how it ended.
abbrev pub AuditSpec :
    ProposedAction → String → PolicyDecision → World → Result CycleResult → List ActionRow → Type 0
AuditSpec a run d w (raised x) rows = rows ≡ w.agent_actions ++ intent a run d w.now ∷ []
AuditSpec a run d w (ok r) rows =
    rows
    ≡ set_outcome a.action_id r.executed r.outcome (final_status r.executed (policy_state d))
        (w.agent_actions ++ intent a run d w.now ∷ [])

module _ (e : Env) (g : AgentName) (a : ProposedAction) (run : String) (d : PolicyDecision) where
  finished :
      (o : Result Execution) (w w₁ w₂ : World)
      → w₂.agent_actions ≡ w.agent_actions ++ intent a run d w.now ∷ []
      → AuditSpec a run d w
          (◌>>=◌ (λ _. (o, w₂)) (finish e g a run d) w₁).0
          (◌>>=◌ (λ _. (o, w₂)) (finish e g a run d) w₁).1.agent_actions
  unfolding finish
  finished (ok x) w w₁ w₂ h =
      on_after_act-rows g _ _ run _ ∙ ap (set_outcome a.action_id x.executed x.outcome _) h
  finished (raised x) w w₁ w₂ h = h

  pub carry_out-AuditSpec :
      (w : World)
      → are_finite a.params ≡ true
      → AuditSpec a run d w (carry_out e g a run d w).0 (carry_out e g a run d w).1.agent_actions
  unfolding carry_out write_ahead check_jsonb
  carry_out-AuditSpec w j =
      let w₁ : World = record w { agent_actions = w.agent_actions ++ intent a run d w.now ∷ [] } in
      rw j (
        finished (execute e a d run w₁).0 w w₁ (execute e a d run w₁).1
          ((execute-HasRows e (w.agent_actions ++ intent a run d w.now ∷ []) a d run).at w₁ refl))

  -- Parameters that the database refuses end it before the row is written.
  pub carry_out_refused :
      (w : World)
      → are_finite a.params ≡ false
      → carry_out e g a run d w ≡ (raised database_error, w)
  unfolding carry_out write_ahead check_jsonb
  carry_out_refused w j = rw j refl

count-set_outcome :
    (i j : ℕ) (x : Bool) (o : List Message) (s : ActionStatus) (rows : List ActionRow)
    → count (has_id j) (set_outcome i x o s rows) ≡ count (has_id j) rows
unfolding set_outcome
count-set_outcome i j x o s [] = refl
count-set_outcome i j x o s (r ∷ rs) = ground (arith, count-set_outcome i j x o s rs)

AuditSpec-count :
    (a : ProposedAction) (run : String) (d : PolicyDecision) (w : World) (o : Result CycleResult)
    (rows : List ActionRow)
    → AuditSpec a run d w o rows
    → 0 < count (has_id a.action_id) rows
AuditSpec-count a run d w (ok r) rows h = ground (
  arith,
  count-set_outcome a.action_id a.action_id r.executed r.outcome
      (final_status r.executed (policy_state d)) (w.agent_actions ++ intent a run d w.now ∷ []),
  count-append (has_id a.action_id) w.agent_actions (intent a run d w.now ∷ []),
  ap (count (has_id a.action_id)) h,
)
AuditSpec-count a run d w (raised x) rows h = ground (
  arith,
  count-append (has_id a.action_id) w.agent_actions (intent a run d w.now ∷ []),
  ap (count (has_id a.action_id)) h,
)

abbrev IsAudited : World → ProposedAction → World → Type 0
IsAudited w a w' = (w' ≡ w) ⊎ (0 < count (has_id a.action_id) w'.agent_actions)

module _ (e : Env) (g : AgentName) (a : ProposedAction) (run : String) (w : World) where
  carried_out :
      (o : Result PolicyDecision) (w₁ w₂ : World)
      → w₁ ≡ w
      → IsAudited w a (◌>>=◌ (λ _. (o, w₁)) (carry_out e g a run) w₂).1
  carried_out (ok d) w₁ w₂ h = elim (Bool-cases (are_finite a.params)) [
    | inl j ↦ inr (AuditSpec-count a run d w₁ _ _ (carry_out-AuditSpec e g a run d w₁ j))
    | inr j ↦ inl (ap (λ o. o.1) (carry_out_refused e g a run d w₁ j) ∙ h)
  ]
  carried_out (raised x) w₁ w₂ h = inl h

  evaluated :
      (o : Result PolicyInput) (w₁ w₂ : World)
      → w₁ ≡ w
      → IsAudited w a (◌>>=◌ (λ _. (o, w₁)) (λ c. evaluate e c >>= carry_out e g a run) w₂).1
  evaluated (ok c) w₁ w₂ h =
      carried_out (evaluate e c w₁).0 (evaluate e c w₁).1 w₁ ((evaluate-Same e w c).at w₁ h)
  evaluated (raised x) w₁ w₂ h = inl h

  -- Whether `act` returns or raises, and wherever it raises, either nothing at all has changed, or
  -- the audit table has a row with the action's id: no side effect is without its row.
  pub act-IsAudited :
      (s : Snapshot)
      → ((act e g a s run w).1 ≡ w)
        ⊎ (0 < count (has_id a.action_id) (act e g a s run w).1.agent_actions)
  unfolding act
  act-IsAudited s =
      let c =
        build_context e a run (current_workers e.settings.stream_default_workers s.resource_usage)
          s.schema_compat in
      evaluated (c w).0 (c w).1 w ((build_context-Same e w a run _ s.schema_compat).at w refl)

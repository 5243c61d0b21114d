-- ===== src/Agents/Logged.antt =====
-- The audit row that `carry_out` leaves, described apart from the code that writes it.
use agentic_cloud_pipeline_g.Prelude.{
  ℕ, String, ◌≡◌, ◌∙◌, ap, refl, inl, inr, Bool, true, false, none, some, List, [], ◌∷◌, ◌++◌,
  arith, count, Bool-cases, if◌then◌else◌,
}
use agentic_cloud_pipeline_g.Json.{are_finite}
use agentic_cloud_pipeline_g.Contracts.{AgentName, ProposedAction, PolicyDecision}
use agentic_cloud_pipeline_g.Env.{Env}
use agentic_cloud_pipeline_g.World.{
  World, ActionRow, ActionStatus, Message, PolicyState, policy_allowed, policy_denied,
  policy_escalated,
}
use agentic_cloud_pipeline_g.Exec.{Result, ok, raised}
use agentic_cloud_pipeline_g.Agents.{
  CycleResult, has_id, intent, set_outcome, policy_state, final_status, carry_out,
}
use agentic_cloud_pipeline_g.Agents.Audit.{AuditSpec, carry_out-AuditSpec}

-- The verdict of the gate, as the audit trail words it.
abbrev verdict : PolicyDecision → PolicyState
verdict d =
    if d.allowed then policy_allowed else if d.escalate then policy_escalated else policy_denied

-- The status of an action that is over.
abbrev outcome_status : Bool → PolicyDecision → ActionStatus
outcome_status executed d =
    if executed
    then ActionStatus.executed
    else if d.allowed
    then ActionStatus.failed
    else if d.escalate
    then ActionStatus.escalated
    else ActionStatus.denied

-- The row of the action: it is of the run and of its time, and has the verdict with its reason.
pub record IsOpened (a : ProposedAction) (run : String) (d : PolicyDecision) (now : ℕ)
    (r : ActionRow) : Type 0 where
  pub of_action : r.action ≡ a
  pub of_run : r.experiment_run ≡ run
  pub at_time : r.ts ≡ now
  pub judged : r.policy_decision ≡ verdict d
  pub reasoned : r.policy_reason ≡ d.reason

-- How far the row has got, by how `carry_out` ended.
abbrev pub IsClosed : PolicyDecision → Result CycleResult → ActionRow → Type 0
IsClosed d (raised x) r =
    (r.status ≡ ActionStatus.executing) × (r.executed ≡ false) × (r.outcome ≡ none)
IsClosed d (ok result) r =
    (r.status ≡ outcome_status result.executed d)
    × (r.executed ≡ result.executed)
    × (r.outcome ≡ some result.outcome)

-- An action whose id no row has leaves the rows as they were, and one new row after them.
abbrev pub IsLogged :
    ProposedAction → String → PolicyDecision → World → Result CycleResult → List ActionRow → Type 0
IsLogged a run d w o rows =
    (r : ActionRow) × (rows ≡ w.agent_actions ++ r ∷ []) × IsOpened a run d w.now r × IsClosed d o r

-- The row of another action is not touched.
set_outcome-fresh :
    (i : ℕ) (x : Bool) (o : List Message) (s : ActionStatus) (rows : List ActionRow) (r : ActionRow)
    → count (has_id i) rows ≡ 0
    → has_id i r ≡ true
    → set_outcome i x o s (rows ++ r ∷ [])
      ≡ rows ++ record r { executed = x; outcome = some o; status = s } ∷ []
unfolding set_outcome
set_outcome-fresh i x o s [] r h k = rw k refl
set_outcome-fresh i x o s (q ∷ rows) r h k = elim (Bool-cases (has_id i q)) [
  | inl t ↦ absurd (ground (arith, t, h))
  | inr f ↦ rw f (ap (λ t. q ∷ t) (set_outcome-fresh i x o s rows r (ground (arith, f, h)) k))
]

AuditSpec-IsLogged :
    (a : ProposedAction) (run : String) (d : PolicyDecision) (w : World) (o : Result CycleResult)
    (rows : List ActionRow)
    → count (has_id a.action_id) w.agent_actions ≡ 0
    → AuditSpec a run d w o rows
    → IsLogged a run d w o rows
unfolding policy_state final_status
AuditSpec-IsLogged a run d w (raised x) rows f h = (
  intent a run d w.now,
  h,
  record {
    of_action = refl;
    of_run = refl;
    at_time = refl;
    judged = ground arith;
    reasoned = refl;
  },
  (refl, refl, refl),
)
AuditSpec-IsLogged a run d w (ok r) rows f h = (
  record (intent a run d w.now) {
    executed = r.executed;
    outcome = some r.outcome;
    status = final_status r.executed (policy_state d);
  },
  h
      ∙ set_outcome-fresh a.action_id r.executed r.outcome _ w.agent_actions (intent a run d w.now)
          f (ground arith),
  record {
    of_action = refl;
    of_run = refl;
    at_time = refl;
    judged = ground arith;
    reasoned = refl;
  },
  (ground arith, refl, refl),
)

-- For an action whose id the audit table does not have yet, and whose parameters are valid JSON,
-- without a float that is not finite, the row is committed before the action is executed: however the execution ends, the table has one new row, last, with the action, the
-- run, the time, the verdict and its reason, and every other row is as it was. An execution that
-- raises leaves the new row with the status `executing`, not executed and without an outcome; one
-- that returns leaves it with whether the action was executed, the outcome, and the status:
-- executed, or else failed for an allowed action, escalated for one that the gate only escalates,
-- and denied for any other.
pub carry_out-IsLogged :
    (e : Env) (g : AgentName) (a : ProposedAction) (run : String) (d : PolicyDecision) (w : World)
    → are_finite a.params ≡ true
    → count (has_id a.action_id) w.agent_actions ≡ 0
    → IsLogged a run d w (carry_out e g a run d w).0 (carry_out e g a run d w).1.agent_actions
carry_out-IsLogged e g a run d w j f =
    AuditSpec-IsLogged a run d w _ _ f (carry_out-AuditSpec e g a run d w j)

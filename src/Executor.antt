-- ===== src/Executor.antt =====
-- The action executor: src/acde/policy/executor.py, with the notifications of
-- src/acde/notify/webhook.py and pagerduty.py that it sends and `create_pending` of
-- src/acde/human/approvals.py that it calls.
pub mod Handlers
pub mod Frame
pub mod Safety
pub mod Invariants
pub mod Escalations
pub mod Retries
pub mod Outcomes
use agentic_cloud_pipeline_g.Prelude.{
  ℕ, ◌+◌, String, Bool, true, false, not, ◌&&◌, ◌||◌, Option, none, some, List, [], ◌∷◌, ◌++◌,
  str_eq, if◌then◌else◌, any,
}
use agentic_cloud_pipeline_g.Contracts.{
  ActionType, no_action, raise_anomaly, allow_compatible, ProposedAction, PolicyDecision,
}
use agentic_cloud_pipeline_g.Env.{
  Env, Event, shadow_proposal, pending_approval, escalation, execution_failure,
}
use agentic_cloud_pipeline_g.World.{
  World, Message, Intervention, Approval, ApprovalStatus, Notice, invalid_target, execution_failed,
  shadow, escalated_to_human, denied,
}
use agentic_cloud_pipeline_g.World
use agentic_cloud_pipeline_g.Exec.{Exec, Result, ok, raised, http_error, pure, update, ◌>>=◌, ◌>>◌}
use agentic_cloud_pipeline_g.Executor.Handlers.{handle}

pub record ExecutionOutcome : Type 0 where
  pub executed : Bool
  pub outcome : Message

-- `execute` joins the messages of its parts.
pub record Execution : Type 0 where
  pub executed : Bool
  pub outcome : List Message

-- AUTO_ACTIONS
unfoldable pub is_auto : ActionType → Bool
is_auto no_action = true
is_auto raise_anomaly = true
is_auto allow_compatible = true
is_auto _ = false

-- An open intervention of the run.
abbrev pub is_open : String → Intervention → Bool
is_open run i =
    str_eq i.experiment_run run && (elim i.completed_ts [ none ↦ true | some t ↦ false ])

-- `pagerduty.send` pages for no shadowed proposal.
unfoldable pub pages : Event → Bool
pages shadow_proposal = false
pages _ = true

module _ (e : Env) where
  unfoldable pub notify : Event → ProposedAction → Option ℕ → Exec (Unit {0})
  unfolding pages
  notify event a approval w =
      let webhook = e.settings.webhook_url in
      let pagerduty = e.settings.pagerduty_key && pages event in
      let notice : Notice = record {
        event = event;
        action_id = a.action_id;
        approval_id = approval;
        webhook = webhook;
        pagerduty = pagerduty;
      } in
      let w' : World = record w { notices = w.notices ++ notice ∷ [] } in
      (ok tt, if e.settings.webhook_event event && (webhook || pagerduty) then w' else w)

  -- `_escalate`: with deduplication, at most one open intervention of a run is filed.
  unfoldable pub escalate : ProposedAction → PolicyDecision → String → Exec (Unit {0})
  escalate a d run w =
      let row : Intervention = record {
        experiment_run = run;
        agent = a.agent;
        action_type = a.action_type;
        reason = d.reason;
        requested_ts = w.now;
        completed_ts = none;
      } in
      let w' : World = record w { interventions = w.interventions ++ row ∷ [] } in
      (ok tt, if e.settings.escalation_dedupe && any (is_open run) w.interventions then w else w')

  -- The `except httpx.HTTPError` of `apply_action`: no other exception is caught.
  abbrev pub caught : Result Message × World → Result ExecutionOutcome × World
  caught (ok m, w) = (ok (record { executed = true; outcome = m }), w)
  caught (raised http_error, w) = (ok (record { executed = false; outcome = execution_failed }), w)
  caught (raised x, w) = (raised x, w)

  unfoldable pub apply_action : ProposedAction → String → Exec ExecutionOutcome
  unfolding is_auto
  apply_action a run w =
      if not (is_auto a.action_type) && str_eq a.target run
      then (ok (record { executed = false; outcome = invalid_target a.target }), w)
      else caught (handle e a.action_type a run w)

  unfoldable pub effective_mode : ActionType → String
  effective_mode t =
      let mode = e.settings.acde_mode in
      if str_eq mode "autonomous" && e.settings.approval_required t then "approval" else mode

  -- `create_pending`, of an action whose parameters the audit table has taken before.
  unfoldable pub create_pending : ProposedAction → PolicyDecision → String → Exec ℕ
  create_pending a d run w =
      let row : Approval = record {
        approval_id = w.next_id;
        experiment_run = run;
        action = a;
        policy_reason = d.reason;
        requested_ts = w.now;
        status = ApprovalStatus.pending;
        decided_ts = none;
        decided_by = none;
        decision_note = none;
        outcome = none;
      } in
      (ok w.next_id, record w { approvals = w.approvals ++ row ∷ []; next_id = w.next_id + 1 })

  unfoldable pub run_auto : ProposedAction → String → Exec Execution
  run_auto a run = do
    out ← apply_action a run
    pure (record { executed = out.executed; outcome = out.outcome ∷ [] })

  unfoldable pub run_shadow : ProposedAction → Exec Execution
  unfolding notify
  run_shadow a = do
    notify shadow_proposal a none
    pure (record { executed = false; outcome = shadow a.action_type a.target ∷ [] })

  unfoldable pub run_approval : ProposedAction → PolicyDecision → String → Exec Execution
  unfolding notify create_pending
  run_approval a d run = do
    aid ← create_pending a d run
    notify pending_approval a (some aid)
    pure (record { executed = false; outcome = Message.pending aid ∷ [] })

  -- A failure of the infrastructure, after its retries, is escalated.
  unfoldable pub after_autonomous :
      ProposedAction → PolicyDecision → String → ExecutionOutcome → Exec Execution
  unfolding escalate notify
  after_autonomous a d run out =
      if out.executed then pure (record { executed = true; outcome = out.outcome ∷ [] }) else (do
        escalate a d run
        notify execution_failure a none
        pure (record { executed = false; outcome = out.outcome ∷ escalated_to_human ∷ [] }))

  unfoldable pub run_autonomous : ProposedAction → PolicyDecision → String → Exec Execution
  unfolding after_autonomous
  run_autonomous a d run = do out ← apply_action a run; after_autonomous a d run out

  -- The branches for an allowed action that is no acknowledgement.
  unfoldable pub run_as : String → ProposedAction → PolicyDecision → String → Exec Execution
  unfolding run_shadow run_approval run_autonomous
  run_as mode a d run w =
      if str_eq mode "shadow"
      then run_shadow a w
      else if str_eq mode "approval"
      then run_approval a d run w
      else run_autonomous a d run w

  unfoldable pub run_in_mode : ProposedAction → PolicyDecision → String → Exec Execution
  unfolding effective_mode run_as
  run_in_mode a d run = run_as (effective_mode a.action_type) a d run

  unfoldable pub run_allowed : ProposedAction → PolicyDecision → String → Exec Execution
  unfolding is_auto run_auto run_in_mode
  run_allowed a d run w =
      if d.allowed
      then (if is_auto a.action_type then run_auto a run w else run_in_mode a d run w)
      else (ok (record { executed = false; outcome = [] }), w)

  unfoldable pub run_escalation :
      ProposedAction → PolicyDecision → String → Execution → Exec Execution
  unfolding escalate notify
  run_escalation a d run x =
      if d.escalate
      then (do
        escalate a d run
        notify escalation a none
        pure (record x { outcome = x.outcome ++ escalated_to_human ∷ [] }))
      else pure x

  unfoldable pub run_denial : PolicyDecision → Execution → Execution
  run_denial d x =
      if not d.allowed && not d.escalate
      then record x { outcome = x.outcome ++ denied d.reason ∷ [] }
      else x

  unfoldable pub execute : ProposedAction → PolicyDecision → String → Exec Execution
  unfolding run_allowed run_escalation run_denial
  execute a d run = do x ← run_allowed a d run; y ← run_escalation a d run x; pure (run_denial d y)

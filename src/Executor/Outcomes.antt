-- ===== src/Executor/Outcomes.antt =====
-- What `execute` returns and files on each kind of branch.
use agentic_cloud_pipeline_g.Prelude.{
  String, ◌≡◌, ◌∙◌, ap, refl, true, false, none, [], ◌∷◌, ◌++◌, arith, eq_iff, str_eq,
  if◌then◌else◌,
}
use agentic_cloud_pipeline_g.Contracts.{ProposedAction, PolicyDecision}
use agentic_cloud_pipeline_g.Env.{Env, Event}
use agentic_cloud_pipeline_g.World.{World, Message, Approval, ApprovalStatus}
use agentic_cloud_pipeline_g.Exec.{Result, ok, raised, ◌>>=◌}
use agentic_cloud_pipeline_g.Executor.{
  ExecutionOutcome, Execution, is_auto, escalate, caught, apply_action, effective_mode,
  create_pending, run_approval, after_autonomous, run_autonomous, run_as, run_in_mode, run_allowed,
  run_escalation, run_denial, execute,
}
use agentic_cloud_pipeline_g.Executor.Handlers.{handle}
use agentic_cloud_pipeline_g.Executor.Safety.{
  notify-pipeline, escalate-pipeline, run_approval-pipeline, after_autonomous-pipeline,
  execute-run_allowed, caught-world,
}

module _ (e : Env) (a : ProposedAction) (d : PolicyDecision) (run : String) where
  -- An action that the policy denies is not executed, and nothing is queued for approval; the
  -- outcome says that it was escalated if the policy escalates it, and else that it was denied, and
  -- why.
  pub execute_denied :
      (w : World)
      → d.allowed ≡ false
      → ((execute e a d run w).0
          ≡ ok (record {
            executed = false;
            outcome =
                (if d.escalate then Message.escalated_to_human else Message.denied d.reason) ∷ [];
          }))
        × ((execute e a d run w).1.approvals ≡ w.approvals)
        × ((execute e a d run w).1.pipeline ≡ w.pipeline)
  unfolding execute run_allowed run_escalation run_denial
  execute_denied w h = ground (
    arith,
    escalate-pipeline e a d run w,
    notify-pipeline e Event.escalation a none (escalate e a d run w).1,
  )

  abbrev pub queued : World → Approval
  queued w = record {
    approval_id = w.next_id;
    experiment_run = run;
    action = a;
    policy_reason = d.reason;
    requested_ts = w.now;
    status = ApprovalStatus.pending;
    decided_ts = none;
    decided_by = none;
    decision_note = none;
    outcome = none;
  }

  run_allowed_approval :
      (w : World)
      → d.allowed ≡ true
      → is_auto a.action_type ≡ false
      → effective_mode e a.action_type ≡ "approval"
      → run_allowed e a d run w ≡ run_approval e a d run w
  unfolding run_allowed run_in_mode run_as
  run_allowed_approval w al au m = ground (
    arith,
    eq_iff (effective_mode e a.action_type) "approval",
    eq_iff "approval" "approval",
    eq_iff (effective_mode e a.action_type) "shadow",
    eq_iff "approval" "shadow",
  )

  run_escalation-approvals :
      (x : Execution) (w : World)
      → ((run_escalation e a d run x w).1.approvals ≡ w.approvals)
        × ((run_escalation e a d run x w).1.pipeline ≡ w.pipeline)
        × ((run_escalation e a d run x w).0
            ≡ ok (record x {
              outcome =
                  if d.escalate then x.outcome ++ Message.escalated_to_human ∷ [] else x.outcome;
            }))
  unfolding run_escalation
  run_escalation-approvals x w = ground (
    arith,
    escalate-pipeline e a d run w,
    notify-pipeline e Event.escalation a none (escalate e a d run w).1,
  )

  -- An allowed action in approval mode, or of a type that needs approval in autonomous mode, is
  -- queued as one pending row with a new id and is not executed; the pipeline stays as it was. The
  -- outcome names the row, and says so if the policy also escalates.
  pub execute_approval :
      (w : World)
      → d.allowed ≡ true
      → is_auto a.action_type ≡ false
      → effective_mode e a.action_type ≡ "approval"
      → ((execute e a d run w).0
          ≡ ok (record {
            executed = false;
            outcome =
                if d.escalate
                then Message.pending w.next_id ∷ Message.escalated_to_human ∷ []
                else Message.pending w.next_id ∷ [];
          }))
        × ((execute e a d run w).1.approvals ≡ w.approvals ++ queued w ∷ [])
        × ((execute e a d run w).1.pipeline ≡ w.pipeline)
  unfolding execute run_denial create_pending
  execute_approval w al au m = rw (run_allowed_approval w al au m) (
      ground (
        arith,
        run_approval-pipeline e a d run w,
        run_escalation-approvals
            (record { executed = false; outcome = Message.pending w.next_id ∷ [] })
            (run_approval e a d run w).1,
      ))

  continued-pipeline :
      (r : Result ExecutionOutcome) (w w' : World)
      → (◌>>=◌ (λ _. (r, w')) (after_autonomous e a d run) w).1.pipeline ≡ w'.pipeline
  continued-pipeline (ok x) w w' = after_autonomous-pipeline e a d run x w'
  continued-pipeline (raised x) w w' = refl

  -- The steps after the handler leave the pipeline as the handler left it.
  run_autonomous_handled :
      (w : World)
      → is_auto a.action_type ≡ false
      → str_eq a.target run ≡ false
      → (run_autonomous e a d run w).1.pipeline ≡ (handle e a.action_type a run w).1.pipeline
  unfolding run_autonomous apply_action
  run_autonomous_handled w au t =
      rw (au, t, apply_action)
        (continued-pipeline (caught e (handle e a.action_type a run w)).0 w _
          ∙ ap (λ (v : World). v.pipeline) (caught-world e (handle e a.action_type a run w)))

  run_allowed_other :
      (w : World)
      → d.allowed ≡ true
      → is_auto a.action_type ≡ false
      → str_eq e.settings.acde_mode "shadow" ≡ false
      → str_eq e.settings.acde_mode "approval" ≡ false
      → str_eq e.settings.acde_mode "autonomous" ≡ false
      → run_allowed e a d run w ≡ run_autonomous e a d run w
  unfolding run_allowed run_in_mode run_as effective_mode
  run_allowed_other w al au s p m = rw (al, au, m, s, p)

  -- In a mode whose name is none of the three that the settings document, an allowed action is
  -- executed, and the action types that need approval are not looked at.
  pub execute_other_mode :
      (w : World)
      → d.allowed ≡ true
      → is_auto a.action_type ≡ false
      → str_eq a.target run ≡ false
      → str_eq e.settings.acde_mode "shadow" ≡ false
      → str_eq e.settings.acde_mode "approval" ≡ false
      → str_eq e.settings.acde_mode "autonomous" ≡ false
      → (execute e a d run w).1.pipeline ≡ (handle e a.action_type a run w).1.pipeline
  execute_other_mode w al au t s p m =
      execute-run_allowed e a d run w
      ∙ ap (λ (v : Result Execution × World). v.1.pipeline) (run_allowed_other w al au s p m)
      ∙ run_autonomous_handled w au t

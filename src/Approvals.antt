-- ===== src/Approvals.antt =====
-- The approval workflow: src/acde/human/approvals.py. (`create_pending` stands in Executor.antt.)
pub mod Decided
use agentic_cloud_pipeline_g.Prelude.{
  ℕ, ◌+◌, String, Bool, true, false, ◌&&◌, Option, none, some, List, [], ◌∷◌, ◌==◌, leb, str_eq,
  if◌then◌else◌, select, first,
}
use agentic_cloud_pipeline_g.Prelude.Sorting.{sort_by}
use agentic_cloud_pipeline_g.Prelude.Int.{pos}
use agentic_cloud_pipeline_g.Contracts.{
  ProposedAction, Payload, Validated, valid, invalid, model_validate,
}
use agentic_cloud_pipeline_g.Env.{Env}
use agentic_cloud_pipeline_g.World.{
  World, Approval, ApprovalStatus, Message, pending, executed, failed, rejected,
}
use agentic_cloud_pipeline_g.Exec.{
  Exec, Result, ok, raised, value_error, pure, raise, update, ◌>>=◌, ◌>>◌,
}
use agentic_cloud_pipeline_g.Executor.{ExecutionOutcome, apply_action}

abbrev pub is_pending : Approval → Bool
is_pending r = elim r.status [ pending ↦ true | _ ↦ false ]

by_newest : Approval → Approval → Bool
by_newest a b = leb b.requested_ts a.requested_ts

unfoldable pub list_pending : Option String → World → List Approval
unfolding by_newest sort_by
list_pending none w = sort_by by_newest (select is_pending w.approvals)
list_pending (some run) w =
    sort_by by_newest (select (λ r. is_pending r && str_eq r.experiment_run run) w.approvals)

unfoldable pub load_pending : ℕ → List Approval → Option Approval
load_pending i rows = first (λ (r : Approval). r.approval_id == i && is_pending r) rows

-- UPDATE ... WHERE approval_id = %s, whatever the status of the row is.
unfoldable pub set_decided :
    ℕ → ApprovalStatus → ℕ → String → Option String → Option Message → List Approval → List Approval
set_decided i status now actor remark outcome [] = []
set_decided i status now actor remark outcome (r ∷ rs) =
    (if r.approval_id == i
      then record r {
        status = status;
        decided_ts = some now;
        decided_by = some actor;
        decision_note = elim remark [ none ↦ r.decision_note | some n ↦ some n ];
        outcome = elim outcome [ none ↦ r.outcome | some m ↦ some m ];
      }
      else r)
    ∷ set_decided i status now actor remark outcome rs

pub data Decision : Type 0 where
  not_found : ℕ → Decision
  decided : ApprovalStatus → Option Message → Decision
  turned_down : String → Decision

-- The action of a row, validated anew under a new id.
unfoldable pub reconstruct : Approval → ℕ → Validated
reconstruct r i = model_validate (record {
  action_id = i;
  agent = r.action.agent;
  action_type = r.action.action_type;
  target = r.action.target;
  params = r.action.params;
  justification =
      if str_eq r.action.justification "" then "approved action" else r.action.justification;
  confidence = pos r.action.confidence;
})

module _ (e : Env) where
  -- What follows the execution: the row is decided.
  unfoldable pub record_approval : ℕ → String → ExecutionOutcome → Exec Decision
  record_approval i actor x w =
      let status = if x.executed then ApprovalStatus.executed else ApprovalStatus.failed in
      (
        ok (decided status (some x.outcome)),
        record w { approvals = set_decided i status w.now actor none (some x.outcome) w.approvals },
      )

  unfoldable pub run_validated : Validated → ℕ → String → Approval → Exec Decision
  unfolding record_approval
  run_validated (valid a) i actor r = do
    x ← apply_action e a r.experiment_run
    record_approval i actor x
  run_validated (invalid x) i actor r = raise value_error

  -- `approve`, once it has loaded the row.
  unfoldable pub finish_approve : ℕ → String → Approval → Exec Decision
  unfolding reconstruct run_validated
  finish_approve i actor r w =
      run_validated (reconstruct r w.next_id) i actor r (record w { next_id = w.next_id + 1 })

  unfoldable pub approve : ℕ → String → Exec Decision
  unfolding load_pending finish_approve
  approve i actor w = elim (load_pending i w.approvals) [
    | none ↦ (ok (not_found i), w)
    | some r ↦ finish_approve i actor r w
  ]

-- `reject`, once it has loaded the row.
unfoldable pub finish_reject : ℕ → String → String → Exec Decision
finish_reject i actor note w = (
  ok (turned_down (if str_eq note "" then "rejected" else note)),
  record w {
    approvals = set_decided i ApprovalStatus.rejected w.now actor (some note) none w.approvals;
  },
)

unfoldable pub reject : ℕ → String → String → Exec Decision
unfolding load_pending finish_reject
reject i actor note w = elim (load_pending i w.approvals) [
  | none ↦ (ok (not_found i), w)
  | some r ↦ finish_reject i actor note w
]

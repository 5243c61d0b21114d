-- ===== src/Approvals/Decided.antt =====
-- A decided row is not decided again by a later call, but is by a concurrent one.
use agentic_cloud_pipeline_g.Prelude.{
  ℕ, ◌+◌, String, ◌≡◌, ◌∙◌, ap, refl, Bool, true, false, Option, none, some, List, [], ◌∷◌, ◌==◌,
  arith, any, first, if◌then◌else◌, Option-cases, inl, inr,
}
use agentic_cloud_pipeline_g.Contracts.{ProposedAction, Validated, valid, invalid}
use agentic_cloud_pipeline_g.Env.{Env}
use agentic_cloud_pipeline_g.World.{World, Approval, ApprovalStatus, Message, pending, rejected}
use agentic_cloud_pipeline_g.Exec.{Result, ok, raised, ◌>>=◌}
use agentic_cloud_pipeline_g.Executor.{ExecutionOutcome, apply_action}
use agentic_cloud_pipeline_g.Executor.Handlers.{handle}
use agentic_cloud_pipeline_g.Executor.Frame.{handle-Touches}
use agentic_cloud_pipeline_g.Executor.Safety.{caught-world}
use agentic_cloud_pipeline_g.Approvals.{
  Decision, not_found, load_pending, set_decided, record_approval, run_validated, finish_approve,
  approve, finish_reject, reject, reconstruct,
}

-- A status with which a decision leaves a row.
abbrev pub is_decided : ApprovalStatus → Bool
is_decided pending = false
is_decided _ = true

load_pending-set_decided :
    (i : ℕ) (s : ApprovalStatus) (now : ℕ) (actor : String) (remark : Option String)
    (outcome : Option Message) (rows : List Approval)
    → is_decided s ≡ true
    → load_pending i (set_decided i s now actor remark outcome rows) ≡ none
unfolding load_pending set_decided
load_pending-set_decided i s now actor remark outcome [] h = refl
load_pending-set_decided i s now actor remark outcome (r ∷ rs) h =
    ground (arith, load_pending-set_decided i s now actor remark outcome rs)

abbrev has_row : ℕ → List Approval → Bool
has_row i rows = any (λ (r : Approval). r.approval_id == i) rows

-- The status of the row with an id.
abbrev pub status_of : ℕ → List Approval → Option ApprovalStatus
status_of i rows = elim (first (λ (r : Approval). r.approval_id == i) rows) [
  | none ↦ none
  | some r ↦ some r.status
]

status_of-set_decided :
    (i : ℕ) (s : ApprovalStatus) (now : ℕ) (actor : String) (remark : Option String)
    (outcome : Option Message) (rows : List Approval)
    → status_of i (set_decided i s now actor remark outcome rows)
      ≡ (if has_row i rows then some s else none)
unfolding set_decided
status_of-set_decided i s now actor remark outcome [] = refl
status_of-set_decided i s now actor remark outcome (r ∷ rs) =
    ground (arith, status_of-set_decided i s now actor remark outcome rs)

has_row-set_decided :
    (j i : ℕ) (s : ApprovalStatus) (now : ℕ) (actor : String) (remark : Option String)
    (outcome : Option Message) (rows : List Approval)
    → has_row j (set_decided i s now actor remark outcome rows) ≡ has_row j rows
unfolding set_decided
has_row-set_decided j i s now actor remark outcome [] = refl
has_row-set_decided j i s now actor remark outcome (r ∷ rs) =
    ground (arith, has_row-set_decided j i s now actor remark outcome rs)

has_row-load_pending :
    (i : ℕ) (r : Approval) (rows : List Approval)
    → load_pending i rows ≡ some r
    → has_row i rows ≡ true
unfolding load_pending
has_row-load_pending i r [] h = cc
has_row-load_pending i r (x ∷ xs) h = ground (arith, has_row-load_pending i r xs)

load_pending-reject :
    (i : ℕ) (actor note : String) (w : World)
    → load_pending i (reject i actor note w).1.approvals ≡ none
unfolding reject finish_reject
load_pending-reject i actor note w = elim (Option-cases (load_pending i w.approvals)) [
  | inl h ↦ ground (arith, h)
  | inr h ↦
      ground
        (arith, h.1, load_pending-set_decided i rejected w.now actor (some note) none w.approvals)
]

module _ (e : Env) where
  none_pending :
      (i : ℕ) (w : World) (actor note : String)
      → load_pending i w.approvals ≡ none
      → (approve e i actor w ≡ (ok (not_found i), w))
        × (reject i actor note w ≡ (ok (not_found i), w))
  unfolding approve reject
  none_pending i w actor note h = (rw (h, approve), rw (h, reject))

  -- Once a rejection has returned, no pending row with its id is left: a later approval or
  -- rejection finds none and changes nothing.
  pub reject_once :
      (i : ℕ) (actor note : String) (w : World) (actor' note' : String)
      → (approve e i actor' (reject i actor note w).1
          ≡ (ok (not_found i), (reject i actor note w).1))
        × (reject i actor' note' (reject i actor note w).1
            ≡ (ok (not_found i), (reject i actor note w).1))
  reject_once i actor note w actor' note' =
      none_pending i (reject i actor note w).1 actor' note' (load_pending-reject i actor note w)

  recorded :
      (i : ℕ) (actor : String) (a : ProposedAction) (run : String) (o : Result ExecutionOutcome)
      (w w' : World) (d : Decision) (w'' : World)
      → ◌>>=◌ (λ _. (o, w')) (record_approval e i actor) w ≡ (ok d, w'')
      → load_pending i w''.approvals ≡ none
  unfolding record_approval
  recorded i actor a run (ok x) w w' d w'' h =
      let s = if x.executed then ApprovalStatus.executed else ApprovalStatus.failed in
      ground (arith, load_pending-set_decided i s w'.now actor none (some x.outcome) w'.approvals)
  recorded i actor a run (raised x) w w' d w'' h = cc

  run_validated-recorded :
      (v : Validated) (i : ℕ) (actor : String) (r : Approval) (w : World) (d : Decision)
      (w' : World)
      → run_validated e v i actor r w ≡ (ok d, w')
      → load_pending i w'.approvals ≡ none
  unfolding run_validated
  run_validated-recorded (valid a) i actor r w d w' h =
      recorded i actor a r.experiment_run (apply_action e a r.experiment_run w).0 w _ d w' h
  run_validated-recorded (invalid x) i actor r w d w' h = cc

  load_pending-approve :
      (i : ℕ) (actor : String) (w : World) (d : Decision) (w' : World)
      → approve e i actor w ≡ (ok d, w')
      → load_pending i w'.approvals ≡ none
  unfolding approve finish_approve
  load_pending-approve i actor w d w' h = go (load_pending i w.approvals) refl h
    where
      go :
          (o : Option Approval)
          → load_pending i w.approvals ≡ o
          → (let t : Result Decision × World = elim o [
            | none ↦ (ok (not_found i), w)
            | some r ↦ finish_approve e i actor r w
          ] in
              t)
            ≡ (ok d, w')
          → load_pending i w'.approvals ≡ none
      go none q p = ground arith
      go (some r) q p = run_validated-recorded _ i actor r _ d w' p

  -- Once an approval has returned, whether the action was executed or failed, a later approval or
  -- rejection of the same id finds no pending row and changes nothing: an action is executed by
  -- one approval at most, as long as calls do not overlap.
  pub approve_once :
      (i : ℕ) (actor : String) (w : World) (d : Decision) (w' : World) (actor' note' : String)
      → approve e i actor w ≡ (ok d, w')
      → (approve e i actor' w' ≡ (ok (not_found i), w'))
        × (reject i actor' note' w' ≡ (ok (not_found i), w'))
  approve_once i actor w d w' actor' note' h =
      none_pending i w' actor' note' (load_pending-approve i actor w d w' h)

  apply_action-approvals :
      (a : ProposedAction) (run : String) (w : World)
      → (apply_action e a run w).1.approvals ≡ w.approvals
  unfolding apply_action
  apply_action-approvals a run w = ground (
    arith,
    caught-world e (handle e a.action_type a run w),
    ap (λ (v : World). v.approvals) ((handle-Touches e a.action_type a run).at w),
  )

  continued-has_row :
      (i j : ℕ) (actor : String) (o : Result ExecutionOutcome) (w w' : World)
      → has_row j (◌>>=◌ (λ _. (o, w')) (record_approval e i actor) w).1.approvals
        ≡ has_row j w'.approvals
  unfolding record_approval
  continued-has_row i j actor (ok x) w w' = has_row-set_decided _ _ _ _ _ _ _ _
  continued-has_row i j actor (raised x) w w' = refl

  run_validated-has_row :
      (v : Validated) (i j : ℕ) (actor : String) (r : Approval) (w : World)
      → has_row j (run_validated e v i actor r w).1.approvals ≡ has_row j w.approvals
  unfolding run_validated
  run_validated-has_row (valid a) i j actor r w =
      continued-has_row i j actor _ w _
      ∙ ap (has_row j) (apply_action-approvals a r.experiment_run w)
  run_validated-has_row (invalid x) i j actor r w = refl

  -- A rejection and an approval that both load the pending row before either of them writes: if the
  -- approval writes first, the rejection still overwrites its status, and leaves what the executed
  -- action did to the pipeline.
  pub reject_overwrites :
      (i : ℕ) (r : Approval) (actor actor' note : String) (w : World)
      → load_pending i w.approvals ≡ some r
      → let w' = (finish_approve e i actor r w).1 in
        (status_of i (finish_reject i actor' note w').1.approvals ≡ some rejected)
        × ((finish_reject i actor' note w').1.pipeline ≡ w'.pipeline)
  unfolding finish_reject finish_approve
  reject_overwrites i r actor actor' note w h =
      let w₁ : World = record w { next_id = w.next_id + 1 } in
      let w' = (run_validated e (reconstruct r w.next_id) i actor r w₁).1 in
      (
        ground (
          arith,
          status_of-set_decided i rejected w'.now actor' (some note) none w'.approvals,
          run_validated-has_row (reconstruct r w.next_id) i i actor r w₁,
          has_row-load_pending i r w.approvals,
        ),
        refl,
      )

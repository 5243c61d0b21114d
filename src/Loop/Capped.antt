-- ===== src/Loop/Capped.antt =====
-- The cap on the actions that are executed on a target in an hour.
use agentic_cloud_pipeline_g.Prelude.{
  ℕ, suc, ◌+◌, ◌≤◌, String, ◌≡◌, refl, sym, ap, ◌∙◌, Bool, List, [], ◌∷◌, ◌++◌, arith, eq_iff,
  str_eq, if◌then◌else◌, count, count-append, inl, inr, Bool-cases,
}
use mathlib.Core.Path.{subst}
use agentic_cloud_pipeline_g.Prelude.Int.{pos}
use agentic_cloud_pipeline_g.Json.{are_finite}
use agentic_cloud_pipeline_g.Contracts.{AgentName, ProposedAction, PolicyDecision}
use agentic_cloud_pipeline_g.Opa.{PolicyInput}
use agentic_cloud_pipeline_g.Env.{Env}
use agentic_cloud_pipeline_g.World.{World, ActionRow, ActionStatus, Message}
use agentic_cloud_pipeline_g.Exec.{Result, ok, raised, pure, ◌>>=◌}
use agentic_cloud_pipeline_g.Gate.{build_context, evaluate}
use agentic_cloud_pipeline_g.Gate.Reads.{build_context-Same, evaluate-Same}
use agentic_cloud_pipeline_g.Agents.{
  has_id, set_outcome, intent, current_workers, carry_out, act, CycleResult,
}
use agentic_cloud_pipeline_g.Agents.Audit.{AuditSpec, carry_out_refused, carry_out-AuditSpec}
use agentic_cloud_pipeline_g.Agents.Detection.{Snapshot}
use agentic_cloud_pipeline_g.Control.{in_last_hour, blast_radius_exceeded}
use agentic_cloud_pipeline_g.Loop.{acted, act_on, act_under_cap}

-- How many actions the audit table has as executed on a target within the last hour.
abbrev pub executed_in_last_hour : String → String → ℕ → List ActionRow → ℕ
executed_in_last_hour run t now rows = count (in_last_hour run t now) rows

-- Recording an outcome adds nothing where no row has the id.
set_outcome_absent :
    (i : ℕ) (x : Bool) (o : List Message) (s : ActionStatus) (rows : List ActionRow)
    → count (has_id i) rows ≡ 0
    → set_outcome i x o s rows ≡ rows
unfolding set_outcome
set_outcome_absent i x o s [] h = refl
set_outcome_absent i x o s (r ∷ rs) h = ground (arith, set_outcome_absent i x o s rs)

set_outcome-append :
    (i : ℕ) (x : Bool) (o : List Message) (s : ActionStatus) (rows last : List ActionRow)
    → set_outcome i x o s (rows ++ last) ≡ set_outcome i x o s rows ++ set_outcome i x o s last
unfolding set_outcome
set_outcome-append i x o s [] last = refl
set_outcome-append i x o s (r ∷ rs) last = rw (set_outcome-append i x o s rs last) refl

module _ (a : ProposedAction) (run : String) (w : World) where
  -- The rows after an action, by target: one more at most, and that on the action's target.
  abbrev pub Grown : ℕ → List ActionRow → Type 0
  Grown now rows =
      (t : String)
      → executed_in_last_hour run t now rows
        ≤ executed_in_last_hour run t now w.agent_actions + (if str_eq a.target t then 1 else 0)

  intent-Grown :
      (d : PolicyDecision) → (now : ℕ) → Grown now (w.agent_actions ++ intent a run d w.now ∷ [])
  intent-Grown d now t =
      ground
        (arith, count-append (in_last_hour run t now) w.agent_actions (intent a run d w.now ∷ []))

  set_outcome-Grown :
      (d : PolicyDecision)
      → (now : ℕ) (x : Bool) (o : List Message) (s : ActionStatus)
      → count (has_id a.action_id) w.agent_actions ≡ 0
      → Grown now (set_outcome a.action_id x o s (w.agent_actions ++ intent a run d w.now ∷ []))
  unfolding set_outcome
  set_outcome-Grown d now x o s h t =
      let last = set_outcome a.action_id x o s (intent a run d w.now ∷ []) in
      ground (
        arith,
        set_outcome-append a.action_id x o s w.agent_actions (intent a run d w.now ∷ []),
        set_outcome_absent a.action_id x o s w.agent_actions h,
        count-append (in_last_hour run t now) w.agent_actions last,
      )

  AuditSpec-Grown :
      (d : PolicyDecision)
      → (now : ℕ) (o : Result CycleResult) (rows : List ActionRow)
      → count (has_id a.action_id) w.agent_actions ≡ 0
      → AuditSpec a run d w o rows
      → Grown now rows
  AuditSpec-Grown d now (ok r) rows h p =
      subst (Grown now) (sym p) (set_outcome-Grown d now _ _ _ h)
  AuditSpec-Grown d now (raised x) rows h p = subst (Grown now) (sym p) (intent-Grown d now)

module _ (e : Env) (g : AgentName) (a : ProposedAction) (run : String) (w : World) where
  module _ (fresh : count (has_id a.action_id) w.agent_actions ≡ 0) where
    same-Grown : (w' : World) → w' ≡ w → Grown a run w w.now w'.agent_actions
    same-Grown w' h t = rw h (omega arith)

    carry_out-Grown :
        (d : PolicyDecision) (w₁ : World)
        → w₁ ≡ w
        → Grown a run w w.now (carry_out e g a run d w₁).1.agent_actions
    carry_out-Grown d w₁ h = elim (Bool-cases (are_finite a.params)) [
      | inl j ↦
          rw h (AuditSpec-Grown a run w d w.now _ _ fresh (carry_out-AuditSpec e g a run d w j))
      | inr j ↦ same-Grown _ (ap (λ o. o.1) (carry_out_refused e g a run d w₁ j) ∙ h)
    ]

    carried_out-Grown :
        (o : Result PolicyDecision) (w₁ w₂ : World)
        → w₁ ≡ w
        → Grown a run w w.now (◌>>=◌ (λ _. (o, w₁)) (carry_out e g a run) w₂).1.agent_actions
    carried_out-Grown (ok d) w₁ w₂ h = carry_out-Grown d w₁ h
    carried_out-Grown (raised x) w₁ w₂ h = same-Grown w₁ h

    evaluated-Grown :
        (o : Result PolicyInput) (w₁ w₂ : World)
        → w₁ ≡ w
        → Grown a run w w.now
            (◌>>=◌ (λ _. (o, w₁)) (λ c. evaluate e c >>= carry_out e g a run) w₂).1.agent_actions
    evaluated-Grown (ok c) w₁ w₂ h =
        carried_out-Grown (evaluate e c w₁).0 (evaluate e c w₁).1 w₁ ((evaluate-Same e w c).at w₁ h)
    evaluated-Grown (raised x) w₁ w₂ h = same-Grown w₁ h

    act-Grown : (s : Snapshot) → Grown a run w w.now (act e g a s run w).1.agent_actions
    unfolding act
    act-Grown s =
        let c =
          build_context e a run (current_workers e.settings.stream_default_workers s.resource_usage)
            s.schema_compat in
        evaluated-Grown (c w).0 (c w).1 w
          ((build_context-Same e w a run _ s.schema_compat).at w refl)

    pure-world :
        (o : Result CycleResult) (w₁ w₂ : World)
        → (◌>>=◌ (λ _. (o, w₁)) (λ r. pure (acted r.outcome)) w₂).1 ≡ w₁
    pure-world (ok r) w₁ w₂ = refl
    pure-world (raised x) w₁ w₂ = refl

    act_under_cap-world : (s : Snapshot) → (act_under_cap e run g a s w).1 ≡ (act e g a s run w).1
    unfolding act_under_cap
    act_under_cap-world s = pure-world (act e g a s run w).0 (act e g a s run w).1 w

    -- With a positive cap on the actions per target and hour, and an action whose id the audit
    -- table does not have yet: if on no target more actions than the cap have been executed within
    -- the last hour, then this is so after the loop has acted, whether it skipped the action,
    -- carried it out or raised.
    pub act_on-capped :
        (n : ℕ) (s : Snapshot)
        → e.settings.blast_radius_max_per_hour ≡ pos (suc n)
        → ((t : String) → executed_in_last_hour run t w.now w.agent_actions ≤ suc n)
        → (t : String)
        → executed_in_last_hour run t w.now (act_on e run g a s w).1.agent_actions ≤ suc n
    unfolding act_on act_under_cap blast_radius_exceeded
    act_on-capped n s p h t = elim (Bool-cases (e.try_lock w.now a.target)) [
      | inr f ↦ ground (arith, f, h t)
      | inl l ↦ elim (Bool-cases (blast_radius_exceeded e run a.target w)) [
        | inl b ↦ rw (l, b) (h t)
        | inr b ↦
            rw (l, b, act_under_cap-world s)
              (ground (arith, p, act-Grown s t, h t, eq_iff a.target t))
      ]
    ]

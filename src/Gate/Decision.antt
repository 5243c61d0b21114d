-- ===== src/Gate/Decision.antt =====
-- What the gate makes of the policy server's replies.
use agentic_cloud_pipeline_g.Prelude.{
  ℕ, zero, suc, ◌+◌, ◌<◌, ◌≡◌, refl, Bool, true, false, arith, inl, inr, Bool-cases,
}
use native.Mathlib.Nat.{add-zero, zero-add}
use agentic_cloud_pipeline_g.Json.{Json, boolean, text, object, end, field}
use agentic_cloud_pipeline_g.Contracts.{PolicyDecision}
use agentic_cloud_pipeline_g.Opa.{PolicyInput}
use agentic_cloud_pipeline_g.Env.{Env, Reply, unavailable, undecodable, answer}
use agentic_cloud_pipeline_g.World.{World}
use agentic_cloud_pipeline_g.Exec.{Result, ok, raised, decode_error, ◌>>=◌}
use agentic_cloud_pipeline_g.Gate.{
  truthy, subscript, escalate_on_failure, query_from, query_opa, decode_rest, decode_decision,
  decide_reply, evaluate,
}

-- A decision as the server sends it.
abbrev pub encode : PolicyDecision → Json
encode d = object (
    field "allowed" (boolean d.allowed) (
      field "escalate" (boolean d.escalate)
        (field "reason" (text d.reason) (field "policy_id" (text d.policy_id) end))))

module _ (e : Env) where
  decode_decision-encode :
      (d : PolicyDecision) (w : World) → decode_decision e (encode d) w ≡ (ok d, w)
  unfolding decode_decision subscript truthy
  decode_decision-encode d w = refl

  -- The first reply of three that is no HTTP error.
  query_opa-answer :
      (now n : ℕ) (i : PolicyInput) (r : Json)
      → n < 3
      → ((m : ℕ) → m < n → e.opa now m i ≡ unavailable)
      → e.opa now n i ≡ answer r
      → query_opa e now i ≡ answer r
  unfolding query_opa
  query_opa-answer now zero i r h before a = ground (arith, a)
  query_opa-answer now (suc zero) i r h before a = ground (arith, before 0, a)
  query_opa-answer now (suc (suc zero)) i r h before a = ground (arith, before 0, before 1, a)
  query_opa-answer now (suc (suc (suc n))) i r h before a = absurd (omega arith)

  -- A decision that the server sends, in one of the first three attempts and after HTTP errors
  -- alone, is the decision of the gate.
  pub evaluate-encode :
      (i : PolicyInput) (d : PolicyDecision) (n : ℕ) (w : World)
      → n < 3
      → ((m : ℕ) → m < n → e.opa w.now m i ≡ unavailable)
      → e.opa w.now n i ≡ answer (encode d)
      → evaluate e i w ≡ (ok d, w)
  unfolding evaluate truthy
  evaluate-encode i d n w h before a =
      rw (query_opa-answer w.now n i (encode d) h before a) (decode_decision-encode d w)

  -- A reply that the gate may take a decision from, or fail on.
  abbrev pub has_result : Reply → Bool
  has_result unavailable = false
  has_result undecodable = true
  has_result (answer r) = truthy r

  query_without_result :
      (more now n : ℕ) (i : PolicyInput)
      → ((m : ℕ) → m < suc more → has_result (e.opa now (n + m) i) ≡ false)
      → has_result (query_from e more now n i) ≡ false
  unfolding query_from
  query_without_result zero now n i h = rw add-zero at (h 0 (omega arith))
  query_without_result (suc more) now n i h =
      go (e.opa now n i) (rw add-zero at (h 0 (omega arith))) (
        query_without_result more now (suc n) i λ m lt.
          rw (let t : suc n + m ≡ n + suc m = omega arith in t) (h (suc m) (omega (arith, lt))))
    where
      go :
          (o : Reply)
          → has_result o ≡ false
          → has_result (query_from e more now (suc n) i) ≡ false
          → has_result (
              let t : Reply = elim o [
                | unavailable ↦ query_from e more now (suc n) i
                | undecodable ↦ undecodable
                | answer j ↦ answer j
              ] in
              t)
            ≡ false
      go unavailable p ih = ih
      go undecodable p ih = p
      go (answer j) p ih = p

  decide_without_result :
      (r : Reply) (w : World)
      → has_result r ≡ false
      → (d : PolicyDecision) × (decide_reply e r w ≡ (ok d, w))
        × (d.allowed ≡ false)
        × (d.escalate ≡ true)
  unfolding decide_reply
  decide_without_result unavailable w h = (_, refl, refl, refl)
  decide_without_result undecodable w h = absurd (ground arith)
  decide_without_result (answer r) w h = (escalate_on_failure, rw h refl, refl, refl)

  -- When each of the three attempts is an HTTP error or an answer without a result, whether null,
  -- false, a zero or empty, the gate returns a decision, and it escalates and does not allow.
  pub evaluate_unavailable :
      (i : PolicyInput) (w : World)
      → ((m : ℕ) → m < 3 → has_result (e.opa w.now m i) ≡ false)
      → (d : PolicyDecision) × (evaluate e i w ≡ (ok d, w))
        × (d.allowed ≡ false)
        × (d.escalate ≡ true)
  unfolding evaluate decide_reply query_opa query_from truthy
  evaluate_unavailable i w h =
      let r = query_without_result 2 w.now 0 i (λ m lt. rw zero-add (h m lt)) in
      decide_without_result (query_opa e w.now i) w r

  -- What an allowing decision rests on: one of the three replies, whose member `allowed` is truthy.
  abbrev pub Grounds : ℕ → PolicyInput → Type 0
  Grounds now i =
      (n : ℕ) × (n < 3)
      × (r : Json) × (e.opa now n i ≡ answer r)
      × (v : Json) × (subscript r "allowed" ≡ ok v)
      × (truthy v ≡ true)

  query_from-answer :
      (more now n : ℕ) (i : PolicyInput) (r : Json)
      → query_from e more now n i ≡ answer r
      → (m : ℕ) × (m < suc more) × (e.opa now (n + m) i ≡ answer r)
  unfolding query_from
  query_from-answer zero now n i r h = (0, omega arith, rw add-zero h)
  query_from-answer (suc more) now n i r h =
      go (e.opa now n i) refl (query_from-answer more now (suc n) i r) h
    where
      go :
          (o : Reply)
          → e.opa now n i ≡ o
          → (query_from e more now (suc n) i ≡ answer r
              → (m : ℕ) × (m < suc more) × (e.opa now (suc n + m) i ≡ answer r))
          → (let t : Reply = elim o [
            | unavailable ↦ query_from e more now (suc n) i
            | undecodable ↦ undecodable
            | answer j ↦ answer j
          ] in
              t)
            ≡ answer r
          → (m : ℕ) × (m < suc (suc more)) × (e.opa now (n + m) i ≡ answer r)
      go unavailable q ih p =
          let (m, lt, a) = ih p in
          (suc m, omega arith, rw (let t : n + suc m ≡ suc n + m = omega arith in t) a)
      go undecodable q ih p = cc
      go (answer j) q ih p = (0, omega arith, rw add-zero (cc))

  decode_rest-allowed :
      (r v : Json) (w : World) (d : PolicyDecision) (w' : World)
      → decode_rest e r v w ≡ (ok d, w')
      → d.allowed ≡ truthy v
  unfolding decode_rest
  decode_rest-allowed r v w d w' h = ground arith

  decode_decision-allowed :
      (r : Json) (o : Result Json) (w : World) (d : PolicyDecision) (w' : World)
      → subscript r "allowed" ≡ o
      → ◌>>=◌ (λ w. (o, w)) (decode_rest e r) w ≡ (ok d, w')
      → (v : Json) × (subscript r "allowed" ≡ ok v) × (d.allowed ≡ truthy v)
  decode_decision-allowed r (ok v) w d w' q h = (v, q, decode_rest-allowed r v w d w' h)
  decode_decision-allowed r (raised x) w d w' q h = cc

  decide_reply-allowed :
      (o : Reply) (w : World) (d : PolicyDecision) (w' : World)
      → decide_reply e o w ≡ (ok d, w')
      → d.allowed ≡ true
      → (r : Json) × (o ≡ answer r)
        × (v : Json) × (subscript r "allowed" ≡ ok v)
        × (truthy v ≡ true)
  unfolding decide_reply decode_decision
  decide_reply-allowed unavailable w d w' h al = absurd (ground arith)
  decide_reply-allowed undecodable w d w' h al = absurd (ground arith)
  decide_reply-allowed (answer r) w d w' h al = elim (Bool-cases (truthy r)) [
    | inl t ↦
        let (v, q, p) = decode_decision-allowed r (subscript r "allowed") w d w' refl (rw t at h) in
        (r, refl, v, q, cc)
    | inr f ↦ absurd (ground arith)
  ]

  -- The gate allows an action only on an answer of the server, among its three attempts, whose
  -- member `allowed` is truthy: neither null, false, a zero, nor an empty text, array or object.
  pub evaluate_allowed :
      (i : PolicyInput) (w : World) (d : PolicyDecision) (w' : World)
      → evaluate e i w ≡ (ok d, w')
      → d.allowed ≡ true
      → Grounds w.now i
  unfolding evaluate query_opa
  evaluate_allowed i w d w' h al =
      let (r, q, v, s, t) = decide_reply-allowed (query_opa e w.now i) w d w' h al in
      let (m, lt, a) = query_from-answer 2 w.now 0 i r q in (m, lt, r, rw zero-add at a, v, s, t)

  -- A first reply that is no JSON is not turned into an escalation: the gate raises.
  pub evaluate_undecodable :
      (i : PolicyInput) (w : World)
      → e.opa w.now 0 i ≡ undecodable
      → evaluate e i w ≡ (raised decode_error, w)
  unfolding evaluate query_opa query_from decide_reply
  evaluate_undecodable i w h = ground (arith, h)

-- ===== src/Executor/Retries.antt =====
-- The bounded retry around Airflow requests.
use mathlib.Core.List.{append_assoc, append-nil}
use agentic_cloud_pipeline_g.Prelude.{
  ℕ, zero, suc, ◌-◌, ◌≤◌, ◌<◌, ◌≡◌, ◌∙◌, sym, ap, refl, ◌⊎◌, inl, inr, true, false, List, [], ◌∷◌,
  ◌++◌, arith, Bool-cases,
}
use Prim.Native.Nat.{max}
use agentic_cloud_pipeline_g.Env.{Env, Request}
use agentic_cloud_pipeline_g.World.{World}
use agentic_cloud_pipeline_g.Exec.{Result, ok, raised, http_error}
use agentic_cloud_pipeline_g.Executor.Handlers.{send, request}

abbrev pub repeat : ℕ → Request → List Request
repeat zero r = []
repeat (suc k) r = r ∷ repeat k r

-- The request `r` was sent `suc k` times after the requests `before`, at most `limit` times: the first
-- `k` attempts failed, and the last succeeded or was the last that is allowed.
pub record Attempted (e : Env) (limit : ℕ) (r : Request) (before after : List Request)
    (result : Result (Unit {0})) (k : ℕ) : Type 0 where
  pub bounded : suc k ≤ limit
  pub sent : after ≡ before ++ repeat (suc k) r
  pub earlier : (j : ℕ) → j < k → e.airflow (before ++ repeat j r) r ≡ false
  pub last :
      (result ≡ ok tt) × (e.airflow (before ++ repeat k r) r ≡ true)
      ⊎ (result ≡ raised http_error)
        × (e.airflow (before ++ repeat k r) r ≡ false)
        × (suc k ≡ limit)

module _ (e : Env) (r : Request) where
  repeat-suc :
      (before : List Request) (j : ℕ)
      → before ++ repeat (suc j) r ≡ (before ++ r ∷ []) ++ repeat j r
  repeat-suc before j = sym (append_assoc before (r ∷ []) (repeat j r))

  -- A failed attempt in front.
  retried :
      (limit k : ℕ) (before after : List Request) (result : Result (Unit {0}))
      → e.airflow before r ≡ false
      → Attempted e limit r (before ++ r ∷ []) after result k
      → Attempted e (suc limit) r before after result (suc k)
  retried limit k before after result lost h = record {
    bounded = omega (arith, h.bounded);
    sent = h.sent ∙ sym (repeat-suc before (suc k));
    earlier = λ j p. earlier j p;
    last = rw repeat-suc (last h.last);
  }
    where
      earlier : (j : ℕ) → j < suc k → e.airflow (before ++ repeat j r) r ≡ false
      earlier zero p = rw append-nil lost
      earlier (suc j) p = rw repeat-suc (h.earlier j (omega arith))

      last :
          (result ≡ ok tt) × (e.airflow ((before ++ r ∷ []) ++ repeat k r) r ≡ true)
            ⊎ (result ≡ raised http_error)
              × (e.airflow ((before ++ r ∷ []) ++ repeat k r) r ≡ false)
              × (suc k ≡ limit)
          → (result ≡ ok tt) × (e.airflow ((before ++ r ∷ []) ++ repeat k r) r ≡ true)
            ⊎ (result ≡ raised http_error)
              × (e.airflow ((before ++ r ∷ []) ++ repeat k r) r ≡ false)
              × (suc (suc k) ≡ suc limit)
      last (inl p) = inl p
      last (inr p) = inr (p.0, p.1, ap suc p.2)

  one_attempt :
      (limit : ℕ) (before : List Request)
      → e.airflow before r ≡ true
      → Attempted e (suc limit) r before (before ++ r ∷ []) (ok tt) 0
  one_attempt limit before won = record {
    bounded = omega arith;
    sent = refl;
    earlier = λ j p. elim p [ ];
    last = inl (refl, rw append-nil won);
  }

  last_attempt :
      (before : List Request)
      → e.airflow before r ≡ false
      → Attempted e 1 r before (before ++ r ∷ []) (raised http_error) 0
  last_attempt before lost = record {
    bounded = omega arith;
    sent = refl;
    earlier = λ j p. elim p [ ];
    last = inr (refl, rw append-nil lost, refl);
  }

  send-Attempted :
      (more : ℕ) (w : World)
      → (k : ℕ) × Attempted e
          (suc more)
          r
          w.requests
          (send e more r w).1.requests
          (send e more r w).0
          k
  unfolding send
  send-Attempted zero w = elim (Bool-cases (e.airflow w.requests r)) [
    | inl t ↦ (0, rw t (one_attempt 0 w.requests t))
    | inr f ↦ (0, rw f (last_attempt w.requests f))
  ]
  send-Attempted (suc more) w =
      let w' : World = record w {
        pipeline = record w.pipeline { requests = w.requests ++ r ∷ [] };
      } in
      let (k, h) = send-Attempted more w' in
      elim (Bool-cases (e.airflow w.requests r)) [
        | inl t ↦ (0, rw t (one_attempt (suc more) w.requests t))
        | inr f ↦ (suc k, rw f (retried (suc more) k w.requests _ _ f h))
      ]

  -- A request is attempted at most `executor_retry_attempts` times (once, if that is 0): every
  -- attempt but the last failed, and the last either succeeded, and the request returns, or used up
  -- the attempts, and the request raises an HTTP error. Nothing else is sent.
  pub request-Attempted :
      (w : World)
      → (k : ℕ) × Attempted e
          (max 1 e.settings.executor_retry_attempts)
          r
          w.requests
          (request e r w).1.requests
          (request e r w).0
          k
  unfolding request
  request-Attempted w =
      let t : suc (e.settings.executor_retry_attempts - 1)
          ≡ max 1 e.settings.executor_retry_attempts =
        omega arith in
      rw (← t) (send-Attempted (e.settings.executor_retry_attempts - 1) w)

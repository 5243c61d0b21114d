-- ===== src/Llm/Budget.antt =====
-- What a run is charged for.
use agentic_cloud_pipeline_g.Prelude.{
  ℕ, ◌+◌, ◌-◌, ◌<◌, ◌≤◌, ◌≡◌, ◌∙◌, refl, true, false, ◌&&◌, ltb, if◌then◌else◌, length,
  length-append, ◌++◌, Option, none, some, List, [], ◌∷◌, arith, Bool-cases, inl, inr,
}
use mathlib.Core.Path.{subst}
use agentic_cloud_pipeline_g.Prelude.Dict.{lookup}
use agentic_cloud_pipeline_g.Llm.{
  LlmResult, Client, Call, Source, mocked, live, Attempt, answered, transient, permanent,
  attempt_from, exceeded, run_with_degrade, settle, ask, recall, propose, propose_all,
}

-- The answers that a provider gives to a proposal: that of the mock, or the first that comes in three
-- attempts, each of which but the last may fail with an error that is retried.
abbrev pub first_of : Attempt → List LlmResult → List LlmResult
first_of (answered r) rest = r ∷ []
first_of transient rest = rest
first_of permanent rest = []

abbrev pub answers : Source → List LlmResult
answers (mocked r) = r ∷ []
answers (live once) = first_of (once 0) (first_of (once 1) (first_of (once 2) []))

-- The answers that a proposal is charged for: none on a hit of the cache, nor once the calls or the
-- tokens of the budget are used up.
abbrev pub paid_after : Option LlmResult → Call → Client → List LlmResult
paid_after (some r) q c = []
paid_after none q c =
    if ltb c.calls c.max_calls && ltb c.tokens c.max_tokens then answers q.source else []

abbrev pub paid : Call → Client → List LlmResult
paid q c = paid_after (lookup q.key c.cache) q c

unfoldable pub all_paid : List Call → Client → List LlmResult
all_paid [] c = []
all_paid (q ∷ qs) c = paid q c ++ all_paid qs (propose q c).1

unfoldable pub total : (LlmResult → ℕ) → List LlmResult → ℕ
total f [] = 0
total f (r ∷ rs) = f r + total f rs

-- The proposals of a client that are no answer of a provider.
abbrev pub spared : Client → ℕ
spared c = c.cache_hits + (c.degraded_budget + c.degraded_unavailable)

-- The client `c'` is `c` after `n` proposals, charged for the answers `rs`.
pub record IsCharged (n : ℕ) (rs : List LlmResult) (c c' : Client) : Type 0 where
  pub limits : (c'.max_calls ≡ c.max_calls) × (c'.max_tokens ≡ c.max_tokens)
  pub calls : c'.calls ≡ c.calls + length rs
  pub real_calls : c'.real_calls ≡ c.real_calls + length rs
  pub tokens : c'.tokens ≡ c.tokens + total (λ r. r.tokens_in + r.tokens_out) rs
  pub tokens_in : c'.tokens_in ≡ c.tokens_in + total (λ r. r.tokens_in) rs
  pub tokens_out : c'.tokens_out ≡ c.tokens_out + total (λ r. r.tokens_out) rs
  pub others : spared c' + length rs ≡ spared c + n
  pub bounded : length rs ≤ c.max_calls - c.calls

abbrev answer_list : Option LlmResult → List LlmResult
answer_list none = []
answer_list (some r) = r ∷ []

run_with_degrade-answers : (s : Source) → answer_list (run_with_degrade s) ≡ answers s
unfolding run_with_degrade attempt_from
run_with_degrade-answers (mocked r) = refl
run_with_degrade-answers (live once) = ground arith

settle-IsCharged :
    (q : Call) (o : Option LlmResult) (c : Client)
    → c.calls < c.max_calls
    → IsCharged 1 (answer_list o) c (settle q o c).1
unfolding settle total
settle-IsCharged q none c e = record {
  limits = (refl, refl);
  calls = omega arith;
  real_calls = omega arith;
  tokens = omega arith;
  tokens_in = omega arith;
  tokens_out = omega arith;
  others = omega arith;
  bounded = omega arith;
}
settle-IsCharged q (some r) c e = record {
  limits = (refl, refl);
  calls = omega arith;
  real_calls = omega arith;
  tokens = omega arith;
  tokens_in = omega arith;
  tokens_out = omega arith;
  others = omega arith;
  bounded = omega (arith, e);
}

ask-IsCharged :
    (q : Call) (c : Client)
    → IsCharged 1
        (if ltb c.calls c.max_calls && ltb c.tokens c.max_tokens then answers q.source else [])
        c
        (ask q c).1
unfolding ask exceeded total
ask-IsCharged q c = elim (Bool-cases (ltb c.calls c.max_calls && ltb c.tokens c.max_tokens)) [
  | inl t ↦
      let e : exceeded c ≡ false = ground (arith, t) in
      rw (t, e)
        (subst (λ rs. IsCharged 1 rs c (settle q (run_with_degrade q.source) c).1)
          (run_with_degrade-answers q.source)
          (settle-IsCharged q (run_with_degrade q.source) c (ground (arith, t))))
  | inr f ↦
      let e : exceeded c ≡ true = ground (arith, f) in
      rw (f, e)
        (record {
          limits = (refl, refl);
          calls = omega arith;
          real_calls = omega arith;
          tokens = omega arith;
          tokens_in = omega arith;
          tokens_out = omega arith;
          others = omega arith;
          bounded = omega arith;
        })
]

recall-IsCharged :
    (o : Option LlmResult) (q : Call) (c : Client)
    → IsCharged 1 (paid_after o q c) c (recall o q c).1
unfolding recall total
recall-IsCharged none q c = ask-IsCharged q c
recall-IsCharged (some r) q c = record {
  limits = (refl, refl);
  calls = omega arith;
  real_calls = omega arith;
  tokens = omega arith;
  tokens_in = omega arith;
  tokens_out = omega arith;
  others = omega arith;
  bounded = omega arith;
}

propose-IsCharged : (q : Call) (c : Client) → IsCharged 1 (paid q c) c (propose q c).1
unfolding propose
propose-IsCharged q c = recall-IsCharged (lookup q.key c.cache) q c

total-append :
    (f : LlmResult → ℕ) (xs ys : List LlmResult) → total f (xs ++ ys) ≡ total f xs + total f ys
unfolding total
total-append f [] ys = omega arith
total-append f (x ∷ xs) ys = omega (arith, total-append f xs ys)

IsCharged-append :
    (m n : ℕ) (xs ys : List LlmResult) (c c' c'' : Client)
    → IsCharged m xs c c'
    → IsCharged n ys c' c''
    → IsCharged (m + n) (xs ++ ys) c c''
IsCharged-append m n xs ys c c' c'' h k = record {
  limits = (k.limits.0 ∙ h.limits.0, k.limits.1 ∙ h.limits.1);
  calls = omega (arith, length-append xs ys, h.calls, k.calls);
  real_calls = omega (arith, length-append xs ys, h.real_calls, k.real_calls);
  tokens = omega (arith, total-append (λ r. r.tokens_in + r.tokens_out) xs ys, h.tokens, k.tokens);
  tokens_in = omega (arith, total-append (λ r. r.tokens_in) xs ys, h.tokens_in, k.tokens_in);
  tokens_out = omega (arith, total-append (λ r. r.tokens_out) xs ys, h.tokens_out, k.tokens_out);
  others = omega (arith, length-append xs ys, h.others, k.others);
  bounded = omega (arith, length-append xs ys, h.bounded, k.bounded, h.calls, h.limits.0);
}

-- Over any number of proposals, whatever the providers answer, a client is charged for exactly the
-- answers that it pays for: each is counted as a call, in the budget and in the statistics, and adds
-- its tokens to both, where an answer is paid for if it comes, within three attempts, to a proposal
-- that the cache has not and while calls and tokens of the budget are left; such answers are at most
-- as many as calls are left; and each proposal without one is counted as a hit of the cache, as
-- degraded for the budget, or as degraded for the provider.
pub propose_all-IsCharged :
    (qs : List Call) (c : Client) → IsCharged (length qs) (all_paid qs c) c (propose_all qs c)
unfolding propose_all all_paid total
propose_all-IsCharged [] c = record {
  limits = (refl, refl);
  calls = omega arith;
  real_calls = omega arith;
  tokens = omega arith;
  tokens_in = omega arith;
  tokens_out = omega arith;
  others = omega arith;
  bounded = omega arith;
}
propose_all-IsCharged (q ∷ qs) c =
    subst (λ n. IsCharged n (all_paid (q ∷ qs) c) c (propose_all (q ∷ qs) c)) (omega arith)
      (IsCharged-append 1 (length qs) (paid q c) (all_paid qs (propose q c).1) c (propose q c).1
        (propose_all qs (propose q c).1) (propose-IsCharged q c)
        (propose_all-IsCharged qs (propose q c).1))

-- ===== src/Llm.antt =====
-- The budget, the cache and the degradation of the model's client: src/acde/llm/client.py. What the
-- provider answers to an attempt is a parameter, as is the answer of the mock.
pub mod Budget
pub mod Cached
use agentic_cloud_pipeline_g.Prelude.{
  ℕ, zero, suc, ◌+◌, String, Bool, true, false, ◌||◌, Option, none, some, List, [], ◌∷◌, leb,
  if◌then◌else◌,
}
use agentic_cloud_pipeline_g.Prelude.Int.{pos}
use agentic_cloud_pipeline_g.Prelude.Dict.{Dict, lookup, insert}
use agentic_cloud_pipeline_g.Json.{Json, text, float, units, object, end, field}

pub record LlmResult : Type 0 where
  pub action_json : Json
  pub tokens_in : ℕ
  pub tokens_out : ℕ
  pub model : String

-- One attempt of a provider: an answer, or an error that is or is not retried.
pub data Attempt : Type 0 where
  answered : LlmResult → Attempt
  transient permanent : Attempt

-- MOCK_LLM, or a live provider by the number of the attempt.
pub data Source : Type 0 where
  mocked : LlmResult → Source
  live : (ℕ → Attempt) → Source

-- A client: its budget, its cache and its statistics, without the latencies. A key of the cache is
-- the agent with what identifies the snapshot.
pub record Client : Type 0 where
  pub max_calls : ℕ
  pub max_tokens : ℕ
  pub calls : ℕ
  pub tokens : ℕ
  pub cache : Dict LlmResult
  pub real_calls : ℕ
  pub cache_hits : ℕ
  pub degraded_budget : ℕ
  pub degraded_unavailable : ℕ
  pub tokens_in : ℕ
  pub tokens_out : ℕ

pub record Call : Type 0 where
  pub agent : String
  pub key : String
  pub model : String
  pub source : Source

unfoldable pub exceeded : Client → Bool
exceeded c = leb c.max_calls c.calls || leb c.max_tokens c.tokens

-- `_no_action`
unfoldable pub no_action_json : String → String → Json
no_action_json agent reason = object (
    field "agent" (text agent) (
      field "action_type" (text "no_action") (
        field "target" (text "none") (
          field "params" (object end) (
            field "justification" (text reason)
              (field "confidence" (float (units (pos 0))) end))))))

abbrev pub degraded : Call → String → LlmResult
degraded q reason = record {
  action_json = no_action_json q.agent reason;
  tokens_in = 0;
  tokens_out = 0;
  model = q.model;
}

-- At most `more` further attempts after this one; `none` where the last of them failed.
unfoldable pub attempt_from : (ℕ → Attempt) → ℕ → ℕ → Option LlmResult
attempt_from once zero n = elim (once n) [ answered r ↦ some r | _ ↦ none ]
attempt_from once (suc more) n =
    let rest = attempt_from once more (suc n) in
    elim (once n) [ answered r ↦ some r | transient ↦ rest | permanent ↦ none ]

-- The runner of `_run_with_degrade`: three attempts.
unfoldable pub run_with_degrade : Source → Option LlmResult
unfolding attempt_from
run_with_degrade (mocked r) = some r
run_with_degrade (live once) = attempt_from once 2 0

-- What follows a call: an outage is neither cached nor charged.
unfoldable pub settle : Call → Option LlmResult → Client → LlmResult × Client
unfolding insert
settle q none c = (
  degraded q "LLM unavailable; degraded to no_action",
  record c { degraded_unavailable = c.degraded_unavailable + 1 },
)
settle q (some r) c = (
  r,
  record c {
    real_calls = c.real_calls + 1;
    tokens_in = c.tokens_in + r.tokens_in;
    tokens_out = c.tokens_out + r.tokens_out;
    calls = c.calls + 1;
    tokens = c.tokens + (r.tokens_in + r.tokens_out);
    cache = insert q.key r c.cache;
  },
)

-- `propose` where the cache has no answer.
unfoldable pub ask : Call → Client → LlmResult × Client
unfolding exceeded settle run_with_degrade
ask q c =
    if exceeded c
    then (
      degraded q "budget exhausted; degraded to no_action",
      record c { degraded_budget = c.degraded_budget + 1 },
    )
    else settle q (run_with_degrade q.source) c

-- `propose`, by what the cache has for the key.
unfoldable pub recall : Option LlmResult → Call → Client → LlmResult × Client
unfolding ask
recall none q c = ask q c
recall (some r) q c = (r, record c { cache_hits = c.cache_hits + 1 })

unfoldable pub propose : Call → Client → LlmResult × Client
unfolding lookup recall
propose q c = recall (lookup q.key c.cache) q c

-- The proposals of a run, in their order.
unfoldable pub propose_all : List Call → Client → Client
unfolding propose
propose_all [] c = c
propose_all (q ∷ qs) c = propose_all qs (propose q c).1

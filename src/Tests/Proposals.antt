-- ===== src/Tests/Proposals.antt =====
-- The model's client at concrete data: a provider that fails once and then answers, and the stand-in
-- for the model.
use agentic_cloud_pipeline_g.Prelude.{ℕ, zero, suc, String, ◌≡◌, List, [], ◌∷◌, arith}
use agentic_cloud_pipeline_g.Json.{null}
use agentic_cloud_pipeline_g.Contracts.{monitoring, ProposedAction}
use agentic_cloud_pipeline_g.Contracts.Validation.{IsValid}
use agentic_cloud_pipeline_g.Exec.{ok}
use agentic_cloud_pipeline_g.Agents.{reason}
use agentic_cloud_pipeline_g.Agents.Detection.{observe}
use agentic_cloud_pipeline_g.Mock.{Rendering, anomaly_text, open_fault_types, mock_propose}
use agentic_cloud_pipeline_g.Mock.Accepted.{reason-mock_propose}
use agentic_cloud_pipeline_g.Tests.Samples.{env, world}
use agentic_cloud_pipeline_g.Llm.{
  LlmResult, Attempt, answered, transient, live, Client, Call, propose_all,
}
use agentic_cloud_pipeline_g.Llm.Budget.{IsCharged, all_paid, propose_all-IsCharged}

abbrev reply : LlmResult
reply = record { action_json = null; tokens_in = 30; tokens_out = 12; model = "fast" }

abbrev second_answers : ℕ → Attempt
second_answers zero = transient
second_answers (suc n) = answered reply

abbrev client : Client
client = record {
  max_calls = 2;
  max_tokens = 1000;
  calls = 0;
  tokens = 0;
  cache = [];
  real_calls = 0;
  cache_hits = 0;
  degraded_budget = 0;
  degraded_unavailable = 0;
  tokens_in = 0;
  tokens_out = 0;
}

abbrev ask_for : String → Call
ask_for key = record { agent = "recovery"; key = key; model = "fast"; source = live second_answers }

abbrev calls : List Call
calls = ask_for "a" ∷ ask_for "a" ∷ ask_for "b" ∷ ask_for "c" ∷ []

propose_all-IsCharged_example :
    IsCharged 4 (all_paid calls client) client (propose_all calls client)
propose_all-IsCharged_example = propose_all-IsCharged calls client

abbrev rendering : Rendering
rendering = record { first_of = λ f fs. f; shown = λ fs. "['schema_drift']"; minute = 60 }

-- The fault of the world is open, and the task is late.
reason-mock_propose_example :
    (a : ProposedAction) × IsValid a
    × (reason
          (env "shadow")
          monitoring
          (mock_propose rendering monitoring (observe "run" world))
          world
        ≡ (ok a, record world { next_id = 8 }))
unfolding anomaly_text observe open_fault_types
reason-mock_propose_example =
    reason-mock_propose rendering (env "shadow") monitoring (observe "run" world) world
      (omega arith)

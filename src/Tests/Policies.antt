-- ===== src/Tests/Policies.antt =====
-- The contract, the policies and the gate at concrete data.
use agentic_cloud_pipeline_g.Prelude.{ℕ, ◌<◌, ◌≡◌, refl, true, false, [], ◌∷◌, arith}
use agentic_cloud_pipeline_g.Prelude.Int.{pos}
use agentic_cloud_pipeline_g.Prelude.Dict.{lookup, insert}
use agentic_cloud_pipeline_g.Json.{one_unit, int}
use agentic_cloud_pipeline_g.Contracts.{
  ProposedAction, PolicyDecision, model_validate, is_allowed, positive_int, scale_target_param,
  optimization, scale_workers,
}
use agentic_cloud_pipeline_g.Contracts.Validation.{IsValid, model_validate-IsValid}
use agentic_cloud_pipeline_g.Opa.{decision_values}
use agentic_cloud_pipeline_g.Opa.Laws.{IsSingle, decision_values-IsSingle}
use agentic_cloud_pipeline_g.Env.{unavailable}
use agentic_cloud_pipeline_g.Exec.{ok}
use agentic_cloud_pipeline_g.Gate.{evaluate}
use agentic_cloud_pipeline_g.Gate.Decision.{
  Grounds, evaluate-encode, evaluate_allowed, evaluate_unavailable,
}
use agentic_cloud_pipeline_g.Tests.Samples.{allow, env, with_opa, world, input, payload}

abbrev scaled : ProposedAction
scaled = record {
  action_id = 5;
  agent = optimization;
  action_type = scale_workers;
  target = "stream";
  params = ("n_workers", int (pos 4)) ∷ [];
  justification = "burst";
  confidence = 9;
}

model_validate-IsValid_example : IsValid scaled
unfolding model_validate one_unit is_allowed positive_int scale_target_param lookup insert
model_validate-IsValid_example = model_validate-IsValid (payload optimization) scaled refl

decision_values-IsSingle_example : IsSingle (decision_values (λ s l. s) input) true false
unfolding is_allowed
decision_values-IsSingle_example = decision_values-IsSingle (λ s l. s) input refl (omega arith)

before_second : (m : ℕ) → m < 1 → (env "autonomous").opa 100 m input ≡ unavailable
before_second m h = ground arith

evaluate-encode_example : evaluate (env "autonomous") input world ≡ (ok allow, world)
evaluate-encode_example =
    evaluate-encode (env "autonomous") input allow 1 world (omega arith) before_second refl

evaluate_allowed_example : Grounds (env "autonomous") 100 input
evaluate_allowed_example =
    evaluate_allowed (env "autonomous") input world allow world evaluate-encode_example refl

evaluate_unavailable_example :
    (d : PolicyDecision) × (evaluate (with_opa (λ now n i. unavailable)) input world
      ≡ (ok d, world))
    × (d.allowed ≡ false)
    × (d.escalate ≡ true)
evaluate_unavailable_example =
    evaluate_unavailable (with_opa (λ now n i. unavailable)) input world (λ m h. refl)

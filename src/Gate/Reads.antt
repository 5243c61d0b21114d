-- ===== src/Gate/Reads.antt =====
-- The gate reads the world and changes nothing in it.
use agentic_cloud_pipeline_g.Prelude.{ℕ, String, ◌≡◌, arith}
use agentic_cloud_pipeline_g.Json.{Json, Params}
use agentic_cloud_pipeline_g.Contracts
use agentic_cloud_pipeline_g.Contracts.{AgentName, ActionType, ProposedAction}
use agentic_cloud_pipeline_g.Opa.{PolicyInput, SchemaCompat}
use agentic_cloud_pipeline_g.Env.{Env, Reply, unavailable, undecodable, answer}
use agentic_cloud_pipeline_g.World.{World}
use agentic_cloud_pipeline_g.Exec.Preserves.{Preserves, preserves_rules}
use agentic_cloud_pipeline_g.Executor.Handlers.{int_param, text_param, dataset_of, partition_key_of}
use agentic_cloud_pipeline_g.Gate.{
  projected_marginal_cost, prior_of, has_prior_version, build_context, query_opa, decode_rest,
  decode_decision, decide_reply, evaluate,
}

-- The world is the one that was there before.
abbrev pub Same : World → World → Type 0
Same w v = v ≡ w

module _ (e : Env) (w : World) where
  int_param-Same : (key : String) (n : ℕ) (m : Params) → Preserves (Same w) (int_param e key n m)
  unfolding int_param
  int_param-Same key n m = record { at = λ v h. ground arith }

  text_param-Same : (key s : String) (m : Params) → Preserves (Same w) (text_param e key s m)
  unfolding text_param
  text_param-Same key s m = record { at = λ v h. ground arith }

  prior_of-Same : (a : ProposedAction) → Preserves (Same w) (prior_of e a)
  unfolding prior_of dataset_of partition_key_of
  prior_of-Same a = search (preserves_rules, text_param-Same)

  cost-Same : (a : ProposedAction) (n : ℕ) → Preserves (Same w) (projected_marginal_cost e a n)
  unfolding projected_marginal_cost
  cost-Same a n = go a.action_type
    where
      go :
          (t : ActionType)
          → Preserves (Same w) (projected_marginal_cost e (record a { action_type = t }) n)
      go Contracts.scale_workers = search (preserves_rules, int_param-Same)
      go Contracts.adjust_pool_slots = search (preserves_rules, int_param-Same)
      go _ = search preserves_rules

  has_prior_version-Same : (a : ProposedAction) → Preserves (Same w) (has_prior_version e a)
  unfolding has_prior_version
  has_prior_version-Same a = go a.action_type
    where
      go :
          (t : ActionType) → Preserves (Same w) (has_prior_version e (record a { action_type = t }))
      go Contracts.rollback = prior_of-Same (record a { action_type = Contracts.rollback })
      go _ = search preserves_rules

  pub build_context-Same :
      (a : ProposedAction) (run : String) (n : ℕ) (c : SchemaCompat)
      → Preserves (Same w) (build_context e a run n c)
  unfolding build_context
  build_context-Same a run n c = search (preserves_rules, cost-Same, has_prior_version-Same)

  decode_decision-Same : (r : Json) → Preserves (Same w) (decode_decision e r)
  unfolding decode_decision decode_rest
  decode_decision-Same r = record { at = λ v h. ground (arith, h) }

  decide_reply-Same : (o : Reply) → Preserves (Same w) (decide_reply e o)
  unfolding decide_reply
  decide_reply-Same unavailable = record { at = λ v h. h }
  decide_reply-Same undecodable = record { at = λ v h. h }
  decide_reply-Same (answer r) = record {
    at = λ v h. ground (arith, (decode_decision-Same r).at v h);
  }

  pub evaluate-Same : (i : PolicyInput) → Preserves (Same w) (evaluate e i)
  unfolding evaluate
  evaluate-Same i = record { at = λ v h. (decide_reply-Same (query_opa e v.now i)).at v h }

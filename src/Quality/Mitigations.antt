-- ===== src/Quality/Mitigations.antt =====
-- The sets of acceptable actions and the agents' own.
use agentic_cloud_pipeline_g.Prelude.{◌≡◌, [], ◌∷◌, arith}
use agentic_cloud_pipeline_g.Contracts.{ActionType, optimization, schema, recovery}
use agentic_cloud_pipeline_g.Agents.{is_resolving}
use agentic_cloud_pipeline_g.Quality.{is_correct_live}

-- For a fault that is high load, a breaking schema or a failed task, an action is scored as a correct
-- one exactly when the agent that deals with such faults counts it as resolving them.
pub is_correct_live-is_resolving :
    (t : ActionType)
    → (is_correct_live "cpu_high" (t ∷ []) ≡ is_resolving optimization t)
      × (is_correct_live "schema_breaking" (t ∷ []) ≡ is_resolving schema t)
      × (is_correct_live "task_failed" (t ∷ []) ≡ is_resolving recovery t)
unfolding is_correct_live is_resolving
is_correct_live-is_resolving t = (ground arith, ground arith, ground arith)

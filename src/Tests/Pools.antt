-- ===== src/Tests/Pools.antt =====
-- The worker pool and the simulated operators at concrete data.
use agentic_cloud_pipeline_g.Prelude.{◌+◌, ◌≡◌, refl, [], ◌∷◌}
use agentic_cloud_pipeline_g.Workers.{WorkerPool, resize, run_simulator}
use agentic_cloud_pipeline_g.Workers.Operators.{fresh_rows, served_rows, run_simulator-served_rows}

abbrev pool : WorkerPool
pool = record { lo = 1; hi = 4; workers = 2 ∷ 5 ∷ []; next_index = 6 }

pool_runs : (resize 9 pool).1.workers ≡ 2 ∷ 5 ∷ 6 ∷ 7 ∷ []
unfolding resize
pool_runs = refl

run_simulator-served_rows_example :
    run_simulator (λ i. i + 10) "r" (20 ∷ 40 ∷ []) (fresh_rows "r" ((1, 5) ∷ (2, 35) ∷ []))
    ≡ served_rows (λ i. i + 10) "r" (20 ∷ 40 ∷ []) ((1, 5) ∷ (2, 35) ∷ [])
run_simulator-served_rows_example =
    run_simulator-served_rows (λ i. i + 10) "r" 20 (40 ∷ []) ((1, 5) ∷ (2, 35) ∷ [])

-- ===== src/Tests/Streams.antt =====
-- The windows and the consumer at concrete data: a late event reopens the window that was flushed.
use agentic_cloud_pipeline_g.Prelude.{
  ℕ, ◌+◌, ◌≤◌, String, ◌≡◌, refl, Option, none, some, List, [], ◌∷◌, count, map, arith,
}
use agentic_cloud_pipeline_g.Prelude.Sorting.{total, sort_by}
use agentic_cloud_pipeline_g.Windows.{StreamEvent, Op, arrived, advanced, window_start, add, flush}
use agentic_cloud_pipeline_g.Consumer.{
  Aggregate, SessionConfig, Step, took, woke, upsert, write, run_session, conflicts, steps_of, stop,
  work, flush_done,
}
use agentic_cloud_pipeline_g.Consumer.Stored.{in_row, row_at}
use agentic_cloud_pipeline_g.Consumer.InTime.{run_session-stored}

abbrev ride : ℕ → ℕ → StreamEvent ℕ
ride t fare = record { key = "zone"; event_ts = t; value = fare }

abbrev sum : ℕ → ℕ → ℕ
sum x y = x + y

abbrev stream : List (Op ℕ)
stream =
    arrived (ride 1000000 7)
    ∷ arrived (ride 61000000 8)
    ∷ advanced 60000000
    ∷ arrived (ride 2000000 9)
    ∷ []

abbrev session : Option String → SessionConfig ℕ
session run = record {
  pipeline_id = "stream";
  experiment_run = run;
  width = 60;
  zero = 0;
  plus = sum;
  rounded = λ x. x;
}

-- Two rides of the first minute and one of the third, which ends the first.
abbrev in_time : List (Step ℕ)
in_time =
    took (ride 1000000 7) ∷ took (ride 2000000 9) ∷ took (ride 121000000 8) ∷ woke 122000000 ∷ []

run_session-stored_example :
    (total
        (in_row (session (some "run")) "run" "zone" 0)
        (run_session (session (some "run")) in_time 130000000 [])
      ≡ 2)
    × (count
          (row_at (session (some "run")) "run" "zone" 0)
          (run_session (session (some "run")) in_time 130000000 [])
        ≤ 1)
unfolding window_start
run_session-stored_example =
    run_session-stored (session (some "run")) "run" refl in_time 130000000 []
      (λ h. h, (λ h. ground (arith, h), (λ h. ground (arith, h), tt))) (λ k t. refl) "zone" 0

-- The second ride of the first minute is late: its window has been written.
abbrev late : List (Step ℕ)
late = took (ride 1000000 7) ∷ took (ride 121000000 8) ∷ woke 122000000 ∷ took (ride 2000000 9) ∷ []

abbrev counts : List (Aggregate ℕ) → List ℕ
counts = map λ r. r.event_count

-- The row of the window counts the late event alone: the first is lost.
late_overwrites : counts (run_session (session (some "run")) late 130000000 []) ≡ 1 ∷ 1 ∷ []
unfolding run_session steps_of stop work flush_done write upsert conflicts window_start add flush
    sort_by
late_overwrites = refl

-- A session without a run has a second row for the window.
late_repeats : counts (run_session (session none) late 130000000 []) ≡ 1 ∷ 1 ∷ 1 ∷ []
unfolding run_session steps_of stop work flush_done write upsert conflicts window_start add flush
    sort_by
late_repeats = refl

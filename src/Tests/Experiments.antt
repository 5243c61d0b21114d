-- ===== src/Tests/Experiments.antt =====
-- The runner of the experiment at concrete data: a profile of two runs, of which one has been killed
-- once before.
use agentic_cloud_pipeline_g.Prelude.{
  ℕ, ◌+◌, ◌*◌, ◌≤◌, String, ◌≡◌, refl, ap, false, Option, none, some, List, [], ◌∷◌, length, arith,
  eq_iff, All, true,
}
use agentic_cloud_pipeline_g.Prelude.Dict.{Dict, lookup, insert}
use agentic_cloud_pipeline_g.Contracts.{block_ingestion}
use agentic_cloud_pipeline_g.World.{World}
use agentic_cloud_pipeline_g.Exec.{ok}
use agentic_cloud_pipeline_g.Executor.{execute}
use agentic_cloud_pipeline_g.Agents.Detection.{observe, detect_anomalies}
use agentic_cloud_pipeline_g.Isolation.{reset_desired_state, reset_run, reset_run_state}
use agentic_cloud_pipeline_g.Isolation.Undone.{reset_desired_state-execute}
use agentic_cloud_pipeline_g.Isolation.Telemetry.{reset_run-detected}
use agentic_cloud_pipeline_g.Campaign.Runs.{Run, run_id_for}
use agentic_cloud_pipeline_g.Runner.{
  ResultsDir, Invocation, Conditions, metric_rows, record_of, drop_run_rows, write_rows, todo_of,
  limited, run_one, run_profile, is_listed, id_of, Ran, persist, append_manifest,
}
use agentic_cloud_pipeline_g.Runner.Recorded.{rewritten}
use agentic_cloud_pipeline_g.Runner.Resumed.{
  unlisted, finished, Reach, fresh, again, HasWholeRuns, Reach-HasWholeRuns,
}
use agentic_cloud_pipeline_g.Runner.Complete.{run_profile_complete}
use agentic_cloud_pipeline_g.Runner.Calls.{IsDistinct, run_profile-HasWholeRuns}
use agentic_cloud_pipeline_g.Campaign.{CampaignConfig, Supervisor, Terminal, run_campaign}
use agentic_cloud_pipeline_g.Campaign.Ends.{load}
use agentic_cloud_pipeline_g.Runner.Supervised.{Site, Surroundings, effects, run_campaign_of_runner}
use agentic_cloud_pipeline_g.Tests.Samples.{allow, env, world, action}

abbrev blocked : World
blocked = (execute (env "autonomous") (action block_ingestion) allow "run" world).1

reset_desired_state-execute_example : (reset_desired_state blocked).desired_state ≡ []
unfolding reset_desired_state
reset_desired_state-execute_example =
    reset_desired_state-execute (env "autonomous") (action block_ingestion) allow "run" world

-- The run has an open fault and a failed task before the reset.
reset_run-detected_example :
    (detect_anomalies (env "shadow") (observe "run" (reset_run "run" world)) ≡ [])
    × (observe "next" (reset_run "run" world) ≡ observe "next" world)
reset_run-detected_example =
    reset_run-detected (env "shadow") "run" "next" world (ground (arith, eq_iff "run" "next"))

abbrev drift : String → Run
drift config = record { config = config; scenario = "drift"; replicate = 0 }

abbrev both : List Run
both = drift "baseline" ∷ drift "full" ∷ []

abbrev metrics : Dict ℕ
metrics = ("mttr_s", 4) ∷ ("wall_clock_s", 9) ∷ []

abbrev conditions : Conditions ℕ
conditions = record {
  env = env "shadow";
  decimal = λ n. "0";
  shown = λ n. "1.0";
  one = 1;
  zero = 0;
  mock_llm = false;
  digest = λ s. 5;
  pools = [];
  conduct = λ profile r seed w. (ok metrics, w);
  runs = λ profile. some both;
}

abbrev empty : ResultsDir ℕ
empty = record { raw = none; manifest = []; actions = []; events = [] }

-- The run of "full" is killed when it has written the first of its rows.
abbrev killed : ResultsDir ℕ
killed = record empty {
  raw =
      rewritten conditions (drift "full") 5 none
        (("full__drift__r0" ∷ "full" ∷ "drift" ∷ "0" ∷ "0" ∷ "mttr_s" ∷ "1.0" ∷ []) ∷ []);
}

killed-Reach : Reach conditions killed
unfolding run_id_for metric_rows
killed-Reach =
    again empty killed (drift "full") (fresh empty refl refl) refl (unlisted 1 5 metrics refl refl)

abbrev resumed : ResultsDir ℕ
resumed = record killed {
  raw =
      rewritten conditions (drift "full") 5 killed.raw
        (metric_rows conditions (drift "full") 5 metrics);
  manifest = record_of conditions (drift "full") 5 4 9 ∷ [];
}

Reach-HasWholeRuns_example : HasWholeRuns conditions resumed
unfolding lookup
Reach-HasWholeRuns_example =
    Reach-HasWholeRuns conditions resumed (
      again killed resumed (drift "full") killed-Reach refl (finished 5 metrics 4 9 refl refl refl))

both-AreDistinct : IsDistinct conditions both
unfolding run_id_for
both-AreDistinct = ((ground (arith, eq_iff "full__drift__r0" "baseline__drift__r0"), tt), (tt, tt))

abbrev request : Option ℕ → Invocation
request most = record { profile = "smoke"; configs = none; max_runs = most }

run_profile-HasWholeRuns_example :
    HasWholeRuns conditions (run_profile conditions (request none) killed world).0.1
run_profile-HasWholeRuns_example =
    run_profile-HasWholeRuns conditions (request none) killed world both-AreDistinct killed-Reach

-- A call that may do one run does one of the two that are left.
abbrev called : Ran conditions
called = run_profile conditions (request (some 1)) killed world

called_ok : called.0.0 ≡ ok 1
unfolding run_profile run_one persist append_manifest todo_of reset_run_state lookup insert
called_ok = refl

run_profile_complete_example :
    (1 ≡ length (limited conditions (some 1) (todo_of conditions none both killed)))
    × All
        (λ r. is_listed conditions (id_of conditions r) called.0.1 ≡ true)
        (limited conditions (some 1) (todo_of conditions none both killed))
    × (length (todo_of conditions none both called.0.1) + 1
        ≤ length (todo_of conditions none both killed))
run_profile_complete_example =
    run_profile_complete conditions (request (some 1)) both killed called.0.1 world called.1 1 refl
      (ap (λ r. ((r, called.0.1), called.1)) called_ok)

-- A campaign of one arm on a sound system, whose directory does not exist yet.
abbrev smoke : CampaignConfig
smoke = record {
  arms =
      record {
        name = "smoke";
        results_dir = "out";
        configs = "full" ∷ [];
        live = false;
        profile = "smoke";
      }
      ∷ [];
  max_tokens = none;
  max_consecutive_failures = 2;
  failure_backoff = 1;
  health_retry = 1;
  health_max_wait = 1;
  degraded_threshold = 10;
  degraded_pause_after = 3;
  degraded_abort_after = 6;
  degraded_pause = 1;
  interleave = false;
}

abbrev surroundings : Surroundings ℕ
surroundings = record {
  stop_exists = λ w. false;
  code_changed = λ w. false;
  health = λ w. ([], w);
  sleep = λ n w. w;
  metrics = λ d. [];
}

abbrev site : Site ℕ
site = record { world = world; dirs = [] }

run_campaign_of_runner_example :
    (t : Terminal) × (z : Supervisor (Site ℕ)) × (run_campaign smoke
        (effects conditions surroundings)
        2
        (load smoke (effects conditions surroundings) site * 3 + 2 + 1)
        site
      ≡ some (t, z))
run_campaign_of_runner_example =
    run_campaign_of_runner conditions surroundings smoke site (omega arith)

-- A process that is killed when it has created the file and written nothing leaves no header. The
-- first row of the next run then stands in its place, and a second attempt at the run keeps it.
header_lost :
    write_rows conditions
      (drift "full")
      5
      metrics
      (write_rows conditions (drift "full") 5 metrics (some []))
    ≡ some (
        ("full__drift__r0" ∷ "full" ∷ "drift" ∷ "0" ∷ "0" ∷ "mttr_s" ∷ "1.0" ∷ [])
        ∷ metric_rows conditions (drift "full") 5 metrics)
unfolding write_rows metric_rows drop_run_rows run_id_for
header_lost = refl

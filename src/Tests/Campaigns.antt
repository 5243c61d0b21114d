-- ===== src/Tests/Campaigns.antt =====
-- A campaign at concrete data: one live arm with one run, which an invocation does.
use agentic_cloud_pipeline_g.Prelude.{
  ◌+◌, ◌≤◌, ◌<◌, Bool, ◌≡◌, refl, true, false, some, [], ◌∷◌, arith, if◌then◌else◌, length,
}
use agentic_cloud_pipeline_g.Campaign.Runs.{Arm, Disk, is_remaining, total_tokens}
use agentic_cloud_pipeline_g.Campaign.{
  CampaignConfig, Effects, Supervisor, Terminal, complete, ended, running, run_done, remaining,
  run_campaign,
}
use agentic_cloud_pipeline_g.Campaign.Ends.{KeepsResults, run_campaign-returns}
use agentic_cloud_pipeline_g.Campaign.Done.{IsDone, run_campaign-complete}
use agentic_cloud_pipeline_g.Campaign.Tokens.{SpendsAtMost, spent, run_campaign-spent}

abbrev arm : Arm
arm = record {
  name = "smoke";
  results_dir = "out";
  configs = "full" ∷ [];
  live = true;
  profile = "smoke";
}

abbrev config : CampaignConfig
config = record {
  arms = arm ∷ [];
  max_tokens = some 3;
  max_consecutive_failures = 2;
  failure_backoff = 1;
  health_retry = 1;
  health_max_wait = 1;
  degraded_threshold = 10;
  degraded_pause_after = 3;
  degraded_abort_after = 6;
  degraded_pause = 1;
  interleave = false;
}

-- The world is whether the run is done; it spent 5 tokens.
abbrev disk : Bool → Disk
disk false = record { manifests = []; raw = [] }
disk true = record {
  manifests = ("out", "full__drift__r0" ∷ []) ∷ [];
  raw = ("out", record { run_id = "full__drift__r0"; metric = "api_tokens"; value = 5 } ∷ []) ∷ [];
}

abbrev effects : Effects Bool
effects = record {
  disk = disk;
  stop_exists = λ w. false;
  code_changed = λ w. false;
  health = λ w. ([], w);
  sleep = λ n w. w;
  invoke = λ a w. (0, if a.live then true else w);
  decimal = λ n. "0";
  runs = λ profile. record { config = "full"; scenario = "drift"; replicate = 0 } ∷ [];
}

-- A world that is done has no more runs left than another.
fewer :
    (b : Arm) (w : Bool)
    → length (remaining config effects b true) ≤ length (remaining config effects b w)
unfolding remaining is_remaining
fewer b true = omega arith
fewer b false = ground arith

kept :
    (live w : Bool) (b : Arm)
    → length (remaining config effects b (if live then true else w))
      ≤ length (remaining config effects b w)
kept true w b = fewer b w
kept false w b = omega arith

within :
    (live w : Bool)
    → spent config effects (if live then true else w)
      ≤ spent config effects w + (if live then 5 else 0)
unfolding total_tokens
within true true = omega arith
within true false = omega arith
within false w = omega arith

keeps : KeepsResults config effects
unfolding remaining
keeps = record {
  on_health = λ a w. refl;
  on_sleep = λ a n w. refl;
  on_invoke = λ a b w. kept a.live w b;
}

spends : SpendsAtMost config effects 5
unfolding total_tokens
spends = record {
  on_health = λ w. refl;
  on_sleep = λ n w. refl;
  on_invoke = λ a w. within a.live w;
}

run_campaign-returns_example :
    (t : Terminal) × (s : Supervisor Bool) × (run_campaign config effects 2 6 false ≡ some (t, s))
unfolding remaining
run_campaign-returns_example = run_campaign-returns config effects false keeps (omega arith)

abbrev end : Supervisor Bool
end = record {
  failures = 0;
  degraded_streak = 0;
  world = true;
  emitted = ended complete ∷ run_done ∷ running ∷ [];
}

campaign_runs : run_campaign config effects 2 6 false ≡ some (complete, end)
unfolding run_campaign
campaign_runs = refl

run_campaign-complete_example : IsDone config effects true
run_campaign-complete_example = run_campaign-complete config effects 2 6 false end campaign_runs

run_campaign-spent_example : spent config effects true < 8
unfolding total_tokens
run_campaign-spent_example =
    run_campaign-spent config effects 5 spends 3 refl 2 6 false complete end (omega arith)
      campaign_runs

-- ===== src/Runner/Attempts.antt =====
-- What a run of the runner does to the results directory is an attempt at the run.
use agentic_cloud_pipeline_g.Prelude.{
  ℕ, String, ◌≡◌, refl, ap, Bool, Option, none, some, [], ◌∷◌, ◌++◌, take-length, length,
}
use agentic_cloud_pipeline_g.Prelude.Dict.{Dict, lookup}
use agentic_cloud_pipeline_g.World.{World}
use agentic_cloud_pipeline_g.Exec.{Result, ok, raised}
use agentic_cloud_pipeline_g.Campaign.Runs.{Run}
use agentic_cloud_pipeline_g.Runner.{
  ResultsDir, Conditions, metric_rows, record_of, write_rows, append_manifest, export_actions,
  appended, listed, persist, harvested, conducted, run_one,
}
use agentic_cloud_pipeline_g.Runner.Recorded.{rewritten}
use agentic_cloud_pipeline_g.Runner.Resumed.{Attempt, unwritten, unlisted, finished}

module _ {V : Type 0} (c : Conditions V) where
  appended-Attempt :
      (r : Run) (seed : ℕ) (m : Dict V) (d d' : ResultsDir V) (mttr wall : Option V)
      → lookup "mttr_s" m ≡ mttr
      → d'.raw ≡ rewritten c r seed d.raw (metric_rows c r seed m)
      → d'.manifest ≡ d.manifest
      → Attempt c r d (listed c d' m (appended c r seed mttr wall d'.manifest)).1
  appended-Attempt r seed m d d' (some mttr) (some wall) t e1 e2 =
      finished seed m mttr wall t e1 (ap (λ l. l ++ record_of c r seed mttr wall ∷ []) e2)
  appended-Attempt r seed m d d' none wall t e1 e2 =
      unlisted (length (metric_rows c r seed m)) seed m
        (rw (take-length (metric_rows c r seed m)) e1) e2
  appended-Attempt r seed m d d' (some mttr) none t e1 e2 =
      unlisted (length (metric_rows c r seed m)) seed m
        (rw (take-length (metric_rows c r seed m)) e1) e2

  persist-Attempt :
      (r : Run) (seed : ℕ) (m : Dict V) (w : World) (d : ResultsDir V)
      → Attempt c r d (persist c r seed m w d).1
  unfolding persist append_manifest export_actions write_rows
  persist-Attempt r seed m w d = appended-Attempt r seed m d _ _ _ refl refl refl

  harvested-Attempt :
      (r : Run) (seed : ℕ) (reset : Bool) (d : ResultsDir V) (o : Result (Dict V) × World)
      → Attempt c r d (harvested c r seed reset d o).0.1
  harvested-Attempt r seed reset d (raised x, w) = unwritten refl refl
  harvested-Attempt r seed reset d (ok m, w) = persist-Attempt r seed _ w d

  conducted-Attempt :
      (profile : String) (r : Run) (seed : ℕ) (d : ResultsDir V) (o : Result Bool × World)
      → Attempt c r d (conducted c profile r seed d o).0.1
  conducted-Attempt profile r seed d (raised x, w) = unwritten refl refl
  conducted-Attempt profile r seed d (ok reset, w) =
      harvested-Attempt r seed reset d (c.conduct profile r seed w)

  pub run_one-Attempt :
      (profile : String) (paired : Bool) (r : Run) (d : ResultsDir V) (w : World)
      → Attempt c r d (run_one c profile paired r d w).0.1
  unfolding run_one
  run_one-Attempt profile paired r d w = conducted-Attempt profile r _ d _

-- ===== src/Runner/Supervised.antt =====
-- The campaign of Campaign with the runner as the child process that an arm's invocation starts, as
-- `spawn_runner` of src/acde/experiments/campaign.py starts it: one run at most, of the arm's
-- configurations, into the arm's directory. A child that is killed at its timeout is left out.
use agentic_cloud_pipeline_g.Prelude.{
  ℕ, suc, ◌+◌, ◌*◌, ◌≤◌, ◌<◌, String, ◌≡◌, refl, sym, Bool, true, not, Option, none, some, List, [],
  ◌∷◌, map, any, str_eq, if◌then◌else◌, select, length, length-select-le, select-within, either_way,
  arith, eq_iff,
}
use mathlib.Core.Path.{subst}
use agentic_cloud_pipeline_g.Prelude.Dict.{Dict, lookup, insert, lookup-insert}
use agentic_cloud_pipeline_g.World.{World}
use agentic_cloud_pipeline_g.Exec.{Result, ok, raised}
use agentic_cloud_pipeline_g.Campaign.Runs.{
  Run, Arm, Disk, MetricRow, run_id_for, load_completed, is_remaining, remaining_runs,
}
use agentic_cloud_pipeline_g.Campaign.{
  CampaignConfig, Effects, Supervisor, Terminal, remaining, run_campaign,
}
use agentic_cloud_pipeline_g.Campaign.Ends.{KeepsResults, load, run_campaign-returns}
use agentic_cloud_pipeline_g.Runner.{ResultsDir, Invocation, Conditions, completed, run_profile}
use agentic_cloud_pipeline_g.Runner.Complete.{Keeps, run_profile-Keeps}

-- The system, and the results directories by their paths.
pub record Site (V : Type 0) : Type 0 where
  pub world : World
  pub dirs : Dict (ResultsDir V)

-- What the supervisor sees of the system: the stop file, changed code, the health, and the passing of
-- time; and the metrics of a raw.csv, as the supervisor reads them.
pub record Surroundings (V : Type 0) : Type 0 where
  pub stop_exists : World → Bool
  pub code_changed : World → Bool
  pub health : World → List String × World
  pub sleep : ℕ → World → World
  pub metrics : ResultsDir V → List MetricRow

abbrev rc_of : Result ℕ → ℕ
rc_of (ok n) = 0
rc_of (raised x) = 1

abbrev all_runs : Option (List Run) → List Run
all_runs none = []
all_runs (some runs) = runs

module _ {V : Type 0} (c : Conditions V) (u : Surroundings V) where
  abbrev pub empty_dir : ResultsDir V
  empty_dir = record { raw = none; manifest = []; actions = []; events = [] }

  abbrev pub dir_at : String → Dict (ResultsDir V) → ResultsDir V
  dir_at path dirs = elim (lookup path dirs) [ none ↦ empty_dir | some d ↦ d ]

  abbrev manifest_of : String × ResultsDir V → String × List String
  manifest_of (path, d) = (path, completed c d.manifest)

  abbrev raw_of : String × ResultsDir V → String × List MetricRow
  raw_of (path, d) = (path, u.metrics d)

  unfoldable pub disk_of : Dict (ResultsDir V) → Disk
  disk_of dirs = record { manifests = map manifest_of dirs; raw = map raw_of dirs }

  -- The model is a mock unless the arm is live.
  abbrev pub for_arm : Arm → Conditions V
  for_arm a = record c { mock_llm = not a.live }

  abbrev pub invocation : Arm → Invocation
  invocation a = record { profile = a.profile; configs = some a.configs; max_runs = some 1 }

  unfoldable pub invoke_runner : Arm → Site V → ℕ × Site V
  unfolding run_profile
  invoke_runner a s =
      let ((result, d), w) =
        run_profile (for_arm a) (invocation a) (dir_at a.results_dir s.dirs) s.world in
      (rc_of result, record { world = w; dirs = insert a.results_dir d s.dirs })

  abbrev at_world : (World → World) → Site V → Site V
  at_world f s = record s { world = f s.world }

  abbrev pub effects : Effects (Site V)
  effects = record {
    disk = λ s. disk_of s.dirs;
    stop_exists = λ s. u.stop_exists s.world;
    code_changed = λ s. u.code_changed s.world;
    health = λ s. ((u.health s.world).0, record s { world = (u.health s.world).1 });
    sleep = λ n. at_world (u.sleep n);
    invoke = invoke_runner;
    decimal = c.decimal;
    runs = λ profile. all_runs (c.runs profile);
  }

  -- The manifest that the supervisor reads is that of the directory.
  load_completed_lem :
      (path : String) (dirs : Dict (ResultsDir V))
      → load_completed c.decimal (disk_of dirs) path ≡ completed c (dir_at path dirs).manifest
  unfolding load_completed disk_of lookup
  load_completed_lem path [] = refl
  load_completed_lem path ((at, d) ∷ dirs) = ground (arith, load_completed_lem path dirs)

  -- A directory only gets more runs listed.
  abbrev Grows : Dict (ResultsDir V) → Dict (ResultsDir V) → Type 0
  Grows dirs dirs' =
      (path id : String)
      → any (str_eq id) (load_completed c.decimal (disk_of dirs) path) ≡ true
      → any (str_eq id) (load_completed c.decimal (disk_of dirs') path) ≡ true

  dir_at-insert :
      (path at : String) (d : ResultsDir V) (dirs : Dict (ResultsDir V))
      → dir_at at (insert path d dirs) ≡ (if str_eq path at then d else dir_at at dirs)
  dir_at-insert path at d dirs = ground (arith, lookup-insert path at d dirs)

  insert-Grows :
      (path : String) (d : ResultsDir V) (dirs : Dict (ResultsDir V))
      → Keeps c (dir_at path dirs) d
      → Grows dirs (insert path d dirs)
  insert-Grows path d dirs k at id h =
      let lists : ResultsDir V → Type 0 = λ x. any (str_eq id) (completed c x.manifest) ≡ true in
      let before : lists (dir_at at dirs) =
        subst (λ ids. any (str_eq id) ids ≡ true) (load_completed_lem at dirs) h in
      subst (λ ids. any (str_eq id) ids ≡ true) (sym (load_completed_lem at (insert path d dirs)))
        (subst lists (sym (dir_at-insert path at d dirs)) (
          either_way lists (str_eq path at) d (dir_at at dirs)
            (λ e.
              k id (
                subst (λ p. lists (dir_at p dirs)) (sym (ground (arith, e, eq_iff path at)))
                  before))
            (λ e. before)))

  remaining-Grows :
      (g : CampaignConfig) (b : Arm) (s s' : Site V)
      → Grows s.dirs s'.dirs
      → length (remaining g effects b s') ≤ length (remaining g effects b s)
  unfolding remaining remaining_runs is_remaining
  remaining-Grows g b s s' k =
      let p : Run → Bool = is_remaining c.decimal (disk_of s'.dirs) b in
      let q : Run → Bool = is_remaining c.decimal (disk_of s.dirs) b in
      let runs = all_runs (c.runs b.profile) in
      subst (λ xs. length xs ≤ length (select q runs))
        (select-within p q (λ r h. ground (arith, h, k b.results_dir (run_id_for c.decimal r)))
          runs)
        (length-select-le p (select q runs))

  invoke-Grows : (a : Arm) (s : Site V) → Grows s.dirs (invoke_runner a s).1.dirs
  unfolding invoke_runner
  invoke-Grows a s =
      insert-Grows a.results_dir _ s.dirs
        (run_profile-Keeps (for_arm a) (invocation a) (dir_at a.results_dir s.dirs) s.world)

  effects-KeepsResults : (g : CampaignConfig) → KeepsResults g effects
  unfolding remaining
  effects-KeepsResults g = record {
    on_health = λ a s. refl;
    on_sleep = λ a n s. refl;
    on_invoke = λ a b s. remaining-Grows g b s (invoke_runner a s).1 (invoke-Grows a s);
  }

  -- A campaign whose arms invoke the runner comes to a terminal state, whatever the system, the model
  -- and the supervisor's surroundings do, if it pauses between two checks of the health: no call of
  -- the runner takes back a run that the manifest of an arm lists.
  pub run_campaign_of_runner :
      (g : CampaignConfig) (s : Site V)
      → 0 < g.health_retry
      → (t : Terminal) × (z : Supervisor (Site V)) × (run_campaign g effects
            (g.health_max_wait + 1)
            (load g effects s * suc g.max_consecutive_failures + g.max_consecutive_failures + 1)
            s
          ≡ some (t, z))
  run_campaign_of_runner g s h = run_campaign-returns g effects s (effects-KeepsResults g) h

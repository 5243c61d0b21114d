-- ===== src/Campaign/Runs.antt =====
-- The matrix of the experiment's runs, and what is left of it: `Run`, `_matrix` and `PROFILES` of
-- src/acde/experiments/configs.py, `run_id_for`, `load_completed` and `remaining_runs` of
-- src/acde/experiments/runner.py, and the arms and the readings of src/acde/experiments/campaign.py.
-- The pseudo-random shuffle, the decimal text of a number and the configured seed are parameters.
use Prim.Native.String.{◌++◌ as ◌<>◌}
use agentic_cloud_pipeline_g.Prelude.{
  ℕ, zero, suc, ◌+◌, String, Bool, true, false, not, ◌&&◌, ◌||◌, Option, none, some, List, [], ◌∷◌,
  ◌++◌, map, str_eq, if◌then◌else◌, select, any,
}
use agentic_cloud_pipeline_g.Prelude.Dict.{Dict, lookup}
use agentic_cloud_pipeline_g.Prelude.Sorting.{total}

pub record Run : Type 0 where
  pub config : String
  pub scenario : String
  pub replicate : ℕ

abbrev pub single_ablations : List String
single_ablations = "monitor_only" ∷ "recovery_only" ∷ "optimization_only" ∷ "schema_only" ∷ []

abbrev pub baseline_configs : List String
baseline_configs = "baseline" ∷ "rule_based" ∷ "autoscale" ∷ []

abbrev pub all_configs : List String
all_configs = baseline_configs ++ single_ablations ++ "full" ∷ "hybrid" ∷ []

abbrev pub scenarios : List String
scenarios = "schema_drift" ∷ "upstream_delay" ∷ "resource_contention" ∷ "ingress_burst" ∷ []

-- `range(n)`, from `i`.
abbrev range : ℕ → ℕ → List ℕ
range i zero = []
range i (suc n) = i ∷ range (i + 1) n

abbrev flat_map : {A B : Type 0} → (A → List B) → List A → List B
flat_map f [] = []
flat_map f (x ∷ xs) = f x ++ flat_map f xs

unfoldable pub matrix : List String → ℕ → List Run
matrix configs n =
    flat_map
      (λ config.
        flat_map
          (λ scenario.
            map (λ r. record { config = config; scenario = scenario; replicate = r }) (range 0 n))
          scenarios)
      configs

-- One arm of the campaign: its results, the configurations it runs, and whether it calls a model.
pub record Arm : Type 0 where
  pub name : String
  pub results_dir : String
  pub configs : List String
  pub live : Bool
  pub profile : String

unfoldable pub arms_for : String → String → List Arm
arms_for profile root =
    let v2 = str_eq profile "paper_v2" in
    let prefix = if v2 then "paper-v2" else "paper" in
    let arm_profile = if v2 then "paper_v2" else "paper" in
    let single : Bool → List Arm = λ live.
      record {
        name = profile;
        results_dir = root <> "/" <> profile;
        configs = all_configs;
        live = live;
        profile = profile;
      }
      ∷ [] in
    if str_eq profile "pilot" || str_eq profile "pilot2"
    then single true
    else (if str_eq profile "smoke"
        then single false
        else (record {
          name = "live-agents";
          results_dir = root <> "/" <> prefix <> "-live";
          configs = "full" ∷ "hybrid" ∷ single_ablations;
          live = true;
          profile = arm_profile;
        }
            ∷ record {
              name = "baselines";
              results_dir = root <> "/" <> prefix <> "-baselines";
              configs = baseline_configs;
              live = false;
              profile = arm_profile;
            }
            ∷ record {
              name = "mock-full";
              results_dir = root <> "/" <> prefix <> "-mock";
              configs = "full" ∷ [];
              live = false;
              profile = arm_profile;
            }
            ∷ []))

-- A row of an arm's raw.csv, and what the arms have on disk: the ids in each manifest and the rows of
-- each raw.csv, by the arm's directory.
pub record MetricRow : Type 0 where
  pub run_id : String
  pub metric : String
  pub value : ℕ

pub record Disk : Type 0 where
  pub manifests : Dict (List String)
  pub raw : Dict (List MetricRow)

-- `none` is the error on an unknown profile. The code below takes the runs of the arms' profiles, for
-- which there is none, as a function `runs`.
unfoldable pub profile_runs : (List Run → List Run) → String → Option (List Run)
unfolding matrix
profile_runs interleaved profile =
    let at : String → String → ℕ → Run =
      λ c s r. record { config = c; scenario = s; replicate = r } in
    let pilots : List String → List String → ℕ → List Run = λ configs scenarios n.
      flat_map (λ c. flat_map (λ s. map (at c s) (range 0 n)) scenarios) configs in
    if str_eq profile "smoke"
    then some (at "baseline" "upstream_delay" 0 ∷ at "full" "upstream_delay" 0 ∷ [])
    else (if str_eq profile "quick"
        then some (matrix all_configs 3)
        else (if str_eq profile "paper"
            then some (matrix (baseline_configs ++ "full" ∷ []) 20 ++ matrix single_ablations 10)
            else (if str_eq profile "paper_v2"
                then some (interleaved (matrix all_configs 20))
                else (if str_eq profile "pilot"
                    then some (
                        pilots ("full" ∷ "recovery_only" ∷ [])
                          ("schema_drift" ∷ "resource_contention" ∷ []) 2)
                    else (if str_eq profile "pilot2"
                        then some (
                            pilots
                              ("full" ∷ "recovery_only" ∷ "optimization_only" ∷ "schema_only"
                                ∷ "monitor_only" ∷ [])
                              ("upstream_delay" ∷ "ingress_burst" ∷ []) 1)
                        else none)))))

module _ (decimal : ℕ → String) where
  unfoldable pub run_id_for : Run → String
  run_id_for r = r.config <> "__" <> r.scenario <> "__r" <> decimal r.replicate

  unfoldable pub load_completed : Disk → String → List String
  unfolding lookup
  load_completed disk dir = elim (lookup dir disk.manifests) [ none ↦ [] | some ids ↦ ids ]

  unfoldable pub is_remaining : Disk → Arm → Run → Bool
  unfolding run_id_for load_completed
  is_remaining disk arm r =
      not (any (str_eq (run_id_for r)) (load_completed disk arm.results_dir))
      && any (str_eq r.config) arm.configs

  unfoldable pub remaining_runs : (String → List Run) → Disk → Arm → List Run
  unfolding is_remaining
  remaining_runs runs disk arm = select (is_remaining disk arm) (runs arm.profile)

abbrev raw_of : Disk → Arm → List MetricRow
raw_of disk arm = elim (lookup arm.results_dir disk.raw) [ none ↦ [] | some rows ↦ rows ]

abbrev tokens_of : MetricRow → ℕ
tokens_of r = if str_eq r.metric "api_tokens" then r.value else 0

unfoldable pub total_tokens : Disk → List Arm → ℕ
unfolding lookup
total_tokens disk = total (λ arm. if arm.live then total tokens_of (raw_of disk arm) else 0)

unfoldable pub first_value : String → String → List MetricRow → Option ℕ
first_value id metric [] = none
first_value id metric (r ∷ rs) =
    if str_eq r.run_id id && str_eq r.metric metric then some r.value else first_value id metric rs

unfoldable pub run_metric : Disk → Arm → String → String → Option ℕ
unfolding first_value lookup
run_metric disk arm id metric = first_value id metric (raw_of disk arm)

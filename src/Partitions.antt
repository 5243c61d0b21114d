-- ===== src/Partitions.antt =====
-- Versioned warehouse partitions: src/acde/dataplane/partitions.py.
-- The registry is the table warehouse.partition_versions, a list of rows. A row's physical table is
-- left out of it (its name is a function of the other columns, and its contents are not read here).
pub mod Versions
pub mod Invariant
pub mod Rollback
use agentic_cloud_pipeline_g.Prelude.{
  ℕ, ◌+◌, String, Bool, true, false, ◌&&◌, Option, none, some, List, [], ◌∷◌, ◌++◌, map, ◌==◌, ltb,
  leb, str_eq, if◌then◌else◌, select, first,
}
use agentic_cloud_pipeline_g.Prelude.Sorting.{sort_by}

pub record PartitionVersion : Type 0 where
  pub dataset : String
  pub partition_key : String
  pub version : ℕ
  pub active : Bool

abbrev pub Registry : Type 0
Registry = List PartitionVersion

-- WHERE dataset = %s AND partition_key = %s
abbrev pub in_partition : String → String → PartitionVersion → Bool
in_partition d k r = str_eq r.dataset d && str_eq r.partition_key k

-- COALESCE(MAX(version), 0) over the rows of a partition.
unfoldable pub max_version : String → String → Registry → ℕ
max_version d k [] = 0
max_version d k (r ∷ rs) =
    let m = max_version d k rs in
    if in_partition d k r then (if ltb m r.version then r.version else m) else m

unfoldable pub next_version : String → String → Registry → ℕ
unfolding max_version
next_version d k g = max_version d k g + 1

-- UPDATE ... SET active = FALSE, the first statement of `activate`.
unfoldable pub deactivate : String → String → Registry → Registry
deactivate d k [] = []
deactivate d k (r ∷ rs) =
    (if in_partition d k r then record r { active = false } else r) ∷ deactivate d k rs

-- UPDATE ... SET active = TRUE, its second statement.
pub set_active : String → String → ℕ → Registry → Registry
set_active d k v [] = []
set_active d k v (r ∷ rs) =
    (if in_partition d k r && r.version == v then record r { active = true } else r)
    ∷ set_active d k v rs

unfoldable pub activate : String → String → ℕ → Registry → Registry
unfolding deactivate set_active
activate d k v g = set_active d k v (deactivate d k g)

unfoldable pub get_active : String → String → Registry → Option PartitionVersion
get_active d k g = first (λ r. in_partition d k r && r.active) g

by_version : PartitionVersion → PartitionVersion → Bool
by_version a b = leb a.version b.version

unfoldable pub list_versions : String → String → Registry → List PartitionVersion
unfolding sort_by by_version
list_versions d k g = sort_by by_version (select (in_partition d k) g)

-- The transaction that registers the new row, and the activation after it.
unfoldable pub create_version : String → String → Bool → Registry → ℕ × Registry
unfolding next_version activate
create_version d k wanted g =
    let v = next_version d k g in
    let row : PartitionVersion = record {
      dataset = d;
      partition_key = k;
      version = v;
      active = false;
    } in
    let g' = g ++ row ∷ [] in (v, if wanted then activate d k v g' else g')

-- The comprehension over the listed versions: all of them, or those below the active one.
unfoldable pub prior_versions : Option PartitionVersion → List ℕ → List ℕ
prior_versions none vs = vs
prior_versions (some current) vs = select (λ v. ltb v current.version) vs

-- Python's `max` over a list that is not empty; `none` stands for the empty one.
unfoldable pub max_of : List ℕ → Option ℕ
max_of [] = none
max_of (v ∷ vs) = some (elim (max_of vs) [ none ↦ v | some m ↦ if ltb m v then v else m ])

-- The highest version below the active one.
unfoldable pub rollback_target : String → String → Registry → Option ℕ
unfolding get_active list_versions prior_versions max_of
rollback_target d k g = max_of (
    prior_versions (get_active d k g)
      (map (λ (r : PartitionVersion). r.version) (list_versions d k g)))

unfoldable pub rollback_to : String → String → Registry → Option ℕ → Option ℕ × Registry
unfolding activate
rollback_to d k g none = (none, g)
rollback_to d k g (some v) = (some v, activate d k v g)

unfoldable pub rollback : String → String → Registry → Option ℕ × Registry
unfolding rollback_target rollback_to
rollback d k g = rollback_to d k g (rollback_target d k g)

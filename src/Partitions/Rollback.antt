-- ===== src/Partitions/Rollback.antt =====
-- Which version `rollback` of partitions.py activates, and that the check for a prior version that
-- src/acde/policy/gate.py makes beforehand agrees with it.
use agentic_cloud_pipeline_g.Prelude.{
  ℕ, ◌≤◌, ◌<◌, String, ◌≡◌, ◌∙◌, ap, refl, Bool, true, false, Option, none, some, List, [], ◌∷◌,
  map, arith, ◌==◌, ltb, if◌then◌else◌, count, select,
}
use agentic_cloud_pipeline_g.Prelude.Sorting.{count-sort_by}
use agentic_cloud_pipeline_g.Partitions.{
  PartitionVersion, Registry, in_partition, deactivate, get_active, list_versions, prior_versions,
  max_of, by_version, rollback_target, rollback_to, rollback,
}
use agentic_cloud_pipeline_g.Partitions.Versions.{
  at_version, active_version, active_version-activate, version-deactivate,
}

abbrev count_nat : ℕ → List ℕ → ℕ
count_nat w = count (λ v. v == w)

abbrev Greatest : Option ℕ → List ℕ → Type 0
Greatest none vs = vs ≡ []
Greatest (some m) vs = (0 < count_nat m vs) × ((w : ℕ) → 0 < count_nat w vs → w ≤ m)

max_of-Greatest : (vs : List ℕ) → Greatest (max_of vs) vs
unfolding max_of
max_of-Greatest [] = refl
max_of-Greatest (v ∷ vs) = go (max_of vs) (max_of-Greatest vs)
  where
    go :
        (o : Option ℕ)
        → Greatest o vs
        → Greatest (some (elim o [ none ↦ v | some m ↦ if ltb m v then v else m ])) (v ∷ vs)
    go none h = (ground arith, λ w. rw h (ground arith))
    go (some m) h = (ground arith, λ w p. ground (arith, h.1 w))

count-map_version :
    (w : ℕ) (g : Registry)
    → count_nat w (map (λ (r : PartitionVersion). r.version) g) ≡ count (λ r. r.version == w) g
count-map_version w [] = refl
count-map_version w (r ∷ rs) = ground (arith, count-map_version w rs)

count-select_partition :
    (d k : String) (w : ℕ) (g : Registry)
    → count (λ r. r.version == w) (select (in_partition d k) g) ≡ count (at_version d k w) g
count-select_partition d k w [] = refl
count-select_partition d k w (r ∷ rs) = ground (arith, count-select_partition d k w rs)

abbrev versions : String → String → Registry → List ℕ
versions d k g = map (λ (r : PartitionVersion). r.version) (list_versions d k g)

-- The listing shows each registered version as often as the registry does.
count-versions :
    (d k : String) (w : ℕ) (g : Registry)
    → count_nat w (versions d k g) ≡ count (at_version d k w) g
unfolding list_versions
count-versions d k w g =
    count-map_version w (list_versions d k g)
    ∙ count-sort_by by_version (λ r. r.version == w) (select (in_partition d k) g)
    ∙ count-select_partition d k w g

-- Below the active version; with none active, any version.
abbrev pub is_prior : Option ℕ → ℕ → Bool
is_prior none w = true
is_prior (some a) w = ltb w a

count-prior_versions :
    (o : Option PartitionVersion) (w : ℕ) (vs : List ℕ)
    → count_nat w (prior_versions o vs) ≡ (
        if is_prior (elim o [ none ↦ none | some r ↦ some r.version ]) w then count_nat w vs else 0)
unfolding prior_versions
count-prior_versions none w vs = refl
count-prior_versions (some c) w [] = ground arith
count-prior_versions (some c) w (v ∷ vs) = ground (arith, count-prior_versions (some c) w vs)

-- What a rollback has to have done, by what it returned.
abbrev pub RollbackSpec : String → String → Registry → Option ℕ → Registry → Type 0
RollbackSpec d k g none g' =
    (g' ≡ g)
    × ((w : ℕ) → 0 < count (at_version d k w) g → is_prior (active_version d k g) w ≡ false)
RollbackSpec d k g (some v) g' =
    (active_version d k g' ≡ some v)
    × (0 < count (at_version d k v) g)
    × (is_prior (active_version d k g) v ≡ true)
    × ((w : ℕ) → 0 < count (at_version d k w) g → is_prior (active_version d k g) w ≡ true → w ≤ v)

module _ (d k : String) (g : Registry) where
  abbrev candidates : List ℕ
  candidates = prior_versions (get_active d k g) (versions d k g)

  count-candidates :
      (w : ℕ)
      → count_nat w candidates
        ≡ (if is_prior (active_version d k g) w then count (at_version d k w) g else 0)
  count-candidates w =
      count-prior_versions (get_active d k g) w (versions d k g) ∙ rw (count-versions d k w g)

  rollback_to-Spec :
      (o : Option ℕ)
      → Greatest o candidates
      → RollbackSpec d k g (rollback_to d k g o).0 (rollback_to d k g o).1
  unfolding rollback_to
  rollback_to-Spec none h = (refl, λ w p. ground (arith, count-candidates w, ap (count_nat w) h))
  rollback_to-Spec (some v) h =
      let p : 0 < count (at_version d k v) g = ground (arith, count-candidates v, h.0) in
      (
        active_version-activate d k v g p,
        p,
        ground (arith, count-candidates v, h.0),
        λ w q e. h.1 w (ground (arith, count-candidates w)),
      )

-- A rollback activates the highest registered version below the active one, or the highest of all
-- if none is active; where there is no such version it returns none and leaves the registry as it
-- was.
pub rollback_lem :
    (d k : String) (g : Registry) → RollbackSpec d k g (rollback d k g).0 (rollback d k g).1
unfolding rollback
rollback_lem d k g =
    rollback_to-Spec d k g (rollback_target d k g) (max_of-Greatest (candidates d k g))

active_version-deactivate :
    (d k : String) (g : Registry) → active_version d k (deactivate d k g) ≡ none
unfolding deactivate get_active
active_version-deactivate d k [] = refl
active_version-deactivate d k (r ∷ rs) = ground (arith, active_version-deactivate d k rs)

RollbackSpec-top :
    (d k : String) (g : Registry) (v : ℕ) (o : Option ℕ) (g' : Registry)
    → active_version d k g ≡ none
    → 0 < count (at_version d k v) g
    → ((w : ℕ) → 0 < count (at_version d k w) g → w ≤ v)
    → RollbackSpec d k g o g'
    → active_version d k g' ≡ some v
RollbackSpec-top d k g v none g' a p top s = ground (arith, s.1 v)
RollbackSpec-top d k g v (some u) g' a p top s = ground (arith, s.0, top u, s.3 v)

-- When a partition is quarantined and then rolled back, the rollback activates its highest
-- registered version, also where that is the version that was just quarantined.
pub rollback-deactivate :
    (d k : String) (g : Registry) (v : ℕ)
    → 0 < count (at_version d k v) g
    → ((w : ℕ) → 0 < count (at_version d k w) g → w ≤ v)
    → active_version d k (rollback d k (deactivate d k g)).1 ≡ some v
rollback-deactivate d k g v p top =
    RollbackSpec-top d k (deactivate d k g) v _ _ (active_version-deactivate d k g)
      (rw version-deactivate p) (λ w. rw version-deactivate (top w))
      (rollback_lem d k (deactivate d k g))

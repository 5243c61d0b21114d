-- ===== src/Partitions/Versions.antt =====
-- Rows of the registry counted by partition, version and activity, through the updates of
-- partitions.py.
use agentic_cloud_pipeline_g.Prelude.{
  ℕ, ◌+◌, ◌≤◌, ◌<◌, String, ◌≡◌, refl, Bool, ◌&&◌, Option, none, some, [], ◌∷◌, arith, eq_iff, ◌==◌,
  str_eq, if◌then◌else◌, count,
}
use agentic_cloud_pipeline_g.Partitions.{
  PartitionVersion, Registry, in_partition, max_version, deactivate, set_active, activate,
  get_active,
}

abbrev pub at_version : String → String → ℕ → PartitionVersion → Bool
at_version d k v r = in_partition d k r && r.version == v

abbrev pub active_in : String → String → PartitionVersion → Bool
active_in d k r = in_partition d k r && r.active

abbrev pub same : String → String → String → String → Bool
same d k d' k' = str_eq d d' && str_eq k k'

-- The version of the active row.
abbrev pub active_version : String → String → Registry → Option ℕ
active_version d k g = elim (get_active d k g) [ none ↦ none | some r ↦ some r.version ]

module _ (d k d' k' : String) where
  pub active-deactivate :
      (g : Registry)
      → count (active_in d' k') (deactivate d k g)
        ≡ (if same d k d' k' then 0 else count (active_in d' k') g)
  unfolding deactivate
  active-deactivate [] = ground arith
  active-deactivate (r ∷ rs) = ground (
    arith,
    active-deactivate rs,
    eq_iff r.dataset d,
    eq_iff r.dataset d',
    eq_iff d d',
    eq_iff r.partition_key k,
    eq_iff r.partition_key k',
    eq_iff k k',
  )

  pub version-deactivate :
      (v : ℕ) (g : Registry)
      → count (at_version d' k' v) (deactivate d k g) ≡ count (at_version d' k' v) g
  unfolding deactivate
  version-deactivate v [] = refl
  version-deactivate v (r ∷ rs) = ground (arith, version-deactivate v rs)

  pub version-set_active :
      (v w : ℕ) (g : Registry)
      → count (at_version d' k' w) (set_active d k v g) ≡ count (at_version d' k' w) g
  unfolding set_active
  version-set_active v w [] = refl
  version-set_active v w (r ∷ rs) = ground (arith, version-set_active v w rs)

  pub active-set_active :
      (v : ℕ) (g : Registry)
      → count (active_in d' k') (set_active d k v g)
        ≤ count (active_in d' k') g + (if same d k d' k' then count (at_version d k v) g else 0)
  unfolding set_active
  active-set_active v [] = ground arith
  active-set_active v (r ∷ rs) = ground (
    arith,
    active-set_active v rs,
    eq_iff r.dataset d,
    eq_iff r.dataset d',
    eq_iff d d',
    eq_iff r.partition_key k,
    eq_iff r.partition_key k',
    eq_iff k k',
  )

module _ (d k : String) where
  -- No row of the partition is above the maximum.
  pub version-above_max :
      (v : ℕ) (g : Registry) → max_version d k g < v → count (at_version d k v) g ≡ 0
  unfolding max_version
  version-above_max v [] h = refl
  version-above_max v (r ∷ rs) h = ground (arith, version-above_max v rs)

  -- `activate` makes the wanted version, if it is registered, the active one.
  pub active_version-activate :
      (v : ℕ) (g : Registry)
      → 0 < count (at_version d k v) g
      → active_version d k (activate d k v g) ≡ some v
  unfolding activate get_active
  active_version-activate v [] h = elim h [ ]
  active_version-activate v (r ∷ rs) h = ground (arith, active_version-activate v rs)

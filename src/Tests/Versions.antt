-- ===== src/Tests/Versions.antt =====
-- The partition registry at concrete data.
use agentic_cloud_pipeline_g.Prelude.{ℕ, Bool, true, false, [], ◌∷◌}
use agentic_cloud_pipeline_g.Partitions.{
  PartitionVersion, Registry, create_version, deactivate, rollback,
}
use agentic_cloud_pipeline_g.Partitions.Invariant.{
  IsConsistent, start, next, created, quarantined, rolled_back, Reach-IsConsistent,
}

abbrev orders : ℕ → Bool → PartitionVersion
orders v on = record { dataset = "orders"; partition_key = "d1"; version = v; active = on }

abbrev registry : Registry
registry = orders 1 false ∷ orders 2 true ∷ []

-- Two versions are created, the second is quarantined, and the partition is rolled back.
abbrev steps : Registry
steps =
    (rollback "orders" "d1" (
      deactivate "orders" "d1"
        (create_version "orders" "d1" true (create_version "orders" "d1" true []).1).1)).1

Reach-IsConsistent_example : IsConsistent steps
Reach-IsConsistent_example = Reach-IsConsistent (
    next
      (next (next (next start (created "orders" "d1" true [])) (created "orders" "d1" true _))
        (quarantined "orders" "d1" _))
      (rolled_back "orders" "d1" _))

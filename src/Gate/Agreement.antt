-- ===== src/Gate/Agreement.antt =====
-- The gate's check for a prior version agrees with the rollback that it guards.
use agentic_cloud_pipeline_g.Prelude.{
  ℕ, ◌<◌, String, ◌≡◌, ◌∙◌, sym, refl, Bool, true, false, Option, none, some, List, [], ◌∷◌, map,
  arith, ltb, leb, length, any,
}
use agentic_cloud_pipeline_g.Env.{Env}
use agentic_cloud_pipeline_g.Partitions
use agentic_cloud_pipeline_g.Partitions.{
  Registry, PartitionVersion, get_active, list_versions, prior_versions, max_of, rollback_target,
  rollback_to,
}
use agentic_cloud_pipeline_g.World.{rolled_back}
use agentic_cloud_pipeline_g.Executor.Handlers.{rollback_message}
use agentic_cloud_pipeline_g.Gate.{any_prior, prior_exists}

abbrev pub is_some : Option ℕ → Bool
is_some none = false
is_some (some v) = true

max_of-nonempty : (vs : List ℕ) → is_some (max_of vs) ≡ leb 1 (length vs)
unfolding max_of
max_of-nonempty [] = ground arith
max_of-nonempty (v ∷ vs) = ground arith

length-prior_versions :
    (a : PartitionVersion) (vs : List PartitionVersion)
    → leb 1 (length (prior_versions (some a) (map (λ (r : PartitionVersion). r.version) vs)))
      ≡ any (λ (v : PartitionVersion). ltb v.version a.version) vs
unfolding prior_versions
length-prior_versions a [] = ground arith
length-prior_versions a (v ∷ vs) = ground (arith, length-prior_versions a vs)

length-map_version :
    (vs : List PartitionVersion) → length (map (λ (r : PartitionVersion). r.version) vs) ≡ length vs
length-map_version [] = refl
length-map_version (v ∷ vs) = ground (arith, length-map_version vs)

any_prior-max_of :
    (o : Option PartitionVersion) (vs : List PartitionVersion)
    → any_prior o vs
      ≡ is_some (max_of (prior_versions o (map (λ (r : PartitionVersion). r.version) vs)))
unfolding prior_versions any_prior
any_prior-max_of none vs =
    ground
      (arith, max_of-nonempty (map (λ (r : PartitionVersion). r.version) vs), length-map_version vs)
any_prior-max_of (some a) vs = ground (
  arith,
  length-prior_versions a vs,
  max_of-nonempty (prior_versions (some a) (map (λ (r : PartitionVersion). r.version) vs)),
)

is_some-rollback_to :
    (d k : String) (g : Registry) (o : Option ℕ) → is_some (rollback_to d k g o).0 ≡ is_some o
unfolding rollback_to
is_some-rollback_to d k g none = refl
is_some-rollback_to d k g (some v) = refl

-- The check of the gate holds exactly if a rollback of the same registry returns a version.
pub prior_exists-rollback :
    (d k : String) (g : Registry) → prior_exists d k g ≡ is_some (Partitions.rollback d k g).0
unfolding Partitions.rollback Partitions.rollback_target prior_exists
prior_exists-rollback d k g =
    any_prior-max_of (get_active d k g) (list_versions d k g)
    ∙ sym (is_some-rollback_to d k g (rollback_target d k g))

module _ (e : Env) where
  rollback_message-positive :
      (d k : String) (o : Option ℕ) (v : ℕ)
      → o ≡ some v
      → 0 < v
      → rollback_message e d k o ≡ rolled_back d k v
  unfolding rollback_message
  rollback_message-positive d k none v p q = cc
  rollback_message-positive d k (some u) v p q = ground arith

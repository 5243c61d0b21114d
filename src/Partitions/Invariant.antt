-- ===== src/Partitions/Invariant.antt =====
-- The invariant of the registry, over the operations of partitions.py in any order.
use agentic_cloud_pipeline_g.Prelude.{
  ℕ, ◌+◌, ◌≤◌, ◌<◌, String, ◌≡◌, ◌∙◌, refl, Bool, true, false, Option, none, some, [], ◌∷◌, ◌++◌,
  arith, eq_iff, if◌then◌else◌, count, count-append,
}
use agentic_cloud_pipeline_g.Partitions.{
  PartitionVersion, Registry, max_version, next_version, deactivate, activate, create_version,
  rollback_target, rollback_to, rollback,
}
use agentic_cloud_pipeline_g.Partitions.Versions.{
  at_version, active_in, same, active_version, active-deactivate, version-deactivate,
  version-set_active, active-set_active, version-above_max, active_version-activate,
}

-- The primary key holds, a partition has one active version at most, and versions start at 1.
pub record IsConsistent (g : Registry) : Type 0 where
  pub unique : (d k : String) (v : ℕ) → count (at_version d k v) g ≤ 1
  pub one_active : (d k : String) → count (active_in d k) g ≤ 1
  pub from_one : (d k : String) → count (at_version d k 0) g ≡ 0

-- What `activate` and the UPDATE of a quarantine leave of the rows.
version-activate :
    (d k : String) (v : ℕ) (g : Registry) (d' k' : String) (w : ℕ)
    → count (at_version d' k' w) (activate d k v g) ≡ count (at_version d' k' w) g
unfolding activate
version-activate d k v g d' k' w =
    version-set_active d k d' k' v w (deactivate d k g) ∙ version-deactivate d k d' k' w g

active-activate :
    (d k : String) (v : ℕ) (g : Registry) (d' k' : String)
    → count (active_in d' k') (activate d k v g)
      ≤ (if same d k d' k' then count (at_version d k v) g else count (active_in d' k') g)
unfolding activate
active-activate d k v g d' k' = ground (
  arith,
  active-set_active d k d' k' v (deactivate d k g),
  active-deactivate d k d' k' g,
  version-deactivate d k d k v g,
)

pub activate-IsConsistent :
    (d k : String) (v : ℕ) {g : Registry} → IsConsistent g → IsConsistent (activate d k v g)
activate-IsConsistent d k v {g} h = record {
  unique = λ d' k' w. rw version-activate (h.unique d' k' w);
  one_active =
      λ d' k'. ground (arith, active-activate d k v g d' k', h.unique d k v, h.one_active d' k');
  from_one = λ d' k'. rw version-activate (h.from_one d' k');
}

pub deactivate-IsConsistent :
    (d k : String) {g : Registry} → IsConsistent g → IsConsistent (deactivate d k g)
deactivate-IsConsistent d k {g} h = record {
  unique = λ d' k' w. rw version-deactivate (h.unique d' k' w);
  one_active = λ d' k'. ground (arith, active-deactivate d k d' k' g, h.one_active d' k');
  from_one = λ d' k'. rw version-deactivate (h.from_one d' k');
}

abbrev fresh : String → String → Registry → PartitionVersion
fresh d k g = record {
  dataset = d;
  partition_key = k;
  version = next_version d k g;
  active = false;
}

append-IsConsistent :
    (d k : String) {g : Registry} → IsConsistent g → IsConsistent (g ++ fresh d k g ∷ [])
unfolding next_version
append-IsConsistent d k {g} h = record {
  unique = λ d' k' w. ground (
    arith,
    count-append (at_version d' k' w) g (fresh d k g ∷ []),
    h.unique d' k' w,
    eq_iff d d',
    eq_iff k k',
    version-above_max d k w g,
  );
  one_active = λ d' k'.
      ground (arith, count-append (active_in d' k') g (fresh d k g ∷ []), h.one_active d' k');
  from_one = λ d' k'.
      ground (arith, count-append (at_version d' k' 0) g (fresh d k g ∷ []), h.from_one d' k');
}

pub create_version-IsConsistent :
    (d k : String) (wanted : Bool) {g : Registry}
    → IsConsistent g
    → IsConsistent (create_version d k wanted g).1
unfolding create_version
create_version-IsConsistent d k true h = activate-IsConsistent d k _ (append-IsConsistent d k h)
create_version-IsConsistent d k false h = append-IsConsistent d k h

rollback_to-IsConsistent :
    (d k : String) (o : Option ℕ) {g : Registry}
    → IsConsistent g
    → IsConsistent (rollback_to d k g o).1
unfolding rollback_to
rollback_to-IsConsistent d k none h = h
rollback_to-IsConsistent d k (some v) h = activate-IsConsistent d k v h

pub rollback-IsConsistent :
    (d k : String) {g : Registry} → IsConsistent g → IsConsistent (rollback d k g).1
unfolding rollback
rollback-IsConsistent d k {g} h = rollback_to-IsConsistent d k (rollback_target d k g) h

-- The operations of the manager, and the UPDATE by which the executor quarantines a partition.
pub data Step : Registry → Registry → Type 0 where
  created : (d k : String) (wanted : Bool) (g : Registry) → Step g (create_version d k wanted g).1
  activated : (d k : String) (v : ℕ) (g : Registry) → Step g (activate d k v g)
  rolled_back : (d k : String) (g : Registry) → Step g (rollback d k g).1
  quarantined : (d k : String) (g : Registry) → Step g (deactivate d k g)

pub data Reach : Registry → Type 0 where
  start : Reach []
  next : {g g' : Registry} → Reach g → Step g g' → Reach g'

Step-IsConsistent : {g g' : Registry} → Step g g' → IsConsistent g → IsConsistent g'
Step-IsConsistent (created d k wanted g) h = create_version-IsConsistent d k wanted h
Step-IsConsistent (activated d k v g) h = activate-IsConsistent d k v h
Step-IsConsistent (rolled_back d k g) h = rollback-IsConsistent d k h
Step-IsConsistent (quarantined d k g) h = deactivate-IsConsistent d k h

-- Every registry that the operations reach from the empty one, in any order, has each version of
-- a partition once at most, no version 0, and at most one active version in each partition.
pub Reach-IsConsistent : {g : Registry} → Reach g → IsConsistent g
Reach-IsConsistent start = record {
  unique = λ d k v. omega arith;
  one_active = λ d k. omega arith;
  from_one = λ d k. refl;
}
Reach-IsConsistent (next r s) = Step-IsConsistent s (Reach-IsConsistent r)

-- A version that is created with activation is above every version that its partition had, and is
-- the active one afterwards.
pub create_version-active :
    (d k : String) (g : Registry)
    → (active_version d k (create_version d k true g).1 ≡ some (create_version d k true g).0)
      × ((w : ℕ) → 0 < count (at_version d k w) g → w < (create_version d k true g).0)
unfolding create_version next_version
create_version-active d k g = (
  active_version-activate d k _ _ (
      ground (
        arith,
        count-append (at_version d k (max_version d k g + 1)) g (fresh d k g ∷ []),
        eq_iff d d,
        eq_iff k k,
      )),
  λ w h. ground (arith, version-above_max d k w g),
)

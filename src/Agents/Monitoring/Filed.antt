-- ===== src/Agents/Monitoring/Filed.antt =====
-- What the monitoring agent's observation files, and that it files it once.
use mathlib.Core.Path.{subst}
use mathlib.Core.List.{append-nil, append_assoc}
use agentic_cloud_pipeline_g.Prelude.{
  String, ◌≡◌, ◌∙◌, refl, sym, ap, true, false, ◌||◌, List, [], ◌∷◌, ◌++◌, map, arith, eq_iff,
  select, All, Bool-cases, inl, inr,
}
use agentic_cloud_pipeline_g.Env.{Env}
use agentic_cloud_pipeline_g.World.{World, FailureEvent}
use agentic_cloud_pipeline_g.Agents.Detection.{
  Anomaly, OpenAnomaly, is_unresolved, as_open, observe, detect_anomalies,
}
use agentic_cloud_pipeline_g.Agents.Monitoring.{
  is_known, is_settled, entry_of, with_fault, fault_of, file_new, observe_and_file,
}

-- The open faults of a run, as a snapshot shows them.
abbrev open_of : String → List FailureEvent → List OpenAnomaly
open_of run fs = map as_open (select (is_unresolved run) fs)

open_of-append :
    (run : String) (a : Anomaly) (w : World) (fs : List FailureEvent)
    → open_of run (fs ++ fault_of run a w ∷ []) ≡ open_of run fs ++ entry_of a w ∷ []
open_of-append run a w [] = ground (arith, eq_iff run run)
open_of-append run a w (f ∷ fs) = ground (arith, open_of-append run a w fs)

open_of-file_new :
    (run : String) (known : List OpenAnomaly) (as' : List Anomaly) (w : World)
    → open_of run (file_new run known as' w).1.failure_events
      ≡ open_of run w.failure_events ++ (file_new run known as' w).0
unfolding file_new
open_of-file_new run known [] w = sym (append-nil _)
open_of-file_new run known (a ∷ rest) w = elim (Bool-cases (is_settled known a)) [
  | inl t ↦ rw t (open_of-file_new run known rest w)
  | inr f ↦ rw f (
      open_of-file_new run (entry_of a w ∷ known) rest (with_fault run a w)
      ∙ ap
          (λ (l : List OpenAnomaly).
            l ++ (file_new run (entry_of a w ∷ known) rest (with_fault run a w)).0)
          (open_of-append run a w w.failure_events)
      ∙ append_assoc (open_of run w.failure_events) (entry_of a w ∷ []) _)
]

-- The snapshot that an observation returns shows the open faults that a fresh query after it finds,
-- those that it has just filed included.
pub observe_and_file-open :
    (e : Env) (run : String) (w : World)
    → (observe run (observe_and_file e run w).1).open_anomalies
      ≡ (observe_and_file e run w).0.open_anomalies
unfolding observe observe_and_file
observe_and_file-open e run w = open_of-file_new run _ (detect_anomalies e (observe run w)) w

is_known-append :
    (xs ys : List OpenAnomaly) (a : Anomaly)
    → is_known (xs ++ ys) a ≡ (is_known xs a || is_known ys a)
is_known-append [] ys a = refl
is_known-append (x ∷ xs) ys a = ground (arith, is_known-append xs ys a)

abbrev Settled : List OpenAnomaly → Anomaly → Type 0
Settled known a = is_settled known a ≡ true

All-moved :
    (x : OpenAnomaly) (xs ys : List OpenAnomaly) (as' : List Anomaly)
    → All (Settled (x ∷ xs ++ ys)) as'
    → All (Settled (xs ++ x ∷ ys)) as'
All-moved x xs ys [] h = tt
All-moved x xs ys (a ∷ rest) h = (
  ground (arith, h.0, is_known-append xs ys a, is_known-append xs (x ∷ ys) a),
  All-moved x xs ys rest h.1,
)

file_new_passed :
    (run : String) (known : List OpenAnomaly) (a : Anomaly) (rest : List Anomaly) (w : World)
    → is_settled known a ≡ true
    → (file_new run known (a ∷ rest) w).0 ≡ (file_new run known rest w).0
unfolding file_new
file_new_passed run known a rest w t = rw t

file_new_filed :
    (run : String) (known : List OpenAnomaly) (a : Anomaly) (rest : List Anomaly) (w : World)
    → is_settled known a ≡ false
    → (file_new run known (a ∷ rest) w).0
      ≡ entry_of a w ∷ (file_new run (entry_of a w ∷ known) rest (with_fault run a w)).0
unfolding file_new
file_new_filed run known a rest w f = rw f

file_new-Settled :
    (run : String) (known : List OpenAnomaly) (as' : List Anomaly) (w : World)
    → All (Settled (known ++ (file_new run known as' w).0)) as'
file_new-Settled run known [] w = tt
file_new-Settled run known (a ∷ rest) w = elim (Bool-cases (is_settled known a)) [
  | inl t ↦
      subst (λ (l : List OpenAnomaly). All (Settled (known ++ l)) (a ∷ rest))
        (sym (file_new_passed run known a rest w t))
        (
          ground (arith, t, is_known-append known (file_new run known rest w).0 a),
          file_new-Settled run known rest w,
        )
  | inr f ↦
      let more = (file_new run (entry_of a w ∷ known) rest (with_fault run a w)).0 in
      subst (λ (l : List OpenAnomaly). All (Settled (known ++ l)) (a ∷ rest))
        (sym (file_new_filed run known a rest w f))
        (
          ground (
            arith,
            is_known-append known (entry_of a w ∷ more) a,
            eq_iff a.kind a.kind,
            eq_iff a.target a.target,
          ),
          All-moved (entry_of a w) known more rest
              (file_new-Settled run (entry_of a w ∷ known) rest (with_fault run a w)),
        )
]

file_new_none :
    (run : String) (known : List OpenAnomaly) (as' : List Anomaly) (w : World)
    → All (Settled known) as'
    → file_new run known as' w ≡ ([], w)
unfolding file_new
file_new_none run known [] w h = refl
file_new_none run known (a ∷ rest) w h = rw h.0 (file_new_none run known rest w h.1)

-- Filing the same anomalies a second time, with what the first time filed among the open ones,
-- files nothing, at any later state of the tables.
pub file_new_twice :
    (run : String) (known : List OpenAnomaly) (as' : List Anomaly) (w w' : World)
    → file_new run (known ++ (file_new run known as' w).0) as' w' ≡ ([], w')
file_new_twice run known as' w w' = file_new_none run _ as' w' (file_new-Settled run known as' w)

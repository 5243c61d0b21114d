-- ===== src/Runner/Calls.antt =====
-- The calls of the runner keep the results directory consistent.
use agentic_cloud_pipeline_g.Prelude.{
  ℕ, zero, suc, ◌+◌, String, ◌≡◌, ◌≢◌, inl, inr, Bool, false, not, ◌&&◌, Option, none, some, List,
  [], ◌∷◌, ◌++◌, take, any, str_eq, select, All, All-select, All-take, arith, eq_iff, Bool-cases,
}
use agentic_cloud_pipeline_g.Prelude.Dict.{Dict}
use agentic_cloud_pipeline_g.World.{World}
use agentic_cloud_pipeline_g.Exec.{Result, ok, raised}
use agentic_cloud_pipeline_g.Campaign.Runs.{Run}
use agentic_cloud_pipeline_g.Runner.{
  ResultsDir, ManifestRecord, Invocation, Conditions, id_of, completed, record_of, is_listed,
  is_chosen, todo_of, limited, run_all, run_known, run_profile, Ran, has_unknown,
}
use agentic_cloud_pipeline_g.Runner.Resumed.{
  Attempt, unwritten, unlisted, finished, Reach, again, HasWholeRuns, Reach-HasWholeRuns,
}
use agentic_cloud_pipeline_g.Runner.Attempts.{run_one-Attempt}

module _ {V : Type 0} (c : Conditions V) where
  -- No two runs have the same id.
  abbrev pub IsDistinct : List Run → Type 0
  IsDistinct [] = Unit
  IsDistinct (r ∷ rs) = All (λ s. id_of c s ≢ id_of c r) rs × IsDistinct rs

  abbrev pub AreDistinct : Option (List Run) → Type 0
  AreDistinct none = Unit
  AreDistinct (some runs) = IsDistinct runs

  abbrev Unlisted : ResultsDir V → Run → Type 0
  Unlisted d r = is_listed c (id_of c r) d ≡ false

  IsDistinct-select :
      (p : Run → Bool) (runs : List Run) → IsDistinct runs → IsDistinct (select p runs)
  IsDistinct-select p [] h = tt
  IsDistinct-select p (r ∷ runs) h = elim (Bool-cases (p r)) [
    | inl e ↦
        rw e (All-select (λ s. id_of c s ≢ id_of c r) p runs h.0, IsDistinct-select p runs h.1)
    | inr e ↦ rw e (IsDistinct-select p runs h.1)
  ]

  IsDistinct-take : (n : ℕ) (runs : List Run) → IsDistinct runs → IsDistinct (take n runs)
  IsDistinct-take zero runs h = tt
  IsDistinct-take (suc n) [] h = tt
  IsDistinct-take (suc n) (r ∷ runs) h =
      (All-take (λ s. id_of c s ≢ id_of c r) n runs h.0, IsDistinct-take n runs h.1)

  IsDistinct-limited :
      (most : Option ℕ) (runs : List Run) → IsDistinct runs → IsDistinct (limited c most runs)
  IsDistinct-limited none runs h = h
  IsDistinct-limited (some n) runs h = IsDistinct-take n runs h

  Unlisted-limited :
      (most : Option ℕ) (d : ResultsDir V) (runs : List Run)
      → All (Unlisted d) runs
      → All (Unlisted d) (limited c most runs)
  Unlisted-limited none d runs h = h
  Unlisted-limited (some n) d runs h = All-take (Unlisted d) n runs h

  todo_of-Unlisted :
      (configs : Option (List String)) (d : ResultsDir V) (runs : List Run)
      → All (Unlisted d) (todo_of c configs runs d)
  unfolding todo_of
  todo_of-Unlisted configs d [] = tt
  todo_of-Unlisted configs d (r ∷ runs) =
      elim (Bool-cases (not (is_listed c (id_of c r) d) && is_chosen c configs r)) [
        | inl e ↦ rw e (ground (arith, e), todo_of-Unlisted configs d runs)
        | inr e ↦ rw e (todo_of-Unlisted configs d runs)
      ]

  not_listed-append :
      (id : String) (lines : List (ManifestRecord V)) (line : ManifestRecord V)
      → id ≢ line.run_id
      → any (str_eq id) (completed c lines) ≡ false
      → any (str_eq id) (completed c (lines ++ line ∷ [])) ≡ false
  not_listed-append id [] line n h = ground (arith, n, eq_iff id line.run_id)
  not_listed-append id (l ∷ lines) line n h = grind (arith, not_listed-append id lines line n)

  -- An attempt at one run lists no other.
  attempt-Unlisted :
      (r s : Run) (d d' : ResultsDir V)
      → Attempt c r d d'
      → id_of c s ≢ id_of c r
      → Unlisted d s
      → Unlisted d' s
  attempt-Unlisted r s d d' (unwritten e1 e2) n h = rw e2 h
  attempt-Unlisted r s d d' (unlisted k seed m e1 e2) n h = rw e2 h
  attempt-Unlisted r s d d' (finished seed m mttr wall t e1 e2) n h =
      rw e2 (not_listed-append (id_of c s) d.manifest (record_of c r seed mttr wall) n h)

  attempt-All :
      (r : Run) (d d' : ResultsDir V) (todo : List Run)
      → Attempt c r d d'
      → All (λ s. id_of c s ≢ id_of c r) todo
      → All (Unlisted d) todo
      → All (Unlisted d') todo
  attempt-All r d d' [] a n h = tt
  attempt-All r d d' (s ∷ todo) a n h =
      (attempt-Unlisted r s d d' a n.0 h.0, attempt-All r d d' todo a n.1 h.1)

  run_all-step :
      (d' : ResultsDir V) (w' : World) (rest : Ran c) (result : Result (Dict V))
      → Reach c d'
      → Reach c rest.0.1
      → Reach c (elim result as (λ _. Ran c) [ raised x ↦ ((raised x, d'), w') | ok m ↦ rest ]).0.1
  run_all-step d' w' rest (raised x) h k = h
  run_all-step d' w' rest (ok m) h k = k

  run_all-Reach :
      (profile : String) (todo : List Run) (ran : ℕ) (d : ResultsDir V) (w : World)
      → IsDistinct todo
      → All (Unlisted d) todo
      → Reach c d
      → Reach c (run_all c profile todo ran d w).0.1
  unfolding run_all
  run_all-Reach profile [] ran d w u f h = h
  run_all-Reach profile (r ∷ todo) ran d w u f h =
      let a = run_one-Attempt c profile (str_eq profile "paper_v2") r d w in
      let h' = again d _ r h f.0 a in
      run_all-step _ _ _ _ h'
        (run_all-Reach profile todo (ran + 1) _ _ u.1 (attempt-All r d _ todo a u.0 f.1) h')

  run_known-Reach :
      (q : Invocation) (d : ResultsDir V) (w : World) (known : Option (List Run))
      → AreDistinct known
      → Reach c d
      → Reach c (run_known c q d w known).0.1
  unfolding run_known todo_of
  run_known-Reach q d w none u h = h
  run_known-Reach q d w (some runs) u h =
      run_all-Reach q.profile _ 0 d w (IsDistinct-limited q.max_runs _ (IsDistinct-select _ runs u))
        (Unlisted-limited q.max_runs d _ (todo_of-Unlisted q.configs d runs)) h

  -- If the profile has no two runs with the same id, a call of the runner on a directory that earlier
  -- attempts have left, none of which lost the header of raw.csv or wrote a row in part, leaves it
  -- consistent, with the rows of one harvest for each run listed and no run listed twice, however the
  -- call ends: with all its runs, with a run that raises, or with an error in the request.
  pub run_profile-HasWholeRuns :
      (q : Invocation) (d : ResultsDir V) (w : World)
      → AreDistinct (c.runs q.profile)
      → Reach c d
      → HasWholeRuns c (run_profile c q d w).0.1
  unfolding run_profile
  run_profile-HasWholeRuns q d w u h = elim (Bool-cases (has_unknown c q.configs)) [
    | inl e ↦ rw e (Reach-HasWholeRuns c d h)
    | inr e ↦ rw e (Reach-HasWholeRuns c _ (run_known-Reach q d w (c.runs q.profile) u h))
  ]

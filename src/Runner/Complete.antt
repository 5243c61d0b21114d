-- ===== src/Runner/Complete.antt =====
-- What a call of the runner that returns has done.
use agentic_cloud_pipeline_g.Prelude.{
  ℕ, zero, suc, ◌+◌, ◌≤◌, String, ◌≡◌, refl, ap, Bool, true, false, not, ◌&&◌, ◌||◌, inl, inr,
  Option, none, some, List, [], ◌∷◌, ◌++◌, take, any, str_eq, select, select-none, select-within,
  length, length-select-le, All, arith, eq_iff, Bool-cases,
}
use mathlib.Core.Path.{subst}
use agentic_cloud_pipeline_g.Prelude.Dict.{Dict}
use agentic_cloud_pipeline_g.World.{World}
use agentic_cloud_pipeline_g.Exec.{Result, ok, raised}
use agentic_cloud_pipeline_g.Campaign.Runs.{Run}
use agentic_cloud_pipeline_g.Runner.{
  ManifestRecord, ResultsDir, Invocation, Conditions, id_of, record_of, completed, is_listed,
  is_chosen, todo_of, limited, write_rows, append_manifest, export_actions, appended, listed,
  persist, harvested, conducted, run_one, run_all, run_known, run_profile, Ran, has_unknown,
}

module _ {V : Type 0} (c : Conditions V) where
  -- What the end of a run does to the manifest: a run that returns is listed in it.
  abbrev Lists : Run → ResultsDir V → Result (Dict V) → ResultsDir V → Type 0
  Lists r d (raised x) d' = d'.manifest ≡ d.manifest
  Lists r d (ok m) d' =
      (line : ManifestRecord V) × (line.run_id ≡ id_of c r)
      × (d'.manifest ≡ d.manifest ++ line ∷ [])

  appended-Lists :
      (r : Run) (seed : ℕ) (m : Dict V) (d d' : ResultsDir V) (mttr wall : Option V)
      → d'.manifest ≡ d.manifest
      → let (result, written) = listed c d' m (appended c r seed mttr wall d'.manifest) in
        Lists r d result written
  appended-Lists r seed m d d' (some mttr) (some wall) e =
      (record_of c r seed mttr wall, refl, ap (λ l. l ++ record_of c r seed mttr wall ∷ []) e)
  appended-Lists r seed m d d' none wall e = e
  appended-Lists r seed m d d' (some mttr) none e = e

  persist-Lists :
      (r : Run) (seed : ℕ) (m : Dict V) (w : World) (d : ResultsDir V)
      → Lists r d (persist c r seed m w d).0 (persist c r seed m w d).1
  unfolding persist append_manifest export_actions write_rows
  persist-Lists r seed m w d = appended-Lists r seed m d _ _ _ refl

  harvested-Lists :
      (r : Run) (seed : ℕ) (reset : Bool) (d : ResultsDir V) (o : Result (Dict V) × World)
      → Lists r d (harvested c r seed reset d o).0.0 (harvested c r seed reset d o).0.1
  harvested-Lists r seed reset d (raised x, w) = refl
  harvested-Lists r seed reset d (ok m, w) = persist-Lists r seed _ w d

  conducted-Lists :
      (profile : String) (r : Run) (seed : ℕ) (d : ResultsDir V) (o : Result Bool × World)
      → Lists r d (conducted c profile r seed d o).0.0 (conducted c profile r seed d o).0.1
  conducted-Lists profile r seed d (raised x, w) = refl
  conducted-Lists profile r seed d (ok reset, w) =
      harvested-Lists r seed reset d (c.conduct profile r seed w)

  run_one-Lists :
      (profile : String) (paired : Bool) (r : Run) (d : ResultsDir V) (w : World)
      → Lists r d (run_one c profile paired r d w).0.0 (run_one c profile paired r d w).0.1
  unfolding run_one
  run_one-Lists profile paired r d w = conducted-Lists profile r _ d _

  is_listed-append :
      (id : String) (lines : List (ManifestRecord V)) (line : ManifestRecord V)
      → any (str_eq id) (completed c (lines ++ line ∷ []))
        ≡ (any (str_eq id) (completed c lines) || str_eq id line.run_id)
  is_listed-append id [] line = ground arith
  is_listed-append id (l ∷ lines) line = ground (arith, is_listed-append id lines line)

  -- Every id that is listed stays so.
  abbrev pub Keeps : ResultsDir V → ResultsDir V → Type 0
  Keeps d d' = (id : String) → is_listed c id d ≡ true → is_listed c id d' ≡ true

  Lists-Keeps :
      (r : Run) (d : ResultsDir V) (result : Result (Dict V)) (d' : ResultsDir V)
      → Lists r d result d'
      → Keeps d d'
  Lists-Keeps r d (raised x) d' h id k = rw h k
  Lists-Keeps r d (ok m) d' (line, e, h) id k =
      rw h (rw (is_listed-append id d.manifest line, k) refl)

  Lists-listed :
      (r : Run) (d d' : ResultsDir V) (m : Dict V)
      → Lists r d (ok m) d'
      → is_listed c (id_of c r) d' ≡ true
  Lists-listed r d d' m (line, e, h) = rw h (
      rw (is_listed-append (id_of c r) d.manifest line, e)
        (ground (arith, eq_iff (id_of c r) (id_of c r))))

  -- What the loop over some runs comes to: if it returns, it has run them all.
  abbrev Has : List Run → ℕ → ResultsDir V → Ran c → Type 0
  Has todo ran d ((raised x, d'), w) = Keeps d d'
  Has todo ran d ((ok n, d'), w) =
      (n ≡ ran + length todo) × All (λ r. is_listed c (id_of c r) d' ≡ true) todo × Keeps d d'

  Has-cons :
      (r : Run) (todo : List Run) (ran : ℕ) (d d' : ResultsDir V) (m : Dict V) (o : Ran c)
      → Lists r d (ok m) d'
      → Has todo (ran + 1) d' o
      → Has (r ∷ todo) ran d o
  Has-cons r todo ran d d' m ((raised x, d''), w) h k =
      λ id l. k id (Lists-Keeps r d (ok m) d' h id l)
  Has-cons r todo ran d d' m ((ok n, d''), w) h (e, all_listed, k) = (
    omega (arith, e),
    (k (id_of c r) (Lists-listed r d d' m h), all_listed),
    λ id l. k id (Lists-Keeps r d (ok m) d' h id l),
  )

  run_all-step :
      (r : Run) (todo : List Run) (ran : ℕ) (d d' : ResultsDir V) (w' : World) (rest : Ran c)
      → (result : Result (Dict V)) → Lists r d result d'
      → Has todo (ran + 1) d' rest
      → Has
          (r ∷ todo)
          ran
          d
          (elim result as (λ _. Ran c) [ raised x ↦ ((raised x, d'), w') | ok m ↦ rest ])
  run_all-step r todo ran d d' w' rest (raised x) h k = Lists-Keeps r d (raised x) d' h
  run_all-step r todo ran d d' w' rest (ok m) h k = Has-cons r todo ran d d' m rest h k

  run_all-Has :
      (profile : String) (todo : List Run) (ran : ℕ) (d : ResultsDir V) (w : World)
      → Has todo ran d (run_all c profile todo ran d w)
  unfolding run_all
  run_all-Has profile [] ran d w = (omega arith, tt, λ id l. l)
  run_all-Has profile (r ∷ todo) ran d w =
      let paired = str_eq profile "paper_v2" in
      run_all-step r todo ran d _ _ _ _ (run_one-Lists profile paired r d w)
        (run_all-Has profile todo (ran + 1) _ _)

  length-limited :
      (p : Run → Bool) (n : ℕ) (todo : List Run)
      → All (λ r. p r ≡ false) (take n todo)
      → length (select p todo) + length (take n todo) ≤ length todo
  length-limited p zero todo h = ground (arith, length-select-le p todo)
  length-limited p (suc n) [] h = omega arith
  length-limited p (suc n) (r ∷ todo) h = ground (arith, h.0, length-limited p n todo h.1)

  length-done :
      (p : Run → Bool) (most : Option ℕ) (todo : List Run)
      → All (λ r. p r ≡ false) (limited c most todo)
      → length (select p todo) + length (limited c most todo) ≤ length todo
  length-done p none todo h = rw (select-none p todo h) (omega arith)
  length-done p (some n) todo h = length-limited p n todo h

  not_todo :
      (configs : Option (List String)) (d : ResultsDir V) (todo : List Run)
      → All (λ r. is_listed c (id_of c r) d ≡ true) todo
      → All (λ r. (not (is_listed c (id_of c r) d) && is_chosen c configs r) ≡ false) todo
  not_todo configs d [] h = tt
  not_todo configs d (r ∷ todo) h = (rw h.0 refl, not_todo configs d todo h.1)

  todo_after :
      (configs : Option (List String)) (most : Option ℕ) (runs : List Run) (d d' : ResultsDir V)
      → Keeps d d'
      → All (λ r. is_listed c (id_of c r) d' ≡ true) (limited c most (todo_of c configs runs d))
      → length (todo_of c configs runs d') + length (limited c most (todo_of c configs runs d))
        ≤ length (todo_of c configs runs d)
  unfolding todo_of
  todo_after configs most runs d d' k h =
      let p : Run → Bool = λ r. not (is_listed c (id_of c r) d') && is_chosen c configs r in
      let q : Run → Bool = λ r. not (is_listed c (id_of c r) d) && is_chosen c configs r in
      subst (λ xs. length xs + length (limited c most (select q runs)) ≤ length (select q runs))
        (select-within p q (λ r e. ground (arith, e, k (id_of c r))) runs)
        (length-done p most (select q runs) (not_todo configs d' _ h))

  Has-Keeps :
      (todo : List Run) (ran : ℕ) (d : ResultsDir V) (o : Ran c) → Has todo ran d o → Keeps d o.0.1
  Has-Keeps todo ran d ((raised x, d'), w) h = h
  Has-Keeps todo ran d ((ok n, d'), w) h = h.2

  run_known-Keeps :
      (q : Invocation) (d : ResultsDir V) (w : World) (known : Option (List Run))
      → Keeps d (run_known c q d w known).0.1
  unfolding run_known
  run_known-Keeps q d w none = λ id l. l
  run_known-Keeps q d w (some runs) =
      let todo = limited c q.max_runs (todo_of c q.configs runs d) in
      Has-Keeps todo 0 d (run_all c q.profile todo 0 d w) (run_all-Has q.profile todo 0 d w)

  -- However a call ends, what was listed in the manifest stays so.
  pub run_profile-Keeps :
      (q : Invocation) (d : ResultsDir V) (w : World) → Keeps d (run_profile c q d w).0.1
  unfolding run_profile
  run_profile-Keeps q d w = elim (Bool-cases (has_unknown c q.configs)) [
    | inl e ↦ rw e λ id l. l
    | inr e ↦ rw e (run_known-Keeps q d w (c.runs q.profile))
  ]

  known_complete :
      (q : Invocation) (runs : List Run) (d d' : ResultsDir V) (w w' : World) (n : ℕ)
      → run_known c q d w (some runs) ≡ ((ok n, d'), w')
      → (n ≡ length (limited c q.max_runs (todo_of c q.configs runs d)))
        × All
            (λ r. is_listed c (id_of c r) d' ≡ true)
            (limited c q.max_runs (todo_of c q.configs runs d))
        × (length (todo_of c q.configs runs d') + n ≤ length (todo_of c q.configs runs d))
  unfolding run_known
  known_complete q runs d d' w w' n h =
      let todo = limited c q.max_runs (todo_of c q.configs runs d) in
      let (e, all_listed, k) : Has todo 0 d ((ok n, d'), w') =
        subst (Has todo 0 d) h (run_all-Has q.profile todo 0 d w) in
      (
        omega (arith, e),
        all_listed,
        omega (arith, e, todo_after q.configs q.max_runs runs d d' k all_listed),
      )

  -- A call of the runner that returns has run as many runs as it answers, which are all that were
  -- left of its profile and its configurations, or as many of them as it was allowed; each of
  -- those is listed in the manifest afterwards, and at least as many fewer are left.
  pub run_profile_complete :
      (q : Invocation) (runs : List Run) (d d' : ResultsDir V) (w w' : World) (n : ℕ)
      → c.runs q.profile ≡ some runs
      → run_profile c q d w ≡ ((ok n, d'), w')
      → (n ≡ length (limited c q.max_runs (todo_of c q.configs runs d)))
        × All
            (λ r. is_listed c (id_of c r) d' ≡ true)
            (limited c q.max_runs (todo_of c q.configs runs d))
        × (length (todo_of c q.configs runs d') + n ≤ length (todo_of c q.configs runs d))
  unfolding run_profile
  run_profile_complete q runs d d' w w' n e h = elim (Bool-cases (has_unknown c q.configs)) [
    | inl u ↦ absurd (cc (u, h))
    | inr u ↦ known_complete q runs d d' w w' n (grind (arith, u, e, h))
  ]

-- ===== src/Migrations/Records.antt =====
-- What the loop over the migrations has recorded when it comes to its end.
use agentic_cloud_pipeline_g.Prelude.{
  String, Bool, ◌≡◌, ◌∙◌, refl, sym, ap, true, false, Option, none, some, List, [], ◌∷◌, ◌++◌,
  arith, eq_iff, All, Bool-cases, Option-cases, ◌⊎◌, inl, inr,
}
use agentic_cloud_pipeline_g.Migrations.Prefix.{
  apply_pending-skip, apply_pending-fail, apply_pending-next,
}
use mathlib.Core.Path.{subst}
use agentic_cloud_pipeline_g.Migrations.{
  Migration, Tracked, Database, Server, Outcome, applied, label, recorded, rows_of, tracked,
  differs, has_drifted, is_applied, is_some, record_version, commit, run_transaction,
  run_autocommit, run_one, apply_pending, pending_of,
}

recorded-append :
    (v c : String) (rows : List Tracked) (r : Tracked)
    → recorded v rows ≡ some c
    → recorded v (rows ++ r ∷ []) ≡ some c
unfolding recorded
recorded-append v c [] r h = absurd (ground (arith, h))
recorded-append v c (s ∷ rows) r h = ground (arith, h, recorded-append v c rows r)

recorded-new :
    (rows : List Tracked) (r : Tracked)
    → recorded r.version rows ≡ none
    → recorded r.version (rows ++ r ∷ []) ≡ some r.checksum
unfolding recorded
recorded-new [] r h = ground (arith, eq_iff r.version r.version)
recorded-new (s ∷ rows) r h = ground (arith, h, recorded-new rows r)

-- The table of versions exists.
abbrev pub HasTable : {S : Type 0} → Database S → Type 0
HasTable db = db.tracking ≡ some (rows_of db)

-- The table stays, and keeps what it has recorded.
abbrev pub Grows : {S : Type 0} → Database S → Database S → Type 0
Grows db db' =
    (HasTable db → HasTable db')
    × ((v c : String) → recorded v (rows_of db) ≡ some c → recorded v (rows_of db') ≡ some c)

-- A migration is recorded as it is on disk.
abbrev pub IsRecorded : {S : Type 0} → Database S → Migration → Type 0
IsRecorded db m = recorded m.version (rows_of db) ≡ some m.checksum

same-checksum :
    (m : Migration) (o : Option String)
    → differs m o ≡ false
    → is_some o ≡ true
    → o ≡ some m.checksum
same-checksum m none d t = absurd (ground (arith, t))
same-checksum m (some c) d t = ap some ((eq_iff c m.checksum).0 (ground (arith, d)))

-- What is in the table has not drifted: it is recorded as it is on disk.
pub All-undrifted :
    (ms : List Migration) (rows : List Tracked)
    → has_drifted ms rows ≡ false
    → All (λ m. is_applied rows m ≡ true → recorded m.version rows ≡ some m.checksum) ms
unfolding has_drifted is_applied
All-undrifted [] rows h = tt
All-undrifted (m ∷ ms) rows h = (
  same-checksum m (recorded m.version rows) (ground (arith, h)),
  All-undrifted ms rows (ground (arith, h)),
)

-- Migrations that are recorded as they are on disk have not drifted and are not pending.
pub All-settled :
    (ms : List Migration) (rows : List Tracked)
    → All (λ m. recorded m.version rows ≡ some m.checksum) ms
    → (has_drifted ms rows ≡ false) × (pending_of rows ms ≡ [])
unfolding has_drifted pending_of is_applied
All-settled [] rows h = (refl, refl)
All-settled (m ∷ ms) rows h =
    let i = All-settled ms rows h.1 in
    rw (h.0) (ground (arith, i.0, eq_iff m.checksum m.checksum), i.1)

module _ {S : Type 0} (server : Server S) where
  -- One migration: the table keeps its rows, and on success has the new one.
  abbrev Records : Migration → Database S → Bool × Database S → Type 0
  Records m db o = Grows db o.1 × (o.0 ≡ true → IsRecorded o.1 m)

  All-mono :
      (known : List Tracked) (ms : List Migration) (db db' : Database S)
      → Grows db db'
      → All (λ m. is_applied known m ≡ true → IsRecorded db m) ms
      → All (λ m. is_applied known m ≡ true → IsRecorded db' m) ms
  All-mono known [] db db' g k = tt
  All-mono known (m ∷ ms) db db' g k =
      (λ t. g.1 m.version m.checksum (k.0 t), All-mono known ms db db' g k.1)

  commit-Records :
      (m : Migration) (t : Option (List Tracked)) (s : S) (before : Database S)
      → rows_of before ≡ (elim t [ none ↦ [] | some rows ↦ rows ])
      → Records m before
          (commit (record_version server m (record { tracking = t; schema = s })) before)
  unfolding record_version commit is_applied
  commit-Records m none s before e = ((λ u. u, λ v c h. h), λ h. absurd (ground (arith, h)))
  commit-Records m (some rows) s before e = insertion (Option-cases (recorded m.version rows))
    where
      insertion :
          (recorded m.version rows ≡ none) ⊎ ((c : String) × (recorded m.version rows ≡ some c))
          → Records m before (
              commit (record_version server m (record { tracking = some rows; schema = s })) before)
      insertion (inl n) =
          rw (n, e)
            (
              (λ u. refl, λ v c h. recorded-append v c rows (tracked m) h),
              λ h. recorded-new rows (tracked m) n,
            )
      insertion (inr (c, f)) = rw f ((λ u. u, λ v d h. h), λ h. absurd (ground (arith, h)))

  run_transaction-Records :
      (m : Migration) (db : Database S) → Records m db (run_transaction server m db)
  unfolding run_transaction
  run_transaction-Records m db = elim (Option-cases (server.in_transaction m.sql db.schema)) [
    | inl n ↦ rw (run_transaction, n) ((λ u. u, λ v c h. h), λ h. absurd (ground (arith, h)))
    | inr (s, e) ↦ rw (run_transaction, e) (commit-Records m db.tracking s db refl)
  ]

  run_autocommit-Records :
      (m : Migration) (db : Database S) → Records m db (run_autocommit server m db)
  unfolding run_autocommit
  run_autocommit-Records m db =
      let (done, s) = server.autocommit m.sql db.schema in
      elim (Bool-cases (server.autocommit m.sql db.schema).0) [
        | inl t ↦ rw t (commit-Records m db.tracking s (record db { schema = s }) refl)
        | inr f ↦ rw f ((λ u. u, λ v c h. h), λ h. absurd (ground (arith, h)))
      ]

  run_one-Records : (m : Migration) (db : Database S) → Records m db (run_one server m db)
  unfolding run_one
  run_one-Records m db = elim (Bool-cases m.transactional) [
    | inl t ↦ rw t (run_transaction-Records m db)
    | inr f ↦ rw f (run_autocommit-Records m db)
  ]

  -- Everything the loop went over is recorded at its end.
  abbrev pub Spec : Database S → List Migration → Outcome × Database S → Type 0
  Spec db ms o = Grows db o.1 × All (IsRecorded o.1) ms

  -- The loop has recorded all that it went over, if it comes to its end.
  pub apply_pending-IsRecorded :
      (known : List Tracked) (ms : List Migration) (done result : List String) (db : Database S)
      → All (λ m. is_applied known m ≡ true → IsRecorded db m) ms
      → (apply_pending server known ms done db).0 ≡ applied result
      → Spec db ms (apply_pending server known ms done db)
  unfolding apply_pending
  apply_pending-IsRecorded known [] done result db k e = ((λ u. u, λ v c h. h), tt)
  apply_pending-IsRecorded known (m ∷ ms) done result db k e =
      elim (Bool-cases (is_applied known m)) [
        | inl t ↦
            let q = apply_pending-skip server known ms done db m t in
            let (g, a) =
              apply_pending-IsRecorded known ms done result db k.1 (sym (ap (λ o. o.0) q) ∙ e) in
            subst (Spec db (m ∷ ms)) (sym q) (g, (g.1 m.version m.checksum (k.0 t), a))
        | inr f ↦ elim (Bool-cases (run_one server m db).0) [
          | inr failure ↦
              absurd (ground (arith, apply_pending-fail server known ms done db m f failure, e))
          | inl success ↦
              let db' = (run_one server m db).1 in
              let (r, i) = run_one-Records m db in
              let q = apply_pending-next server known ms done db m f success in
              let (g, a) =
                apply_pending-IsRecorded known ms (done ++ label m ∷ []) result db'
                  (All-mono known ms db db' r k.1) (sym (ap (λ o. o.0) q) ∙ e) in
              subst (Spec db (m ∷ ms)) (sym q) (
                (λ u. g.0 (r.0 u), λ v c h. g.1 v c (r.1 v c h)),
                (g.1 m.version m.checksum (i success), a),
              )
        ]
      ]

-- ===== src/Migrations/Again.antt =====
-- Applying the migrations a second time, and what the report says before and after.
use mathlib.Core.List.{append-nil, append_assoc}
use agentic_cloud_pipeline_g.Migrations.Records.{
  HasTable, IsRecorded, All-undrifted, All-settled, apply_pending-IsRecorded,
}
use agentic_cloud_pipeline_g.Prelude.{
  String, ◌≡◌, ◌∙◌, refl, sym, ap, true, false, none, some, List, [], ◌∷◌, ◌++◌, map, arith, All,
  Bool-cases, Option-cases, inl, inr,
}
use mathlib.Core.Path.{subst}
use agentic_cloud_pipeline_g.Migrations.{
  Migration, File, Texts, Tracked, Database, Server, Outcome, applied, migration_error, label,
  discover, rows_of, has_drifted, ensure_tracking_table, run_one, apply_pending, apply_migrations,
  apply, pending_of, Status, status_of, status,
}

module _ {S : Type 0} (server : Server S) where
  apply_pending-settled :
      (known : List Tracked) (ms : List Migration) (done : List String) (db : Database S)
      → pending_of known ms ≡ []
      → apply_pending server known ms done db ≡ (applied done, db)
  unfolding pending_of apply_pending
  apply_pending-settled known [] done db h = refl
  apply_pending-settled known (m ∷ ms) done db h =
      ground (arith, h, apply_pending-settled known ms done db)

  ensure-HasTable : (db : Database S) → HasTable db → ensure_tracking_table db ≡ db
  unfolding ensure_tracking_table
  ensure-HasTable db h = ap (λ t. record db { tracking = t }) (sym h)

  apply_migrations-settled :
      (ms : List Migration) (db : Database S)
      → HasTable db
      → All (IsRecorded db) ms
      → apply_migrations server ms db ≡ (applied [], db)
  unfolding apply_migrations
  apply_migrations-settled ms db t h =
      let i = All-settled ms (rows_of db) h in
      rw (i.0, ensure-HasTable db t) (apply_pending-settled (rows_of db) ms [] db i.1)

  apply_migrations-undrifted :
      (ms : List Migration) (db : Database S)
      → has_drifted ms (rows_of db) ≡ false
      → apply_migrations server ms db
        ≡ apply_pending server (rows_of db) ms [] (ensure_tracking_table db)
  unfolding apply_migrations
  apply_migrations-undrifted ms db f = rw f refl

  apply_migrations-drifted :
      (ms : List Migration) (db : Database S)
      → has_drifted ms (rows_of db) ≡ true
      → apply_migrations server ms db ≡ (migration_error, ensure_tracking_table db)
  unfolding apply_migrations
  apply_migrations-drifted ms db t = rw t refl

  -- A run that is over and raised nothing had no drift, and has recorded all migrations.
  apply_migrations-Spec :
      (ms : List Migration) (db : Database S) (result : List String)
      → (apply_migrations server ms db).0 ≡ applied result
      → (has_drifted ms (rows_of db) ≡ false)
        × HasTable (apply_migrations server ms db).1
        × All (IsRecorded (apply_migrations server ms db).1) ms
  unfolding ensure_tracking_table
  apply_migrations-Spec ms db result e = elim (Bool-cases (has_drifted ms (rows_of db))) [
    | inl t ↦ absurd (ground (arith, apply_migrations-drifted ms db t, e))
    | inr f ↦
        let q = apply_migrations-undrifted ms db f in
        let (g, a) =
          apply_pending-IsRecorded server (rows_of db) ms [] result (ensure_tracking_table db)
            (All-undrifted ms (rows_of db) f) (sym (ap (λ o. o.0) q) ∙ e) in
        let (t, h) =
          subst (λ (o : Outcome × Database S). HasTable o.1 × All (IsRecorded o.1) ms) (sym q)
            (g.0 refl, a) in
        (f, t, h)
  ]

  apply_pending-labels :
      (known : List Tracked) (ms : List Migration) (done result : List String) (db : Database S)
      → (apply_pending server known ms done db).0 ≡ applied result
      → result ≡ done ++ map label (pending_of known ms)
  unfolding apply_pending pending_of
  apply_pending-labels known [] done result db e = sym (ground (arith, e)) ∙ sym (append-nil done)
  apply_pending-labels known (m ∷ ms) done result db e =
      let i = apply_pending-labels known ms done result db in
      let j = apply_pending-labels known ms (done ++ label m ∷ []) result (run_one server m db).1 in
      let assoc = append_assoc done (label m ∷ []) (map label (pending_of known ms)) in
      ground (arith, e, i, j, assoc)

  apply-some :
      (x : Texts) (files : List File) (ms : List Migration) (db : Database S)
      → discover x files ≡ some ms
      → apply server x files db ≡ apply_migrations server ms db
  unfolding apply
  apply-some x files ms db d = rw (apply, d) refl

  apply-none :
      (x : Texts) (files : List File) (db : Database S)
      → discover x files ≡ none
      → apply server x files db ≡ (migration_error, db)
  unfolding apply
  apply-none x files db d = rw (apply, d) refl

  status-some :
      (x : Texts) (files : List File) (ms : List Migration) (db : Database S)
      → discover x files ≡ some ms
      → (status x files db).0 ≡ status_of ms (rows_of db)
  unfolding status
  status-some x files ms db d = rw (status, d) refl

  -- When the migrations of a directory have been applied without an error, applying them again runs
  -- none of them, returns no label and leaves the database as it is.
  pub apply_again :
      (x : Texts) (files : List File) (db : Database S) (result : List String)
      → (apply server x files db).0 ≡ applied result
      → apply server x files (apply server x files db).1 ≡ (applied [], (apply server x files db).1)
  unfolding apply
  apply_again x files db result e = elim (Option-cases (discover x files)) [
    | inl n ↦ absurd (ground (arith, apply-none x files db n, e))
    | inr (ms, d) ↦
        let q = apply-some x files ms db d in
        let (f, t, a) = apply_migrations-Spec ms db result (sym (ap (λ o. o.0) q) ∙ e) in
        subst (λ (o : Outcome × Database S). apply server x files o.1 ≡ (applied [], o.1)) (sym q)
          (apply-some x files ms (apply_migrations server ms db).1 d
            ∙ apply_migrations-settled ms (apply_migrations server ms db).1 t a)
  ]

  status_of-undrifted :
      (ms : List Migration) (rows : List Tracked)
      → has_drifted ms rows ≡ false
      → (r : Status) × (status_of ms rows ≡ some r) × (r.pending ≡ map label (pending_of rows ms))
  unfolding status_of
  status_of-undrifted ms rows f = rw (status_of, f) (_, refl, refl)

  -- When applying the migrations raises no error, the report before it named as pending exactly the
  -- labels that it returns, in their order, and the report after it names nothing as pending.
  pub status-apply :
      (x : Texts) (files : List File) (db : Database S) (result : List String)
      → (apply server x files db).0 ≡ applied result
      → (r : Status) × (r' : Status) × ((status x files db).0 ≡ some r)
        × (r.pending ≡ result)
        × ((status x files (apply server x files db).1).0 ≡ some r')
        × (r'.pending ≡ [])
  status-apply x files db result e = elim (Option-cases (discover x files)) [
    | inl n ↦ absurd (ground (arith, apply-none x files db n, e))
    | inr (ms, d) ↦
        let q = apply-some x files ms db d in
        let i = sym (ap (λ o. o.0) q) ∙ e in
        let (f, t, a) = apply_migrations-Spec ms db result i in
        let db' = (apply_migrations server ms db).1 in
        let (r, s, p) = status_of-undrifted ms (rows_of db) f in
        let (g, b) = All-settled ms (rows_of db') a in
        let (r', s', p') = status_of-undrifted ms (rows_of db') g in
        let l =
          apply_pending-labels (rows_of db) ms [] result (ensure_tracking_table db)
            (sym (ap (λ o. o.0) (apply_migrations-undrifted ms db f)) ∙ i) in
        (
          r,
          r',
          status-some x files ms db d ∙ s,
          p ∙ sym l,
          ap (λ (o : Outcome × Database S). (status x files o.1).0) q
              ∙ status-some x files ms db' d
              ∙ s',
          p' ∙ ap (map label) b,
        )
  ]

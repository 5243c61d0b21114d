-- ===== src/Migrations/Prefix.antt =====
-- What is applied is a prefix of what was pending, in order, also when a migration fails.
use mathlib.Core.List.{append-nil, append_assoc}
use mathlib.Core.Path.{subst}
use agentic_cloud_pipeline_g.Prelude.{
  String, ◌≡◌, ◌∙◌, refl, sym, ap, Bool, any, str_eq, true, false, Option, none, some, List, [],
  ◌∷◌, ◌++◌, map, arith, All, Bool-cases, Option-cases, ◌⊎◌, inl, inr,
}
use agentic_cloud_pipeline_g.Migrations.{
  Migration, Tracked, Database, Server, Outcome, applied, sql_error, label, rows_of, tracked,
  has_drifted, recorded, is_applied, ensure_tracking_table, record_version, commit, run_transaction,
  run_one, apply_pending, apply_migrations, pending_of,
}

-- The three turns of the loop.
module _ {S : Type 0} (server : Server S) (known : List Tracked) (ms : List Migration)
    (done : List String) (db : Database S) (m : Migration) where
  pub apply_pending-skip :
      is_applied known m ≡ true
      → apply_pending server known (m ∷ ms) done db ≡ apply_pending server known ms done db
  unfolding apply_pending
  apply_pending-skip t = rw t refl

  pub apply_pending-fail :
      is_applied known m ≡ false
      → (run_one server m db).0 ≡ false
      → apply_pending server known (m ∷ ms) done db ≡ (sql_error, (run_one server m db).1)
  unfolding apply_pending
  apply_pending-fail f failure = rw (f, failure) refl

  pub apply_pending-next :
      is_applied known m ≡ false
      → (run_one server m db).0 ≡ true
      → apply_pending server known (m ∷ ms) done db
        ≡ apply_pending server known ms (done ++ label m ∷ []) (run_one server m db).1
  unfolding apply_pending
  apply_pending-next f success = rw (f, success) refl

-- What a list of migrations makes of a schema, each in a transaction.
unfoldable pub migrated : {S : Type 0} → Server S → List Migration → S → Option S
migrated server [] s = some s
migrated server (m ∷ ms) s = elim (server.in_transaction m.sql s) [
  | none ↦ none
  | some s' ↦ migrated server ms s'
]

abbrev pub IsTransactional : Migration → Type 0
IsTransactional m = m.transactional ≡ true

-- A migration fails where its statements do, or where its version is among the rows `known`.
unfoldable pub fails : {S : Type 0} → Server S → List Tracked → S → Migration → Bool
fails server known s m = elim (server.in_transaction m.sql s) [
  | none ↦ true
  | some s' ↦ any (λ (t : Tracked). str_eq t.version m.version) known
]

-- The loop has stopped: with no migration left, or because the first that is left fails on what the
-- others have made of the database.
abbrev pub IsStopped :
    {S : Type 0} → Server S → List Tracked → S → List Migration → Outcome → Outcome → Type 0
IsStopped server known s [] success o = o ≡ success
IsStopped server known s (m ∷ ms) success o = (fails server known s m ≡ true) × (o ≡ sql_error)

-- An end of the loop, from `done`: the database has exactly what the migrations `ran` give it, and
-- the loop has stopped at the `rest`.
pub record Ended {S : Type 0} (server : Server S) (rows : List Tracked) (s : S) (done : List String)
    (pending : List Migration) (o : Outcome × Database S) : Type 0 where
  pub ran : List Migration
  pub rest : List Migration
  pub left : S
  pub in_order : ran ++ rest ≡ pending
  pub result : migrated server ran s ≡ some left
  pub database : o.1 ≡ record { tracking = some (rows ++ map tracked ran); schema = left }
  pub outcome :
      IsStopped server (rows ++ map tracked ran) left rest (applied (done ++ map label ran)) o.0

is_applied-any :
    (m : Migration) (rows : List Tracked)
    → is_applied rows m ≡ any (λ (t : Tracked). str_eq t.version m.version) rows
unfolding is_applied recorded
is_applied-any m [] = refl
is_applied-any m (t ∷ rows) = ground (arith, is_applied-any m rows)

module _ {S : Type 0} (server : Server S) where
  -- One migration in its transaction.
  run_one-transaction :
      (m : Migration) (rows : List Tracked) (s : S)
      → IsTransactional m
      → ((fails server rows s m ≡ true)
          × (run_one server m (record { tracking = some rows; schema = s })
              ≡ (false, record { tracking = some rows; schema = s })))
        ⊎ ((s' : S) × (server.in_transaction m.sql s ≡ some s')
            × (run_one server m (record { tracking = some rows; schema = s })
                ≡ (true, record { tracking = some (rows ++ tracked m ∷ []); schema = s' })))
  unfolding run_one run_transaction record_version commit fails
  run_one-transaction m rows s t = elim (Option-cases (server.in_transaction m.sql s)) [
    | inl n ↦ inl (rw (fails, n) refl, rw (run_one, run_transaction, t, n) refl)
    | inr (s', e) ↦ elim (Bool-cases (is_applied rows m)) [
      | inl y ↦ inl (
        rw (fails, e) (sym (is_applied-any m rows) ∙ y),
        rw (run_one, run_transaction, t, e, y) refl,
      )
      | inr z ↦ inr (s', e, rw (run_one, run_transaction, t, e, z) refl)
    ]
  ]

  Ended-cong :
      (rows : List Tracked) (s : S) (done : List String) (p p' : List Migration)
      (o o' : Outcome × Database S)
      → p ≡ p'
      → o ≡ o'
      → Ended server rows s done p' o'
      → Ended server rows s done p o
  Ended-cong rows s done p p' o o' e f h =
      subst (λ q. Ended server rows s done q o) (sym e)
        (subst (λ q. Ended server rows s done p' q) (sym f) h)

  pending_of-skip :
      (known : List Tracked) (m : Migration) (ms : List Migration)
      → is_applied known m ≡ true
      → pending_of known (m ∷ ms) ≡ pending_of known ms
  unfolding pending_of
  pending_of-skip known m ms t = rw t refl

  pending_of-next :
      (known : List Tracked) (m : Migration) (ms : List Migration)
      → is_applied known m ≡ false
      → pending_of known (m ∷ ms) ≡ m ∷ pending_of known ms
  unfolding pending_of
  pending_of-next known m ms f = rw f refl

  -- A migration that ran stands before those that ran after it.
  Ended-next :
      (m : Migration) (rows : List Tracked) (s s' : S) (done : List String) (p : List Migration)
      (o : Outcome × Database S)
      → server.in_transaction m.sql s ≡ some s'
      → Ended server (rows ++ tracked m ∷ []) s' (done ++ label m ∷ []) p o
      → Ended server rows s done (m ∷ p) o
  unfolding migrated
  Ended-next m rows s s' done p o e h = record {
    ran = m ∷ h.ran;
    rest = h.rest;
    left = h.left;
    in_order = ap (λ q. m ∷ q) h.in_order;
    result = rw (migrated, e) h.result;
    database =
        h.database
        ∙ ap (λ t. record { tracking = some t; schema = h.left })
            (append_assoc rows (tracked m ∷ []) (map tracked h.ran));
    outcome =
        rw
          (
            append_assoc rows (tracked m ∷ []) (map tracked h.ran),
            append_assoc done (label m ∷ []) (map label h.ran),
          )
          at h.outcome;
  }

  apply_pending-Ended :
      (known : List Tracked) (ms : List Migration) (done : List String) (rows : List Tracked)
      (s : S)
      → All IsTransactional ms
      → Ended server rows s done
          (pending_of known ms)
          (apply_pending server known ms done (record { tracking = some rows; schema = s }))
  unfolding pending_of apply_pending migrated
  apply_pending-Ended known [] done rows s h = record {
    ran = [];
    rest = [];
    left = s;
    in_order = refl;
    result = refl;
    database = ap (λ t. record { tracking = some t; schema = s }) (sym (append-nil rows));
    outcome = ap applied (sym (append-nil done));
  }
  apply_pending-Ended known (m ∷ ms) done rows s h =
      let db : Database S = record { tracking = some rows; schema = s } in
      elim (Bool-cases (is_applied known m)) [
        | inl t ↦
            Ended-cong rows s done _ _ _ _ (pending_of-skip known m ms t)
              (apply_pending-skip server known ms done db m t)
              (apply_pending-Ended known ms done rows s h.1)
        | inr f ↦ elim (run_one-transaction m rows s h.0) [
          | inl (why, e) ↦
              Ended-cong rows s done _ _ _ _ (pending_of-next known m ms f)
                (apply_pending-fail server known ms done db m f (ap (λ o. o.0) e)
                  ∙ ap (λ o. (sql_error, o.1)) e)
                (record {
                  ran = [];
                  rest = m ∷ pending_of known ms;
                  left = s;
                  in_order = refl;
                  result = refl;
                  database =
                      ap (λ t. record { tracking = some t; schema = s }) (sym (append-nil rows));
                  outcome = (rw append-nil why, refl);
                })
          | inr (s', k, e) ↦
              Ended-cong rows s done _ _ _ _ (pending_of-next known m ms f)
                (apply_pending-next server known ms done db m f (ap (λ o. o.0) e)
                  ∙ ap (λ o. apply_pending server known ms (done ++ label m ∷ []) o.1) e)
                (Ended-next m rows s s' done _ _ k (
                  apply_pending-Ended known ms (done ++ label m ∷ []) (rows ++ tracked m ∷ []) s'
                    h.1))
        ]
      ]

  -- When every migration runs in a transaction and none has drifted, whatever the statements do, a
  -- run applies a prefix of the pending migrations in order: the schema is what exactly those
  -- make of it, the table has a new row for each of them and no other, and either all of them ran
  -- and their labels are returned, or the first of the others fails on that schema and table, by its
  -- statements or for a version that the table has, and the error is raised.
  pub apply_migrations-Ended :
      (ms : List Migration) (db : Database S)
      → All IsTransactional ms
      → has_drifted ms (rows_of db) ≡ false
      → Ended server
          (rows_of db)
          db.schema
          []
          (pending_of (rows_of db) ms)
          (apply_migrations server ms db)
  unfolding apply_migrations ensure_tracking_table
  apply_migrations-Ended ms db h f =
      Ended-cong (rows_of db) db.schema [] _ _ _ _ refl (rw f refl)
        (apply_pending-Ended (rows_of db) ms [] (rows_of db) db.schema h)

-- ===== src/Migrations.antt =====
-- Schema migrations: src/acde/migrations/__init__.py. What a file name matches, the checksum of a
-- text and the search for the marker are parameters, as is what the database makes of a migration's
-- statements: in a transaction they give a new schema or fail, outside of one they leave what they
-- did. The statements are taken not to touch the table of versions, and the session's lock is left
-- out: no other process migrates meanwhile.
pub mod Records
pub mod Again
pub mod Prefix
use Prim.Native.Nat.{Ordering}
use Prim.Native.String.{compare, ◌++◌ as ◌<>◌}
use agentic_cloud_pipeline_g.Prelude.{
  String, Bool, true, false, not, ◌||◌, Option, none, some, List, [], ◌∷◌, ◌++◌, map, str_eq,
  if◌then◌else◌, select, any,
}
use agentic_cloud_pipeline_g.Prelude.Dict.{Dict, lookup, insert}
use agentic_cloud_pipeline_g.Prelude.Sorting.{sort_by}

pub record Migration : Type 0 where
  pub version : String
  pub name : String
  pub sql : String
  pub checksum : String
  pub transactional : Bool

unfoldable pub label : Migration → String
label m = m.version <> "_" <> m.name

-- A file of the directory: its name and its text.
pub record File : Type 0 where
  pub file_name : String
  pub text : String

abbrev pub str_leb : String → String → Bool
str_leb a b = elim (compare a b) [ Ordering.gt ↦ false | _ ↦ true ]

-- What the regular expression, the hash and the search for the marker give.
pub record Texts : Type 0 where
  pub match_name : String → Option (String × String)
  pub hash : String → String
  pub has_marker : String → Bool

abbrev pub file_order : File → File → Bool
file_order a b = str_leb a.file_name b.file_name

abbrev pub version_order : String × Migration → String × Migration → Bool
version_order a b = str_leb a.0 b.0

module _ (x : Texts) where
  unfoldable pub migration_of : String → String → String → Migration
  migration_of version name sql = record {
    version = version;
    name = name;
    sql = sql;
    checksum = x.hash sql;
    transactional = not (x.has_marker sql);
  }

  -- The body of the loop of `discover`; `none` is the error.
  unfoldable pub add_file : File → Dict Migration → Option (Dict Migration)
  unfolding migration_of lookup insert
  add_file f found = elim (x.match_name f.file_name) [
    | none ↦ none
    | some (version, name) ↦ elim (lookup version found) [
      | some other ↦ none
      | none ↦ some (insert version (migration_of version name f.text) found)
    ]
  ]

  unfoldable pub add_files : List File → Dict Migration → Option (Dict Migration)
  unfolding add_file
  add_files [] found = some found
  add_files (f ∷ fs) found = elim (add_file f found) [
    | none ↦ none
    | some found' ↦ add_files fs found'
  ]

  unfoldable pub discover : List File → Option (List Migration)
  unfolding add_files sort_by
  discover files = elim (add_files (sort_by file_order files) []) [
    | none ↦ none
    | some found ↦ some (map (λ e. e.1) (sort_by version_order found))
  ]

-- A row of control.schema_migrations.
pub record Tracked : Type 0 where
  pub version : String
  pub name : String
  pub checksum : String

-- The database: the table of versions, if it exists, and the schema that the migrations change.
pub record Database (S : Type 0) : Type 0 where
  pub tracking : Option (List Tracked)
  pub schema : S

-- The database's answers: to statements in a transaction, `none` when they fail; and outside of one,
-- whether they succeed and the schema that is left.
pub record Server (S : Type 0) : Type 0 where
  pub in_transaction : String → S → Option S
  pub autocommit : String → S → Bool × S

-- The checksum of a version in the table.
unfoldable pub recorded : String → List Tracked → Option String
recorded v [] = none
recorded v (r ∷ rs) =
    let rest = recorded v rs in if str_eq r.version v then some r.checksum else rest

abbrev pub rows_of : {S : Type 0} → Database S → List Tracked
rows_of db = elim db.tracking [ none ↦ [] | some rows ↦ rows ]

abbrev pub tracked : Migration → Tracked
tracked m = record { version = m.version; name = m.name; checksum = m.checksum }

abbrev pub is_some : {A : Type 0} → Option A → Bool
is_some none = false
is_some (some a) = true

abbrev differs : Migration → Option String → Bool
differs m none = false
differs m (some c) = not (str_eq c m.checksum)

-- Whether `_verify_no_drift` raises.
unfoldable pub has_drifted : List Migration → List Tracked → Bool
unfolding recorded
has_drifted ms rows = any (λ m. differs m (recorded m.version rows)) ms

-- `migration.version in applied`
unfoldable pub is_applied : List Tracked → Migration → Bool
unfolding recorded
is_applied rows m = is_some (recorded m.version rows)

-- `_ensure_tracking_table`
unfoldable pub ensure_tracking_table : {S : Type 0} → Database S → Database S
ensure_tracking_table db = record db { tracking = some (rows_of db) }

-- What `apply` returns, or what it raises: for the files, or for the statements.
pub data Outcome : Type 0 where
  applied : List String → Outcome
  migration_error : Outcome
  sql_error : Outcome

-- What is committed, and whether that is the whole transaction.
unfoldable pub commit : {S : Type 0} → Option (Database S) → Database S → Bool × Database S
commit none db = (false, db)
commit (some db') db = (true, db')

module _ {S : Type 0} (server : Server S) where
  -- The INSERT of a version, the table's primary key.
  unfoldable pub record_version : Migration → Database S → Option (Database S)
  unfolding is_applied
  record_version m db = elim db.tracking [
    | none ↦ none
    | some rows ↦
        if is_applied rows m
        then none
        else some (record db { tracking = some (rows ++ tracked m ∷ []) })
  ]

  unfoldable pub run_transaction : Migration → Database S → Bool × Database S
  unfolding record_version commit
  run_transaction m db = elim (server.in_transaction m.sql db.schema) [
    | none ↦ (false, db)
    | some s ↦ commit (record_version m (record db { schema = s })) db
  ]

  unfoldable pub run_autocommit : Migration → Database S → Bool × Database S
  unfolding record_version commit
  run_autocommit m db =
      let (done, s) = server.autocommit m.sql db.schema in
      let db' : Database S = record db { schema = s } in
      if done then commit (record_version m db') db' else (false, db')

  unfoldable pub run_one : Migration → Database S → Bool × Database S
  unfolding run_transaction run_autocommit
  run_one m db = if m.transactional then run_transaction m db else run_autocommit m db

  -- The loop of `apply`; `known` is what was applied when it began.
  unfoldable pub apply_pending :
      List Tracked → List Migration → List String → Database S → Outcome × Database S
  unfolding is_applied run_one label
  apply_pending known [] done db = (applied done, db)
  apply_pending known (m ∷ ms) done db =
      let (succeeded, db') = run_one m db in
      let skipped = apply_pending known ms done db in
      let rest = apply_pending known ms (done ++ label m ∷ []) db' in
      if is_applied known m then skipped else (if succeeded then rest else (sql_error, db'))

  unfoldable pub apply_migrations : List Migration → Database S → Outcome × Database S
  unfolding ensure_tracking_table has_drifted apply_pending
  apply_migrations ms db =
      let db' = ensure_tracking_table db in
      let known = rows_of db in
      if has_drifted ms known then (migration_error, db') else apply_pending known ms [] db'

  unfoldable pub apply : Texts → List File → Database S → Outcome × Database S
  unfolding discover apply_migrations
  apply x files db = elim (discover x files) [
    | none ↦ (migration_error, db)
    | some ms ↦ apply_migrations ms db
  ]

-- What `status` reports.
pub record Status : Type 0 where
  pub applied : List String
  pub pending : List String
  pub current_version : Option String

unfoldable pub pending_of : List Tracked → List Migration → List Migration
unfolding is_applied
pending_of rows = select (λ m. not (is_applied rows m))

abbrev greatest : List Tracked → Option String
greatest [] = none
greatest (r ∷ rs) = some (elim (greatest rs) [
  | none ↦ r.version
  | some v ↦ if str_leb r.version v then v else r.version
])

unfoldable pub status_of : List Migration → List Tracked → Option Status
unfolding has_drifted pending_of label sort_by
status_of ms rows =
    if has_drifted ms rows
    then none
    else some (record {
      applied = sort_by str_leb (map (λ r. r.version) rows);
      pending = map label (pending_of rows ms);
      current_version = greatest rows;
    })

-- `none` is the error; the table of versions is created.
unfoldable pub status : {S : Type 0} → Texts → List File → Database S → Option Status × Database S
unfolding discover status_of ensure_tracking_table
status x files db = elim (discover x files) [
  | none ↦ (none, db)
  | some ms ↦ (status_of ms (rows_of db), ensure_tracking_table db)
]

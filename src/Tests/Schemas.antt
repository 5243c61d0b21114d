-- ===== src/Tests/Schemas.antt =====
-- The migrations at concrete data: two files, on a database without a table of versions. A schema is
-- how many files made it, and the third file's statements fail.
use agentic_cloud_pipeline_g.Prelude.{
  ℕ, ◌+◌, String, ◌≡◌, refl, true, Option, none, some, List, [], ◌∷◌, str_eq, if◌then◌else◌,
}
use agentic_cloud_pipeline_g.Migrations.{
  Migration, File, Texts, Database, Server, applied, apply, apply_migrations, has_drifted,
  pending_of,
}
use agentic_cloud_pipeline_g.Migrations.Again.{apply_again}
use agentic_cloud_pipeline_g.Migrations.Prefix.{Ended, apply_migrations-Ended}

abbrev named : String → Option (String × String)
named n =
    if str_eq n "001_a.sql"
    then some ("001", "a")
    else (if str_eq n "002_b.sql" then some ("002", "b") else none)

abbrev texts : Texts
texts = record { match_name = named; hash = λ s. s; has_marker = λ s. str_eq s "index" }

abbrev server : Server ℕ
server = record {
  in_transaction = λ sql n. if str_eq sql "broken" then none else some (n + 1);
  autocommit = λ sql n. (true, n + 1);
}

abbrev files : List File
files =
    record { file_name = "002_b.sql"; text = "index" }
    ∷ record { file_name = "001_a.sql"; text = "table" }
    ∷ []

abbrev empty : Database ℕ
empty = record { tracking = none; schema = 0 }

both_apply : (apply server texts files empty).0 ≡ applied ("001_a" ∷ "002_b" ∷ [])
unfolding apply
both_apply = refl

apply_again_example :
    apply server texts files (apply server texts files empty).1
    ≡ (applied [], (apply server texts files empty).1)
apply_again_example = apply_again server texts files empty ("001_a" ∷ "002_b" ∷ []) both_apply

abbrev migration : String → String → Migration
migration v sql = record {
  version = v;
  name = "m";
  sql = sql;
  checksum = sql;
  transactional = true;
}

abbrev failing : List Migration
failing = migration "001" "table" ∷ migration "002" "broken" ∷ migration "003" "view" ∷ []

apply_migrations-Ended_example :
    Ended server [] 0 [] (pending_of [] failing) (apply_migrations server failing empty)
unfolding has_drifted
apply_migrations-Ended_example =
    apply_migrations-Ended server failing empty (refl, (refl, (refl, tt))) refl

-- ===== src/Tests/Runner.antt =====
-- A run of the theorem on migrations.
use dora_service_utils.Base.{false, none, List, [], ◌∷◌}
use dora_service_utils.Base.Int.{pos}
use dora_service_utils.Base.Text.{Str, codes}
use dora_service_utils.Base.Result.{ok}
use dora_service_utils.Migration.Runner.{Database, Entry}
use dora_service_utils.Migration.Runner.Plan.{Action, apply, set_version}

abbrev as_is : Str → Str
as_is line = line

-- A database that keeps the statements it has run, the last first, and is at version 1.
abbrev log_database : Database
log_database = record {
  State = List Str;
  read_table = λ t s. ok tt;
  update_ddl = λ stmt s. (stmt ∷ s, ok (ok tt, false));
  execute = λ stmt s. (stmt ∷ s, ok tt);
  query_version = λ t s. ok (pos 1 ∷ []);
  insert_version = λ t v s. (t ∷ s, ok tt);
}

abbrev file : Str → Str → Entry
file name line = record {
  walk_error = none;
  is_dir = false;
  stat = ok name;
  lines = ok (line ∷ []);
}

abbrev files : List Entry
files = file (codes "1.sql") (codes "DROP TABLE t") ∷ file (codes "2.sql") (codes "DELETE u") ∷ []

abbrev actions : List Action
actions = apply (codes "DELETE u") ∷ set_version (pos 2) ∷ []

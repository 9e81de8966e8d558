-- ===== src/Migration/Runner/Plan.antt =====
-- What Migrate of migration/migration.go does to the database, as the run of a plan that the files
-- and the current version give.
use dora_service_utils.Base.{Option, none, some, List, [], ◌∷◌, ◌++◌, if◌then◌else◌}
use dora_service_utils.Base.Int.{ℤ, leb_ℤ}
use dora_service_utils.Base.Text.{Str}
use dora_service_utils.Base.Result.{Result, ok, err}
use dora_service_utils.Migration.Runner.{
  Database, Entry, entry_version, entry_statements, Outcome, and_then, apply_statement,
  set_current_version,
}

pub data Action : Type 0 where
  apply : Str → Action
  set_version : ℤ → Action

abbrev pub apply_all : List Str → List Action
apply_all [] = []
apply_all (stmt ∷ stmts) = apply stmt ∷ apply_all stmts

-- The statements of a newer migration, then its version.
abbrev pub file_actions : ℤ → Result (List Str) → Option (List Action)
file_actions version (err e) = none
file_actions version (ok stmts) = some (apply_all stmts ++ (set_version version ∷ []))

abbrev pub joined : Option (List Action) → Option (List Action) → Option (List Action)
joined (some a) (some b) = some (a ++ b)
joined _ _ = none

module _ (trim_space : Str → Str) where
  abbrev pub version_actions : ℤ → Entry → Option (Result ℤ) → Option (List Action)
  version_actions current d (some (ok version)) =
      if leb_ℤ version current
      then some []
      else file_actions version (entry_statements trim_space d)
  version_actions current d _ = none

  -- none where the entry cannot be read.
  abbrev pub entry_actions : ℤ → Entry → Option (List Action)
  entry_actions current d = elim d.walk_error [
    | some e ↦ none
    | none ↦ if d.is_dir then some [] else version_actions current d (entry_version trim_space d)
  ]

  -- The actions for all files that are newer than the current version, in the order of the walk.
  abbrev pub plan : ℤ → List Entry → Option (List Action)
  plan current [] = some []
  plan current (d ∷ entries) = joined (entry_actions current d) (plan current entries)

  module _ (db : Database) where
    open db use {State, read_table}

    abbrev pub perform : Action → State → Outcome trim_space db
    perform (apply stmt) s = apply_statement trim_space db stmt s
    perform (set_version version) s = set_current_version trim_space db version s

    -- The actions one after the other, up to the first that fails.
    abbrev pub perform_all : List Action → State → Outcome trim_space db
    perform_all [] s = (s, ok tt)
    perform_all (a ∷ actions) s = and_then trim_space db (perform a s) (λ t. perform_all actions t)

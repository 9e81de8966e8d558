-- ===== src/Migration/Runner.antt =====
-- migration/migration.go: Migrate over a directory of migration files. The database behind the
-- Spanner client is a parameter, a state with the calls that the source makes; the walk of fs.WalkDir
-- is the list of the entries that it visits, each with what opening and reading it gives. none is
-- the panic of ParseVersion. Messages of the log are left out.
pub mod Plan
pub mod Performs
use dora_service_utils.Base.{
  ℕ, zero, suc, Bool, true, false, not, ◌||◌, Option, none, some, List, [], ◌∷◌, ◌++◌,
  if◌then◌else◌,
}
use dora_service_utils.Base.Int.{ℤ, pos, leb_ℤ}
use dora_service_utils.Base.Text.{Str, codes, has_prefix, to_lower}
use dora_service_utils.Base.Result.{Result, ok, err, Error, wrap_error, ◌>>=◌}
use dora_service_utils.Migration.{parse_version, parse_migration_file}

-- SchemaVersionTable
abbrev pub schema_version_table : Str
schema_version_table = codes "schema_migrations"

-- A line break and the tabs of the text's indentation.
abbrev new_line : ℕ → Str
new_line zero = 10 ∷ []
new_line (suc tabs) = new_line tabs ++ (9 ∷ [])

-- The statement of EnsureMigrationTable.
unfoldable pub create_table : Str → Str
create_table table =
    codes "CREATE TABLE IF NOT EXISTS "
    ++ table
    ++ codes " ("
    ++ new_line 4
    ++ codes "version BIGINT NOT NULL PRIMARY KEY,"
    ++ new_line 4
    ++ codes "created_at TIMESTAMPTZ NOT NULL DEFAULT now()"
    ++ new_line 3
    ++ codes ");"

pub record Database : Type 1 where
  pub State : Type 0
  -- `Single().Read(...)` of all keys of a table, and the `Do` that follows
  pub read_table : Str → State → Result (Unit {0})
  -- UpdateDatabaseDdl, with what `op.Wait` returns and `op.Done()` after it
  pub update_ddl : Str → State → State × Result (Result (Unit {0}) × Bool)
  -- ReadWriteTransaction with one Update of a statement
  pub execute : Str → State → State × Result (Unit {0})
  -- the rows of the query for the greatest version of a table
  pub query_version : Str → State → Result (List ℤ)
  -- ReadWriteTransaction with the insert of a version into a table
  pub insert_version : Str → ℤ → State → State × Result (Unit {0})

-- A file or a directory: the error that the walk gives with it, fs.Stat's name, and the lines.
pub record Entry : Type 0 where
  pub walk_error : Option Error
  pub is_dir : Bool
  pub stat : Result Str
  pub lines : Result (List Str)

-- The last row, or 0.
last_version : ℤ → List ℤ → ℤ
last_version v [] = v
last_version v (w ∷ rows) = last_version w rows

module _ (trim_space : Str → Str) where
  unfoldable pub is_ddl : Str → Bool
  is_ddl stmt =
      let sql = to_lower (trim_space stmt) in
      has_prefix sql (codes "create")
      || has_prefix sql (codes "alter")
      || has_prefix sql (codes "drop")
      || has_prefix sql (codes "grant")
      || has_prefix sql (codes "revoke")

  -- `parser.ParseVersion()` and `parser.ParseMigrationFile()`
  unfoldable pub entry_version : Entry → Option (Result ℤ)
  unfolding parse_version
  entry_version d = elim d.stat [ err e ↦ some (err e) | ok name ↦ parse_version name ]

  unfoldable pub entry_statements : Entry → Result (List Str)
  entry_statements d = do lines ← d.lines; ok (parse_migration_file trim_space lines)

  module _ (db : Database) where
    open db use {State, read_table, update_ddl, execute, query_version, insert_version}

    abbrev pub Outcome : Type 0
    Outcome = State × Result (Unit {0})

    -- `if err != nil { return err }`, then the rest.
    abbrev pub and_then : Outcome → (State → Outcome) → Outcome
    and_then (s, ok u) next = next s
    and_then (s, err e) next = (s, err e)

    -- The result of a call with the error wrapped.
    abbrev pub wrapping : Outcome → Outcome
    wrapping (s, r) = (s, wrap_error r)

    -- `op.Wait(ctx)`: done or not, an error of it is returned, wrapped.
    waited : State × Result (Result (Unit {0}) × Bool) → Outcome
    waited (s, err e) = (s, err e)
    waited (s, ok (r, done)) = (s, wrap_error r)

    unfoldable pub apply_statement : Str → State → Outcome
    unfolding is_ddl waited
    apply_statement stmt s =
        if is_ddl stmt then waited (update_ddl stmt s) else wrapping (execute stmt s)

    unfoldable pub apply_statements : List Str → State → Outcome
    unfolding apply_statement
    apply_statements [] s = (s, ok tt)
    apply_statements (stmt ∷ stmts) s =
        and_then (apply_statement stmt s) (λ t. apply_statements stmts t)

    -- SetCurrentVersion, with the wrapped error of its caller
    unfoldable pub set_current_version : ℤ → State → Outcome
    set_current_version version s = wrapping (insert_version schema_version_table version s)

    unfoldable pub apply_migration : ℤ → Result (List Str) → State → Outcome
    unfolding apply_statements set_current_version
    apply_migration version (err e) s = (s, err e)
    apply_migration version (ok stmts) s =
        and_then (apply_statements stmts s) (λ t. set_current_version version t)

    unfoldable pub migrate_version : ℤ → Entry → Option (Result ℤ) → State → Option Outcome
    unfolding apply_migration entry_statements
    migrate_version current d none s = none
    migrate_version current d (some (err e)) s = some (s, err e)
    migrate_version current d (some (ok version)) s =
        if leb_ℤ version current
        then some (s, ok tt)
        else some (apply_migration version (entry_statements d) s)

    -- The function that the walk calls.
    unfoldable pub visit : ℤ → Entry → State → Option Outcome
    unfolding migrate_version entry_version
    visit current d s = elim d.walk_error [
      | some e ↦ some (s, err e)
      | none ↦ if d.is_dir then some (s, ok tt) else migrate_version current d (entry_version d) s
    ]

    unfoldable pub continue_walk : Option Outcome → (State → Option Outcome) → Option Outcome
    continue_walk none next = none
    continue_walk (some (s, ok u)) next = next s
    continue_walk (some (s, err e)) next = some (s, err e)

    unfoldable pub walk : ℤ → List Entry → State → Option Outcome
    unfolding visit continue_walk
    walk current [] s = some (s, ok tt)
    walk current (d ∷ entries) s = continue_walk (visit current d s) (λ t. walk current entries t)

    created : State × Result (Result (Unit {0}) × Bool) → Outcome
    created (s, err e) = (s, err e)
    created (s, ok (r, done)) = (s, r)

    unfoldable pub ensure_migration_table : State → Outcome
    unfolding create_table created
    ensure_migration_table s = elim (read_table schema_version_table s) [
      | ok u ↦ (s, ok tt)
      | err e ↦ created (update_ddl (create_table schema_version_table) s)
    ]

    unfoldable pub get_current_version : State → Result ℤ
    unfolding last_version
    get_current_version s = do
      rows ← query_version schema_version_table s
      ok (last_version (pos 0) rows)

    unfoldable pub walk_from : List Entry → State → Result ℤ → Option Outcome
    unfolding walk
    walk_from entries s (err e) = some (s, err e)
    walk_from entries s (ok current) = walk current entries s

    unfoldable pub after_table : List Entry → Outcome → Option Outcome
    unfolding walk_from get_current_version
    after_table entries (s, err e) = some (s, err e)
    after_table entries (s, ok u) = walk_from entries s (get_current_version s)

    unfoldable pub migrate : List Entry → State → Option Outcome
    unfolding ensure_migration_table after_table
    migrate entries s = after_table entries (ensure_migration_table s)

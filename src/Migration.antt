-- ===== src/Migration.antt =====
-- migration/parser.go: the statements of a migration file and the version in its name. A file is the
-- list of the lines that bufio.Scanner gives, and the version is parsed from the name that fs.Stat
-- gives; opening, closing and what is done with the statements (migration.go) are left out. A line
-- above the scanner's 64 KB ends its Scan, and the file is then the lines before it.
pub mod RoundTrip
pub mod Version
pub mod Runner
use dora_service_utils.Base.{
  ℕ, Bool, true, false, not, ◌&&◌, ◌||◌, Option, none, some, List, [], ◌∷◌, ◌++◌, if◌then◌else◌,
  ltb, nat_beq, length,
}
use dora_service_utils.Base.Int.{ℤ}
use dora_service_utils.Base.Text.{
  Str, codes, str_beq, has_prefix, contains_str, to_lower, push_piece,
}
use dora_service_utils.Base.Result.{Result, ok, err, plain}
use dora_service_utils.Base.ParseInt.{parse_int}

unfoldable pub is_statement_start : Str → Bool
is_statement_start line0 =
    let line = to_lower line0 in has_prefix line (codes "--") && contains_str (codes "+start") line

unfoldable pub is_statement_end : Str → Bool
is_statement_end line = has_prefix line (codes "--") && contains_str (codes "+end") line

abbrev pub opens : Str → Bool
opens line = contains_str (codes "/*") line

abbrev pub closes : Str → Bool
closes line = contains_str (codes "*/") line

-- Whether the line is a comment, and whether a comment is still open after it.
unfoldable pub check_comment : Str → Bool → Bool × Bool
check_comment line multiline =
    if (multiline && not (opens line) && not (closes line))
      || (not multiline && opens line && not (closes line))
    then (true, true)
    else if multiline && closes line
    then (true, false)
    else if has_prefix line (codes "--") || has_prefix line (codes "/*")
    then (true, false)
    else (false, false)

-- `statementBuilder.Len() > 0`
abbrev pub has_text : Str → Bool
has_text builder = ltb 0 (length builder)

module _ (trim_space : Str → Str) where
  -- The loop over the lines: the statements, the statement that is being built and whether a comment
  -- is open. `isComment` is set by each line that reads it. `addAndReset` closes a comment as well.
  unfoldable pub parse_lines : List Str → Str → Bool → List Str → List Str
  parse_lines statements builder multi_line [] =
      if has_text builder then statements ++ (builder ∷ []) else statements
  parse_lines statements builder multi_line (line ∷ lines) =
      let blank = nat_beq (length (trim_space line)) 0 in
      let start = is_statement_start line in
      let flush =
        not blank && ((start && has_text builder) || (not start && is_statement_end line)) in
      let skip = blank || start || is_statement_end line in
      let (is_comment, multi_line') = check_comment line multi_line in
      parse_lines (if flush then statements ++ (builder ∷ []) else statements)
        (if flush then [] else if skip || is_comment then builder else builder ++ line)
        (if flush then false else if skip then multi_line else multi_line') lines

  -- parseMigrationFilename, once the file is open
  unfoldable pub parse_migration_file : List Str → List Str
  unfolding parse_lines
  parse_migration_file lines = parse_lines [] [] false lines

-- `strings.SplitN(s, ".", 2)`
unfoldable pub split_first : ℕ → Str → List Str
unfolding push_piece
split_first c [] = [] ∷ []
split_first c (x ∷ s) =
    let rest = split_first c s in if nat_beq x c then [] ∷ s ∷ [] else push_piece x rest

-- `vs[1] != "sql"`; none is the panic of an index out of range.
not_sql : List Str → Option Bool
not_sql (v0 ∷ v1 ∷ vs) = some (not (str_beq v1 (codes "sql")))
not_sql _ = none

-- `vs[0]`
first_of : List Str → Str
first_of [] = []
first_of (v0 ∷ vs) = v0

-- ParseVersion; none is a panic.
unfoldable pub parse_version : Str → Option (Result ℤ)
unfolding not_sql first_of split_first
parse_version name =
    let vs = split_first b'.' name in
    let parsed = some (parse_int (first_of vs)) in
    if not (nat_beq (length vs) 2)
    then elim (not_sql vs) [ none ↦ none | some wrong ↦ if wrong then some (err plain) else parsed ]
    else parsed

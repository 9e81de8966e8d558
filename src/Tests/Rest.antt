-- ===== src/Tests/Rest.antt =====
-- Runs of the theorems on arithmetic, order books and migrations.
use dora_service_utils.Base.{
  ℕ, ◌+◌, ◌*◌, ◌≤◌, ◌<◌, ◌≡◌, refl, Bool, true, false, Option, none, some, List, [], ◌∷◌, map,
  arith,
}
use dora_service_utils.Base.Text.{Str, codes}
use dora_service_utils.Base.Result.{ok, err, err_overflow_sub}
use dora_service_utils.Math.SafeMath.{
  checked_add_u64, checked_sub_u64, checked_mul_u64, checked_div_u64, checked_exact,
}
use dora_service_utils.Migration.{parse_migration_file, is_statement_end}
use dora_service_utils.Migration.RoundTrip.{Section, file_of, parse_migration_file-file_of}

checked_exact_example :
    (checked_add_u64 3 5 ≡ ok 8)
    × (checked_sub_u64 3 5 ≡ err err_overflow_sub)
    × (checked_mul_u64 3 5 ≡ ok 15)
    × (checked_div_u64 3 5 ≡ ok 0)
checked_exact_example = checked_exact 3 5 (omega arith) (omega arith)

-- Lines with no spaces around them.
abbrev as_is : Str → Str
as_is line = line

abbrev sections : List Section
sections =
    record {
      start = codes "-- +START";
      body = codes "CREATE TABLE t (" ∷ codes "id)" ∷ [];
      end = codes "-- +end";
    }
    ∷ record {
      start = codes "-- +Start of the second";
      body = codes "DROP TABLE u" ∷ [];
      end = codes "---- +end of it";
    }
    ∷ []

parse_migration_file-file_of_example :
    parse_migration_file as_is (file_of sections)
    ≡ codes "CREATE TABLE t (id)" ∷ codes "DROP TABLE u" ∷ []
unfolding dora_service_utils.Base.Text.has_prefix dora_service_utils.Base.Text.contains_str
    dora_service_utils.Base.Text.to_lower dora_service_utils.Base.Text.lower_byte
parse_migration_file-file_of_example = parse_migration_file-file_of as_is sections (
  record {
    starts = (codes " ", codes "+START", [], refl, refl);
    start_visible = refl;
    plain = (
      record { not_blank = refl; no_dashes = refl; no_comment = refl },
      (record { not_blank = refl; no_dashes = refl; no_comment = refl }, tt),
    );
    ends = (codes " ", [], refl, refl);
    end_visible = refl;
  },
  (
    record {
      starts = (codes " ", codes "+Start", codes " of the second", refl, refl);
      start_visible = refl;
      plain = (record { not_blank = refl; no_dashes = refl; no_comment = refl }, tt);
      ends = (codes "-- ", codes " of it", refl, refl);
      end_visible = refl;
    },
    tt,
  ),
)

-- The end marker as migration/README.md spells it is a comment to the code.
documented_end : is_statement_end (codes "-- +END") ≡ false
unfolding is_statement_end dora_service_utils.Base.Text.has_prefix
    dora_service_utils.Base.Text.contains_str
documented_end = refl

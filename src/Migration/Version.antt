-- ===== src/Migration/Version.antt =====
-- ParseVersion of migration/parser.go.
use dora_service_utils.Base.{ℕ, ◌≡◌, refl, false, none, some, [], ◌∷◌, ◌++◌, arith}
use dora_service_utils.Base.Text.{Str, contains_byte, push_piece}
use dora_service_utils.Base.ParseInt.{parse_int}
use dora_service_utils.Migration.{parse_version, split_first, not_sql, first_of}

split_first-none : (c : ℕ) (s : Str) → contains_byte c s ≡ false → split_first c s ≡ s ∷ []
unfolding split_first contains_byte push_piece
split_first-none c [] h = refl
split_first-none c (x ∷ s) h = ground (arith, split_first-none c s)

split_first-some :
    (c : ℕ) (s t : Str) → contains_byte c s ≡ false → split_first c (s ++ (c ∷ t)) ≡ s ∷ t ∷ []
unfolding split_first contains_byte push_piece
split_first-some c [] t h = ground arith
split_first-some c (x ∷ s) t h = ground (arith, split_first-some c s t)

-- ParseVersion of a name with a dot is the number before the first dot, whatever follows the dot: no
-- extension is refused. On a name with no dot it panics.
pub parse_version_ignores_extension :
    (base extension : Str)
    → contains_byte b'.' base ≡ false
    → (parse_version (base ++ (b'.' ∷ extension)) ≡ some (parse_int base))
      × (parse_version base ≡ none)
unfolding parse_version not_sql first_of
parse_version_ignores_extension base extension h =
    (rw (split_first-some b'.' base extension h) refl, rw (split_first-none b'.' base h) refl)

-- ===== src/Ledger/AssetId.antt =====
-- ledger/types/assetID.go: which strings are asset IDs, pool shares or entries for a coupon period.
pub mod Laws
pub mod Shape
use dora_service_utils.Base.{
  ℕ, Bool, true, false, not, ◌&&◌, ◌||◌, List, [], ◌∷◌, ltb, leb, nat_beq, if◌then◌else◌,
}
use dora_service_utils.Base.Text.{
  Str, codes, hyphen, str_beq, has_prefix, trim_prefix, ends_with, count_byte, split_byte, is_digit,
}
use dora_service_utils.Base.ParseInt.{parse_int}
use dora_service_utils.Base.Result.{
  Result, ok, err, is_ok, typed, invalid_data, ◌>>=◌, ◌>>◌, fail_if,
}

abbrev pub coupon_prefix : Str
coupon_prefix = codes "Coupon_"

abbrev pub snapshot_prefix : Str
snapshot_prefix = codes "Snapshot_"

-- The bytes that the expression `[^A-Za-z0-9_-]` does not match.
abbrev pub is_id_byte : ℕ → Bool
is_id_byte c =
    (leb b'A' c && leb c b'Z')
    || (leb b'a' c && leb c b'z')
    || is_digit c
    || nat_beq c b'_'
    || nat_beq c hyphen

-- `re.ReplaceAllLiteralString(id, "")`
unfoldable pub trimmed : Str → Str
trimmed [] = []
trimmed (c ∷ s) = if is_id_byte c then c ∷ trimmed s else trimmed s

-- `errors.Data("invalid asset ID: ...")` where the period is no int64.
unfoldable pub check_period : Str → Result (Unit {0})
unfolding parse_int
check_period period = fail_if (not (is_ok (parse_int period))) (typed invalid_data)

-- The rules for an ID with one hyphen, on the pieces of `strings.Split(id, "-")`.
unfoldable pub check_split : List Str → Result (Unit {0})
unfolding check_period trim_prefix
check_split (base ∷ s ∷ []) =
    if has_prefix s coupon_prefix
    then check_period (trim_prefix s coupon_prefix)
    else if has_prefix s snapshot_prefix
    then check_period (trim_prefix s snapshot_prefix)
    else fail_if (str_beq base s) (typed invalid_data)
check_split _ = ok tt

unfoldable pub valid_asset_id : Str → Result (Unit {0})
unfolding check_split trimmed
valid_asset_id id = do
  fail_if (has_prefix id coupon_prefix || has_prefix id snapshot_prefix) (typed invalid_data)
  fail_if
      (str_beq id []
        || not (str_beq id (trimmed id))
        || has_prefix id (hyphen ∷ [])
        || ends_with id hyphen
        || ltb 1 (count_byte hyphen id))
      (typed invalid_data)
  check_split (split_byte hyphen id)

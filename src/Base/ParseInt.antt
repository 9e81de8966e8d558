-- ===== src/Base/ParseInt.antt =====
-- strconv.ParseInt(s, 10, 64), which the sources call; any failure is one error.
use dora_service_utils.Base.{
  ℕ, ◌+◌, ◌-◌, ◌*◌, ◌<◌, ◌≤◌, ◌≡◌, Bool, true, false, arith, Option, none, some, [], ◌∷◌, ltb, leb,
  nat_beq, if◌then◌else◌,
}
use dora_service_utils.Base.Int.{ℤ, pos, sub_ℕ}
use dora_service_utils.Base.Word.{i64_half}
use dora_service_utils.Base.Text.{Str, is_digit}
use dora_service_utils.Base.Result.{Result, ok, err, plain}

unfoldable pub parse_digits : ℕ → Str → Option ℕ
parse_digits acc [] = some acc
parse_digits acc (c ∷ s) =
    let rest = parse_digits (acc * 10 + (c - b'0')) s in if is_digit c then rest else none

-- At least one digit.
unfoldable pub parse_uint : Str → Option ℕ
unfolding parse_digits
parse_uint [] = none
parse_uint (c ∷ s) = parse_digits 0 (c ∷ s)

positive_int64 : Option ℕ → Result ℤ
positive_int64 none = err plain
positive_int64 (some n) = if ltb n i64_half then ok (pos n) else err plain

negative_int64 : Option ℕ → Result ℤ
negative_int64 none = err plain
negative_int64 (some n) = if leb n i64_half then ok (sub_ℕ 0 n) else err plain

unfoldable pub parse_int : Str → Result ℤ
unfolding parse_uint positive_int64 negative_int64
parse_int [] = err plain
parse_int (c ∷ s) =
    if nat_beq c b'-'
    then negative_int64 (parse_uint s)
    else if nat_beq c b'+'
    then positive_int64 (parse_uint s)
    else positive_int64 (parse_uint (c ∷ s))

unfoldable pub starts_with_digit : Str → Bool
starts_with_digit [] = false
starts_with_digit (c ∷ s) = is_digit c

-- A text of digits whose value fits is read as its value.
pub parse_int_digits :
    (s : Str) (n : ℕ)
    → starts_with_digit s ≡ true
    → parse_digits 0 s ≡ some n
    → n < i64_half
    → parse_int s ≡ ok (pos n)
unfolding parse_int parse_uint positive_int64 starts_with_digit
parse_int_digits [] n d e h = ground arith
parse_int_digits (c ∷ s) n d e h = ground (arith, e)

-- The same behind a minus sign.
pub parse_int_minus :
    (s : Str) (n : ℕ)
    → starts_with_digit s ≡ true
    → parse_digits 0 s ≡ some n
    → n ≤ i64_half
    → parse_int (b'-' ∷ s) ≡ ok (sub_ℕ 0 n)
unfolding parse_int parse_uint negative_int64 starts_with_digit
parse_int_minus [] n d e h = ground arith
parse_int_minus (c ∷ s) n d e h = ground (arith, e)

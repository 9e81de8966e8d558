-- ===== src/Base/FormatInt.antt =====
-- fmt.Sprintf("%d", x) of an int64, which the sources call, and that strconv.ParseInt reads it.
use dora_service_utils.Base.{
  ℕ, zero, suc, ◌+◌, ◌-◌, ◌*◌, ◌/◌, ◌%◌, ◌<◌, ◌≡◌, refl, Bool, true, ◌&&◌, ◌||◌, nat_beq, some, [],
  ◌∷◌, ◌++◌, arith, ltb, if◌then◌else◌,
}
use dora_service_utils.Base.Int.{ℤ, pos, negsuc}
use dora_service_utils.Base.Word.{InI64}
use dora_service_utils.Base.Text.{Str, hyphen, is_digit, all_bytes}
use dora_service_utils.Base.Result.{ok}
use dora_service_utils.Base.ParseInt.{
  parse_digits, parse_int, starts_with_digit, parse_int_digits, parse_int_minus,
}

-- The digits of a number, at most as many as the first argument says.
unfoldable pub digits : ℕ → ℕ → Str
digits zero n = []
digits (suc most) n =
    let rest = digits most (n / 10) in
    if ltb n 10 then (b'0' + n) ∷ [] else rest ++ ((b'0' + n % 10) ∷ [])

-- An int64 has at most 19 digits.
abbrev pub most_digits : ℕ
most_digits = 19

unfoldable pub format_int : ℤ → Str
format_int (pos n) = digits most_digits n
format_int (negsuc n) = hyphen ∷ digits most_digits (suc n)

-- What numbers of so many digits stay below.
unfoldable pub digits_limit : ℕ → ℕ
digits_limit zero = 1
digits_limit (suc most) = 10 * digits_limit most

parse_digits-append :
    (a : ℕ) (s : Str) (c m : ℕ)
    → parse_digits a s ≡ some m
    → is_digit c ≡ true
    → parse_digits a (s ++ (c ∷ [])) ≡ some (m * 10 + (c - b'0'))
unfolding parse_digits
parse_digits-append a [] c m e d = ground arith
parse_digits-append a (x ∷ s) c m e d =
    ground (arith, parse_digits-append (a * 10 + (x - b'0')) s c m)

pub parse_digits-digits :
    (most n : ℕ) → n < digits_limit most → parse_digits 0 (digits most n) ≡ some n
unfolding parse_digits digits digits_limit
parse_digits-digits zero n h = ground arith
parse_digits-digits (suc most) n h = ground (
  arith,
  parse_digits-digits most (n / 10),
  parse_digits-append 0 (digits most (n / 10)) (b'0' + n % 10) (n / 10),
)

starts_with_digit-append :
    (s t : Str) → starts_with_digit s ≡ true → starts_with_digit (s ++ t) ≡ true
unfolding starts_with_digit
starts_with_digit-append [] t h = ground arith
starts_with_digit-append (c ∷ s) t h = h

starts_with_digit-digits : (most n : ℕ) → starts_with_digit (digits (suc most) n) ≡ true
unfolding starts_with_digit digits
starts_with_digit-digits zero n = ground arith
starts_with_digit-digits (suc most) n = ground (
  arith,
  starts_with_digit-digits most (n / 10),
  starts_with_digit-append (digits (suc most) (n / 10)) ((b'0' + n % 10) ∷ []),
)

-- ParseInt reads what `%d` has printed, for every int64.
pub parse_int-format_int : (z : ℤ) → InI64 z → parse_int (format_int z) ≡ ok z
unfolding format_int
parse_int-format_int (pos n) h =
    parse_int_digits (digits most_digits n) n (starts_with_digit-digits 18 n)
      (parse_digits-digits most_digits n (unfold digits_limit in omega arith)) (omega arith)
parse_int-format_int (negsuc n) h = ground (
  arith,
  parse_int_minus (digits most_digits (suc n)) (suc n) (starts_with_digit-digits 18 (suc n))
      (parse_digits-digits most_digits (suc n) (unfold digits_limit in omega arith)),
)

all_bytes-append :
    (p : ℕ → Bool) (s t : Str) → all_bytes p (s ++ t) ≡ all_bytes p s && all_bytes p t
unfolding all_bytes
all_bytes-append p [] t = refl
all_bytes-append p (c ∷ s) t = ground (arith, all_bytes-append p s t)

all_bytes-digits : (most n : ℕ) → all_bytes is_digit (digits most n) ≡ true
unfolding all_bytes digits
all_bytes-digits zero n = refl
all_bytes-digits (suc most) n = ground (
  arith,
  all_bytes-digits most (n / 10),
  all_bytes-append is_digit (digits most (n / 10)) ((b'0' + n % 10) ∷ []),
)

-- The bytes of a number's text.
abbrev pub is_int_byte : ℕ → Bool
is_int_byte c = is_digit c || nat_beq c hyphen

all_bytes_weaken : (s : Str) → all_bytes is_digit s ≡ true → all_bytes is_int_byte s ≡ true
unfolding all_bytes
all_bytes_weaken [] h = refl
all_bytes_weaken (c ∷ s) h = ground (arith, all_bytes_weaken s)

pub all_bytes-format_int : (z : ℤ) → all_bytes is_int_byte (format_int z) ≡ true
unfolding format_int all_bytes
all_bytes-format_int (pos n) =
    all_bytes_weaken (digits most_digits n) (all_bytes-digits most_digits n)
all_bytes-format_int (negsuc n) =
    all_bytes_weaken (digits most_digits (suc n)) (all_bytes-digits most_digits (suc n))

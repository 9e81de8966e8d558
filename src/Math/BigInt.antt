-- ===== src/Math/BigInt.antt =====
-- math/math.go and math/arithmetic.go on *big.Int. A pointer that may be nil is an `Option`; the
-- variadic functions take a list.
pub mod Laws
use dora_service_utils.Base.{
  ℕ, suc, ◌+◌, ◌-◌, ◌*◌, ◌/◌, ◌%◌, Bool, true, false, not, ◌&&◌, ◌||◌, Option, none, some, List, [],
  ◌∷◌, ltb, nat_beq, if◌then◌else◌,
}
use dora_service_utils.Base.Int.{ℤ, pos, negsuc, sub_ℕ, ◌+ℤ◌, ◌-ℤ◌, ◌*ℤ◌, ltb_ℤ, beq_ℤ}
use dora_service_utils.Base.Text.{Str}
use dora_service_utils.Base.ParseInt.{parse_uint}
use dora_service_utils.Base.Result.{
  Result, ok, err, typed, invalid_data, internal, ◌>>=◌, ◌>>◌, fail_if,
}

abbrev pub BigInt : Type 0
BigInt = Option ℤ

unfoldable pub is_negative : BigInt → Bool
is_negative none = false
is_negative (some n) = ltb_ℤ n (pos 0)

unfoldable pub is_positive : BigInt → Bool
is_positive none = false
is_positive (some n) = ltb_ℤ (pos 0) n

unfoldable pub all_positive : List BigInt → Bool
all_positive [] = true
all_positive (none ∷ ints) = false
all_positive (some n ∷ ints) = ltb_ℤ (pos 0) n && all_positive ints

unfoldable pub is_zero : BigInt → Bool
is_zero none = false
is_zero (some n) = beq_ℤ n (pos 0)

unfoldable pub lt : BigInt → BigInt → Bool
lt (some x) (some y) = ltb_ℤ x y
lt _ _ = false

unfoldable pub eq : BigInt → BigInt → Bool
eq (some x) (some y) = beq_ℤ x y
eq _ _ = false

unfoldable pub not_eq : BigInt → BigInt → Bool
unfolding eq
not_eq x y = not (eq x y)

unfoldable pub gt : BigInt → BigInt → Bool
gt (some x) (some y) = ltb_ℤ y x
gt _ _ = false

unfoldable pub lte : BigInt → BigInt → Bool
unfolding eq lt
lte x y = eq x y || lt x y

unfoldable pub gte : BigInt → BigInt → Bool
unfolding eq gt
gte x y = eq x y || gt x y

-- Min returns `b` where the test fails, also because one of them is nil.
unfoldable pub min_big : BigInt → BigInt → BigInt
unfolding lt
min_big a b = if lt a b then a else b

-- `new(big.Int).SetString(value, 10)`: an optional sign and at least one digit.
digits_or_error : Option ℕ → (ℕ → ℤ) → Result ℤ
digits_or_error none sign = err (typed invalid_data)
digits_or_error (some n) sign = ok (sign n)

unfoldable pub valid_big_int : Str → Result ℤ
unfolding digits_or_error
valid_big_int [] = err (typed invalid_data)
valid_big_int (c ∷ s) =
    if nat_beq c b'-'
    then digits_or_error (parse_uint s) (λ n. sub_ℕ 0 n)
    else if nat_beq c b'+'
    then digits_or_error (parse_uint s) pos
    else digits_or_error (parse_uint (c ∷ s)) pos

unfoldable pub valid_big_ints : List Str → Result (List ℤ)
valid_big_ints [] = ok []
valid_big_ints (v ∷ values) = do n ← valid_big_int v; ns ← valid_big_ints values; ok (n ∷ ns)

unfoldable pub valid_not_negative_big_int : Str → Result ℤ
unfolding is_negative
valid_not_negative_big_int value = do
  v ← valid_big_int value
  fail_if (is_negative (some v)) (typed invalid_data)
  ok v

unfoldable pub valid_positive_big_int : Str → Result ℤ
unfolding is_positive
valid_positive_big_int value = do
  v ← valid_big_int value
  fail_if (not (is_positive (some v))) (typed invalid_data)
  ok v

unfoldable pub valid_positive_big_ints : List Str → Result (List ℤ)
valid_positive_big_ints [] = ok []
valid_positive_big_ints (v ∷ values) = do
  n ← valid_positive_big_int v
  ns ← valid_positive_big_ints values
  ok (n ∷ ns)

-- BigInt100Percent
abbrev pub big_int_100_percent : ℤ
big_int_100_percent = pos 1_000_000

unfoldable pub valid_big_int_percentage : Str → Result ℤ
unfolding gt is_negative
valid_big_int_percentage value = do
  v ← valid_big_int value
  fail_if (gt (some v) (some big_int_100_percent)) (typed internal)
  fail_if (is_negative (some v)) (typed internal)
  ok v

sum_from : ℤ → List ℤ → ℤ
sum_from sum [] = sum
sum_from sum (n ∷ ns) = sum_from (sum +ℤ n) ns

-- Add
unfoldable pub add_all : List ℤ → ℤ
unfolding sum_from
add_all ints = sum_from (pos 0) ints

-- Sub
unfoldable pub sub_all : ℤ → List ℤ → ℤ
sub_all i [] = pos 0 +ℤ i
sub_all i (n ∷ ns) = sub_all (i -ℤ n) ns

product_from : ℤ → List ℤ → ℤ
product_from product [] = product
product_from product (n ∷ ns) = product_from (product *ℤ n) ns

-- Mul
unfoldable pub mul_all : List ℤ → ℤ
unfolding product_from
mul_all ints = product_from (pos 1) ints

-- DivI at inputs that are not negative and a divisor that is not zero: big.Int's Div and Mod are
-- then the quotient and the remainder.
unfoldable pub div_i : ℕ → ℕ → Bool → ℕ
div_i a b round_up = if round_up && ltb 0 (a % b) then a / b + 1 else a / b

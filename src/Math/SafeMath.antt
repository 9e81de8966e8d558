-- ===== src/Math/SafeMath.antt =====
-- math/safemath.go: uint64 arithmetic that reports an overflow. The operations are written on the
-- carries of package math/bits, as in the source.
use dora_service_utils.Base.{ℕ, ◌+◌, ◌-◌, ◌*◌, ◌/◌, ◌<◌, ◌≡◌, arith, ltb, nat_beq, if◌then◌else◌}
use dora_service_utils.Base.Result.{
  Result, ok, err, err_overflow_add, err_overflow_mul, err_overflow_sub, err_div_by_zero,
}
use dora_service_utils.Base.Word.{u64_mod, bits_add64, bits_sub64, bits_mul64, bits_div64}

unfoldable pub checked_add_u64 : ℕ → ℕ → Result ℕ
checked_add_u64 a b =
    let (sum, carry_out) = bits_add64 a b 0 in
    if nat_beq carry_out 1 then err err_overflow_add else ok sum

unfoldable pub checked_mul_u64 : ℕ → ℕ → Result ℕ
checked_mul_u64 a b =
    let (hi, lo) = bits_mul64 a b in if ltb 0 hi then err err_overflow_mul else ok lo

unfoldable pub checked_sub_u64 : ℕ → ℕ → Result ℕ
checked_sub_u64 a b =
    let (result, borrow) = bits_sub64 a b 0 in
    if nat_beq borrow 1 then err err_overflow_sub else ok result

unfoldable pub checked_sub_u64_to_zero : ℕ → ℕ → ℕ × ℕ
checked_sub_u64_to_zero a b = if ltb a b then (0, a) else (a - b, b)

unfoldable pub checked_div_u64 : ℕ → ℕ → Result ℕ
checked_div_u64 a b =
    if nat_beq b 0 then err err_div_by_zero else let (result, _) = bits_div64 0 a b in ok result

pub checked_add_u64_lem :
    (a b : ℕ)
    → a < u64_mod
    → b < u64_mod
    → checked_add_u64 a b ≡ (if ltb (a + b) u64_mod then ok (a + b) else err err_overflow_add)
unfolding checked_add_u64
checked_add_u64_lem a b ha hb = ground arith

pub checked_sub_u64_lem :
    (a b : ℕ)
    → a < u64_mod
    → b < u64_mod
    → checked_sub_u64 a b ≡ (if ltb a b then err err_overflow_sub else ok (a - b))
unfolding checked_sub_u64
checked_sub_u64_lem a b ha hb = ground arith

checked_mul_u64_lem :
    (a b : ℕ)
    → checked_mul_u64 a b ≡ (if ltb (a * b) u64_mod then ok (a * b) else err err_overflow_mul)
unfolding checked_mul_u64
checked_mul_u64_lem a b = ground arith

checked_div_u64_lem :
    (a b : ℕ) → checked_div_u64 a b ≡ (if nat_beq b 0 then err err_div_by_zero else ok (a / b))
unfolding checked_div_u64
checked_div_u64_lem a b = ground arith

-- On uint64 arguments each checked operation gives the exact result of the arithmetic operation
-- where that is a uint64, and otherwise the error that names it: an overflow of the sum or the
-- product, a difference below zero, a division by zero.
pub checked_exact :
    (a b : ℕ)
    → a < u64_mod
    → b < u64_mod
    → (checked_add_u64 a b ≡ (if ltb (a + b) u64_mod then ok (a + b) else err err_overflow_add))
      × (checked_sub_u64 a b ≡ (if ltb a b then err err_overflow_sub else ok (a - b)))
      × (checked_mul_u64 a b ≡ (if ltb (a * b) u64_mod then ok (a * b) else err err_overflow_mul))
      × (checked_div_u64 a b ≡ (if nat_beq b 0 then err err_div_by_zero else ok (a / b)))
checked_exact a b ha hb = (
  checked_add_u64_lem a b ha hb,
  checked_sub_u64_lem a b ha hb,
  checked_mul_u64_lem a b,
  checked_div_u64_lem a b,
)

-- The saturating subtraction splits `a` into what is left and what was taken, and takes `b`
-- wherever `a` covers it.
pub checked_sub_u64_to_zero_splits :
    (a b : ℕ)
    → let (result, taken) = checked_sub_u64_to_zero a b in
      (result + taken ≡ a) × (taken ≡ (if ltb a b then a else b))
unfolding checked_sub_u64_to_zero
checked_sub_u64_to_zero_splits a b = ground arith

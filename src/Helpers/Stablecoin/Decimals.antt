-- ===== src/Helpers/Stablecoin/Decimals.antt =====
-- exp10 and applyDecimalsThenRound of helpers/users.go, where nothing wraps.
use dora_service_utils.Base.{
  ℕ, zero, suc, ◌+◌, ◌*◌, ◌/◌, ◌%◌, ◌^◌, ◌≤◌, ◌<◌, ◌≡◌, ◌∙◌, ap, Bool, ◌&&◌, some, arith, ltb,
  if◌then◌else◌,
}
use native.Mathlib.Nat.{mul_assoc, mul-suc, div-add-mod', pow-le-pow_right}
use dora_service_utils.Base.Int.{pos, ◌*ℤ◌, ltb_ℤ, ◌+ℤ◌}
use dora_service_utils.Base.Word.{i64_half, wrap64_id, ◌+i◌}
use dora_service_utils.Base.Signed.{◌*i◌, div_i64}
use dora_service_utils.Helpers.Stablecoin.{ten_to, exp10, apply_decimals_then_round}

-- A product of two numbers that is an int64.
times_exact : (m n : ℕ) → m * n < i64_half → pos m *i pos n ≡ pos (m * n)
unfolding ◌*i◌ ◌*ℤ◌
times_exact m n h = ground (arith, wrap64_id (pos (m * n)))

pub power_positive : (n : ℕ) → 1 ≤ 10 ^ n
power_positive zero = omega arith
power_positive (suc n) = omega (arith, power_positive n)

le-times : (a b : ℕ) → 1 ≤ b → a ≤ a * b
le-times a zero h = omega arith
le-times a (suc b) h = omega (arith, mul-suc a b)

scaled : (r n : ℕ) → r * 10 * 10 ^ n ≡ r * 10 ^ suc n
scaled r n = mul_assoc r 10 (10 ^ n) ∙ ap (λ (x : ℕ). r * x) (omega arith)

ten_to_exact : (n r : ℕ) → r * 10 ^ n < i64_half → ten_to n (pos r) ≡ pos (r * 10 ^ n)
unfolding ten_to
ten_to_exact zero r h = ap pos (omega arith)
ten_to_exact (suc n) r h =
    rw
      (times_exact r 10
        (omega (arith, scaled r n, h, le-times (r * 10) (10 ^ n) (power_positive n))))
      (ten_to_exact n (r * 10) (rw (scaled r n) h) ∙ ap pos (scaled r n))

power_bound : (n : ℕ) → n ≤ 18 → 10 ^ n ≤ 10 ^ 18
power_bound n h = pow-le-pow_right (omega arith) {i = n} {j = 18} h

-- exp10 of a number from 0 to 18 is the power of ten.
pub exp10_exact : (x : ℕ) → x ≤ 18 → exp10 (pos x) ≡ pos (10 ^ x)
unfolding exp10
exp10_exact x h = ten_to_exact x 1 (omega (arith, power_bound x h)) ∙ ap pos (omega arith)

-- n / d and n % d, and a bound that linear arithmetic does not see.
parts_of : (n d : ℕ) → 1 ≤ d → (n / d * d + n % d ≡ n) × (n / d ≤ n / d * d)
parts_of n d h = (div-add-mod' n d, le-times (n / d) d h)

div_i64_exact : (n d : ℕ) → n < i64_half → 1 ≤ d → div_i64 (pos n) (pos d) ≡ some (pos (n / d))
unfolding div_i64
div_i64_exact n zero h k = ground arith
div_i64_exact n (suc d) h k =
    ap some (wrap64_id (pos (n / suc d)) (omega (arith, parts_of n (suc d) k), omega arith))

-- What is done with the quotient.
rounded_exact :
    (n d : ℕ) (round_up : Bool)
    → n < i64_half
    → 1 ≤ d
    → (if ltb_ℤ (pos (n / d) *i pos d) (pos n) && round_up
        then pos (n / d) +i pos 1
        else pos (n / d))
      ≡ pos (if round_up && ltb 0 (n % d) then n / d + 1 else n / d)
unfolding ◌+i◌ ◌+ℤ◌
rounded_exact n d round_up h k =
    ground (arith, times_exact (n / d) d, parts_of n d k, wrap64_id (pos (n / d + 1)))

-- applyDecimalsThenRound at an int64 that is not negative and up to 18 decimals: it does not panic,
-- and divides by the power of ten, rounding down, or up where that is asked for and the amount is
-- no multiple.
pub apply_decimals_then_round_lem :
    (n x : ℕ) (round_up : Bool)
    → n < i64_half
    → x ≤ 18
    → apply_decimals_then_round (pos n) (pos x) round_up
      ≡ some (pos (if round_up && ltb 0 (n % 10 ^ x) then n / 10 ^ x + 1 else n / 10 ^ x))
unfolding apply_decimals_then_round div_i64
apply_decimals_then_round_lem n x round_up hn hx = rw (exp10_exact x hx) (
    rw (div_i64_exact n (10 ^ x) hn (power_positive x))
      (ap some (rounded_exact n (10 ^ x) round_up hn (power_positive x))))

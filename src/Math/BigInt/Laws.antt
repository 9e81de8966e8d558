-- ===== src/Math/BigInt/Laws.antt =====
-- The comparisons of nil-able integers, the validators, and the rounding of DivI.
use dora_service_utils.Base.{
  ℕ, ◌+◌, ◌*◌, ◌≤◌, ◌<◌, ◌≡◌, refl, Bool, true, false, not, ◌&&◌, ◌||◌, none, some, arith,
}
use dora_service_utils.Base.Int.{ℤ, pos, ◌≤ℤ◌}
use dora_service_utils.Base.Text.{Str}
use dora_service_utils.Base.Result.{ok, err, typed, invalid_data, internal}
use dora_service_utils.Math.BigInt.{
  BigInt, lt, eq, gt, lte, gte, valid_big_int, valid_big_int_percentage, valid_not_negative_big_int,
  valid_positive_big_int, div_i,
}

abbrev present : BigInt → Bool
present none = false
present (some n) = true

-- Between two integers that are there, exactly one of LT, EQ and GT holds, LTE is the negation of GT and GTE that
-- of LT. Where one of them is nil, all five are false.
pub trichotomy :
    (x y : BigInt)
    → ((present x && present y) ≡ true
        → (lte x y ≡ not (gt x y))
          × (gte x y ≡ not (lt x y))
          × ((lt x y || eq x y || gt x y) ≡ true)
          × ((lt x y && eq x y || lt x y && gt x y || eq x y && gt x y) ≡ false))
      × ((present x && present y) ≡ false
          → (lt x y ≡ false)
            × (eq x y ≡ false)
            × (gt x y ≡ false)
            × (lte x y ≡ false)
            × (gte x y ≡ false))
unfolding lt eq gt lte gte
trichotomy (some x) (some y) =
    (λ p. (ground arith, ground arith, ground arith, ground arith), λ p. cc)
trichotomy none y = (λ p. cc, λ p. (refl, refl, refl, refl, refl))
trichotomy (some x) none = (λ p. cc, λ p. (refl, refl, refl, refl, refl))

-- Each validator accepts the texts that are integers in its range, with that integer, and rejects
-- an integer outside its range with its own error: not negative, positive, or from 0 to 1000000.
pub validators :
    (s : Str) (n : ℤ)
    → valid_big_int s ≡ ok n
    → ((pos 0 ≤ℤ n → valid_not_negative_big_int s ≡ ok n)
        × (¬ (pos 0 ≤ℤ n) → valid_not_negative_big_int s ≡ err (typed invalid_data)))
      × ((pos 1 ≤ℤ n → valid_positive_big_int s ≡ ok n)
          × (¬ (pos 1 ≤ℤ n) → valid_positive_big_int s ≡ err (typed invalid_data)))
      × ((pos 0 ≤ℤ n → n ≤ℤ pos 1_000_000 → valid_big_int_percentage s ≡ ok n)
          × (¬ ((pos 0 ≤ℤ n) × (n ≤ℤ pos 1_000_000))
              → valid_big_int_percentage s ≡ err (typed internal)))
unfolding valid_not_negative_big_int valid_positive_big_int valid_big_int_percentage
validators s n e = (
  ((λ p. ground arith), λ p. ground arith),
  ((λ p. ground arith), λ p. ground arith),
  ((λ p q. ground arith), λ p. ground arith),
)

-- DivI by a positive divisor: rounded down it is the greatest number whose product with the divisor does not
-- pass the dividend, rounded up the least whose product covers it.
pub div_i_bounds :
    (a b : ℕ)
    → 0 < b
    → (div_i a b false * b ≤ a)
      × (a < div_i a b false * b + b)
      × (a ≤ div_i a b true * b)
      × (div_i a b true * b < a + b)
unfolding div_i
div_i_bounds a b h = (grind arith, grind arith, grind arith, grind arith)

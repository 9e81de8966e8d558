-- ===== src/Math/Float64.antt =====
-- float64, and MinF64, MaxF64, ExecutedPrice, ValidPositiveFloat64 and ValidPositiveFloat64s of
-- math/math.go and math/arithmetic.go, which compute in it.
use dora_service_utils.Base.{ℕ, Bool, ◌||◌, Option, List, [], ◌∷◌, nat_beq, if◌then◌else◌}
use dora_service_utils.Base.Int.{ℤ, pos}
use dora_service_utils.Base.Result.{Result, ok, typed, invalid_data, fail_if, ◌>>◌}

-- float64: a type and the operations that the sources use, with no law.
pub record Float64 : Type 1 where
  pub F : Type 0
  pub zero : F
  pub one : F
  pub is_nan : F → Bool
  pub is_inf : F → Bool
  pub lt : F → F → Bool
  pub le : F → F → Bool
  pub beq : F → F → Bool
  pub add : F → F → F
  pub sub : F → F → F
  pub mul : F → F → F
  pub div : F → F → F
  pub of_int : ℤ → F
  pub pow10 : ℤ → F
  -- math.Pow
  pub pow : F → F → F
  -- big.NewFloat and then Int of package math: none at NaN, where NewFloat panics
  pub new_float_int : F → Option ℤ
  -- `uint64(x)`
  pub to_uint64 : F → ℕ

module _ (fl : Float64) where
  open fl use {F, zero, one, is_nan, is_inf, lt, le, div, of_int}

  unfoldable pub min_f64 : F → F → F
  min_f64 a b = if lt a b then a else b

  unfoldable pub max_f64 : F → F → F
  max_f64 a b = if lt b a then a else b

  unfoldable pub executed_price : Bool → ℕ → ℕ → F
  executed_price balance_in_base balance_in balance_out =
      if nat_beq balance_in 0 || nat_beq balance_out 0
      then one
      else if balance_in_base
      then div (of_int (pos balance_out)) (of_int (pos balance_in))
      else div (of_int (pos balance_in)) (of_int (pos balance_out))

  unfoldable pub valid_positive_float64 : F → Result (Unit {0})
  valid_positive_float64 value = do
    fail_if (is_nan value) (typed invalid_data)
    fail_if (is_inf value) (typed invalid_data)
    fail_if (le value zero) (typed invalid_data)
    ok tt

  unfoldable pub valid_positive_float64s : List F → Result (Unit {0})
  unfolding valid_positive_float64
  valid_positive_float64s [] = ok tt
  valid_positive_float64s (v ∷ values) = do valid_positive_float64 v; valid_positive_float64s values

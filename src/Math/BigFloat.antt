-- ===== src/Math/BigFloat.antt =====
-- math/arithmetic.go on big.Float. The floats of package math/big are a parameter: a type, the calls
-- that the sources make, and no law. A theorem that needs one has it as a hypothesis.
use dora_service_utils.Base.{ℕ, ◌+◌, ◌%◌, List, [], ◌∷◌, Bool}
use dora_service_utils.Base.Int.{ℤ, pos_part, neg_part}
use dora_service_utils.Base.Word.{u64_mod}

-- `D` is decimal.Decimal of github.com/govalues/decimal.
pub record BigFloat (D : Type 0) : Type 1 where
  pub F : Type 0
  -- new(big.Float).SetInt64(i)
  pub set_int64 : ℤ → F
  -- big.NewFloat(0).SetInt(i)
  pub set_int : ℤ → F
  -- big.NewFloat(0), big.NewFloat(1)
  pub zero_f : F
  pub one_f : F
  -- z.Add(z, x) and z.Mul(z, x), which round to the precision of z
  pub add_to : F → F → F
  pub mul_by : F → F → F
  -- new(big.Float).Mul(x, y) and new(big.Float).Quo(x, y)
  pub mul : F → F → F
  pub quo : F → F → F
  -- f.Int(i): rounded towards zero
  pub to_int : F → ℤ
  -- x.Sign() == 0
  pub sign_is_zero : F → Bool
  -- big.NewFloat(f) at the float64 of a decimal, big.NewFloat(0) at a zero float64
  pub of_decimal : D → F

module _ {D : Type 0} (bf : BigFloat D) where
  open bf use {F, zero_f, one_f, add_to, mul_by, mul, set_int, to_int}

  add_f_from : F → List F → F
  add_f_from sum [] = sum
  add_f_from sum (n ∷ ns) = add_f_from (add_to sum n) ns

  -- AddF
  unfoldable pub add_f : List F → F
  unfolding add_f_from
  add_f floats = add_f_from zero_f floats

  mul_f_from : F → List F → F
  mul_f_from product [] = product
  mul_f_from product (n ∷ ns) = mul_f_from (mul_by product n) ns

  -- MulF
  unfoldable pub mul_f : List F → F
  unfolding mul_f_from
  mul_f floats = mul_f_from one_f floats

  -- MulIF, and MulIF64 at a float64 that has been made a big.Float
  unfoldable pub mul_i_f : ℤ → F → ℤ
  unfolding mul_f
  mul_i_f i f = to_int (mul_f (set_int i ∷ f ∷ []))

-- (*big.Int).Uint64: the low word of the absolute value.
unfoldable pub uint64_of : ℤ → ℕ
uint64_of z = (pos_part z + neg_part z) % u64_mod

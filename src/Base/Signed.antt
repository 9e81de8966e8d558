-- ===== src/Base/Signed.antt =====
-- Products and quotients of Go's int64, and the quotient of package math/big.
use dora_service_utils.Base.{◌/◌, ◌+◌, zero, suc, Option, none, some}
use dora_service_utils.Base.Int.{ℤ, pos, negsuc, ◌*ℤ◌, neg}
use dora_service_utils.Base.Word.{wrap64}

infixl 70 ◌*i◌
unfoldable pub ◌*i◌ : ℤ → ℤ → ℤ
a *i b = wrap64 (a *ℤ b)

-- The quotient, rounded towards zero.
quotient : ℤ → ℤ → ℤ
quotient (pos m) (pos n) = pos (m / n)
quotient (pos m) (negsuc n) = neg (pos (m / (n + 1)))
quotient (negsuc m) (pos n) = neg (pos ((m + 1) / n))
quotient (negsuc m) (negsuc n) = pos ((m + 1) / (n + 1))

-- `a / b`; none is the panic of a division by zero.
unfoldable pub div_i64 : ℤ → ℤ → Option ℤ
unfolding quotient
div_i64 a (pos zero) = none
div_i64 a (pos (suc n)) = some (wrap64 (quotient a (pos (suc n))))
div_i64 a (negsuc n) = some (wrap64 (quotient a (negsuc n)))

-- `new(big.Int).Quo(a, b)`; none is the panic of a division by zero.
unfoldable pub big_quo : ℤ → ℤ → Option ℤ
unfolding quotient
big_quo a (pos zero) = none
big_quo a (pos (suc n)) = some (quotient a (pos (suc n)))
big_quo a (negsuc n) = some (quotient a (negsuc n))

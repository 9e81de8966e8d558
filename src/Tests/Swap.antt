-- ===== src/Tests/Swap.antt =====
-- Runs of the theorems on swaps, with exact fractions for the floats.
use dora_service_utils.Base.{ℕ, ◌≡◌, refl, arith, some}
use dora_service_utils.Math.BigFloat.{BigFloat}
use dora_service_utils.Ledger.Balance.{Balance}
use dora_service_utils.Pools.{Pool}
use dora_service_utils.Pools.Swap.{simulate_product_pool_swap}
use dora_service_utils.Pools.Swap.Product.{KeepsProduct, simulate_product_pool_swap-KeepsProduct}
use dora_service_utils.Base.Text.{Str}
use dora_service_utils.Tests.Pools.{fractions, pool, base, quote}

-- A decimal is a number of hundredths here.
abbrev hundredths : BigFloat ℕ
hundredths = record fractions { of_decimal = λ d. (d, 100) }

-- A pool of 50 base and 200 quote that charges a tenth.
abbrev charging : Pool ℕ
charging = record pool { fee_factor = 10 }

abbrev balance_of : Str → ℕ → Balance
balance_of id n = record { asset = id; amount = n }

simulate_product_pool_swap-KeepsProduct_example :
    KeepsProduct
      (balance_of base 50)
      (balance_of quote 200)
      (balance_of base 10)
      1
      (balance_of quote 30)
      (balance_of base 1)
unfolding dora_service_utils.Pools.Swap.balances dora_service_utils.Base.Text.str_beq
    dora_service_utils.Base.Word.to_i64 dora_service_utils.Base.Word.to_u64
    dora_service_utils.Math.BigFloat.mul_i_f dora_service_utils.Ledger.Balance.amt
    dora_service_utils.Pools.Swap.swap_fee simulate_product_pool_swap
    dora_service_utils.Base.Int.◌+ℤ◌ dora_service_utils.Base.Int.◌-ℤ◌
    dora_service_utils.Base.Word.wrap64 dora_service_utils.Base.Int.◌*ℤ◌
simulate_product_pool_swap-KeepsProduct_example =
    simulate_product_pool_swap-KeepsProduct hundredths charging (balance_of base 10)
      (balance_of base 50) (balance_of quote 200) (balance_of quote 30) (balance_of base 1) 1 refl
      refl refl

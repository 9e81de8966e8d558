-- ===== src/Pools/Swap.antt =====
-- Balances, SwapFee, Duration and the swap against a product pool of pools/types/pools.go. A call
-- that panics is none.
pub mod Payment
pub mod Product
pub mod Assets
use dora_service_utils.Base.{Bool, not, Option, none, some, [], ◌∷◌, if◌then◌else◌}
use dora_service_utils.Base.Int.{ℤ, pos, ltb_ℤ}
use dora_service_utils.Base.Word.{wrap64, to_i64, ◌-i◌}
use dora_service_utils.Base.Signed.{big_quo}
use dora_service_utils.Base.Text.{Str, str_beq}
use dora_service_utils.Base.Result.{
  Result, ok, err, typed, invalid_input, err_asset_not_found_in_pool, err_amount_cannot_be_zero,
  err_insufficient_balance,
}
use dora_service_utils.Math.BigFloat.{BigFloat, mul_i_f}
use dora_service_utils.Math.BigInt.{add_all, sub_all, mul_all}
use dora_service_utils.Ledger.Balance.{Balance, new_balance, valid, amt, is_zero, integer64_int64}
use dora_service_utils.Pools.{Pool}

module _ {D : Type 0} where
  unfoldable pub balances : Pool D → Str → Result (Balance × Balance)
  unfolding new_balance
  balances p asset_a =
      if str_beq asset_a p.base_asset
      then ok (
        new_balance p.base_asset (to_i64 p.amount_base),
        new_balance p.quote_asset (to_i64 p.amount_quote),
      )
      else if str_beq asset_a p.quote_asset
      then ok (
        new_balance p.quote_asset (to_i64 p.amount_quote),
        new_balance p.base_asset (to_i64 p.amount_base),
      )
      else err err_asset_not_found_in_pool

  unfoldable pub duration : Pool D → ℤ
  duration p = if p.is_product_pool then pos 0 else p.maturity_at -i p.created_at

-- What the pool pays for an amount that is put in beside a reserve.
unfoldable pub paid_out : ℤ → ℤ → ℤ → Option ℤ
unfolding big_quo mul_all add_all
paid_out reserve_in reserve_out amt_in_after_fee =
    big_quo (mul_all (reserve_out ∷ amt_in_after_fee ∷ []))
      (add_all (reserve_in ∷ amt_in_after_fee ∷ []))

-- `amountOut.Int64()` and `fee.Int64()`, each with its asset.
swapped : Balance → Balance → ℤ → Option ℤ → Option (Result (Balance × Balance))
unfolding new_balance
swapped reserve_out balance_in fee none = none
swapped reserve_out balance_in fee (some amount_out) = some (
    ok (
      new_balance reserve_out.asset (wrap64 amount_out),
      new_balance balance_in.asset (wrap64 fee),
    ))

-- From the amount and its fee on; `Sign() != 1` is "not positive".
unfoldable pub swap_after_fee :
    Balance → Balance → Balance → ℤ → Option (Result (Balance × Balance))
unfolding paid_out swapped sub_all
swap_after_fee reserve_in reserve_out balance_in fee =
    let after_fee = sub_all (amt balance_in) (fee ∷ []) in
    if not (ltb_ℤ (pos 0) after_fee)
    then some (err err_insufficient_balance)
    else swapped reserve_out balance_in fee
        (paid_out (to_i64 reserve_in.amount) (to_i64 reserve_out.amount) after_fee)

module _ {D : Type 0} (bf : BigFloat D) where
  open bf use {F, of_decimal, zero_f}

  -- The float64, as `big.NewFloat` takes it.
  unfoldable pub swap_fee : Pool D → F
  swap_fee p = if not p.is_product_pool then zero_f else of_decimal p.fee_factor

  swap_reserves :
      Pool D → Balance → Result (Balance × Balance) → Option (Result (Balance × Balance))
  unfolding swap_after_fee mul_i_f swap_fee
  swap_reserves p balance_in (err e) = some (err e)
  swap_reserves p balance_in (ok (reserve_in, reserve_out)) =
      swap_after_fee reserve_in reserve_out balance_in (mul_i_f bf (amt balance_in) (swap_fee p))

  unfoldable pub simulate_product_pool_swap : Pool D → Balance → Option (Result (Balance × Balance))
  unfolding valid balances swap_reserves
  simulate_product_pool_swap p balance_in =
      if not (valid balance_in)
      then some (err (typed invalid_input))
      else if is_zero balance_in
      then some (err err_amount_cannot_be_zero)
      else swap_reserves p balance_in (balances p balance_in.asset)

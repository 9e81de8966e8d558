-- ===== src/Pools/Yield.antt =====
-- The yield curve, the swap against a yield pool and the prices of pools/types/pools.go, in float64.
-- The time is an argument, `float_of` is Float64 of a decimal, and a call that panics is none. A
-- float64 that is made a big.Float must not be NaN.
pub mod Curve
pub mod Assets
use dora_service_utils.Base.{ℕ, Bool, not, ◌||◌, Option, none, some, [], ◌∷◌, if◌then◌else◌}
use dora_service_utils.Base.Int.{ℤ, pos, negsuc, leb_ℤ}
use dora_service_utils.Base.Word.{wrap64, to_i64, ◌-i◌}
use dora_service_utils.Base.Text.{Str, str_beq}
use dora_service_utils.Base.Result.{
  Result, ok, err, typed, invalid_input, invalid_data, err_amount_cannot_be_zero, ◌>>=◌,
}
use dora_service_utils.Math.Float64.{Float64, executed_price}
use dora_service_utils.Math.BigFloat.{BigFloat}
use dora_service_utils.Math.BigInt.{sub_all, mul_all}
use dora_service_utils.Ledger.Balance.{Balance, new_balance, valid, is_zero, add, integer64_int64}
use dora_service_utils.Pools.{Pool, other_asset_id}
use dora_service_utils.Pools.Swap.{balances, duration, simulate_product_pool_swap}

module _ (fl : Float64) where
  open fl use {F, zero, one, lt, beq, sub, mul, div, pow, of_int, new_float_int, to_uint64}

  unfoldable pub calculate_t : ℤ → ℤ → ℤ → F
  calculate_t now end duration =
      if leb_ℤ duration (pos 0) || leb_ℤ end now
      then zero
      else (let t = div (of_int (end -i now)) (of_int duration) in if lt one t then one else t)

  unfoldable pub calculate_z : F → F → Bool → F
  calculate_z t g is_sell =
      if beq g zero then zero else if is_sell then sub one (div t g) else sub one (mul t g)

  unfoldable pub calculate_k : ℤ → ℤ → F → F → F
  calculate_k x y t g =
      let t_prime = sub one (mul t g) in fl.add (pow (of_int x) t_prime) (pow (of_int y) t_prime)

  -- calculateDelta; the last call is math.Int of big.NewFloat.
  unfoldable pub calculate_delta : ℤ → ℤ → F → F → F → Option ℤ
  calculate_delta asset_out_balance asset_in_balance k time_to_maturity g_fee_factor =
      let e = sub one (mul g_fee_factor time_to_maturity) in
      let updated_out = pow (sub k (pow (of_int asset_in_balance) e)) (div one e) in
      new_float_int (sub updated_out (of_int asset_out_balance))

  -- The two results of the swap, from the amounts out without and with the fee.
  swapped_yield : Str → Str → Option ℤ → Option ℤ → Option (Result (Balance × Balance))
  unfolding new_balance mul_all sub_all
  swapped_yield asset_out asset_in none with_fee = none
  swapped_yield asset_out asset_in (some without) none = none
  swapped_yield asset_out asset_in (some without) (some with_fee) = some (
      ok (
        new_balance asset_out (wrap64 (mul_all (with_fee ∷ negsuc 0 ∷ []))),
        new_balance asset_in (wrap64 (sub_all with_fee (without ∷ []))),
      ))

  module _ {D : Type 0} (float_of : D → F) where
    unfoldable pub g_of : Pool D → F
    g_of p = if p.is_product_pool then zero else float_of p.fee_factor

    -- T
    unfoldable pub t_of : ℤ → Pool D → Result F
    unfolding calculate_t
    t_of now p =
        if p.is_product_pool
        then err (typed invalid_data)
        else ok (calculate_t now p.maturity_at (duration p))

    -- The reserves with what is put in, or an error.
    yield_reserves : Pool D → Balance → Result (Str × Balance × Balance)
    yield_reserves p balance_in = do
      asset_out ← other_asset_id p balance_in.asset
      reserves ← balances p balance_in.asset
      reserve_in ← add reserves.0 (some balance_in)
      ok (asset_out, reserve_in, reserves.1)

    -- From the reserves on; a base that is put in takes the inverse of G.
    yield_amounts :
        F
        → F
        → Pool D
        → Balance
        → Result (Str × Balance × Balance)
        → Option (Result (Balance × Balance))
    unfolding swapped_yield calculate_k calculate_delta
    yield_amounts t g p balance_in (err e) = some (err e)
    yield_amounts t g p balance_in (ok (asset_out, reserve_in, reserve_out)) =
        let stable = to_i64 p.amount_quote in
        let bond = to_i64 p.amount_base in
        let out = to_i64 reserve_out.amount in
        let paid = to_i64 reserve_in.amount in
        swapped_yield asset_out balance_in.asset
          (calculate_delta out paid (calculate_k stable bond t one) t one)
          (calculate_delta out paid (calculate_k stable bond t g) t g)

    unfoldable pub simulate_yield_pool_swap :
        ℤ → Pool D → Balance → Option (Result (Balance × Balance))
    unfolding valid calculate_t g_of yield_reserves yield_amounts
    simulate_yield_pool_swap now p balance_in =
        if not (valid balance_in)
        then some (err (typed invalid_input))
        else if is_zero balance_in
        then some (err err_amount_cannot_be_zero)
        else yield_amounts (calculate_t now p.maturity_at (duration p))
            (if str_beq balance_in.asset p.base_asset then div one (g_of p) else g_of p) p
            balance_in (yield_reserves p balance_in)

    module _ (bf : BigFloat D) where
      unfoldable pub simulate_swap : ℤ → Pool D → Balance → Option (Result (Balance × Balance))
      unfolding simulate_yield_pool_swap
      simulate_swap now p balance_in =
          if p.is_product_pool
          then simulate_product_pool_swap bf p balance_in
          else simulate_yield_pool_swap now p balance_in

      -- `balOut, _, err := ...; if err != nil { return 0, err }`, and then a price.
      priced :
          Option (Result (Balance × Balance)) → (Balance → Option (Result F)) → Option (Result F)
      priced none next = none
      priced (some (err e)) next = some (err e)
      priced (some (ok (out, fee))) next = next out

      unfoldable pub simulate_swap_price : ℤ → Pool D → Str → Balance → Option (Result F)
      unfolding simulate_swap priced executed_price
      simulate_swap_price now p base_asset_id bal_in = priced (simulate_swap now p bal_in) (λ out.
          some
            (ok (executed_price fl (str_beq bal_in.asset base_asset_id) bal_in.amount out.amount)))

      -- `float64(b.Amount)`
      abbrev float_amount : Balance → F
      float_amount b = of_int (pos b.amount)

      -- Price; `fraction` is swapSimluateFraction.
      unfoldable pub price : ℤ → F → Pool D → Option (Result F)
      unfolding simulate_swap priced
      price now fraction p =
          let base_in : Balance = record {
            asset = p.base_asset;
            amount = to_uint64 (mul (of_int (pos p.amount_base)) fraction);
          } in
          let quote_in : Balance = record {
            asset = p.quote_asset;
            amount = to_uint64 (mul (of_int (pos p.amount_quote)) fraction);
          } in
          priced (simulate_swap now p base_in) (λ out_quote.
            priced (simulate_swap now p quote_in) (λ out_base. some (
              ok (
                div
                  (fl.add (div (float_amount base_in) (float_amount out_quote))
                    (div (float_amount out_base) (float_amount quote_in)))
                  (of_int (pos 2))))))

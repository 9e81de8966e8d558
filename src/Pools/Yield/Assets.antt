-- ===== src/Pools/Yield/Assets.antt =====
-- The assets of what a swap against a pool of either kind pays and charges, in pools/types/pools.go.
use dora_service_utils.Base.{
  ◌≡◌, inl, inr, refl, sym, subst, Option, none, some, [], ◌∷◌, arith, Bool-cases, if◌then◌else◌,
}
use dora_service_utils.Base.Int.{ℤ, negsuc}
use dora_service_utils.Base.Word.{wrap64}
use dora_service_utils.Base.Text.{Str, str_beq, str_beq_iff, to_lower, equal_fold}
use dora_service_utils.Base.Result.{Result, ok, err, >>=-eq-ok}
use dora_service_utils.Math.Float64.{Float64}
use dora_service_utils.Math.BigFloat.{BigFloat}
use dora_service_utils.Math.BigInt.{sub_all, mul_all}
use dora_service_utils.Ledger.Balance.{Balance, add, integer64_int64}
use dora_service_utils.Pools.{Pool, other_asset_id}
use dora_service_utils.Pools.Assets.{other_asset_id_lem}
use dora_service_utils.Pools.Swap.{balances, duration}
use dora_service_utils.Pools.Swap.Assets.{
  new_balance_asset, AreSides, balances-AreSides, simulate_product_pool_swap-assets,
}
use dora_service_utils.Pools.Yield.{
  calculate_t, g_of, swapped_yield, yield_reserves, yield_amounts, simulate_yield_pool_swap,
  simulate_swap,
}

module _ (fl : Float64) {D : Type 0} (float_of : D → fl.F) (p : Pool D)
    (balance_in out fee : Balance) where
  swapped_yield-assets :
      (asset_out asset_in : Str) (a b : Option ℤ)
      → swapped_yield fl asset_out asset_in a b ≡ some (ok (out, fee))
      → (out.asset ≡ asset_out) × (fee.asset ≡ asset_in)
  unfolding swapped_yield
  swapped_yield-assets asset_out asset_in none b h = absurd (ground (arith, h))
  swapped_yield-assets asset_out asset_in (some m) none h = absurd (ground (arith, h))
  swapped_yield-assets asset_out asset_in (some m) (some n) h = ground (
    arith,
    h,
    new_balance_asset asset_out (wrap64 (mul_all (n ∷ negsuc 0 ∷ []))),
    new_balance_asset asset_in (wrap64 (sub_all n (m ∷ []))),
  )

  -- OtherAssetID of one of the two assets, letter for letter, is the other.
  other-AreSides :
      (id other : Str)
      → other_asset_id p balance_in.asset ≡ ok id
      → AreSides p balance_in.asset other
      → AreSides p balance_in.asset id
  unfolding equal_fold
  other-AreSides id other o (inl (is_base, e)) = inl (
    is_base,
    ground (
      arith,
      o,
      is_base,
      other_asset_id_lem p balance_in.asset,
      str_beq_iff (to_lower p.base_asset) (to_lower p.quote_asset),
      str_beq_iff (to_lower balance_in.asset) (to_lower p.base_asset),
    ),
  )
  other-AreSides id other o (inr (is_quote, e)) = inr (
    is_quote,
    ground (
      arith,
      o,
      is_quote,
      other_asset_id_lem p balance_in.asset,
      str_beq_iff (to_lower p.base_asset) (to_lower p.quote_asset),
      str_beq_iff (to_lower balance_in.asset) (to_lower p.base_asset),
      str_beq_iff (to_lower balance_in.asset) (to_lower p.quote_asset),
    ),
  )

  -- What yield_reserves names is the other asset.
  yield_reserves-AreSides :
      (r : Str × Balance × Balance)
      → yield_reserves fl float_of p balance_in ≡ ok r
      → AreSides p balance_in.asset r.0
  unfolding yield_reserves
  yield_reserves-AreSides r h =
      let (id, o, rest) = >>=-eq-ok (other_asset_id p balance_in.asset) _ h in
      let (sides, b, rest') = >>=-eq-ok (balances p balance_in.asset) _ rest in
      let (reserve_in, a, done) = >>=-eq-ok (add sides.0 (some balance_in)) _ rest' in
      let named : id ≡ r.0 = cc in
      subst (AreSides p balance_in.asset) named
        (other-AreSides id sides.1.asset o (balances-AreSides p balance_in.asset sides.0 sides.1 b))

  yield_amounts-AreSides :
      (t g : fl.F) (r : Result (Str × Balance × Balance))
      → yield_reserves fl float_of p balance_in ≡ r
      → yield_amounts fl float_of t g p balance_in r ≡ some (ok (out, fee))
      → AreSides p balance_in.asset out.asset × (fee.asset ≡ balance_in.asset)
  unfolding yield_amounts
  yield_amounts-AreSides t g (err e) r h = absurd (ground (arith, h))
  yield_amounts-AreSides t g (ok (id, x, y)) r h =
      let (paid, charged) = swapped_yield-assets id balance_in.asset _ _ h in
      (
        subst (AreSides p balance_in.asset) (sym paid) (yield_reserves-AreSides (id, x, y) r),
        charged,
      )

  yield_swap-AreSides :
      (now : ℤ)
      → simulate_yield_pool_swap fl float_of now p balance_in ≡ some (ok (out, fee))
      → AreSides p balance_in.asset out.asset × (fee.asset ≡ balance_in.asset)
  unfolding simulate_yield_pool_swap
  yield_swap-AreSides now h =
      yield_amounts-AreSides (calculate_t fl now p.maturity_at (duration p))
        (if str_beq balance_in.asset p.base_asset
          then fl.div fl.one (g_of fl float_of p)
          else g_of fl float_of p)
        (yield_reserves fl float_of p balance_in) refl (ground (arith, h))

  -- A swap that succeeds, against a product or a yield pool, at any time and whatever the floats are:
  -- what is put in is one of the pool's two assets, letter for letter, what is paid out is of the
  -- other, and the fee is in the asset that is put in.
  pub simulate_swap-AreSides :
      (bf : BigFloat D) (now : ℤ)
      → simulate_swap fl float_of bf now p balance_in ≡ some (ok (out, fee))
      → AreSides p balance_in.asset out.asset × (fee.asset ≡ balance_in.asset)
  unfolding simulate_swap
  simulate_swap-AreSides bf now h = elim (Bool-cases p.is_product_pool) [
    | inl y ↦ simulate_product_pool_swap-assets bf p balance_in out fee (ground (arith, h, y))
    | inr n ↦ yield_swap-AreSides now (ground (arith, h, n))
  ]

-- ===== src/Pools/Swap/Assets.antt =====
-- The assets of what a swap against a product pool pays and charges, in pools/types/pools.go.
use dora_service_utils.Base.{
  ◌≡◌, ◌⊎◌, inl, inr, refl, sym, subst, Option, none, some, [], ◌∷◌, arith, Bool-cases,
}
use dora_service_utils.Base.Int.{ℤ, pos, ltb_ℤ}
use dora_service_utils.Base.Word.{to_i64, wrap64}
use dora_service_utils.Base.Text.{Str, str_beq, str_beq_iff}
use dora_service_utils.Base.Result.{Result, ok, err}
use dora_service_utils.Math.BigFloat.{BigFloat}
use dora_service_utils.Math.BigInt.{sub_all}
use dora_service_utils.Ledger.Balance.{Balance, Integer64, new_balance, amt, integer64_int64}
use dora_service_utils.Pools.{Pool}
use dora_service_utils.Pools.Swap.{
  balances, paid_out, swapped, swap_after_fee, swap_reserves, simulate_product_pool_swap,
}

pub new_balance_asset :
    {T : Type 0} ⦃i : Integer64 T⦄ (asset : Str) (amount : T)
    → (new_balance asset amount).asset ≡ asset
unfolding new_balance
new_balance_asset asset amount = ground (arith, str_beq_iff asset [])

module _ {D : Type 0} (p : Pool D) where
  -- One of the pool's assets is put in, and the other is paid out.
  abbrev pub AreSides : Str → Str → Type 0
  AreSides asset_in asset_out =
      ((asset_in ≡ p.base_asset) × (asset_out ≡ p.quote_asset))
      ⊎ ((asset_in ≡ p.quote_asset) × (asset_out ≡ p.base_asset))

  pub balances-AreSides :
      (asset : Str) (x y : Balance) → balances p asset ≡ ok (x, y) → AreSides asset y.asset
  unfolding balances
  balances-AreSides asset x y h = elim (Bool-cases (str_beq asset p.base_asset)) [
    | inl b ↦ inl (
        ground (
          arith,
          h,
          new_balance_asset p.quote_asset (to_i64 p.amount_quote),
          str_beq_iff asset p.base_asset,
        ))
    | inr n ↦ elim (Bool-cases (str_beq asset p.quote_asset)) [
      | inl q ↦ inr (
          ground (
            arith,
            h,
            new_balance_asset p.base_asset (to_i64 p.amount_base),
            str_beq_iff asset p.quote_asset,
          ))
      | inr m ↦ absurd (ground arith)
    ]
  ]

swapped-assets :
    (reserve_out balance_in out fee : Balance) (f : ℤ) (m : Option ℤ)
    → swapped reserve_out balance_in f m ≡ some (ok (out, fee))
    → (out.asset ≡ reserve_out.asset) × (fee.asset ≡ balance_in.asset)
unfolding swapped
swapped-assets reserve_out balance_in out fee f none h = absurd (ground arith)
swapped-assets reserve_out balance_in out fee f (some n) h = ground (
  arith,
  h,
  new_balance_asset reserve_out.asset (wrap64 n),
  new_balance_asset balance_in.asset (wrap64 f),
)

swap_after_fee-assets :
    (reserve_in reserve_out balance_in out fee : Balance) (f : ℤ)
    → swap_after_fee reserve_in reserve_out balance_in f ≡ some (ok (out, fee))
    → (out.asset ≡ reserve_out.asset) × (fee.asset ≡ balance_in.asset)
unfolding swap_after_fee
swap_after_fee-assets reserve_in reserve_out balance_in out fee f h =
    elim (Bool-cases (ltb_ℤ (pos 0) (sub_all (amt balance_in) (f ∷ [])))) [
      | inl y ↦
          swapped-assets reserve_out balance_in out fee f
            (paid_out (to_i64 reserve_in.amount) (to_i64 reserve_out.amount)
              (sub_all (amt balance_in) (f ∷ [])))
            (ground (arith, h, y))
      | inr n ↦ absurd (ground (arith, h, n))
    ]

module _ {D : Type 0} (bf : BigFloat D) (p : Pool D) (balance_in out fee : Balance) where
  swap_reserves-assets :
      (r : Result (Balance × Balance))
      → balances p balance_in.asset ≡ r
      → swap_reserves bf p balance_in r ≡ some (ok (out, fee))
      → AreSides p balance_in.asset out.asset × (fee.asset ≡ balance_in.asset)
  unfolding swap_reserves
  swap_reserves-assets (err e) b h = absurd (ground (arith, h))
  swap_reserves-assets (ok (x, y)) b h =
      let (paid, charged) = swap_after_fee-assets x y balance_in out fee _ h in
      (
        subst (AreSides p balance_in.asset) (sym paid) (balances-AreSides p balance_in.asset x y b),
        charged,
      )

  pub simulate_product_pool_swap-assets :
      simulate_product_pool_swap bf p balance_in ≡ some (ok (out, fee))
      → AreSides p balance_in.asset out.asset × (fee.asset ≡ balance_in.asset)
  unfolding simulate_product_pool_swap
  simulate_product_pool_swap-assets h =
      swap_reserves-assets (balances p balance_in.asset) refl (ground (arith, h))

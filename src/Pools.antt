-- ===== src/Pools.antt =====
-- pools/types/pools.go: a liquidity pool. Every method that writes returns the pool that it leaves
-- beside its result, also where it fails, since what was written stays written. Liquidity, swaps and
-- the yield curve are in modules below; JSON is left out.
pub mod Assets
pub mod Reserves
pub mod Liquidity
pub mod Swap
pub mod Yield
use dora_service_utils.Base.{
  ℕ, ◌+◌, ◌%◌, Bool, true, false, ◌||◌, ◌&&◌, not, List, [], ◌∷◌, if◌then◌else◌,
}
use dora_service_utils.Base.Int.{ℤ}
use dora_service_utils.Base.Word.{u64_mod}
use dora_service_utils.Base.Text.{
  Str, hyphen, str_beq, str_ltb, to_lower, equal_fold, contains_byte,
}
use dora_service_utils.Base.Result.{
  Result, ok, err, Error, typed, invalid_input, invalid_data, err_asset_not_found_in_pool,
  err_pool_should_have_2_assets,
}
use dora_service_utils.Math.SafeMath.{checked_sub_u64}
use dora_service_utils.Ledger.Amount
use dora_service_utils.Ledger.Amount.{Amount, new_amount, empty_amount, add_uint64}
use dora_service_utils.Ledger.Balance.{Balance, valid}

-- `D` is decimal.Decimal of github.com/govalues/decimal.
pub record Pool (D : Type 0) : Type 0 where
  pub pool_id : Str
  pub base_asset : Str
  pub quote_asset : Str
  pub is_product_pool : Bool
  pub amount_shares : ℕ
  pub amount_base : ℕ
  pub amount_quote : ℕ
  pub fees_collected_base : ℕ
  pub fees_collected_quote : ℕ
  pub fee_factor : D
  pub created_at : ℤ
  pub maturity_at : ℤ
  pub initial_assets_ratio : D
  pub display_name : Str
  pub sequence : ℕ

-- `contains`, case insensitive
unfoldable pub contains_fold : List Str → Str → Bool
unfolding equal_fold
contains_fold [] target = false
contains_fold (s ∷ set) target = equal_fold s target || contains_fold set target

unfoldable pub has_hyphen : Str → Bool
has_hyphen uid = contains_byte hyphen uid

-- `newAmount.Amount`
amount_in : Result Amount → Result ℕ
amount_in (ok a) = ok a.amount
amount_in (err e) = err e

module _ {D : Type 0} where
  -- `p.Sequence++`
  abbrev pub next_sequence : Pool D → ℕ
  next_sequence p = (p.sequence + 1) % u64_mod

  unfoldable pub add_accumulated_fees : Pool D → Balance → Pool D × Result (Unit {0})
  unfolding valid
  add_accumulated_fees p bal =
      if not (valid bal)
      then (p, err (typed invalid_input))
      else if str_beq bal.asset p.base_asset
      then (
        record p {
          fees_collected_base = (p.fees_collected_base + bal.amount) % u64_mod;
          sequence = next_sequence p;
        },
        ok tt,
      )
      else if str_beq bal.asset p.quote_asset
      then (
        record p {
          fees_collected_quote = (p.fees_collected_quote + bal.amount) % u64_mod;
          sequence = next_sequence p;
        },
        ok tt,
      )
      else (p, err (typed invalid_input))

  unfoldable pub amount : Pool D → Str → Amount
  amount p asset_uid =
      if str_beq asset_uid p.base_asset
      then new_amount p.base_asset p.amount_base
      else if str_beq asset_uid p.quote_asset
      then new_amount p.quote_asset p.amount_quote
      else empty_amount

  -- The two IDs as `sort.Slice` leaves them.
  unfoldable pub asset_ids : Pool D → Str × Str
  asset_ids p =
      if str_ltb p.quote_asset p.base_asset
      then (p.quote_asset, p.base_asset)
      else (p.base_asset, p.quote_asset)

  unfoldable pub amounts : Pool D → Str → Result (Amount × Amount)
  amounts p asset_a =
      if str_beq asset_a p.base_asset
      then ok (new_amount p.base_asset p.amount_base, new_amount p.quote_asset p.amount_quote)
      else if str_beq asset_a p.quote_asset
      then ok (new_amount p.quote_asset p.amount_quote, new_amount p.base_asset p.amount_base)
      else err err_asset_not_found_in_pool

  unfoldable pub other_asset_id : Pool D → Str → Result Str
  unfolding asset_ids equal_fold
  other_asset_id p id_in =
      let (id0, id1) = asset_ids p in
      if equal_fold id0 id1
      then err err_pool_should_have_2_assets
      else if str_beq (to_lower id_in) (to_lower id0)
      then ok id1
      else if str_beq (to_lower id_in) (to_lower id1)
      then ok id0
      else err err_asset_not_found_in_pool

  unfoldable pub other_asset_id_from_set : Pool D → List Str → Str × Bool
  unfolding asset_ids
  other_asset_id_from_set p ids =
      let (id0, id1) = asset_ids p in
      let match0 = contains_fold ids id0 in
      let match1 = contains_fold ids id1 in
      if match0 && match1
      then ([], false)
      else if match0
      then (id1, true)
      else if match1
      then (id0, true)
      else ([], false)

  unfoldable pub validate : Pool D → Result (Unit {0})
  unfolding has_hyphen
  validate p =
      if has_hyphen p.base_asset || has_hyphen p.quote_asset
      then err (typed invalid_data)
      else ok tt

  -- What a write of one reserve does with a checked result.
  write_base : Pool D → Result ℕ → Pool D × Result (Unit {0})
  write_base p (ok n) = (record p { amount_base = n; sequence = next_sequence p }, ok tt)
  write_base p (err e) = (p, err e)

  write_quote : Pool D → Result ℕ → Pool D × Result (Unit {0})
  write_quote p (ok n) = (record p { amount_quote = n; sequence = next_sequence p }, ok tt)
  write_quote p (err e) = (p, err e)

  unfoldable pub add_amount : Pool D → Amount → Pool D × Result (Unit {0})
  unfolding write_base write_quote amount_in
  add_amount p a =
      if str_beq a.asset_id p.base_asset
      then write_base p (amount_in (add_uint64 a p.amount_base))
      else if str_beq a.asset_id p.quote_asset
      then write_quote p (amount_in (add_uint64 a p.amount_quote))
      else (p, err (typed invalid_data))

  unfoldable pub sub_amount : Pool D → Amount → Pool D × Result (Unit {0})
  unfolding write_base write_quote
  sub_amount p a =
      if str_beq a.asset_id p.base_asset
      then write_base p (checked_sub_u64 p.amount_base a.amount)
      else if str_beq a.asset_id p.quote_asset
      then write_quote p (checked_sub_u64 p.amount_quote a.amount)
      else (p, err (typed invalid_data))

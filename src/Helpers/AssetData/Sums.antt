-- ===== src/Helpers/AssetData/Sums.antt =====
-- The values of a position in USD of helpers/asset.go: each Exact... sum iterates over a set of
-- balances, whose callback skips an entry, adds a value to the sum or ends it with an error. A sum is
-- returned beside its error.
pub mod Errors
use dora_service_utils.Base.{Bool, not, Option, none, some, List, [], ◌∷◌, if◌then◌else◌}
use dora_service_utils.Base.Int.{ℤ, pos, ltb_ℤ}
use dora_service_utils.Base.Word.{neg_i}
use dora_service_utils.Base.Text.{Str}
use dora_service_utils.Base.Result.{Result, ok, err, Error, ◌>>=◌}
use dora_service_utils.Math.Float64.{Float64}
use dora_service_utils.Ledger.Balances.{Balances}
use dora_service_utils.Ledger.Balances.Selection.{iterate}
use dora_service_utils.Ledger.Position.{Position}
use dora_service_utils.Helpers.AssetData.{
  AssetData, liquidation_threshold_of, collateral_weight_of, is_bond_of, asset_value_in_usd,
}

module _ (fl : Float64) where
  open fl use {F, zero, one, beq, le, add, sub}

  -- What the callback makes of an entry: nothing, a value to add, or an error.
  abbrev pub Term : Type 0
  Term = Result (Option F)

  -- `total += value`
  unfoldable pub added : Term → F → F × Option Error
  added (ok none) total = (total, none)
  added (ok (some value)) total = (add total value, none)
  added (err e) total = (total, some e)

  unfoldable pub sum_of : (Str → ℤ → Term) → Balances → F × Option Error
  unfolding added
  sum_of term b = iterate (λ id amt total. added (term id amt) total) b zero

  value_term : AssetData F → ℤ → Str → F → Term
  value_term ad amt id multiplier = do
    value ← asset_value_in_usd fl ad amt id multiplier
    ok (some value)

  -- A weight of zero needs no price.
  weighted_term : AssetData F → ℤ → Str → F → F → Term
  unfolding value_term
  weighted_term ad amt id weight multiplier =
      if beq weight zero then ok none else value_term ad amt id multiplier

  unfoldable pub threshold_term : AssetData F → Str → ℤ → Term
  unfolding weighted_term
  threshold_term ad id amt =
      if not (ltb_ℤ (pos 0) amt)
      then ok none
      else do lt ← liquidation_threshold_of ad id; weighted_term ad amt id lt lt

  unfoldable pub limit_term : AssetData F → Str → ℤ → Term
  unfolding weighted_term
  limit_term ad id amt =
      if not (ltb_ℤ (pos 0) amt)
      then ok none
      else do cw ← collateral_weight_of ad id; weighted_term ad amt id cw cw

  unfoldable pub collateral_term : AssetData F → Str → ℤ → Term
  unfolding weighted_term value_term
  collateral_term ad id amt =
      if not (ltb_ℤ (pos 0) amt)
      then ok none
      else do cw ← collateral_weight_of ad id; weighted_term ad amt id cw one

  -- `amt = -1 * amt`
  unfoldable pub borrowed_term : AssetData F → Str → ℤ → Term
  unfolding value_term
  borrowed_term ad id amt =
      if not (ltb_ℤ amt (pos 0)) then ok none else value_term ad (neg_i amt) id one

  unfoldable pub supplied_term : AssetData F → Str → ℤ → Term
  unfolding value_term
  supplied_term ad id amt = if not (ltb_ℤ (pos 0) amt) then ok none else value_term ad amt id one

  unfoldable pub bond_term : AssetData F → Str → ℤ → Term
  unfolding value_term
  bond_term ad id amt =
      if not (ltb_ℤ (pos 0) amt)
      then ok none
      else if not (is_bond_of ad id)
      then ok none
      else value_term ad amt id one

  unfoldable pub exact_liquidation_threshold : AssetData F → Position Balances → F × Option Error
  unfolding sum_of threshold_term
  exact_liquidation_threshold ad p = sum_of (threshold_term ad) p.exported.owned

  unfoldable pub exact_borrow_limit : AssetData F → Position Balances → F × Option Error
  unfolding sum_of limit_term
  exact_borrow_limit ad p = sum_of (limit_term ad) p.exported.owned

  unfoldable pub exact_borrowed_value : AssetData F → Position Balances → F × Option Error
  unfolding sum_of borrowed_term
  exact_borrowed_value ad p = sum_of (borrowed_term ad) p.exported.owned

  unfoldable pub exact_collateral_value : AssetData F → Position Balances → F × Option Error
  unfolding sum_of collateral_term
  exact_collateral_value ad p = sum_of (collateral_term ad) p.exported.owned

  unfoldable pub exact_supplied_value : AssetData F → Position Balances → F × Option Error
  unfolding sum_of supplied_term
  exact_supplied_value ad p = sum_of (supplied_term ad) p.exported.supplied

  available : F → F × Option Error → F × Option Error
  available locked (owned, e) = (if le locked owned then sub owned locked else zero, e)

  unfoldable pub exact_available_value : AssetData F → Position Balances → F × Option Error
  unfolding sum_of bond_term available
  exact_available_value ad p =
      let (locked, failed) = sum_of (bond_term ad) p.exported.locked in
      elim failed [
        | some e ↦ (locked, some e)
        | none ↦ available locked (sum_of (bond_term ad) p.exported.owned)
      ]

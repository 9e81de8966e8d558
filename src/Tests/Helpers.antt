-- ===== src/Tests/Helpers.antt =====
-- Runs of the theorems on positions, assets and stablecoins.
use dora_service_utils.Base.{
  ◌↔◌, ℕ, ◌+◌, ◌%◌, ◌≤◌, ◌<◌, ◌≡◌, ◌≢◌, refl, Bool, true, false, Option, none, some, List, [], ◌∷◌,
  arith,
}
use dora_service_utils.Base.Int.{beq_ℤ, leb_ℤ, ℤ, pos, negsuc, leb_ℤ, ltb_ℤ}
use dora_service_utils.Base.Word.{u64_mod}
use dora_service_utils.Base.Text.{Str, codes, str_beq, str_eq}
use dora_service_utils.Base.Dict.{get}
use dora_service_utils.Base.Result.{Result, ok}
use dora_service_utils.Ledger.Balance.{Balance}
use dora_service_utils.Ledger.Balances.{Balances, of_map, empty_balances}
use dora_service_utils.Ledger.Balances.Selection
use dora_service_utils.Ledger.Balances.WellFormed.{IsWellFormed}
use dora_service_utils.Ledger.Position.{Exported, Position, Json, present}
use dora_service_utils.Math.Float64.{Float64}
use dora_service_utils.Helpers.AssetData.{
  AssetData, Coupon, Registration, rejected, register_asset, decimals_of, is_currency_of,
}
use dora_service_utils.Helpers.AssetData.Lookups.{
  IsInitialized, register_asset_lem, IsRegistrable, IsRegistered, AreSame,
}
use dora_service_utils.Helpers.AssetData.Coupons.{coupons_ending_in_range}
use dora_service_utils.Helpers.AssetData.Coupons.Periods.{
  count, plus, coupons_ending_in_range_splits,
}
use dora_service_utils.Helpers.Stablecoin.{
  Outcome, activate, cleanup, with_balances, apply_decimals_then_round,
}
use dora_service_utils.Helpers.Stablecoin.Conservation.{
  IsExchange, activate-IsExchange, cleanup-IsExchange,
}
use dora_service_utils.Helpers.Stablecoin.Returns.{returns, AreSmall, activate-cleanup_return}
use dora_service_utils.Tests.Ledger.{usd, eur, held, held-IsWellFormed}

-- A float64 is an integer here.
abbrev floats : Float64
floats = record {
  F = ℤ;
  zero = pos 0;
  is_nan = λ x. false;
  is_inf = λ x. false;
  lt = ltb_ℤ;
  mul = λ x y. x;
  div = λ x y. x;
  of_int = λ x. x;
  pow10 = λ x. x;
  one = pos 1;
  beq = beq_ℤ;
  le = leb_ℤ;
  add = λ x y. x;
  sub = λ x y. x;
  pow = λ x y. x;
  new_float_int = λ x. some x;
  to_uint64 = λ x. 0;
}

abbrev both : {V : Type 0} → V → V → Option (List (Str × V))
both x y = some ((usd, x) ∷ (eur, y) ∷ [])

abbrev half_coupon : Coupon ℤ
half_coupon = record { date = codes "1"; start = []; yield = pos 1; is_maturity = false }

abbrev assets : AssetData ℤ
assets = record {
  decimals = both (pos 0) (pos 0);
  collateral_weights = both (pos 1) (pos 1);
  liquidation_thresholds = both (pos 1) (pos 1);
  is_currency = both true true;
  is_bond = both false false;
  can_trade = both true true;
  can_borrow = both true true;
  is_virtual_borrow = both false false;
  is_interest = both false false;
  coupons = both (half_coupon ∷ []) [];
  prices = both (pos 1) (pos 1);
  initialized = true;
}

abbrev fields_of : Balances → Balances → Exported Balances
fields_of owned sseq = record {
  user_id = codes "ann";
  owned = owned;
  locked = empty_balances;
  supplied = empty_balances;
  sseq = sseq;
  inactive = empty_balances;
  interest_sources = empty_balances;
  native_asset = [];
  last_updated = pos 0;
  sequence = 4;
}

abbrev position_of : Balances → Balances → Position Balances
position_of owned sseq = record {
  exported = fields_of owned sseq;
  original = codes "x";
  original_sequence = 4;
}

-- Five dollars and seven euros, before and after two euros have become dollars.
abbrev ann : Position Balances
ann = position_of held empty_balances

abbrev owned_after : Balances
owned_after = of_map ((usd, pos 7) ∷ (eur, pos 5) ∷ [])

abbrev sseq_after : Balances
sseq_after = of_map ((eur, negsuc 1) ∷ (usd, pos 2) ∷ [])

abbrev converted : Position Balances
converted = position_of owned_after sseq_after

empty-IsWellFormed : IsWellFormed empty_balances
unfolding get
empty-IsWellFormed = record { unique = tt; in_range = λ k v e. ground arith }

owned_after-IsWellFormed : IsWellFormed owned_after
unfolding get str_beq
owned_after-IsWellFormed = record { unique = (refl, (refl, tt)); in_range = λ k v e. ground arith }

sseq_after-IsWellFormed : IsWellFormed sseq_after
unfolding get str_beq
sseq_after-IsWellFormed = record { unique = (refl, (refl, tt)); in_range = λ k v e. ground arith }

abbrev seven_dollars : Balance
seven_dollars = record { asset = usd; amount = 7 }

activate-IsExchange_example : IsExchange ann converted
unfolding activate is_currency_of get str_beq
    dora_service_utils.Ledger.Balances.Calculus.has_at_least dora_service_utils.Ledger.Balance.amt
    decimals_of dora_service_utils.Base.Signed.div_i64 Selection.positive_assets
    dora_service_utils.Base.Signed.◌*i◌ dora_service_utils.Base.Word.wrap64
    dora_service_utils.Base.Int.◌*ℤ◌ dora_service_utils.Base.Word.◌-i◌
    dora_service_utils.Base.Int.◌-ℤ◌ dora_service_utils.Ledger.Balances.amount_of
    dora_service_utils.Helpers.Stablecoin.convert_round
    dora_service_utils.Ledger.Balances.Calculus.safe_sub
    dora_service_utils.Ledger.Balance.new_balance dora_service_utils.Base.Dict.insert
    dora_service_utils.Base.Dict.merge dora_service_utils.Base.Int.neg
    dora_service_utils.Base.Int.◌+ℤ◌ dora_service_utils.Base.Word.neg_i
    dora_service_utils.Base.Word.to_i64 dora_service_utils.Base.Word.to_u64
    dora_service_utils.Base.Word.◌+i◌ dora_service_utils.Helpers.Stablecoin.advance
    apply_decimals_then_round dora_service_utils.Helpers.Stablecoin.convert_all
    dora_service_utils.Helpers.Stablecoin.convert_asset
    dora_service_utils.Helpers.Stablecoin.exchange dora_service_utils.Helpers.Stablecoin.exchanged
    dora_service_utils.Helpers.Stablecoin.exp10 dora_service_utils.Helpers.Stablecoin.ten_to
    dora_service_utils.Ledger.Balances.Calculus.sub_amount Selection.ids_where
    dora_service_utils.Ledger.Balances.add_amount dora_service_utils.Ledger.Balances.copied
activate-IsExchange_example =
    activate-IsExchange assets ann (record { left = converted; copied = true }) seven_dollars
      held-IsWellFormed empty-IsWellFormed refl

abbrev restored : Position Balances
restored = position_of held (of_map ((eur, pos 0) ∷ (usd, pos 0) ∷ []))

cleanup-IsExchange_example : IsExchange converted restored
unfolding cleanup Selection.asset_ids Selection.negative dora_service_utils.Base.Dict.merge
    dora_service_utils.Base.Dict.insert dora_service_utils.Base.Word.neg_i
    dora_service_utils.Base.Word.wrap64 dora_service_utils.Base.Int.neg Selection.positive
    is_currency_of get str_beq decimals_of dora_service_utils.Base.Signed.div_i64
    dora_service_utils.Base.Word.◌-i◌ dora_service_utils.Base.Int.◌-ℤ◌
    dora_service_utils.Base.Signed.◌*i◌ dora_service_utils.Base.Int.◌*ℤ◌
    dora_service_utils.Base.Int.◌+ℤ◌ dora_service_utils.Base.Word.to_i64
    dora_service_utils.Base.Word.to_u64 dora_service_utils.Base.Word.◌+i◌
    dora_service_utils.Helpers.Stablecoin.after_exchange apply_decimals_then_round
    dora_service_utils.Helpers.Stablecoin.clean dora_service_utils.Helpers.Stablecoin.exchange
    dora_service_utils.Helpers.Stablecoin.exchanged dora_service_utils.Helpers.Stablecoin.exp10
    dora_service_utils.Helpers.Stablecoin.net dora_service_utils.Helpers.Stablecoin.netted
    dora_service_utils.Helpers.Stablecoin.ten_to dora_service_utils.Helpers.Stablecoin.with_decimals
    dora_service_utils.Ledger.Balance.amt dora_service_utils.Ledger.Balance.new_balance
    dora_service_utils.Ledger.Balances.Calculus.has_at_least
    dora_service_utils.Ledger.Balances.Calculus.safe_sub
    dora_service_utils.Ledger.Balances.Calculus.sub_amount Selection.ids_where
    Selection.select_positive dora_service_utils.Ledger.Balances.add_amount
    dora_service_utils.Ledger.Balances.amount_of dora_service_utils.Ledger.Balances.copied
cleanup-IsExchange_example =
    cleanup-IsExchange assets converted (record { left = restored; copied = true })
      owned_after-IsWellFormed sseq_after-IsWellFormed refl

assets-AreSmall : AreSmall assets
unfolding decimals_of get str_beq
assets-AreSmall id d e = ground arith

activate-cleanup_return_example :
    (returns (activate assets ann seven_dollars) ≡ true) × (returns (cleanup assets ann) ≡ true)
activate-cleanup_return_example = activate-cleanup_return assets assets-AreSmall ann seven_dollars

-- Whatever is marshalled is the text "x", and it is read as the position of `ann`.
abbrev json : Json
json = record { marshal = λ e. ok (codes "x"); unmarshal = λ j e. (present ann.exported, ok tt) }

abbrev gold : Registration ℤ
gold = record {
  decimals = pos 6;
  collateral_weight = pos 1;
  liquidation_threshold = pos 1;
  is_currency = false;
  is_bond = true;
  can_trade = true;
  can_borrow = false;
  is_virtual_borrow = false;
  is_interest = false;
  coupons = none ∷ some half_coupon ∷ [];
}

assets-IsInitialized : IsInitialized assets
assets-IsInitialized = record {
  decimals = ground arith;
  collateral_weights = ground arith;
  liquidation_thresholds = ground arith;
  is_currency = ground arith;
  is_bond = ground arith;
  can_trade = ground arith;
  can_borrow = ground arith;
  is_virtual_borrow = ground arith;
  is_interest = ground arith;
  coupons = ground arith;
  prices = ground arith;
}

abbrev registered : AssetData ℤ
registered = (register_asset floats assets (codes "GOLD") gold).0

register_asset_lem_example :
    (((register_asset floats assets (codes "GOLD") gold).1 ≡ ok tt)
      ↔ IsRegistrable floats (codes "GOLD") gold)
    × ((registered.prices ≡ assets.prices)
        × IsRegistered floats registered (codes "GOLD") gold
        × AreSame floats assets registered usd)
unfolding rejected str_beq register_asset
register_asset_lem_example =
    register_asset_lem floats assets (codes "GOLD") usd gold refl assets-IsInitialized
      (ground arith)

-- Every date is the time 5.
abbrev five : Str → Result ℤ
five date = ok (pos 5)

coupons_ending_in_range_splits_example :
    count floats five (coupons_ending_in_range floats five assets usd (pos 1) (pos 9))
    ≡ plus floats five
        (count floats five (coupons_ending_in_range floats five assets usd (pos 1) (pos 4)))
        (count floats five (coupons_ending_in_range floats five assets usd (pos 4) (pos 9)))
coupons_ending_in_range_splits_example =
    coupons_ending_in_range_splits floats five assets usd (pos 1) (pos 4) (pos 9) (ground arith)
      (ground arith)

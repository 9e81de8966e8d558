-- ===== src/Tests/Yield.antt =====
-- Runs of the theorems on the yield curve and on the values of a position, where a float64 is an
-- integer.
use dora_service_utils.Base.{
  ℕ, ◌≡◌, ◌↔◌, ◌⊎◌, inl, inr, refl, Bool, true, false, Option, none, some, List, [], ◌∷◌, arith,
}
use dora_service_utils.Base.Int.{ℤ, pos, negsuc, ltb_ℤ, leb_ℤ, beq_ℤ, ◌+ℤ◌, ◌-ℤ◌}
use dora_service_utils.Base.Text.{Str, codes}
use dora_service_utils.Math.Float64.{Float64}
use dora_service_utils.Math.BigFloat.{BigFloat}
use dora_service_utils.Ledger.Balance.{Balance}
use dora_service_utils.Ledger.Balances.{Balances, empty_balances, of_map, entries}
use dora_service_utils.Ledger.Position.{Position}
use dora_service_utils.Helpers.AssetData.{AssetData}
use dora_service_utils.Helpers.AssetData.Sums.{exact_borrow_limit, exact_collateral_value}
use dora_service_utils.Helpers.AssetData.Sums.Errors.{
  Each, IsCovered, borrow_limit-collateral_value_iff,
}
use dora_service_utils.Pools.{Pool}
use dora_service_utils.Pools.Swap.Assets.{AreSides}
use dora_service_utils.Pools.Yield.{simulate_swap}
use dora_service_utils.Pools.Yield.Assets.{simulate_swap-AreSides}

abbrev integers : Float64
integers = record {
  F = ℤ;
  zero = pos 0;
  one = pos 1;
  is_nan = λ x. false;
  is_inf = λ x. false;
  lt = ltb_ℤ;
  le = leb_ℤ;
  beq = beq_ℤ;
  add = λ x y. x;
  sub = λ x y. y;
  mul = λ x y. x;
  div = λ x y. x;
  of_int = λ x. x;
  pow10 = λ x. x;
  pow = λ x y. x;
  new_float_int = λ x. some (negsuc 4);
  to_uint64 = λ x. 0;
}

abbrev big_integers : BigFloat ℤ
big_integers = record {
  F = ℤ;
  set_int64 = λ i. i;
  set_int = λ i. i;
  zero_f = pos 0;
  one_f = pos 1;
  add_to = λ x y. x;
  mul_by = λ x y. x;
  mul = λ x y. x;
  quo = λ x y. x;
  to_int = λ x. x;
  sign_is_zero = λ x. false;
  of_decimal = λ d. d;
}

abbrev usd : Str
usd = codes "USD"

abbrev bond : Str
bond = codes "BOND"

abbrev yield_pool : Pool ℤ
yield_pool = record {
  pool_id = codes "BOND-USD";
  base_asset = bond;
  quote_asset = usd;
  is_product_pool = false;
  amount_shares = 100;
  amount_base = 100;
  amount_quote = 200;
  fees_collected_base = 0;
  fees_collected_quote = 0;
  fee_factor = pos 1;
  created_at = pos 0;
  maturity_at = pos 1000;
  initial_assets_ratio = pos 2;
  display_name = bond;
  sequence = 0;
}

abbrev ten_usd : Balance
ten_usd = record { asset = usd; amount = 10 }

abbrev five_bonds : Balance
five_bonds = record { asset = bond; amount = 5 }

abbrev no_fee : Balance
no_fee = record { asset = usd; amount = 0 }

simulate_swap-AreSides_example :
    AreSides yield_pool ten_usd.asset five_bonds.asset × (no_fee.asset ≡ ten_usd.asset)
unfolding simulate_swap dora_service_utils.Base.Text.str_beq dora_service_utils.Base.Text.str_ltb
    dora_service_utils.Base.Text.equal_fold dora_service_utils.Base.Text.to_lower
    dora_service_utils.Pools.other_asset_id dora_service_utils.Pools.Swap.balances
    dora_service_utils.Ledger.Balance.add dora_service_utils.Ledger.Balance.new_balance
    dora_service_utils.Base.Word.wrap64 dora_service_utils.Base.Int.◌*ℤ◌ ◌+ℤ◌ ◌-ℤ◌
simulate_swap-AreSides_example =
    simulate_swap-AreSides integers (λ (d : ℤ). d) yield_pool ten_usd five_bonds no_fee big_integers
      (pos 10) refl

-- A bond with no collateral weight.
abbrev weights : AssetData ℤ
weights = record {
  decimals = some ((usd, pos 6) ∷ []);
  collateral_weights = some ((usd, pos 1) ∷ []);
  liquidation_thresholds = some [];
  is_currency = some [];
  is_bond = some [];
  can_trade = some [];
  can_borrow = some [];
  is_virtual_borrow = some [];
  is_interest = some [];
  coupons = some [];
  prices = some ((usd, pos 1) ∷ []);
  initialized = true;
}

abbrev holding : Position Balances
holding = record {
  exported = record {
    user_id = codes "bob";
    owned = of_map ((usd, pos 5) ∷ (bond, pos 1) ∷ []);
    locked = empty_balances;
    supplied = empty_balances;
    sseq = empty_balances;
    inactive = empty_balances;
    interest_sources = empty_balances;
    native_asset = usd;
    last_updated = pos 0;
    sequence = 3;
  };
  original = [];
  original_sequence = 0;
}

borrow_limit-collateral_value_iff_example :
    (((exact_borrow_limit integers weights holding).1 ≡ none)
      ↔ Each integers (IsCovered integers weights) (entries holding.exported.owned))
    × (((exact_collateral_value integers weights holding).1 ≡ none)
        ↔ Each integers (IsCovered integers weights) (entries holding.exported.owned))
borrow_limit-collateral_value_iff_example =
    borrow_limit-collateral_value_iff integers weights holding

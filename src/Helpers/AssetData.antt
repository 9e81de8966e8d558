-- ===== src/Helpers/AssetData.antt =====
-- helpers/asset.go: the asset parameters and prices used for matchmaking. A map is none where it is
-- nil.
pub mod Lookups
pub mod Coupons
pub mod Sums
use dora_service_utils.Base.{
  ℕ, Bool, true, false, not, ◌&&◌, ◌||◌, Option, none, some, List, [], ◌∷◌, if◌then◌else◌,
}
use dora_service_utils.Base.Int.{ℤ, pos, ltb_ℤ, leb_ℤ, beq_ℤ}
use dora_service_utils.Base.Text.{Str, str_beq, str_eq}
use dora_service_utils.Base.Dict.{Dict, get, insert}
use dora_service_utils.Base.Result.{Result, ok, err, plain, fail_if, ◌>>=◌, ◌>>◌}
use dora_service_utils.Math.Float64.{Float64}

pub record Coupon (F : Type 0) : Type 0 where
  pub date : Str
  pub start : Str
  pub yield : F
  pub is_maturity : Bool

pub record AssetData (F : Type 0) : Type 0 where
  pub decimals : Option (Dict Str ℤ)
  pub collateral_weights : Option (Dict Str F)
  pub liquidation_thresholds : Option (Dict Str F)
  pub is_currency : Option (Dict Str Bool)
  pub is_bond : Option (Dict Str Bool)
  pub can_trade : Option (Dict Str Bool)
  pub can_borrow : Option (Dict Str Bool)
  pub is_virtual_borrow : Option (Dict Str Bool)
  pub is_interest : Option (Dict Str Bool)
  pub coupons : Option (Dict Str (List (Coupon F)))
  pub prices : Option (Dict Str F)
  pub initialized : Bool

-- A write to a map; an assignment to a nil map panics, which Init rules out, and is no write here.
abbrev pub put : {V : Type 0} → Str → V → Option (Dict Str V) → Option (Dict Str V)
put id v none = none
put id v (some d) = some (insert id v d)

-- `v, ok := m[id]`, where a nil map has no keys.
abbrev pub look : {V : Type 0} → Str → Option (Dict Str V) → Option V
look id none = none
look id (some d) = get id d

-- `m != nil && m[id]`
abbrev pub flag : Option Bool → Bool
flag none = false
flag (some b) = b

-- What RegisterAsset is given. A nil pointer in `coupons` is none.
pub record Registration (F : Type 0) : Type 0 where
  pub decimals : ℤ
  pub collateral_weight : F
  pub liquidation_threshold : F
  pub is_currency : Bool
  pub is_bond : Bool
  pub can_trade : Bool
  pub can_borrow : Bool
  pub is_virtual_borrow : Bool
  pub is_interest : Bool
  pub coupons : List (Option (Coupon F))

abbrev pub empty_map : {V : Type 0} → Option (Dict Str V)
empty_map = some []

-- What IDs collects, in the order of the map.
unfoldable pub ids_of : {V : Type 0} → Dict Str V → List Str
ids_of [] = []
ids_of ((id, v) ∷ d) = id ∷ ids_of d

-- A lookup that reports a nil map or a missing key.
abbrev pub found : {V : Type 0} → Option V → Result V
found none = err plain
found (some v) = ok v

module _ {F : Type 0} where
  unfoldable pub init : AssetData F → AssetData F
  init ad =
      if not ad.initialized
      then record {
        decimals = empty_map;
        collateral_weights = empty_map;
        liquidation_thresholds = empty_map;
        is_currency = empty_map;
        is_bond = empty_map;
        can_trade = empty_map;
        can_borrow = empty_map;
        is_virtual_borrow = empty_map;
        is_interest = empty_map;
        coupons = empty_map;
        prices = empty_map;
        initialized = true;
      }
      else ad

  unfoldable pub has : AssetData F → Str → Bool
  has ad asset_id = elim (look asset_id ad.decimals) [ none ↦ false | some d ↦ true ]

  unfoldable pub decimals_of : AssetData F → Str → Result ℤ
  decimals_of ad asset_id = found (look asset_id ad.decimals)

  unfoldable pub is_currency_of : AssetData F → Str → Bool
  is_currency_of ad asset_id = flag (look asset_id ad.is_currency)

  unfoldable pub is_bond_of : AssetData F → Str → Bool
  is_bond_of ad asset_id = flag (look asset_id ad.is_bond)

  unfoldable pub is_interest_of : AssetData F → Str → Bool
  is_interest_of ad asset_id = flag (look asset_id ad.is_interest)

  -- HasCoupon looks at the whole map.
  unfoldable pub has_coupon : AssetData F → Str → Bool
  has_coupon ad asset_id = elim ad.coupons [
    | none ↦ false
    | some d ↦ elim d [ [] ↦ false | x ∷ d' ↦ true ]
  ]

  unfoldable pub can_borrow_of : AssetData F → Str → Bool
  can_borrow_of ad asset_id = flag (look asset_id ad.can_borrow)

  unfoldable pub can_trade_of : AssetData F → Str → Bool
  can_trade_of ad asset_id = flag (look asset_id ad.can_trade)

  unfoldable pub is_virtual_borrow_of : AssetData F → Str → Bool
  is_virtual_borrow_of ad asset_id = flag (look asset_id ad.is_virtual_borrow)

  unfoldable pub collateral_weight_of : AssetData F → Str → Result F
  collateral_weight_of ad asset_id = found (look asset_id ad.collateral_weights)

  unfoldable pub liquidation_threshold_of : AssetData F → Str → Result F
  liquidation_threshold_of ad asset_id = found (look asset_id ad.liquidation_thresholds)

  unfoldable pub price_of : AssetData F → Str → Result F
  price_of ad asset_id = found (look asset_id ad.prices)

module _ (fl : Float64) where
  open fl use {F, zero, is_nan, is_inf, lt, mul, div, of_int, pow10}

  -- `math.IsNaN(x) || math.IsInf(x, 0) || x < 0`
  abbrev pub bad : F → Bool
  bad x = is_nan x || is_inf x || lt x zero

  -- `c != nil && c.Yield > 0`
  unfoldable pub kept_coupons : List (Option (Coupon F)) → List (Coupon F)
  kept_coupons [] = []
  kept_coupons (none ∷ cs) = kept_coupons cs
  kept_coupons (some c ∷ cs) =
      let rest = kept_coupons cs in if lt zero c.yield then c ∷ rest else rest

  -- The conditions under which RegisterAsset returns an error.
  unfoldable pub rejected : Str → Registration F → Bool
  rejected id r =
      str_beq id []
      || bad r.collateral_weight
      || bad r.liquidation_threshold
      || ltb_ℤ r.decimals (pos 0)
      || (r.is_virtual_borrow && not r.can_borrow)

  unfoldable pub register_asset :
      AssetData F → Str → Registration F → AssetData F × Result (Unit {0})
  unfolding init kept_coupons rejected
  register_asset ad0 id r =
      let ad = init ad0 in
      if rejected id r then (ad, err plain) else (
        record ad {
          decimals = put id r.decimals ad.decimals;
          collateral_weights = put id r.collateral_weight ad.collateral_weights;
          liquidation_thresholds = put id r.liquidation_threshold ad.liquidation_thresholds;
          is_currency = put id r.is_currency ad.is_currency;
          is_bond = put id r.is_bond ad.is_bond;
          can_trade = put id r.can_trade ad.can_trade;
          can_borrow = put id r.can_borrow ad.can_borrow;
          is_virtual_borrow = put id r.is_virtual_borrow ad.is_virtual_borrow;
          is_interest = put id r.is_interest ad.is_interest;
          coupons = put id (kept_coupons r.coupons) ad.coupons;
        },
        ok tt,
      )

  unfoldable pub update_price : AssetData F → Str → F → AssetData F × Result (Unit {0})
  unfolding init
  update_price ad0 id price =
      let ad = init ad0 in
      if str_beq id []
      then (ad, err plain)
      else if bad price
      then (ad, err plain)
      else (record ad { prices = put id price ad.prices }, ok tt)

  -- GetAssetValueInUSD
  unfoldable pub asset_value_in_usd : AssetData F → ℤ → Str → F → Result F
  unfolding decimals_of price_of
  asset_value_in_usd ad amt asset_id multiplier = do
    decimals ← decimals_of ad asset_id
    price ← price_of ad asset_id
    ok (mul (mul price (of_int amt)) (div multiplier (pow10 decimals)))

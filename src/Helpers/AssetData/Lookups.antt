-- ===== src/Helpers/AssetData/Lookups.antt =====
-- What a lookup finds after RegisterAsset and UpdatePrice.
use dora_service_utils.Base.{
  ◌≡◌, ◌≢◌, ◌↔◌, ◌⊎◌, ◌∙◌, ap, refl, true, false, List, [], ◌∷◌, Option, none, some, arith,
  if◌then◌else◌, Bool-cases, inl, inr,
}
use dora_service_utils.Base.Int.{pos, ◌≤ℤ◌}
use dora_service_utils.Base.Text.{Str, str_beq, str_beq_iff, str_eq}
use dora_service_utils.Base.Dict.{Dict, get-insert}
use dora_service_utils.Base.Result.{ok, err, plain, is_ok}
use dora_service_utils.Math.Float64.{Float64}
use dora_service_utils.Helpers.AssetData.{
  Coupon, AssetData, Registration, bad, look, put, init, decimals_of, is_currency_of, is_bond_of,
  can_borrow_of, can_trade_of, is_virtual_borrow_of, is_interest_of, collateral_weight_of,
  liquidation_threshold_of, kept_coupons, rejected, register_asset, found, flag,
}

-- The maps of an initialized AssetData are not nil.
pub record IsInitialized {F : Type 0} (ad : AssetData F) : Type 0 where
  pub decimals : ad.decimals ≢ none
  pub collateral_weights : ad.collateral_weights ≢ none
  pub liquidation_thresholds : ad.liquidation_thresholds ≢ none
  pub is_currency : ad.is_currency ≢ none
  pub is_bond : ad.is_bond ≢ none
  pub can_trade : ad.can_trade ≢ none
  pub can_borrow : ad.can_borrow ≢ none
  pub is_virtual_borrow : ad.is_virtual_borrow ≢ none
  pub is_interest : ad.is_interest ≢ none
  pub coupons : ad.coupons ≢ none
  pub prices : ad.prices ≢ none

look-put :
    {V : Type 0} (id j : Str) (v : V) (m : Option (Dict Str V))
    → m ≢ none
    → look j (put id v m) ≡ (if str_beq id j then some v else look j m)
look-put id j v none h = ground arith
look-put id j v (some d) h = get-insert id j v d

look-put_self :
    {V : Type 0} (id : Str) (v : V) (m : Option (Dict Str V))
    → m ≢ none
    → look id (put id v m) ≡ some v
look-put_self id v m h = look-put id id v m h ∙ ground (arith, str_beq_iff id id)

-- A write under another key is not seen.
look-put_ne :
    {V : Type 0} (id j : Str) (v : V) (m : Option (Dict Str V))
    → j ≢ id
    → look j (put id v m) ≡ look j m
look-put_ne id j v none h = refl
look-put_ne id j v (some d) h = get-insert id j v d ∙ ground (arith, str_beq_iff id j)

module _ (fl : Float64) where
  open fl use {F, zero, is_nan, is_inf, lt}

  -- A float that is a number, finite and not negative.
  pub record IsAmount (x : F) : Type 0 where
    pub no_nan : is_nan x ≡ false
    pub finite : is_inf x ≡ false
    pub nonneg : lt x zero ≡ false

  -- What may be registered: an asset with an ID, a weight and a threshold that are amounts, decimals
  -- that are not negative, and no virtual borrowing without borrowing.
  pub record IsRegistrable (id : Str) (r : Registration F) : Type 0 where
    pub named : id ≢ []
    pub weight : IsAmount r.collateral_weight
    pub threshold : IsAmount r.liquidation_threshold
    pub decimals : pos 0 ≤ℤ r.decimals
    pub borrow : (r.is_virtual_borrow ≡ false) ⊎ (r.can_borrow ≡ true)

  bad_iff : (x : F) → (bad fl x ≡ false) ↔ IsAmount x
  bad_iff x = (
    λ e. record {
      no_nan = ground (arith, e);
      finite = ground (arith, e);
      nonneg = ground (arith, e);
    },
    λ h. ground (arith, h.no_nan, h.finite, h.nonneg),
  )

  rejected_iff : (id : Str) (r : Registration F) → (rejected fl id r ≡ false) ↔ IsRegistrable id r
  unfolding rejected
  rejected_iff id r = (
    λ e. record {
      named = ground (arith, e, str_beq_iff id []);
      weight = (bad_iff r.collateral_weight).0 (ground (arith, e));
      threshold = (bad_iff r.liquidation_threshold).0 (ground (arith, e));
      decimals = ground (arith, e);
      borrow = ground (arith, e);
    },
    λ h. ground (
      arith,
      str_beq_iff id [],
      h.named,
      (bad_iff r.collateral_weight).1 h.weight,
      (bad_iff r.liquidation_threshold).1 h.threshold,
      h.decimals,
      h.borrow,
    ),
  )

  -- The coupons that are there, and those of them with a positive yield.
  abbrev pub present : List (Option (Coupon F)) → List (Coupon F)
  present [] = []
  present (none ∷ cs) = present cs
  present (some c ∷ cs) = c ∷ present cs

  abbrev pub positive_only : List (Coupon F) → List (Coupon F)
  positive_only [] = []
  positive_only (c ∷ cs) = let rest = positive_only cs in if lt zero c.yield then c ∷ rest else rest

  kept_coupons_lem :
      (cs : List (Option (Coupon F))) → kept_coupons fl cs ≡ positive_only (present cs)
  unfolding kept_coupons
  kept_coupons_lem [] = refl
  kept_coupons_lem (none ∷ cs) = kept_coupons_lem cs
  kept_coupons_lem (some c ∷ cs) = ground (arith, kept_coupons_lem cs)

  -- All ten maps give for the asset what was registered.
  pub record IsRegistered (ad : AssetData F) (id : Str) (r : Registration F) : Type 0 where
    pub decimals : decimals_of ad id ≡ ok r.decimals
    pub collateral_weight : collateral_weight_of ad id ≡ ok r.collateral_weight
    pub liquidation_threshold : liquidation_threshold_of ad id ≡ ok r.liquidation_threshold
    pub is_currency : is_currency_of ad id ≡ r.is_currency
    pub is_bond : is_bond_of ad id ≡ r.is_bond
    pub can_trade : can_trade_of ad id ≡ r.can_trade
    pub can_borrow : can_borrow_of ad id ≡ r.can_borrow
    pub is_virtual_borrow : is_virtual_borrow_of ad id ≡ r.is_virtual_borrow
    pub is_interest : is_interest_of ad id ≡ r.is_interest
    pub coupons : look id ad.coupons ≡ some (positive_only (present r.coupons))

  -- All ten maps give the same for the asset.
  pub record AreSame (ad ad' : AssetData F) (j : Str) : Type 0 where
    pub decimals : decimals_of ad' j ≡ decimals_of ad j
    pub collateral_weight : collateral_weight_of ad' j ≡ collateral_weight_of ad j
    pub liquidation_threshold : liquidation_threshold_of ad' j ≡ liquidation_threshold_of ad j
    pub is_currency : is_currency_of ad' j ≡ is_currency_of ad j
    pub is_bond : is_bond_of ad' j ≡ is_bond_of ad j
    pub can_trade : can_trade_of ad' j ≡ can_trade_of ad j
    pub can_borrow : can_borrow_of ad' j ≡ can_borrow_of ad j
    pub is_virtual_borrow : is_virtual_borrow_of ad' j ≡ is_virtual_borrow_of ad j
    pub is_interest : is_interest_of ad' j ≡ is_interest_of ad j
    pub coupons : look j ad'.coupons ≡ look j ad.coupons

  -- The maps after RegisterAsset has written them.
  abbrev registered : AssetData F → Str → Registration F → AssetData F
  registered ad id r = record ad {
    decimals = put id r.decimals ad.decimals;
    collateral_weights = put id r.collateral_weight ad.collateral_weights;
    liquidation_thresholds = put id r.liquidation_threshold ad.liquidation_thresholds;
    is_currency = put id r.is_currency ad.is_currency;
    is_bond = put id r.is_bond ad.is_bond;
    can_trade = put id r.can_trade ad.can_trade;
    can_borrow = put id r.can_borrow ad.can_borrow;
    is_virtual_borrow = put id r.is_virtual_borrow ad.is_virtual_borrow;
    is_interest = put id r.is_interest ad.is_interest;
    coupons = put id (kept_coupons fl r.coupons) ad.coupons;
  }

  registered-IsRegistered :
      (ad : AssetData F) (id : Str) (r : Registration F)
      → IsInitialized ad
      → IsRegistered (registered ad id r) id r
  unfolding decimals_of collateral_weight_of liquidation_threshold_of is_currency_of is_bond_of
      can_trade_of can_borrow_of is_virtual_borrow_of is_interest_of
  registered-IsRegistered ad id r h = record {
    decimals = ap found (look-put_self id r.decimals ad.decimals h.decimals);
    collateral_weight =
        ap found (look-put_self id r.collateral_weight ad.collateral_weights h.collateral_weights);
    liquidation_threshold = ap found (
        look-put_self id r.liquidation_threshold ad.liquidation_thresholds
          h.liquidation_thresholds);
    is_currency = ap flag (look-put_self id r.is_currency ad.is_currency h.is_currency);
    is_bond = ap flag (look-put_self id r.is_bond ad.is_bond h.is_bond);
    can_trade = ap flag (look-put_self id r.can_trade ad.can_trade h.can_trade);
    can_borrow = ap flag (look-put_self id r.can_borrow ad.can_borrow h.can_borrow);
    is_virtual_borrow =
        ap flag (look-put_self id r.is_virtual_borrow ad.is_virtual_borrow h.is_virtual_borrow);
    is_interest = ap flag (look-put_self id r.is_interest ad.is_interest h.is_interest);
    coupons =
        look-put_self id (kept_coupons fl r.coupons) ad.coupons h.coupons
        ∙ ap some (kept_coupons_lem r.coupons);
  }

  registered-AreSame :
      (ad : AssetData F) (id j : Str) (r : Registration F)
      → j ≢ id
      → AreSame ad (registered ad id r) j
  unfolding decimals_of collateral_weight_of liquidation_threshold_of is_currency_of is_bond_of
      can_trade_of can_borrow_of is_virtual_borrow_of is_interest_of
  registered-AreSame ad id j r ne = record {
    decimals = ap found (look-put_ne id j r.decimals ad.decimals ne);
    collateral_weight = ap found (look-put_ne id j r.collateral_weight ad.collateral_weights ne);
    liquidation_threshold =
        ap found (look-put_ne id j r.liquidation_threshold ad.liquidation_thresholds ne);
    is_currency = ap flag (look-put_ne id j r.is_currency ad.is_currency ne);
    is_bond = ap flag (look-put_ne id j r.is_bond ad.is_bond ne);
    can_trade = ap flag (look-put_ne id j r.can_trade ad.can_trade ne);
    can_borrow = ap flag (look-put_ne id j r.can_borrow ad.can_borrow ne);
    is_virtual_borrow = ap flag (look-put_ne id j r.is_virtual_borrow ad.is_virtual_borrow ne);
    is_interest = ap flag (look-put_ne id j r.is_interest ad.is_interest ne);
    coupons = look-put_ne id j (kept_coupons fl r.coupons) ad.coupons ne;
  }

  register_asset_result :
      (ad : AssetData F) (id : Str) (r : Registration F)
      → ad.initialized ≡ true
      → register_asset fl ad id r
        ≡ (if rejected fl id r then (ad, err plain) else (registered ad id r, ok tt))
  unfolding register_asset init
  register_asset_result ad id r e = simp (e)

  -- RegisterAsset, on an initialized AssetData: it returns no error exactly where the asset has an
  -- ID, its weight and its threshold are finite numbers that are not negative, its decimals are not
  -- negative and a virtual borrow is also a borrow. Where it returns an error it has changed nothing.
  -- Otherwise all ten maps give for the asset what was registered, its coupons being those that are
  -- there with a positive yield; no price has changed; and all ten maps give for any other asset what
  -- they gave before.
  pub register_asset_lem :
      (ad : AssetData F) (id j : Str) (r : Registration F)
      → ad.initialized ≡ true
      → IsInitialized ad
      → j ≢ id
      → let (ad', result) = register_asset fl ad id r in
        ((result ≡ ok tt) ↔ IsRegistrable id r)
        × (if is_ok result
            then (ad'.prices ≡ ad.prices) × IsRegistered ad' id r × AreSame ad ad' j
            else (ad' ≡ ad) × (result ≡ err plain))
  register_asset_lem ad id j r e h ne =
      rw (register_asset_result ad id r e) (elim (Bool-cases (rejected fl id r)) [
        | inl y ↦ rw y (
          (λ k. ground (arith, k), λ k. ground (arith, y, (rejected_iff id r).1 k)),
          (refl, refl),
        )
        | inr n ↦ rw n (
          (λ k. (rejected_iff id r).0 n, λ k. refl),
          (refl, registered-IsRegistered ad id r h, registered-AreSame ad id j r ne),
        )
      ])

-- ===== src/Helpers/AssetData/Coupons.antt =====
-- The coupon periods of helpers/asset.go. `unix_from_date` is UnixFromDate of math/math.go, which is
-- time.Parse of an RFC 1123 date.
pub mod Periods
use dora_service_utils.Base.{
  ℕ, Bool, true, false, not, ◌&&◌, Option, none, some, List, [], ◌∷◌, if◌then◌else◌,
}
use dora_service_utils.Base.Int.{ℤ, pos, ltb_ℤ, leb_ℤ, beq_ℤ}
use dora_service_utils.Base.Text.{Str, str_beq, str_eq}
use dora_service_utils.Base.Result.{Result, ok, err, plain, ◌>>=◌}
use dora_service_utils.Math.Float64.{Float64}
use dora_service_utils.Helpers.AssetData.{Coupon, AssetData, look}

-- `ad.coupons[assetID]`, nil where the key is missing
abbrev pub listed : {F : Type 0} → Option (List (Coupon F)) → List (Coupon F)
listed none = []
listed (some cs) = cs

abbrev pub map_is_nil : {V : Type 0} → Option V → Bool
map_is_nil none = true
map_is_nil (some d) = false

module _ (fl : Float64) (unix_from_date : Str → Result ℤ) where
  open fl use {F, zero, lt}

  -- The coupons with a positive yield whose end passes a test. A date that does not parse ends the
  -- loop.
  unfoldable pub ending : (ℤ → Bool) → List (Coupon F) → Result (List (Coupon F))
  ending test [] = ok []
  ending test (c ∷ cs) = do
    end ← unix_from_date c.date
    rest ← ending test cs
    ok (if test end && lt zero c.yield then c ∷ rest else rest)

  -- `if len(result) == 0`, `if len(result) != 1`
  only_one : Result (List (Coupon F)) → Result (Coupon F)
  only_one (ok (c ∷ [])) = ok c
  only_one (ok _) = err plain
  only_one (err e) = err e

  unfoldable pub coupon_ending_at : AssetData F → Str → ℤ → Result (Coupon F)
  unfolding only_one ending
  coupon_ending_at ad asset_id time =
      if map_is_nil ad.coupons
      then err plain
      else only_one (ending (λ end. beq_ℤ end time) (listed (look asset_id ad.coupons)))

  unfoldable pub coupons_ending_in_range : AssetData F → Str → ℤ → ℤ → Result (List (Coupon F))
  unfolding ending
  coupons_ending_in_range ad asset_id from_time to_time =
      if map_is_nil ad.coupons
      then err plain
      else ending (λ end. ltb_ℤ from_time end && leb_ℤ end to_time)
          (listed (look asset_id ad.coupons))

  unfoldable pub in_progress : ℤ → List (Coupon F) → Result (ℤ × ℤ × F)
  in_progress now [] = ok (pos 0, pos 0, zero)
  in_progress now (c ∷ cs) =
      let rest = in_progress now cs in
      if str_beq c.start [] then rest else do
        start ← unix_from_date c.start
        end ← unix_from_date c.date
        if leb_ℤ start now && ltb_ℤ now end then ok (start, end, c.yield) else rest

  unfoldable pub current_coupon_period : AssetData F → Str → ℤ → Result (ℤ × ℤ × F)
  unfolding in_progress
  current_coupon_period ad asset_id now =
      if map_is_nil ad.coupons
      then err plain
      else in_progress now (listed (look asset_id ad.coupons))

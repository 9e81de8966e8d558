-- ===== src/Pools/Assets.antt =====
-- The lookups of a pool's assets, whatever the order in which AssetIDs sorts them.
use dora_service_utils.Base.{◌≡◌, true, false, List, [], arith, if◌then◌else◌}
use dora_service_utils.Base.Text.{Str, str_beq_iff, to_lower, equal_fold}
use dora_service_utils.Base.Result.{
  ok, err, err_asset_not_found_in_pool, err_pool_should_have_2_assets,
}
use dora_service_utils.Pools.{Pool, other_asset_id, other_asset_id_from_set, contains_fold}

module _ {D : Type 0} (p : Pool D) where
  -- OtherAssetID maps the base, in any case of letters, to the quote and the quote to the base,
  -- whichever of the two sorts first; any other ID is not found in the pool. A pool whose two assets
  -- agree but for the case of letters gives an error for each ID.
  pub other_asset_id_lem :
      (id : Str)
      → other_asset_id p id ≡ (
          if equal_fold p.base_asset p.quote_asset
          then err err_pool_should_have_2_assets
          else if equal_fold id p.base_asset
          then ok p.quote_asset
          else if equal_fold id p.quote_asset
          then ok p.base_asset
          else err err_asset_not_found_in_pool)
  unfolding other_asset_id equal_fold
  other_asset_id_lem id = ground (
    arith,
    str_beq_iff (to_lower p.base_asset) (to_lower p.quote_asset),
    str_beq_iff (to_lower p.quote_asset) (to_lower p.base_asset),
    str_beq_iff (to_lower id) (to_lower p.base_asset),
    str_beq_iff (to_lower id) (to_lower p.quote_asset),
  )

  -- OtherAssetIDFromSet answers exactly where one of the pool's two assets is in the set, in any case
  -- of letters, and the other is not; the answer is the one that is not.
  pub other_asset_id_from_set_lem :
      (ids : List Str)
      → other_asset_id_from_set p ids ≡ (
          if contains_fold ids p.base_asset
          then if contains_fold ids p.quote_asset then ([], false) else (p.quote_asset, true)
          else if contains_fold ids p.quote_asset
          then (p.base_asset, true)
          else ([], false))
  unfolding other_asset_id_from_set
  other_asset_id_from_set_lem ids = ground arith

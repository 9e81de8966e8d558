-- ===== src/Helpers.antt =====
-- helpers: what is known of the assets, and the conversion between stablecoins.
pub mod AssetData
pub mod Stablecoin

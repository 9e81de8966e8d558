-- ===== src/Ledger.antt =====
-- The package ledger/types: amounts, single balances, sets of balances, asset IDs and
-- positions.
pub mod Amount
pub mod AssetId
pub mod Balance
pub mod Balances
pub mod Position
pub mod Module

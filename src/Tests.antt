-- ===== src/Tests.antt =====
-- Concrete runs of the theorems, each at values that exercise the code it is about.
pub mod Ledger
pub mod Pools
pub mod Helpers
pub mod Rest
pub mod Cache
pub mod Swap
pub mod Module
pub mod Runner
pub mod Stored
pub mod StoredPools
pub mod StoredPrices
pub mod Metrics
pub mod Yield
pub mod Json

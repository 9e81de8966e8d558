-- ===== src/Math.antt =====
-- The package math: checked uint64 arithmetic, big integers that may be nil, and the helpers on
-- big.Float and on float64 over interfaces to them.
pub mod SafeMath
pub mod BigInt
pub mod BigFloat
pub mod Float64

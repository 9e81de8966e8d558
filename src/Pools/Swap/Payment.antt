-- ===== src/Pools/Swap/Payment.antt =====
-- The payment of a swap of pools/types/pools.go, as a quotient of numbers.
use dora_service_utils.Base.{ℕ, suc, ◌+◌, ◌-◌, ◌*◌, ◌/◌, ◌≤◌, ◌<◌, ◌≡◌, sym, some, [], arith}
use dora_service_utils.Base.Int.{pos, ◌*ℤ◌, ◌+ℤ◌}
use dora_service_utils.Base.Word.{to_u64, i64_half, to_i64}
use dora_service_utils.Base.Signed.{big_quo}
use dora_service_utils.Base.Text.{Str, str_beq_iff}
use dora_service_utils.Math.BigInt.{add_all, mul_all}
use dora_service_utils.Ledger.Balance.{new_balance, integer64_int64}
use dora_service_utils.Pools.Swap.{paid_out}

pub paid_out_exact :
    (m n a : ℕ) → paid_out (pos m) (pos n) (pos (suc a)) ≡ some (pos (n * suc a / (m + suc a)))
unfolding paid_out big_quo mul_all add_all ◌*ℤ◌ ◌+ℤ◌
paid_out_exact m n a = ground arith

-- A part `q` of the reserve that the quotient allows, and the rest `k`.
rest_keeps_product : (m a n q k : ℕ) → q + k ≡ n → q * (m + a) ≤ n * a → m * n ≤ (m + a) * k
rest_keeps_product m a n q k e h = grind arith

-- What a payment `q` out of the reserve `n` does, for `a` put in beside the reserve `m`.
abbrev pub IsGreatestPayment : ℕ → ℕ → ℕ → ℕ → Type 0
IsGreatestPayment m n a q = (q ≤ n) × (m * n ≤ (m + a) * (n - q)) × (n * a < (m + a) * (q + 1))

pub quotient-IsGreatestPayment : (m n a : ℕ) → 1 ≤ a → IsGreatestPayment m n a (n * a / (m + a))
quotient-IsGreatestPayment m n a h =
    let q = n * a / (m + a) in
    let small : q ≤ n = grind arith in
    (small, rest_keeps_product m a n q (n - q) (omega arith) (grind arith), grind arith)

pub same_payment : (m n a c q : ℕ) → a ≡ c → IsGreatestPayment m n a q → IsGreatestPayment m n c q
same_payment m n a c q e h = rw (sym e) h

pub to_i64_exact : (n : ℕ) → n < i64_half → to_i64 n ≡ pos n
unfolding to_i64
to_i64_exact n h = ground arith

pub new_balance_exact :
    (s : Str) (n : ℕ)
    → (s ≡ [] → n ≡ 0)
    → n < i64_half
    → new_balance s (pos n) ≡ record { asset = s; amount = n }
unfolding new_balance to_u64
new_balance_exact s n h lt = ground (arith, str_beq_iff s [])

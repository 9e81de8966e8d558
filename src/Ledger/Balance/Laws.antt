-- ===== src/Ledger/Balance/Laws.antt =====
-- What the operations of ledger/types/balance.go do, and how they differ from those of Amount.
use dora_service_utils.Base.{
  ℕ, ◌+◌, ◌-◌, ◌%◌, ◌≤◌, ◌<◌, ◌≡◌, ◌≢◌, true, false, arith, leb, if◌then◌else◌, refl, [], none,
  some, ◌&&◌,
}
use dora_service_utils.Base.Text.{Str, str_beq_iff}
use dora_service_utils.Base.Result.{ok, err, err_overflow_add}
use dora_service_utils.Base.Int.{ℤ, pos, negsuc}
use dora_service_utils.Base.Word.{u64_mod, to_u64, to_i64, InI64}
use dora_service_utils.Math.SafeMath.{checked_add_u64_lem}
use dora_service_utils.Ledger.Amount
use dora_service_utils.Ledger.Amount.{Amount, new_amount}
use dora_service_utils.Ledger.Balance.{
  Balance, new_balance, valid, amt, add, sub, sub_amt, integer64_int64,
}

abbrev pub to_amount : Balance → Amount
to_amount b = new_amount b.asset b.amount

-- On valid balances of one asset with uint64 amounts, where Amount.Add gives a sum Balance.Add gives
-- the same one; where Amount.Add reports an overflow, Balance.Add reports nothing and returns a
-- balance that is smaller than each of its operands.
pub add-vs-Amount_add :
    (a b : Balance)
    → a.asset ≢ []
    → a.asset ≡ b.asset
    → a.amount < u64_mod
    → b.amount < u64_mod
    → (c : Balance) × (add a (some b) ≡ ok c)
      × (a.amount + b.amount < u64_mod → Amount.add (to_amount a) (to_amount b) ≡ ok (to_amount c))
      × (u64_mod ≤ a.amount + b.amount
          → (Amount.add (to_amount a) (to_amount b) ≡ err err_overflow_add)
            × (c.amount < a.amount)
            × (c.amount < b.amount))
unfolding add Amount.add
add-vs-Amount_add a b ne e ha hb =
    let laws = str_beq_iff a.asset b.asset in
    let empty_a = str_beq_iff a.asset [] in
    let empty_b = str_beq_iff b.asset [] in
    (
      record { asset = a.asset; amount = (a.amount + b.amount) % u64_mod },
      ground (arith, laws, empty_a, empty_b),
      λ h. ground (arith, laws, checked_add_u64_lem a.amount b.amount),
      λ h. (ground (arith, laws, checked_add_u64_lem a.amount b.amount), omega arith, omega arith),
    )

-- On valid balances of one asset, Sub succeeds exactly when the subtrahend is covered, and then
-- Add of the same balance restores the minuend.
pub add-sub :
    (a b : Balance)
    → a.asset ≢ []
    → a.asset ≡ b.asset
    → a.amount < u64_mod
    → (b.amount ≤ a.amount
        → (c : Balance) × (sub a (some b) ≡ ok c) × (c.asset ≡ a.asset) × (add c (some b) ≡ ok a))
      × (a.amount < b.amount → (c : Balance) → sub a (some b) ≢ ok c)
unfolding add sub
add-sub a b ne e ha =
    let laws = str_beq_iff a.asset b.asset in
    let empty_a = str_beq_iff a.asset [] in
    let empty_b = str_beq_iff b.asset [] in
    (
      λ h. (
        record { asset = a.asset; amount = a.amount - b.amount },
        ground (arith, laws, empty_a, empty_b),
        refl,
        ground (arith, laws, empty_a, empty_b),
      ),
      λ h c. ground (arith, laws, empty_a, empty_b),
    )

-- SubAmt succeeds exactly on a valid balance that covers the amount, and then the result has the
-- same asset and the difference.
pub sub_amt_lem :
    (b : Balance) (n : ℕ)
    → sub_amt b n ≡ (
        if valid b && leb n b.amount
        then (some (record { asset = b.asset; amount = b.amount - n }), true)
        else (none, false))
unfolding sub_amt
sub_amt_lem b n = ground (arith, str_beq_iff b.asset [], str_beq_iff b.asset b.asset)

-- The conversions between int64 and a balance's uint64: a balance made from an int64 amount of a
-- nonempty asset reads back as that amount, or as zero where it was negative.
pub amt-new_balance :
    (asset : Str) (z : ℤ)
    → asset ≢ []
    → InI64 z
    → ((n : ℕ) → z ≡ pos n → amt (new_balance asset z) ≡ z)
      × ((n : ℕ) → z ≡ negsuc n → amt (new_balance asset z) ≡ pos 0)
unfolding amt new_balance to_i64 to_u64
amt-new_balance asset z ne h =
    (λ n e. ground (arith, str_beq_iff asset []), λ n e. ground (arith, str_beq_iff asset []))

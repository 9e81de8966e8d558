-- ===== src/Ledger/Balances/SafeSub.antt =====
-- Subtraction that refuses: SafeSub of ledger/types/balances.go.
use dora_service_utils.Base.{◌≡◌, ◌≢◌, [], arith, ◌⊎◌, if◌then◌else◌}
use dora_service_utils.Base.Int.{ℤ, pos, ◌-ℤ◌, ◌≤ℤ◌}
use dora_service_utils.Base.Word.{InI64, neg_i, -i_exact}
use dora_service_utils.Base.Text.{Str, str_beq, str_beq_iff, str_eq}
use dora_service_utils.Base.Dict.{get}
use dora_service_utils.Base.Result.{ok}
use dora_service_utils.Ledger.Balance.{integer64_int64, integer64_uint64}
use dora_service_utils.Ledger.Balances.{Balances, copy, amount_of}
use dora_service_utils.Ledger.Balances.Calculus.{sub_amount, safe_sub, has_at_least}
use dora_service_utils.Ledger.Balances.WellFormed.{
  IsWellFormed, amount_of-InI64, get-copied, add_amount-IsWellFormed,
}
use dora_service_utils.Ledger.Balances.Arithmetic.{amount_of-sub_amount}

pub sub_amount-IsWellFormed :
    (b : Balances) (id : Str) (x : ℤ) → IsWellFormed b → IsWellFormed (sub_amount b id x)
unfolding sub_amount
sub_amount-IsWellFormed b id x h = add_amount-IsWellFormed b id (neg_i x) h

pub amount_of-copy :
    (b : Balances) (j : Str) → IsWellFormed b → amount_of (copy b) j ≡ amount_of b j
unfolding amount_of copy
amount_of-copy b j h = rw (get-copied j b h.unique)

-- A difference of an int64 and a number that it covers is exact.
covered : (a x : ℤ) → InI64 a → pos 0 ≤ℤ x → (x ≡ pos 0) ⊎ (x ≤ℤ a) → InI64 (a -ℤ x)
unfolding ◌-ℤ◌
covered a x h p q = ground arith

pub amount_of-sub_amount_covered :
    (b : Balances) (id : Str) (x : ℤ)
    → IsWellFormed b
    → id ≢ []
    → pos 0 ≤ℤ x
    → (x ≡ pos 0) ⊎ (x ≤ℤ amount_of b id)
    → (j : Str)
    → amount_of (sub_amount b id x) j ≡ (if str_beq id j then amount_of b j -ℤ x else amount_of b j)
amount_of-sub_amount_covered b id x h ne p q j =
    let fits = covered (amount_of b id) x (amount_of-InI64 b id h) p q in
    ground (
      arith,
      amount_of-sub_amount b id x j h,
      str_beq_iff id [],
      str_beq_iff id j,
      -i_exact (amount_of b id) x fits,
    )

-- What SafeSub returns when it returns no error.
safe_sub-ok :
    (b : Balances) (id : Str) (x : ℤ) {c : Balances}
    → safe_sub b id x ≡ ok c
    → (pos 0 ≤ℤ x) × (c ≡ sub_amount b id x) × ((x ≡ pos 0) ⊎ (x ≤ℤ amount_of b id))
unfolding safe_sub has_at_least amount_of
safe_sub-ok b id x {c} e = (ground arith, ground arith, ground arith)

left_over : (a x : ℤ) → pos 1 ≤ℤ x → (x ≡ pos 0) ⊎ (x ≤ℤ a) → pos 0 ≤ℤ a -ℤ x
unfolding ◌-ℤ◌
left_over a x p q = ground arith

safe_sub_covered :
    (b : Balances) (id : Str) (x : ℤ)
    → pos 1 ≤ℤ x
    → x ≤ℤ amount_of b id
    → safe_sub b id x ≡ ok (sub_amount b id x)
unfolding safe_sub has_at_least amount_of get
safe_sub_covered b id x p q = ground arith

-- SafeSub on a well-formed set, a nonempty asset ID and an int64 amount. When it returns no error
-- the amount was not negative, the asset holds the exact difference, every other asset holds what
-- it held, and a positive amount has left no negative balance. A positive amount that the asset
-- covers is always subtracted.
pub safe_sub_lem :
    (b : Balances) (id : Str) (x : ℤ)
    → IsWellFormed b
    → id ≢ []
    → ((c : Balances)
        → safe_sub b id x ≡ ok c
        → IsWellFormed c
          × (pos 0 ≤ℤ x)
          × (amount_of c id ≡ amount_of b id -ℤ x)
          × ((j : Str) → id ≢ j → amount_of c j ≡ amount_of b j)
          × (pos 1 ≤ℤ x → pos 0 ≤ℤ amount_of c id))
      × (pos 1 ≤ℤ x → x ≤ℤ amount_of b id → safe_sub b id x ≡ ok (sub_amount b id x))
safe_sub_lem b id x h ne = (
  λ c e.
      let (p, same, why) = safe_sub-ok b id x e in
      let amounts = amount_of-sub_amount_covered b id x h ne p why in
      let exact : amount_of c id ≡ amount_of b id -ℤ x =
        ground (arith, amounts id, str_beq_iff id id) in
      (
        rw same (sub_amount-IsWellFormed b id x h),
        p,
        exact,
        (λ j other. ground (arith, amounts j, str_beq_iff id j)),
        λ positive. rw exact (left_over (amount_of b id) x positive why),
      ),
  λ p q. safe_sub_covered b id x p q,
)

-- A SafeSub of a positive amount that returns no error, on a well-formed set and a nonempty asset
-- ID: the result is well formed, the asset has gone down by exactly the amount and is not below
-- zero, and any other asset holds what it held.
pub safe_sub_exact :
    (b c : Balances) (id j : Str) (x : ℤ)
    → IsWellFormed b
    → id ≢ []
    → id ≢ j
    → pos 1 ≤ℤ x
    → safe_sub b id x ≡ ok c
    → IsWellFormed c
      × (amount_of c id ≡ amount_of b id -ℤ x)
      × (pos 0 ≤ℤ amount_of c id)
      × (amount_of c j ≡ amount_of b j)
safe_sub_exact b c id j x h ne other positive e =
    let (fits, _, exact, rest, covered) = (safe_sub_lem b id x h ne).0 c e in
    (fits, exact, covered positive, rest j other)

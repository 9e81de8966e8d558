-- ===== src/Ledger/Balances/ToZero.antt =====
-- Subtraction that stops at zero: SubBalToZero, which hands back a surplus.
use dora_service_utils.Base.{
  ℕ, ◌-◌, ◌<◌, ◌≡◌, ◌≢◌, ◌∙◌, true, false, ◌||◌, [], arith, inl, inr, Bool-cases, if◌then◌else◌,
  ltb,
}
use dora_service_utils.Base.Int.{ℤ, pos, pos_part, ◌-ℤ◌, ◌≤ℤ◌, ltb_ℤ, leb_ℤ, int_laws, neg}
use dora_service_utils.Base.Word.{InI64, ◌-i◌, neg_i, -i_exact, to_u64, to_i64, i64_half, wrap64}
use dora_service_utils.Base.Text.{Str, str_beq, str_beq_iff, str_eq}
use dora_service_utils.Base.Dict.{get}
use dora_service_utils.Ledger.Balance.{Balance, amt, new_balance, integer64_int64, integer64_uint64}
use dora_service_utils.Ledger.Balances.{Balances, amount_of}
use dora_service_utils.Ledger.Balances.Calculus.{sub_amount, is_nil, sub_bal_to_zero}
use dora_service_utils.Ledger.Balances.WellFormed.{IsWellFormed, amount_of-InI64, copy-IsWellFormed}
use dora_service_utils.Ledger.Balances.SafeSub.{
  sub_amount-IsWellFormed, amount_of-copy, amount_of-sub_amount_covered,
}

-- What a subtraction of `s` that stops at zero takes from the amount `a`.
abbrev pub taken_from : ℤ → ℕ → ℕ
taken_from a s = if ltb (pos_part a) s then pos_part a else s

amount_of_nil : (b : Balances) (id : Str) → is_nil b.bals ≡ true → amount_of b id ≡ pos 0
unfolding amount_of get
amount_of_nil b id h = ground arith

stops_early :
    (b : Balances) (id : Str)
    → (is_nil b.bals || leb_ℤ (amount_of b id) (pos 0)) ≡ leb_ℤ (amount_of b id) (pos 0)
stops_early b id = ground (arith, amount_of_nil b id)

pub amt_small : (s : Balance) → s.amount < i64_half → amt s ≡ pos s.amount
unfolding amt to_i64
amt_small s h = ground arith

pub sub_zero : (a : ℤ) → a -ℤ pos 0 ≡ a
sub_zero a = omega int_laws

difference_fits :
    (a : ℤ) (n : ℕ) → InI64 a → leb_ℤ a (pos 0) ≡ false → n < i64_half → InI64 (a -ℤ pos n)
unfolding ◌-ℤ◌
difference_fits a n h p small = ground arith

naive_exact :
    (a : ℤ) (s : Balance)
    → InI64 a
    → leb_ℤ a (pos 0) ≡ false
    → s.amount < i64_half
    → a -i amt s ≡ a -ℤ pos s.amount
naive_exact a s h p small =
    rw (amt_small s small) (-i_exact a (pos s.amount) (difference_fits a s.amount h p small))

surplus_amount :
    (a : ℤ) (n : ℕ)
    → InI64 a
    → n < i64_half
    → ltb_ℤ (a -ℤ pos n) (pos 0) ≡ true
    → leb_ℤ a (pos 0) ≡ false
    → to_u64 (neg_i (a -ℤ pos n)) ≡ n - pos_part a
unfolding ◌-ℤ◌ neg_i neg wrap64 to_u64 to_i64
surplus_amount a n h small p q = ground arith

-- The value that the surplus of a partial subtraction is made with.
pub surplus_balance :
    (asset : Str) (n : ℕ) → asset ≢ [] → new_balance asset n ≡ record { asset = asset; amount = n }
unfolding new_balance
surplus_balance asset n ne = ground (arith, str_beq_iff asset [])

no_surplus :
    (asset : Str) → asset ≢ [] → new_balance asset (pos 0) ≡ record { asset = asset; amount = 0 }
unfolding new_balance
no_surplus asset ne = ground (arith, str_beq_iff asset [])

short_taken :
    (a : ℤ) (n : ℕ)
    → leb_ℤ a (pos 0) ≡ false
    → ltb_ℤ (a -ℤ pos n) (pos 0) ≡ true
    → (taken_from a n ≡ pos_part a) × (pos (taken_from a n) ≡ a) × (pos 0 ≤ℤ a)
unfolding ◌-ℤ◌
short_taken a n p q = (ground arith, ground arith, ground arith)

enough_taken :
    (a : ℤ) (n : ℕ)
    → leb_ℤ a (pos 0) ≡ false
    → ltb_ℤ (a -ℤ pos n) (pos 0) ≡ false
    → (taken_from a n ≡ n) × (pos n ≤ℤ a)
unfolding ◌-ℤ◌
enough_taken a n p q = (ground arith, ground arith)

-- On a well-formed set and a balance of a nonempty asset ID below 2 ^ 63, SubBalToZero takes what is there of
-- the asset, but no more than was asked for and nothing of a negative amount; the surplus is the
-- rest of what was asked for, and every other asset holds what it held.
pub sub_bal_to_zero_lem :
    (b : Balances) (s : Balance)
    → IsWellFormed b
    → s.asset ≢ []
    → s.amount < i64_half
    → let (r, surplus) = sub_bal_to_zero b s in
      let taken = taken_from (amount_of b s.asset) s.amount in
      IsWellFormed r
      × (surplus ≡ record { asset = s.asset; amount = s.amount - taken })
      × ((j : Str)
          → amount_of r j
            ≡ (if str_beq s.asset j then amount_of b j -ℤ pos taken else amount_of b j))
sub_bal_to_zero_lem b s h ne small = elim (Bool-cases (leb_ℤ (amount_of b s.asset) (pos 0))) [
  | inl nothing ↦
      unfold sub_bal_to_zero in
      rw (stops_early b s.asset, nothing)
        (
          copy-IsWellFormed b h,
          ground arith,
          λ j.
              ground (arith, amount_of-copy b j h, str_beq_iff s.asset j, sub_zero (amount_of b j)),
        )
  | inr something ↦
      unfold sub_bal_to_zero in
      rw (stops_early b s.asset, something)
        (rw (naive_exact (amount_of b s.asset) s (amount_of-InI64 b s.asset h) something small)
          (elim (Bool-cases (ltb_ℤ (amount_of b s.asset -ℤ pos s.amount) (pos 0))) [
            | inl short ↦ rw short (partly something short)
            | inr enough ↦ rw enough (fully something enough)
          ]))
]
  where
    a : ℤ
    a = amount_of b s.asset

    partly :
        leb_ℤ (amount_of b s.asset) (pos 0) ≡ false
        → ltb_ℤ (amount_of b s.asset -ℤ pos s.amount) (pos 0) ≡ true
        → IsWellFormed (sub_amount b s.asset (amount_of b s.asset))
          × (new_balance s.asset (to_u64 (neg_i (amount_of b s.asset -ℤ pos s.amount))) ≡ record {
            asset = s.asset;
            amount = s.amount - taken_from (amount_of b s.asset) s.amount;
          })
          × ((j : Str)
              → amount_of (sub_amount b s.asset (amount_of b s.asset)) j ≡ (
                  if str_beq s.asset j
                  then amount_of b j -ℤ pos (taken_from (amount_of b s.asset) s.amount)
                  else amount_of b j))
    partly something short =
        let (eq, whole, nonneg) = short_taken (amount_of b s.asset) s.amount something short in
        let left =
          surplus_amount (amount_of b s.asset) s.amount (amount_of-InI64 b s.asset h) small short
            something in
        (
          sub_amount-IsWellFormed b s.asset (amount_of b s.asset) h,
          rw (left, eq) (surplus_balance s.asset (s.amount - pos_part (amount_of b s.asset)) ne),
          λ j. rw whole (
              amount_of-sub_amount_covered b s.asset (amount_of b s.asset) h ne nonneg
                (inr (omega arith)) j),
        )

    fully :
        leb_ℤ (amount_of b s.asset) (pos 0) ≡ false
        → ltb_ℤ (amount_of b s.asset -ℤ pos s.amount) (pos 0) ≡ false
        → IsWellFormed (sub_amount b s.asset (amt s))
          × (new_balance s.asset (pos 0) ≡ record {
            asset = s.asset;
            amount = s.amount - taken_from (amount_of b s.asset) s.amount;
          })
          × ((j : Str)
              → amount_of (sub_amount b s.asset (amt s)) j ≡ (
                  if str_beq s.asset j
                  then amount_of b j -ℤ pos (taken_from (amount_of b s.asset) s.amount)
                  else amount_of b j))
    fully something enough =
        let (eq, cover) = enough_taken (amount_of b s.asset) s.amount something enough in
        (
          sub_amount-IsWellFormed b s.asset (amt s) h,
          no_surplus s.asset ne ∙ ground (arith, eq),
          λ j.
              rw (amt_small s small, eq)
                (amount_of-sub_amount_covered b s.asset (pos s.amount) h ne (omega arith)
                  (inr cover) j),
        )

-- ===== src/Ledger/Amount/Laws.antt =====
-- What the operations of ledger/types/amount.go do together.
use dora_service_utils.Base.{◌+◌, ◌-◌, ◌<◌, ◌≡◌, ◌≢◌, not, arith, ltb, if◌then◌else◌, refl}
use dora_service_utils.Base.Text.{str_beq_iff}
use dora_service_utils.Base.Result.{ok, err, typed, internal}
use dora_service_utils.Base.Word.{u64_mod}
use dora_service_utils.Math.SafeMath.{checked_add_u64_lem, checked_sub_u64_lem}
use dora_service_utils.Ledger.Amount.{Amount, new_amount, add, sub, sub_to_zero, lt, lte, gt, gte}

-- Taking back what was added restores the amount: if Add succeeds on uint64 amounts, then its
-- result is the exact sum under the same asset ID, and Sub of the same addend returns the original.
pub sub-add :
    (a b : Amount) {c : Amount}
    → a.amount < u64_mod
    → b.amount < u64_mod
    → add a b ≡ ok c
    → (c.amount ≡ a.amount + b.amount) × (sub c b ≡ ok a)
unfolding add sub
sub-add a b {c} ha hb h = ground (
  arith,
  checked_add_u64_lem a.amount b.amount,
  checked_sub_u64_lem c.amount b.amount,
  str_beq_iff a.asset_id b.asset_id,
  str_beq_iff c.asset_id b.asset_id,
)

-- On uint64 amounts of one asset, SubToZero always succeeds: what is left and what was taken
-- keep the asset and add up to the amount that was there, and what was taken is what was asked
-- for, or all that was there if that is less. On different assets it is an internal error.
pub sub_to_zero_splits :
    (a b : Amount)
    → a.amount < u64_mod
    → b.amount < u64_mod
    → (a.asset_id ≡ b.asset_id
        → (left : Amount) × (taken : Amount) × (sub_to_zero a b ≡ ok (left, taken))
          × (left.asset_id ≡ a.asset_id)
          × (taken.asset_id ≡ a.asset_id)
          × (left.amount + taken.amount ≡ a.amount)
          × (taken.amount ≡ (if ltb a.amount b.amount then a.amount else b.amount)))
      × (a.asset_id ≢ b.asset_id → sub_to_zero a b ≡ err (typed internal))
unfolding sub_to_zero
sub_to_zero_splits a b ha hb = (
  λ e.
      let laws = str_beq_iff a.asset_id b.asset_id in
      (
        new_amount a.asset_id (a.amount - (if ltb a.amount b.amount then a.amount else b.amount)),
        (if ltb a.amount b.amount then new_amount a.asset_id a.amount else b),
        ground (
          arith,
          laws,
          checked_sub_u64_lem a.amount a.amount,
          checked_sub_u64_lem a.amount b.amount,
        ),
        refl,
        ground arith,
        ground arith,
        ground arith,
      ),
  λ ne. ground (arith, str_beq_iff a.asset_id b.asset_id),
)

-- On one asset the four comparisons are the order of the amounts: LTE negates GT, GTE negates LT,
-- and GT is LT with the sides exchanged. On two different assets each of them is an error.
pub comparisons :
    (a b : Amount)
    → (a.asset_id ≡ b.asset_id
        → (lt a b ≡ ok (ltb a.amount b.amount))
          × (gt a b ≡ lt b a)
          × (lte a b ≡ ok (not (ltb b.amount a.amount)))
          × (gte a b ≡ lte b a))
      × (a.asset_id ≢ b.asset_id
          → (lt a b ≡ err (typed internal))
            × (lte a b ≡ err (typed internal))
            × (gt a b ≡ err (typed internal))
            × (gte a b ≡ err (typed internal)))
unfolding lt lte gt gte
comparisons a b =
    let laws = str_beq_iff a.asset_id b.asset_id in
    let swapped = str_beq_iff b.asset_id a.asset_id in
    (
      λ e. (
        ground (arith, laws),
        ground (arith, laws, swapped),
        ground (arith, laws),
        ground (arith, laws, swapped),
      ),
      λ ne.
          (ground (arith, laws), ground (arith, laws), ground (arith, laws), ground (arith, laws)),
    )

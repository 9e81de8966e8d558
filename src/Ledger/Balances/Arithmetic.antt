-- ===== src/Ledger/Balances/Arithmetic.antt =====
-- What the arithmetic of Balances does to the amount of each asset.
use dora_service_utils.Base.{◌≡◌, refl, sym, ◌∙◌, ap, true, not, ◌&&◌, [], arith, if◌then◌else◌}
use dora_service_utils.Base.Int.{ℤ, pos, neg, ◌+ℤ◌}
use dora_service_utils.Base.Word.{
  InI64, ◌+i◌, ◌-i◌, neg_i, +i-InI64, -i-InI64, +i-neg_i, to_u64, to_u64-injective, to_u64-+i,
  to_u64--i, to_u64-lt, wrap64, to_i64,
}
use dora_service_utils.Base.Text.{Str, str_beq, str_beq_iff, str_eq}
use dora_service_utils.Base.Dict.{get-merge, get-insert}
use dora_service_utils.Ledger.Balances.{Balances, entries, copied, add_amount, read, amount_of}
use dora_service_utils.Ledger.Balances.Calculus.{
  add_bals, invert, sub_amount, sub_bals, plus, negated,
}
use dora_service_utils.Ledger.Balances.WellFormed.{
  IsWellFormed, get-copied, amount_of-InI64, add_bals-IsWellFormed, invert-IsWellFormed,
  copied-IsMap,
}

-- AddAmount adds, in int64, to the one asset that it names, and to none where the asset ID is empty.
pub amount_of-add_amount :
    (b : Balances) (id : Str) (x : ℤ) (j : Str)
    → IsWellFormed b
    → amount_of (add_amount b id x) j
      ≡ (if not (str_beq id []) && str_beq id j then amount_of b j +i x else amount_of b j)
unfolding amount_of add_amount
amount_of-add_amount b id x j h = ground (
  arith,
  get-insert id j (read id (copied b) +i x) (copied b),
  get-copied j b h.unique,
  get-copied id b h.unique,
  str_beq_iff id j,
)

-- Adding the negation of an amount that an int64 may not hold wraps to the same as subtracting it.
pub amount_of-sub_amount :
    (b : Balances) (id : Str) (x : ℤ) (j : Str)
    → IsWellFormed b
    → amount_of (sub_amount b id x) j
      ≡ (if not (str_beq id []) && str_beq id j then amount_of b j -i x else amount_of b j)
unfolding sub_amount
amount_of-sub_amount b id x j h =
    ground (arith, amount_of-add_amount b id (neg_i x) j h, +i-neg_i (amount_of b j) x)

pub +i-zero : (a : ℤ) → InI64 a → a +i pos 0 ≡ a
unfolding to_u64
+i-zero a h =
    to_u64-injective _ _ (+i-InI64 a (pos 0)) h (omega (arith, to_u64-+i a (pos 0), to_u64-lt a))

pub amount_of-add_bals :
    (b c : Balances) (j : Str)
    → IsWellFormed b
    → IsWellFormed c
    → amount_of (add_bals b c) j ≡ amount_of b j +i amount_of c j
unfolding add_bals amount_of
amount_of-add_bals b c j h k = ground (
  arith,
  get-merge (λ v. true) plus j (copied b) (entries c) k.unique,
  get-copied j b h.unique,
  +i-zero (amount_of b j) (amount_of-InI64 b j h),
)

neg_i-zero : neg_i (pos 0) ≡ pos 0
unfolding neg_i wrap64 to_u64 to_i64 neg
neg_i-zero = refl

pub amount_of-invert :
    (b : Balances) (j : Str) → IsWellFormed b → amount_of (invert b) j ≡ neg_i (amount_of b j)
unfolding invert amount_of
amount_of-invert b j h = ground (
  arith,
  get-merge (λ v. true) negated j (copied b) (copied b) (copied-IsMap b),
  get-copied j b h.unique,
  neg_i-zero,
)

pub amount_of-sub_bals :
    (b c : Balances) (j : Str)
    → IsWellFormed b
    → IsWellFormed c
    → amount_of (sub_bals b c) j ≡ amount_of b j -i amount_of c j
unfolding sub_bals
amount_of-sub_bals b c j h k =
    amount_of-add_bals b (invert c) j h (invert-IsWellFormed c k)
    ∙ ap (λ (z : ℤ). amount_of b j +i z) (amount_of-invert c j k)
    ∙ +i-neg_i (amount_of b j) (amount_of c j)

pub sub_bals-IsWellFormed :
    (b c : Balances) → IsWellFormed b → IsWellFormed c → IsWellFormed (sub_bals b c)
unfolding sub_bals
sub_bals-IsWellFormed b c h k = add_bals-IsWellFormed b (invert c) h (invert-IsWellFormed c k)

wrapped_sum :
    (b c : Balances) (j : Str)
    → IsWellFormed b
    → IsWellFormed c
    → amount_of (add_bals b c) j ≡ wrap64 (amount_of b j +ℤ amount_of c j)
unfolding ◌+i◌
wrapped_sum b c j h k = amount_of-add_bals b c j h k

pub -i-+i : (a b : ℤ) → InI64 a → (a +i b) -i b ≡ a
-i-+i a b h =
    to_u64-injective _ a (-i-InI64 (a +i b) b) h
      (omega (arith, to_u64--i (a +i b) b, to_u64-+i a b, to_u64-lt a, to_u64-lt b))

pub +i_comm : (a b : ℤ) → a +i b ≡ b +i a
+i_comm a b =
    to_u64-injective _ _ (+i-InI64 a b) (+i-InI64 b a) (omega (arith, to_u64-+i a b, to_u64-+i b a))

-- On well-formed sets, whatever the amounts: AddBals is well formed and has, for every asset, the sum
-- of the two amounts, wrapped around as an int64 does; the order of the two sets makes no difference to it; and SubBals takes the addend away again,
-- so that every asset has the amount that it had.
pub sub_bals-add_bals :
    (b c : Balances)
    → IsWellFormed b
    → IsWellFormed c
    → IsWellFormed (add_bals b c)
      × ((j : Str) → amount_of (add_bals b c) j ≡ wrap64 (amount_of b j +ℤ amount_of c j))
      × ((j : Str) → amount_of (add_bals b c) j ≡ amount_of (add_bals c b) j)
      × ((j : Str) → amount_of (sub_bals (add_bals b c) c) j ≡ amount_of b j)
sub_bals-add_bals b c h k =
    let sum = add_bals-IsWellFormed b c h k in
    (
      sum,
      λ j. wrapped_sum b c j h k,
      λ j.
          amount_of-add_bals b c j h k
          ∙ +i_comm (amount_of b j) (amount_of c j)
          ∙ sym (amount_of-add_bals c b j k h),
      λ j.
          amount_of-sub_bals (add_bals b c) c j sum k
          ∙ ap (λ (z : ℤ). z -i amount_of c j) (amount_of-add_bals b c j h k)
          ∙ -i-+i (amount_of b j) (amount_of c j) (amount_of-InI64 b j h),
    )

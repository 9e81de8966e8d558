-- ===== src/Ledger/Balances/Settlement.antt =====
-- SubToZero: a whole set is subtracted from another, and what could not be taken is handed back.
use dora_service_utils.Base.{
  ℕ, ◌-◌, ◌<◌, ◌≡◌, ◌≢◌, refl, ◌∙◌, Bool, false, ◌||◌, Option, none, some, List, [], ◌∷◌, arith,
  if◌then◌else◌,
}
use dora_service_utils.Base.Int.{ℤ, pos, pos_part, ◌-ℤ◌, ◌≤ℤ◌}
use dora_service_utils.Base.Word.{InI64, ◌+i◌, to_u64, i64_half}
use dora_service_utils.Base.Text.{Str, str_beq, str_beq_iff, str_eq}
use dora_service_utils.Base.Dict.{Dict, get, IsMap}
use dora_service_utils.Ledger.Balance.{Balance, amt, new_balance, integer64_uint64}
use dora_service_utils.Ledger.Balances.{Balances, entries, copy, amount_of, empty_balances}
use dora_service_utils.Ledger.Balances.Selection.{asset_ids, ids_where, is_nonzero}
use dora_service_utils.Ledger.Balances.Calculus.{
  add, sub_bal_to_zero, sub_to_zero_from, sub_to_zero,
}
use dora_service_utils.Ledger.Balances.WellFormed.{
  IsWellFormed, amount_of-InI64, add_amount-IsWellFormed, copy-IsWellFormed,
}
use dora_service_utils.Ledger.Balances.Arithmetic.{amount_of-add_amount, +i-zero, +i_comm}
use dora_service_utils.Ledger.Balances.SafeSub.{amount_of-copy}
use dora_service_utils.Ledger.Balances.ToZero.{
  taken_from, sub_bal_to_zero_lem, surplus_balance, sub_zero, amt_small,
}

-- `add.Add(s)` for one balance.
add_one-IsWellFormed :
    (b : Balances) (s : Balance) → IsWellFormed b → IsWellFormed (add b (some s ∷ []))
unfolding add
add_one-IsWellFormed b s h =
    add_amount-IsWellFormed (copy b) s.asset (amt s) (copy-IsWellFormed b h)

amount_of-add_one :
    (b : Balances) (s : Balance) (j : Str)
    → IsWellFormed b
    → s.asset ≢ []
    → s.amount < i64_half
    → amount_of (add b (some s ∷ [])) j
      ≡ (if str_beq s.asset j then amount_of b j +i pos s.amount else amount_of b j)
unfolding add
amount_of-add_one b s j h ne small = ground (
  arith,
  amount_of-add_amount (copy b) s.asset (amt s) j (copy-IsWellFormed b h),
  amount_of-copy b j h,
  amt_small s small,
  str_beq_iff s.asset [],
)

abbrev pub listed : Str → List Str → Bool
listed j [] = false
listed j (id ∷ ids) = str_beq id j || listed j ids

-- No ID stands twice, and none is empty.
abbrev AreIds : List Str → Type 0
AreIds [] = Unit
AreIds (id ∷ ids) = (id ≢ []) × (listed id ids ≡ false) × AreIds ids

-- The amount to be subtracted of an asset, where it is not negative.
abbrev pub due : Balances → Str → ℕ
due subs j = pos_part (amount_of subs j)

due_small : (subs : Balances) (j : Str) → IsWellFormed subs → due subs j < i64_half
due_small subs j h = (amount_of-InI64 subs j h).0

to_u64_due : (z : ℤ) → InI64 z → pos 0 ≤ℤ z → to_u64 z ≡ pos_part z
unfolding to_u64
to_u64_due z h p = ground arith

module _ (subs : Balances) (hs : IsWellFormed subs)
    (nonneg : (j : Str) → pos 0 ≤ℤ amount_of subs j) where
  abbrev Settled : List Str → Balances → Balances → Balances → Balances → Type 0
  Settled ids b u b' u' =
      IsWellFormed b'
      × IsWellFormed u'
      × ((j : Str)
          → amount_of b' j ≡ (
              if listed j ids
              then amount_of b j -ℤ pos (taken_from (amount_of b j) (due subs j))
              else amount_of b j))
      × ((j : Str)
          → amount_of u' j ≡ (
              if listed j ids
              then amount_of u j +i pos (due subs j - taken_from (amount_of b j) (due subs j))
              else amount_of u j))

  requested :
      (id : Str)
      → id ≢ []
      → new_balance id (to_u64 (amount_of subs id)) ≡ record { asset = id; amount = due subs id }
  requested id ne =
      rw (to_u64_due (amount_of subs id) (amount_of-InI64 subs id hs) (nonneg id))
        (surplus_balance id (due subs id) ne)

  sub_to_zero_from-cons :
      (id : Str) (ids : List Str) (b u : Balances)
      → id ≢ []
      → sub_to_zero_from subs b u (id ∷ ids) ≡ (
          let (b₁, left) = sub_bal_to_zero b (record { asset = id; amount = due subs id }) in
          sub_to_zero_from subs b₁ (add u (some left ∷ [])) ids)
  unfolding sub_to_zero_from
  sub_to_zero_from-cons id ids b u ne = rw (requested id ne)

  surplus_added :
      (id : Str) (b u : Balances) (j : Str) {left : Balance}
      → IsWellFormed u
      → id ≢ []
      → left
        ≡ record { asset = id; amount = due subs id - taken_from (amount_of b id) (due subs id) }
      → due subs id - taken_from (amount_of b id) (due subs id) < i64_half
      → amount_of (add u (some left ∷ [])) j ≡ (
          if str_beq id j
          then amount_of u j +i pos (due subs id - taken_from (amount_of b id) (due subs id))
          else amount_of u j)
  surplus_added id b u j hu ne e small = rw e (amount_of-add_one u _ j hu ne small)

  settle :
      (ids : List Str) (b u : Balances)
      → AreIds ids
      → IsWellFormed b
      → IsWellFormed u
      → let (b', u') = sub_to_zero_from subs b u ids in Settled ids b u b' u'
  settle [] b u k h hu = unfold sub_to_zero_from in (h, hu, λ j. refl, λ j. refl)
  settle (id ∷ ids) b u k h hu =
      let (b₁, left) = sub_bal_to_zero b (record { asset = id; amount = due subs id }) in
      let (h₁, surplus, amounts) =
        sub_bal_to_zero_lem b (record { asset = id; amount = due subs id }) h k.0
          (due_small subs id hs) in
      let rest = settle ids b₁ (add u (some left ∷ [])) k.2 h₁ (add_one-IsWellFormed u left hu) in
      let kept = taken_from (amount_of b id) (due subs id) in
      let small : due subs id - kept < i64_half = omega (arith, due_small subs id hs) in
      rw (sub_to_zero_from-cons id ids b u k.0) (
        rest.0,
        rest.1,
        (λ j. rest.2 j ∙ ground (arith, amounts j, str_beq_iff id j)),
        λ j.
            rest.3 j
            ∙ ground
                (arith, amounts j, str_beq_iff id j, surplus_added id b u j hu k.0 surplus small),
      )

abbrev passes : (ℤ → Bool) → Option ℤ → Bool
passes test none = false
passes test (some v) = test v

pub listed-ids_where :
    (test : ℤ → Bool) (j : Str) (d : Dict Str ℤ)
    → IsMap d
    → listed j (ids_where test d) ≡ passes test (get j d)
unfolding ids_where get
listed-ids_where test j [] h = refl
listed-ids_where test j ((k, v) ∷ d) h =
    ground (arith, listed-ids_where test j d h.1, str_beq_iff k j)

ids_where-AreIds :
    (test : ℤ → Bool) (d : Dict Str ℤ) → IsMap d → get [] d ≡ none → AreIds (ids_where test d)
unfolding ids_where get
ids_where-AreIds test [] h e = tt
ids_where-AreIds test ((k, v) ∷ d) h e =
    ground (arith, ids_where-AreIds test d h.1, listed-ids_where test k d h.1, str_beq_iff k [])

asset_ids-AreIds :
    (b : Balances) → IsWellFormed b → get [] (entries b) ≡ none → AreIds (asset_ids b)
unfolding asset_ids
asset_ids-AreIds b h e = ids_where-AreIds is_nonzero (entries b) h.unique e

-- An asset that AssetIDs leaves out has the amount zero.
pub listed-asset_ids :
    (b : Balances) (j : Str) → IsWellFormed b → listed j (asset_ids b) ≡ is_nonzero (amount_of b j)
unfolding asset_ids amount_of
listed-asset_ids b j h = listed-ids_where is_nonzero j (entries b) h.unique ∙ ground arith

empty-IsWellFormed : IsWellFormed empty_balances
unfolding get
empty-IsWellFormed = record { unique = tt; in_range = λ k v e. cc }

amount_of-empty : (j : Str) → amount_of empty_balances j ≡ pos 0
unfolding amount_of get
amount_of-empty j = refl

+i-small : (n : ℕ) → n < i64_half → pos 0 +i pos n ≡ pos n
+i-small n h = +i_comm (pos 0) (pos n) ∙ +i-zero (pos n) (omega arith)

pub sub_to_zero_lem :
    (b subs : Balances)
    → IsWellFormed b
    → IsWellFormed subs
    → get [] (entries subs) ≡ none
    → ((j : Str) → pos 0 ≤ℤ amount_of subs j)
    → let (result, surplus) = sub_to_zero b subs in
      IsWellFormed result
      × IsWellFormed surplus
      × ((j : Str)
          → let taken = taken_from (amount_of b j) (due subs j) in
            (amount_of result j ≡ amount_of b j -ℤ pos taken)
            × (amount_of surplus j ≡ pos (due subs j - taken)))
unfolding sub_to_zero
sub_to_zero_lem b subs h hs named nonneg =
    let all =
      settle subs hs nonneg (asset_ids subs) (copy b) empty_balances
        (asset_ids-AreIds subs hs named) (copy-IsWellFormed b h) empty-IsWellFormed in
    (
      all.0,
      all.1,
      λ j. (
        all.2 j
            ∙ ground
                (arith, listed-asset_ids subs j hs, amount_of-copy b j h, sub_zero (amount_of b j)),
        all.3 j
            ∙ ground (
              arith,
              listed-asset_ids subs j hs,
              amount_of-copy b j h,
              amount_of-empty j,
              due_small subs j hs,
              +i-small (due subs j - taken_from (amount_of b j) (due subs j)),
            ),
      ),
    )

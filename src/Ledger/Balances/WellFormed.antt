-- ===== src/Ledger/Balances/WellFormed.antt =====
-- The invariant of Balances: no asset ID stands twice, as in every Go map, and every amount is an
-- int64.
use dora_service_utils.Base.{
  ◌≡◌, Bool, true, Option, none, some, [], arith, inl, inr, Option-cases, Bool-cases,
}
use dora_service_utils.Base.Int.{ℤ}
use dora_service_utils.Base.Word.{InI64, +i-InI64, neg_i-InI64}
use dora_service_utils.Base.Text.{Str, str_beq, str_eq}
use dora_service_utils.Base.Dict.{
  Dict, get, insert, IsMap, merge, merged, get-merge, merge-IsMap, get-insert, insert-IsMap,
}
use dora_service_utils.Ledger.Balances.{
  Balances, entries, overwrite, copied, copy, add_amount, read, value_of, amount_of,
}
use dora_service_utils.Ledger.Balances.Calculus.{add_bals, invert, plus, negated}

abbrev pub AllI64 : Dict Str ℤ → Type 0
AllI64 d = (k : Str) (v : ℤ) → get k d ≡ some v → InI64 v

pub record IsWellFormed (b : Balances) : Type 0 where
  pub unique : IsMap (entries b)
  pub in_range : AllI64 (entries b)

merged-InI64 :
    (keep : ℤ → Bool) (f : Option ℤ → ℤ → ℤ)
    → ((old : Option ℤ) (v : ℤ) → InI64 v → InI64 (f old v))
    → (old new : Option ℤ) → ((v : ℤ) → old ≡ some v → InI64 v)
    → ((v : ℤ) → new ≡ some v → InI64 v)
    → (v : ℤ) → merged keep f old new ≡ some v
    → InI64 v
merged-InI64 keep f fits old none ho hn v e = ho v e
merged-InI64 keep f fits old (some w) ho hn v e = elim (Bool-cases (keep w)) [
  | inl kept ↦ ground (arith, fits old w, hn w)
  | inr skipped ↦ ground (arith, ho v)
]

pub merge-AllI64 :
    (keep : ℤ → Bool) (f : Option ℤ → ℤ → ℤ) (r d : Dict Str ℤ)
    → ((old : Option ℤ) (v : ℤ) → InI64 v → InI64 (f old v))
    → IsMap d
    → AllI64 r
    → AllI64 d
    → AllI64 (merge keep f r d)
merge-AllI64 keep f r d fits h hr hd k v e =
    merged-InI64 keep f fits (get k r) (get k d) (hr k) (hd k) v
      (rw (get-merge keep f k r d h) at e)

pub nil-AllI64 : AllI64 []
unfolding get
nil-AllI64 k v e = cc

-- A copy has the same lookups.
pub get-copied : (j : Str) (b : Balances) → IsMap (entries b) → get j (copied b) ≡ get j (entries b)
unfolding copied get
get-copied j b h = rw (get-merge (λ v. true) overwrite j [] (entries b) h) (ground arith)

pub copied-IsMap : (b : Balances) → IsMap (copied b)
unfolding copied
copied-IsMap b = merge-IsMap (λ v. true) overwrite [] (entries b) tt

copied-AllI64 : (b : Balances) → IsWellFormed b → AllI64 (copied b)
copied-AllI64 b h k v e = h.in_range k v (rw (get-copied k b h.unique) at e)

pub copy-IsWellFormed : (b : Balances) → IsWellFormed b → IsWellFormed (copy b)
unfolding copy
copy-IsWellFormed b h = record { unique = copied-IsMap b; in_range = copied-AllI64 b h }

insert-AllI64 : (id : Str) (x : ℤ) (d : Dict Str ℤ) → InI64 x → AllI64 d → AllI64 (insert id x d)
insert-AllI64 id x d hx h k v e =
    let looked = rw (get-insert id k x d) at e in
    elim (Bool-cases (str_beq id k)) [
      | inl same ↦ ground (arith, looked)
      | inr other ↦ h k v (rw other at looked)
    ]

pub add_amount-IsWellFormed :
    (b : Balances) (id : Str) (x : ℤ) → IsWellFormed b → IsWellFormed (add_amount b id x)
unfolding add_amount
add_amount-IsWellFormed b id x h = elim (Bool-cases (str_beq id [])) [
  | inl empty ↦ rw empty (record { unique = copied-IsMap b; in_range = copied-AllI64 b h })
  | inr named ↦ rw named (record {
    unique = insert-IsMap id _ (copied b) (copied-IsMap b);
    in_range = insert-AllI64 id _ (copied b) (+i-InI64 (read id (copied b)) x) (copied-AllI64 b h);
  })
]

pub add_bals-IsWellFormed :
    (b c : Balances) → IsWellFormed b → IsWellFormed c → IsWellFormed (add_bals b c)
unfolding add_bals
add_bals-IsWellFormed b c h k = record {
  unique = merge-IsMap (λ v. true) plus (copied b) (entries c) (copied-IsMap b);
  in_range =
      merge-AllI64 (λ v. true) plus (copied b) (entries c) (λ old v hv. +i-InI64 (value_of old) v)
        k.unique (copied-AllI64 b h) k.in_range;
}

pub invert-IsWellFormed : (b : Balances) → IsWellFormed b → IsWellFormed (invert b)
unfolding invert
invert-IsWellFormed b h = record {
  unique = merge-IsMap (λ v. true) negated (copied b) (copied b) (copied-IsMap b);
  in_range =
      merge-AllI64 (λ v. true) negated (copied b) (copied b) (λ old v hv. neg_i-InI64 v)
        (copied-IsMap b) (copied-AllI64 b h) (copied-AllI64 b h);
}

pub amount_of-InI64 : (b : Balances) (j : Str) → IsWellFormed b → InI64 (amount_of b j)
unfolding amount_of
amount_of-InI64 b j h = elim (Option-cases (get j (entries b))) [
  | inl missing ↦ rw missing (omega arith)
  | inr (v, found) ↦ rw found (h.in_range j v found)
]

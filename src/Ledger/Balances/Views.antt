-- ===== src/Ledger/Balances/Views.antt =====
-- The selections of balances_misc.go against the amounts, and what Validate accepts.
use dora_service_utils.Base.{
  ◌≡◌, ◌≢◌, refl, ◌∙◌, Bool, true, false, not, ◌&&◌, none, some, [], ◌∷◌, arith, inl, inr,
  Option-cases, if◌then◌else◌, ◌-◌,
}
use dora_service_utils.Base.Int.{ℤ, pos, ◌≤ℤ◌, ◌-ℤ◌}
use dora_service_utils.Base.Word.{
  InI64, ◌-i◌, neg_i, -i-InI64, neg_i-InI64, to_u64, to_u64-injective, to_u64--i, to_u64-neg_i,
  to_u64-lt,
}
use dora_service_utils.Base.Text.{Str, str_beq_iff, str_eq}
use dora_service_utils.Base.Dict.{Dict, get, get-merge, merge-IsMap}
use dora_service_utils.Base.Result.{ok, is_ok}
use dora_service_utils.Ledger.AssetId.{valid_asset_id}
use dora_service_utils.Ledger.Balance.{integer64_int64}
use dora_service_utils.Ledger.Balances.{Balances, entries, amount_of, overwrite}
use dora_service_utils.Ledger.Balances.Selection.{
  positive, negative, is_positive, is_negative, opposite, validate, validate_entries,
}
use dora_service_utils.Ledger.Balances.Calculus.{sub_bals, has_negative, any_negative, sub_to_zero}
use dora_service_utils.Ledger.Balances.WellFormed.{
  IsWellFormed, merge-AllI64, nil-AllI64, amount_of-InI64,
}
use dora_service_utils.Ledger.Balances.Arithmetic.{amount_of-sub_bals}
use dora_service_utils.Ledger.Balances.ToZero.{taken_from}
use dora_service_utils.Ledger.Balances.Settlement.{due, sub_to_zero_lem}

positive-IsWellFormed : (b : Balances) → IsWellFormed b → IsWellFormed (positive b)
unfolding positive
positive-IsWellFormed b h = record {
  unique = merge-IsMap is_positive overwrite [] (entries b) tt;
  in_range =
      merge-AllI64 is_positive overwrite [] (entries b) (λ old v hv. hv) h.unique nil-AllI64
        h.in_range;
}

negative-IsWellFormed : (b : Balances) → IsWellFormed b → IsWellFormed (negative b)
unfolding negative
negative-IsWellFormed b h = record {
  unique = merge-IsMap is_negative opposite [] (entries b) tt;
  in_range =
      merge-AllI64 is_negative opposite [] (entries b) (λ old v hv. neg_i-InI64 v) h.unique
        nil-AllI64 h.in_range;
}

amount_of-positive :
    (b : Balances) (j : Str)
    → IsWellFormed b
    → amount_of (positive b) j ≡ (if is_positive (amount_of b j) then amount_of b j else pos 0)
unfolding positive amount_of get
amount_of-positive b j h = ground (arith, get-merge is_positive overwrite j [] (entries b) h.unique)

amount_of-negative :
    (b : Balances) (j : Str)
    → IsWellFormed b
    → amount_of (negative b) j
      ≡ (if is_negative (amount_of b j) then neg_i (amount_of b j) else pos 0)
unfolding negative amount_of get
amount_of-negative b j h = ground (arith, get-merge is_negative opposite j [] (entries b) h.unique)

minus_zero : (a : ℤ) → InI64 a → a -i pos 0 ≡ a
unfolding to_u64
minus_zero a h =
    to_u64-injective _ _ (-i-InI64 a (pos 0)) h (omega (arith, to_u64--i a (pos 0), to_u64-lt a))

zero_minus_neg : (a : ℤ) → InI64 a → pos 0 -i neg_i a ≡ a
unfolding to_u64
zero_minus_neg a h =
    to_u64-injective _ _ (-i-InI64 (pos 0) (neg_i a)) h
      (omega (arith, to_u64--i (pos 0) (neg_i a), to_u64-neg_i a, to_u64-lt a))

zero_is_zero : (a : ℤ) → is_positive a ≡ false → is_negative a ≡ false → a ≡ pos 0
zero_is_zero a p n = ground arith

-- Positive and Negative split a well-formed set: both are well formed, every asset is at most in one of them,
-- Positive holds no negative amount, and the difference of the two gives every amount back, also
-- the least int64, which Negative cannot turn into a positive amount.
pub positive-negative_split :
    (b : Balances)
    → IsWellFormed b
    → IsWellFormed (positive b)
      × IsWellFormed (negative b)
      × ((j : Str)
          → (pos 0 ≤ℤ amount_of (positive b) j)
            × (amount_of (positive b) j ≢ pos 0 → amount_of (negative b) j ≡ pos 0)
            × (amount_of (sub_bals (positive b) (negative b)) j ≡ amount_of b j))
positive-negative_split b h =
    let hp = positive-IsWellFormed b h in
    let hn = negative-IsWellFormed b h in
    (
      hp,
      hn,
      λ j.
          let p = amount_of-positive b j h in
          let n = amount_of-negative b j h in
          let range = amount_of-InI64 b j h in
          (
            ground (arith, p),
            ground (arith, p, n),
            amount_of-sub_bals (positive b) (negative b) j hp hn
                ∙ ground (
                  arith,
                  p,
                  n,
                  zero_is_zero (amount_of b j),
                  minus_zero (amount_of b j) range,
                  minus_zero (pos 0) (omega arith),
                  zero_minus_neg (amount_of b j) range,
                ),
          ),
    )

validate_entries-any_negative :
    (d : Dict Str ℤ)
    → is_ok (validate_entries false d) ≡ (is_ok (validate_entries true d) && not (any_negative d))
unfolding validate_entries any_negative
validate_entries-any_negative [] = refl
validate_entries-any_negative ((k, v) ∷ d) = ground (arith, validate_entries-any_negative d)

-- Validate without negative amounts accepts exactly what Validate with them accepts and HasNegative
-- does not find fault with.
pub validate-has_negative :
    (b : Balances) → is_ok (validate b false) ≡ (is_ok (validate b true) && not (has_negative b))
unfolding validate has_negative
validate-has_negative b = validate_entries-any_negative (entries b)

-- What Validate has checked of each key that is present.
pub validate_entries-get :
    (allow : Bool) (d : Dict Str ℤ) (j : Str) (v : ℤ)
    → validate_entries allow d ≡ ok tt
    → get j d ≡ some v
    → (j ≢ []) × (valid_asset_id j ≡ ok tt) × (allow ≡ false → pos 0 ≤ℤ v)
unfolding validate_entries get
validate_entries-get allow [] j v e found = cc
validate_entries-get allow ((k, w) ∷ d) j v e found = (
  (λ empty. ground (arith, validate_entries-get allow d j v, str_beq_iff k j, str_beq_iff k [])),
  ground (arith, validate_entries-get allow d j v, str_beq_iff k j, str_beq_iff k []),
  λ strict. ground (arith, validate_entries-get allow d j v, str_beq_iff k j, str_beq_iff k []),
)

validate-named :
    (b : Balances) (allow : Bool) → validate b allow ≡ ok tt → get [] (entries b) ≡ none
unfolding validate
validate-named b allow e = elim (Option-cases (get [] (entries b))) [
  | inl missing ↦ missing
  | inr (v, found) ↦ absurd ((validate_entries-get allow (entries b) [] v e found).0 refl)
]

validate-nonneg : (b : Balances) (j : Str) → validate b false ≡ ok tt → pos 0 ≤ℤ amount_of b j
unfolding validate amount_of
validate-nonneg b j e = elim (Option-cases (get j (entries b))) [
  | inl missing ↦ rw missing (omega arith)
  | inr (v, found) ↦ rw found ((validate_entries-get false (entries b) j v e found).2 refl)
]

-- SubToZero of a well-formed set that Validate accepts with no negative amounts. Of every asset it
-- takes what is there, but no more than was asked for, and nothing where the amount was negative;
-- the surplus of every asset is exactly the rest of what was asked for. Both results are well
-- formed.
pub sub_to_zero_settles :
    (b subs : Balances)
    → IsWellFormed b
    → IsWellFormed subs
    → validate subs false ≡ ok tt
    → let (result, surplus) = sub_to_zero b subs in
      IsWellFormed result
      × IsWellFormed surplus
      × ((j : Str)
          → let taken = taken_from (amount_of b j) (due subs j) in
            (amount_of result j ≡ amount_of b j -ℤ pos taken)
            × (amount_of surplus j ≡ pos (due subs j - taken)))
sub_to_zero_settles b subs h hs e =
    sub_to_zero_lem b subs h hs (validate-named subs false e) (λ j. validate-nonneg subs j e)

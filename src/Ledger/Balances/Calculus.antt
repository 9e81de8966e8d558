-- ===== src/Ledger/Balances/Calculus.antt =====
-- ledger/types/balances_math.go, but for AmountOf and AddAmount, which stand in the parent.
use dora_service_utils.Base.{
  Bool, true, false, not, ◌&&◌, ◌||◌, Option, none, some, List, [], ◌∷◌, if◌then◌else◌,
}
use dora_service_utils.Base.Int.{ℤ, pos, ltb_ℤ, leb_ℤ, beq_ℤ}
use dora_service_utils.Base.Word.{◌+i◌, ◌-i◌, neg_i, to_u64}
use dora_service_utils.Base.Text.{Str}
use dora_service_utils.Base.Dict.{Dict, merge}
use dora_service_utils.Base.Result.{Result, ok, err, plain}
use dora_service_utils.Ledger.Balance.{Balance, new_balance, amt, integer64_int64, integer64_uint64}
use dora_service_utils.Base.Text.{str_eq}
use dora_service_utils.Ledger.Balances.{
  Balances, entries, of_map, value_of, read, empty_balances, copied, copy, amount_of, add_amount,
}
use dora_service_utils.Ledger.Balances.Selection.{asset_ids}

-- `for _, add := range adds`: a nil pointer is passed over.
add_from : Balances → List (Option Balance) → Balances
add_from result [] = result
add_from result (none ∷ adds) = add_from result adds
add_from result (some x ∷ adds) = add_from (add_amount result x.asset (amt x)) adds

unfoldable pub add : Balances → List (Option Balance) → Balances
unfolding add_from
add b adds = add_from (copy b) adds

-- `result.Bals[id] + amt`
abbrev pub plus : Option ℤ → ℤ → ℤ
plus old v = value_of old +i v

unfoldable pub add_bals : Balances → Balances → Balances
add_bals b add = of_map (merge (λ v. true) plus (copied b) (entries add))

-- `-1 * amt`
abbrev pub negated : Option ℤ → ℤ → ℤ
negated old v = neg_i v

-- The loop writes to the map that it ranges over, at the key that it visits.
unfoldable pub invert : Balances → Balances
invert b = let result = copied b in of_map (merge (λ v. true) negated result result)

unfoldable pub sub_amount : Balances → Str → ℤ → Balances
sub_amount b asset_id amount = add_amount b asset_id (neg_i amount)

sub_from : Balances → List (Option Balance) → Balances
sub_from result [] = result
sub_from result (none ∷ subs) = sub_from result subs
sub_from result (some x ∷ subs) = sub_from (sub_amount result x.asset (amt x)) subs

unfoldable pub sub : Balances → List (Option Balance) → Balances
unfolding sub_from
sub b subs = sub_from (copy b) subs

abbrev pub is_nil : Option (Dict Str ℤ) → Bool
is_nil none = true
is_nil (some d) = false

unfoldable pub has_at_least : Balances → Str → ℤ → Bool
has_at_least b asset_id amount =
    if beq_ℤ amount (pos 0)
    then true
    else if ltb_ℤ amount (pos 0)
    then not (is_nil b.bals) && leb_ℤ (read asset_id (entries b)) amount
    else not (is_nil b.bals) && leb_ℤ amount (read asset_id (entries b))

-- Beside an error the result is the receiver.
unfoldable pub safe_sub : Balances → Str → ℤ → Result Balances
safe_sub b asset_id amount =
    if ltb_ℤ amount (pos 0)
    then err plain
    else if is_nil b.bals
    then err plain
    else if not (has_at_least b asset_id amount)
    then err plain
    else ok (sub_amount b asset_id amount)

-- The result, and the surplus that could not be subtracted.
unfoldable pub sub_bal_to_zero : Balances → Balance → Balances × Balance
sub_bal_to_zero b sub =
    if is_nil b.bals || leb_ℤ (amount_of b sub.asset) (pos 0)
    then (copy b, sub)
    else let naive_result_amt = amount_of b sub.asset -i amt sub in
      if ltb_ℤ naive_result_amt (pos 0)
      then (
        sub_amount b sub.asset (amount_of b sub.asset),
        new_balance sub.asset (to_u64 (neg_i naive_result_amt)),
      )
      else (sub_amount b sub.asset (amt sub), new_balance sub.asset (pos 0))

-- `for _, id := range subs.AssetIDs()`
unfoldable pub sub_to_zero_from : Balances → Balances → Balances → List Str → Balances × Balances
sub_to_zero_from subs result surplus [] = (result, surplus)
sub_to_zero_from subs result surplus (id ∷ ids) =
    let (result', s) = sub_bal_to_zero result (new_balance id (to_u64 (amount_of subs id))) in
    sub_to_zero_from subs result' (add surplus (some s ∷ [])) ids

unfoldable pub sub_to_zero : Balances → Balances → Balances × Balances
unfolding sub_to_zero_from
sub_to_zero b subs = sub_to_zero_from subs (copy b) empty_balances (asset_ids subs)

unfoldable pub sub_amount_to_zero : Balances → Str → ℤ → Balances
sub_amount_to_zero b asset_id amount =
    if is_nil b.bals || leb_ℤ (amount_of b asset_id) (pos 0) || leb_ℤ amount (pos 0)
    then b
    else if leb_ℤ (amount_of b asset_id) amount
    then sub_amount b asset_id (read asset_id (entries b))
    else sub_amount b asset_id amount

unfoldable pub sub_bals : Balances → Balances → Balances
sub_bals b sub = add_bals b (invert sub)

unfoldable pub any_negative : Dict Str ℤ → Bool
any_negative [] = false
any_negative ((id, v) ∷ d) = if ltb_ℤ v (pos 0) then true else any_negative d

unfoldable pub has_negative : Balances → Bool
unfolding any_negative
has_negative b = any_negative (entries b)

-- ===== src/Ledger/Balances/Selection.antt =====
-- ledger/types/balances_misc.go and the loops of balances_iter.go. The text of String is left out.
use dora_service_utils.Base.{Bool, not, ◌&&◌, Option, none, some, List, [], ◌∷◌, if◌then◌else◌}
use dora_service_utils.Base.Int.{ℤ, pos, ltb_ℤ, beq_ℤ}
use dora_service_utils.Base.Word.{neg_i, to_u64}
use dora_service_utils.Base.Text.{Str, str_beq, str_eq}
use dora_service_utils.Base.Dict.{Dict, insert, merge}
use dora_service_utils.Base.Result.{Result, ok, Error, typed, invalid_data, ◌>>◌, fail_if}
use dora_service_utils.Ledger.AssetId.{valid_asset_id}
use dora_service_utils.Ledger.Balance.{Balance, new_balance, integer64_int64}
use dora_service_utils.Ledger.Balances.{Balances, entries, of_map, read, overwrite, amount_of}

unfoldable pub validate_entries : Bool → Dict Str ℤ → Result (Unit {0})
validate_entries allow_negative [] = ok tt
validate_entries allow_negative ((asset_id, amount) ∷ d) = do
  fail_if (str_beq asset_id []) (typed invalid_data)
  valid_asset_id asset_id
  fail_if (not allow_negative && ltb_ℤ amount (pos 0)) (typed invalid_data)
  validate_entries allow_negative d

unfoldable pub validate : Balances → Bool → Result (Unit {0})
validate b allow_negative = validate_entries allow_negative (entries b)

-- The field Amount is set behind NewBalance, also where that has dropped an empty asset ID.
unfoldable pub select_positive : Balances → Str → Balance
select_positive b asset_id =
    let result = new_balance asset_id (pos 0) in
    let amt = read asset_id (entries b) in
    if ltb_ℤ (pos 0) amt then record result { amount = to_u64 amt } else result

abbrev pub is_positive : ℤ → Bool
is_positive v = ltb_ℤ (pos 0) v

abbrev pub is_negative : ℤ → Bool
is_negative v = ltb_ℤ v (pos 0)

abbrev pub is_nonzero : ℤ → Bool
is_nonzero v = not (beq_ℤ v (pos 0))

unfoldable pub positive : Balances → Balances
positive b = of_map (merge is_positive overwrite [] (entries b))

-- `-v`
abbrev pub opposite : Option ℤ → ℤ → ℤ
opposite old v = neg_i v

unfoldable pub negative : Balances → Balances
negative b = of_map (merge is_negative opposite [] (entries b))

zeros_from : Balances → Dict Str ℤ → List Str → Dict Str ℤ
zeros_from b result [] = result
zeros_from b result (id ∷ ids) =
    let amt = amount_of b id in
    zeros_from b (if beq_ℤ amt (pos 0) then insert id amt result else result) ids

unfoldable pub zeros : Balances → List Str → Balances
unfolding zeros_from
zeros b ids = of_map (zeros_from b [] ids)

-- The keys of the entries that pass a test, in the order of the loop.
unfoldable pub ids_where : (ℤ → Bool) → Dict Str ℤ → List Str
ids_where test [] = []
ids_where test ((id, v) ∷ d) = let rest = ids_where test d in if test v then id ∷ rest else rest

unfoldable pub asset_ids : Balances → List Str
unfolding ids_where
asset_ids b = ids_where is_nonzero (entries b)

unfoldable pub positive_assets : Balances → List Str
unfolding ids_where
positive_assets b = ids_where is_positive (entries b)

unfoldable pub negative_assets : Balances → List Str
unfolding ids_where
negative_assets b = ids_where is_negative (entries b)

-- Iterate with a callback that keeps its variables in a state `S`; the state is kept beside the
-- error that ends the loop.
module _ {S : Type 0} (f : Str → ℤ → S → S × Option Error) where
  unfoldable pub iterate_entries : Dict Str ℤ → S → S × Option Error
  iterate_entries [] s = (s, none)
  iterate_entries ((k, v) ∷ d) s =
      let (s', failed) = f k v s in
      elim failed [ some e ↦ (s', some e) | none ↦ iterate_entries d s' ]

  unfoldable pub iterate : Balances → S → S × Option Error
  unfolding iterate_entries
  iterate b s = iterate_entries (entries b) s

  iterate_listed : Balances → List Str → S → S × Option Error
  iterate_listed b [] s = (s, none)
  iterate_listed b (id ∷ ids) s =
      let (s', failed) = f id (read id (entries b)) s in
      elim failed [ some e ↦ (s', some e) | none ↦ iterate_listed b ids s' ]

  unfoldable pub iterate_ids : Balances → List Str → S → S × Option Error
  unfolding iterate_listed
  iterate_ids b ids s = iterate_listed b ids s

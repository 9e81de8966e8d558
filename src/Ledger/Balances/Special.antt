-- ===== src/Ledger/Balances/Special.antt =====
-- InterpretSpecialPrefix of ledger/types/assetID.go: the balances of an asset's coupon periods.
use dora_service_utils.Base.{
  ◌≡◌, ap, ◌∙◌, true, ◌⊎◌, inl, inr, some, [], ◌∷◌, ◌++◌, arith, Bool-cases, none, if◌then◌else◌,
}
use dora_service_utils.Base.Int.{ℤ, int_eq, beq_ℤ, beq_ℤ_iff}
use dora_service_utils.Base.Text.{Str, hyphen, has_prefix, trim_prefix, str_beq_iff, str_eq}
use dora_service_utils.Base.Dict.{Dict, IsMap, get, insert, get-insert}
use dora_service_utils.Base.ParseInt.{parse_int}
use dora_service_utils.Base.Result.{Result, ok, err, Result-cases}
use dora_service_utils.Ledger.Balances.{Balances, entries}

-- `if err == nil { result[n] = amt }`
unfoldable pub put_parsed : Result ℤ → ℤ → Dict ℤ ℤ → Dict ℤ ℤ
put_parsed (ok n) amt result = insert n amt result
put_parsed (err e) amt result = result

unfoldable pub interpret_entries : Str → Dict Str ℤ → Dict ℤ ℤ → Dict ℤ ℤ
unfolding put_parsed
interpret_entries full_prefix [] result = result
interpret_entries full_prefix ((id, amt) ∷ d) result = interpret_entries full_prefix d (
    if has_prefix id full_prefix
    then put_parsed (parse_int (trim_prefix id full_prefix)) amt result
    else result)

unfoldable pub interpret_special_prefix : Balances → Str → Str → Dict ℤ ℤ
interpret_special_prefix b asset prefix =
    interpret_entries (asset ++ (hyphen ∷ prefix)) (entries b) []

-- An entry of the map whose ID ends in the number behind the prefix.
pub record IsSource (full_prefix : Str) (d : Dict Str ℤ) (n v : ℤ) : Type 0 where
  pub id : Str
  pub held : get id d ≡ some v
  pub prefixed : has_prefix id full_prefix ≡ true
  pub number : parse_int (trim_prefix id full_prefix) ≡ ok n

later :
    (full_prefix : Str) (j : Str) (w : ℤ) (d : Dict Str ℤ) (n v : ℤ)
    → get j d ≡ none
    → IsSource full_prefix d n v
    → IsSource full_prefix ((j, w) ∷ d) n v
unfolding get
later full_prefix j w d n v fresh s = record {
  id = s.id;
  held = ground (arith, s.held, fresh, str_beq_iff j s.id);
  prefixed = s.prefixed;
  number = s.number;
}

here :
    (full_prefix : Str) (j : Str) (w : ℤ) (d : Dict Str ℤ) (n v : ℤ)
    → some w ≡ some v
    → has_prefix j full_prefix ≡ true
    → parse_int (trim_prefix j full_prefix) ≡ ok n
    → IsSource full_prefix ((j, w) ∷ d) n v
unfolding get
here full_prefix j w d n v same p e = record {
  id = j;
  held = ground (arith, same, str_beq_iff j j);
  prefixed = p;
  number = e;
}

-- An entry of the result was there before the step, or comes from the entry that is visited.
step :
    (full_prefix : Str) (j : Str) (w : ℤ) (d : Dict Str ℤ) (n v : ℤ) (result : Dict ℤ ℤ)
    → get n (
        if has_prefix j full_prefix
        then put_parsed (parse_int (trim_prefix j full_prefix)) w result
        else result)
      ≡ some v
    → (get n result ≡ some v) ⊎ IsSource full_prefix ((j, w) ∷ d) n v
unfolding put_parsed
step full_prefix j w d n v result e = elim (Bool-cases (has_prefix j full_prefix)) [
  | inr other ↦ inl (rw other at e)
  | inl prefixed ↦ elim (Result-cases (parse_int (trim_prefix j full_prefix))) [
    | inr (problem, failed) ↦ inl (rw (prefixed, failed) at e)
    | inl (m, read) ↦
        let looked = rw (get-insert m n w result) at (rw (prefixed, read) at e) in
        elim (Bool-cases (beq_ℤ m n)) [
          | inr other ↦ inl (rw other at looked)
          | inl same ↦ inr (
              here full_prefix j w d n v (rw same at looked) prefixed
                (read ∙ ap ok ((beq_ℤ_iff m n).0 same)))
        ]
  ]
]

interpret_entries-IsSource :
    (full_prefix : Str) (d : Dict Str ℤ) (n v : ℤ) (result : Dict ℤ ℤ)
    → IsMap d
    → get n (interpret_entries full_prefix d result) ≡ some v
    → (get n result ≡ some v) ⊎ IsSource full_prefix d n v
unfolding interpret_entries
interpret_entries-IsSource full_prefix [] n v result h e = inl e
interpret_entries-IsSource full_prefix ((j, w) ∷ d) n v result h e =
    elim (interpret_entries-IsSource full_prefix d n v _ h.1 e) [
      | inl before ↦ step full_prefix j w d n v result before
      | inr source ↦ inr (later full_prefix j w d n v h.0 source)
    ]

-- Every entry of the result comes from a balance of the asset whose ID ends in its number.
pub interpret_special_prefix-IsSource :
    (b : Balances) (asset prefix : Str) (n v : ℤ)
    → IsMap (entries b)
    → get n (interpret_special_prefix b asset prefix) ≡ some v
    → IsSource (asset ++ (hyphen ∷ prefix)) (entries b) n v
unfolding interpret_special_prefix get
interpret_special_prefix-IsSource b asset prefix n v h e =
    elim (interpret_entries-IsSource (asset ++ (hyphen ∷ prefix)) (entries b) n v [] h e) [
      | inl before ↦ absurd (ground (arith, before))
      | inr source ↦ source
    ]

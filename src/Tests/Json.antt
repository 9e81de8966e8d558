-- ===== src/Tests/Json.antt =====
-- Runs of the theorem on balances as JSON, and a number with a fraction that is read without its point.
use dora_service_utils.Base.{◌≡◌, refl, true, List, [], ◌∷◌, ◌++◌, arith}
use dora_service_utils.Base.Int.{pos, negsuc}
use dora_service_utils.Base.Text.{Str, codes, str_beq, str_eq}
use dora_service_utils.Base.Dict.{get}
use dora_service_utils.Base.Result.{Result, ok}
use dora_service_utils.Ledger.AssetId.{valid_asset_id}
use dora_service_utils.Ledger.Balances.{Balances, of_map, amount_of, empty_balances}
use dora_service_utils.Ledger.Balances.Selection.{validate}
use dora_service_utils.Ledger.Balances.WellFormed.{IsWellFormed}
use dora_service_utils.Ledger.Balances.Json.{json_text, marshal_json, unmarshal_json}
use dora_service_utils.Ledger.Balances.Json.RoundTrip.{unmarshal_json-marshal_json}

abbrev usd : Str
usd = codes "USD"

abbrev bond : Str
bond = codes "Bond-A"

-- A debt, an amount and a zero.
abbrev owned : Balances
owned = of_map ((usd, negsuc 41) ∷ (bond, pos 1207) ∷ (codes "EUR", pos 0) ∷ [])

-- json.Unmarshal with no error.
abbrev accepts : Str → Result (Unit {0})
accepts text = ok tt

owned-IsWellFormed : IsWellFormed owned
unfolding get str_beq
owned-IsWellFormed = record {
  unique = (refl, (refl, (refl, tt)));
  in_range = λ k v e. ground arith;
}

owned-valid : validate owned true ≡ ok tt
unfolding validate valid_asset_id dora_service_utils.Ledger.Balances.Selection.validate_entries
    str_beq dora_service_utils.Base.Text.has_prefix dora_service_utils.Base.Text.ends_with
    dora_service_utils.Base.Text.count_byte dora_service_utils.Base.Text.split_byte
owned-valid = refl

unmarshal_json-marshal_json_example :
    (marshal_json owned ≡ ok (json_text owned))
    × ((unmarshal_json accepts empty_balances (json_text owned)).1 ≡ ok tt)
    × ((id : Str)
        → amount_of (unmarshal_json accepts empty_balances (json_text owned)).0 id
          ≡ amount_of owned id)
unmarshal_json-marshal_json_example =
    unmarshal_json-marshal_json owned owned-IsWellFormed owned-valid empty_balances accepts refl

owned_text : json_text owned ≡ codes "{\"Bond-A\":1207,\"USD\":-42}"
unfolding json_text dora_service_utils.Ledger.Balances.Json.contents
    dora_service_utils.Ledger.Balances.Json.pair_text
    dora_service_utils.Ledger.Balances.Json.string_map
    dora_service_utils.Ledger.Balances.Json.output_ids
    dora_service_utils.Ledger.Balances.Json.sort_ids
    dora_service_utils.Ledger.Balances.Json.insert_sorted
    dora_service_utils.Ledger.Balances.Json.display_amount str_beq get
    dora_service_utils.Base.Text.str_ltb dora_service_utils.Base.Dict.insert
    dora_service_utils.Base.FormatInt.format_int dora_service_utils.Base.FormatInt.digits
owned_text = refl

-- The point of a fraction is not kept, so 1.5 is read as 15.
fraction_read :
    unmarshal_json accepts empty_balances (codes "{\"USD\": 1.5}")
    ≡ (of_map ((usd, pos 15) ∷ []), ok tt)
unfolding unmarshal_json dora_service_utils.Ledger.Balances.Json.validated
    dora_service_utils.Ledger.Balances.Json.kept dora_service_utils.Ledger.Balances.Json.read_lines
    dora_service_utils.Ledger.Balances.Json.read_pieces str_beq get validate valid_asset_id
    dora_service_utils.Ledger.Balances.Selection.validate_entries
    dora_service_utils.Base.Text.has_prefix dora_service_utils.Base.Text.ends_with
    dora_service_utils.Base.Text.count_byte dora_service_utils.Base.Text.split_byte
    dora_service_utils.Base.Dict.insert dora_service_utils.Base.ParseInt.parse_int
    dora_service_utils.Base.ParseInt.parse_uint dora_service_utils.Base.ParseInt.parse_digits
fraction_read = refl

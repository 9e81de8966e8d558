-- ===== src/Ledger/Balances/Json.antt =====
-- ledger/types/balances_json.go: balances as the text of a JSON object, and back. json.Unmarshal into
-- a map of floats, of which only the error is used, is a parameter.
pub mod Listed
pub mod Lines
pub mod RoundTrip
use dora_service_utils.Base.{
  ℕ, Bool, true, false, ◌||◌, Option, none, some, List, [], ◌∷◌, ◌++◌, nat_beq, if◌then◌else◌,
}
use dora_service_utils.Base.Int.{ℤ, pos, beq_ℤ}
use dora_service_utils.Base.Text.{Str, str_beq, str_ltb, str_eq, split_byte}
use dora_service_utils.Base.Dict.{Dict, get, insert}
use dora_service_utils.Base.FormatInt.{format_int}
use dora_service_utils.Base.ParseInt.{parse_int}
use dora_service_utils.Base.Result.{Result, ok, err, plain, ◌>>=◌, ◌>>◌, fail_if}
use dora_service_utils.Ledger.AssetId.{valid_asset_id, is_id_byte}
use dora_service_utils.Ledger.Balances.{Balances, entries, of_map}
use dora_service_utils.Ledger.Balances.Selection.{validate}

unfoldable pub display_amount : ℤ → Str
display_amount amount = format_int amount

-- `amount == 0 || assetID == ""`
abbrev pub is_skipped : Str → ℤ → Bool
is_skipped asset_id amount = beq_ℤ amount (pos 0) || str_beq asset_id []

-- The slice assetIDs that the loop over the map makes.
unfoldable pub output_ids : Dict Str ℤ → List Str
output_ids [] = []
output_ids ((asset_id, amount) ∷ d) =
    let rest = output_ids d in if is_skipped asset_id amount then rest else asset_id ∷ rest

-- The map stringMap that the same loop fills.
unfoldable pub string_map : Dict Str Str → Dict Str ℤ → Dict Str Str
string_map m [] = m
string_map m ((asset_id, amount) ∷ d) =
    string_map (if is_skipped asset_id amount then m else insert asset_id (display_amount amount) m)
      d

unfoldable pub insert_sorted : Str → List Str → List Str
insert_sorted id [] = id ∷ []
insert_sorted id (j ∷ ids) =
    let rest = insert_sorted id ids in if str_ltb j id then j ∷ rest else id ∷ j ∷ ids

-- sort.Slice with `<` on the IDs, which differ from each other.
unfoldable pub sort_ids : List Str → List Str
unfolding insert_sorted
sort_ids [] = []
sort_ids (id ∷ ids) = insert_sorted id (sort_ids ids)

-- A read of a missing key gives the empty string.
abbrev pub text_of : Option Str → Str
text_of none = []
text_of (some s) = s

-- `fmt.Sprintf("\"%s\":%s", assetID, stringMap[assetID])`
unfoldable pub pair_text : Dict Str Str → Str → Str
pair_text m asset_id = b'"' ∷ asset_id ++ (b'"' ∷ b':' ∷ text_of (get asset_id m))

-- A comma after all elements but the last.
unfoldable pub contents : Dict Str Str → List Str → Str
contents m [] = []
contents m (id ∷ []) = pair_text m id
contents m (id ∷ j ∷ ids) = pair_text m id ++ (b',' ∷ contents m (j ∷ ids))

-- The text of balances that Validate accepts.
unfoldable pub json_text : Balances → Str
unfolding contents
json_text b =
    b'{' ∷ contents (string_map [] (entries b)) (sort_ids (output_ids (entries b))) ++ (b'}' ∷ [])

unfoldable pub marshal_json : Balances → Result Str
marshal_json b = validate b true >> ok (json_text b)

-- The bytes that the expression `[^A-Za-z0-9:,_-]` does not match.
abbrev pub is_kept : ℕ → Bool
is_kept c = is_id_byte c || nat_beq c b':' || nat_beq c b','

-- `re.ReplaceAllLiteralString(string(data), "")`
unfoldable pub kept : Str → Str
kept [] = []
kept (c ∷ s) = if is_kept c then c ∷ kept s else kept s

abbrev pub is_present : Option ℤ → Bool
is_present none = false
is_present (some v) = true

-- The pieces of a line around its colons.
unfoldable pub read_pieces : Dict Str ℤ → List Str → Result (Dict Str ℤ)
read_pieces d (asset_id ∷ amount_string ∷ []) = do
  valid_asset_id asset_id
  fail_if (is_present (get asset_id d)) plain
  amount ← parse_int amount_string
  ok (insert asset_id amount d)
read_pieces d _ = err plain

-- The loop over the lines, with the map as it is where the loop ends or returns.
unfoldable pub read_lines : Dict Str ℤ → List Str → Dict Str ℤ × Result (Unit {0})
unfolding read_pieces
read_lines d [] = (d, ok tt)
read_lines d (line ∷ lines) = elim (read_pieces d (split_byte b':' line)) [
  | ok d' ↦ read_lines d' lines
  | err e ↦ (d, err e)
]

-- `return b.Validate(true)` behind the loop.
unfoldable pub validated : Dict Str ℤ × Result (Unit {0}) → Balances × Result (Unit {0})
validated (d, ok u) = (of_map d, validate (of_map d) true)
validated (d, err e) = (of_map d, err e)

-- The map of the receiver is replaced first, also where an error follows.
unfoldable pub unmarshal_json :
    (Str → Result (Unit {0})) → Balances → Str → Balances × Result (Unit {0})
unfolding validated
unmarshal_json decode_floats b text = elim (decode_floats text) [
  | err e ↦ (of_map [], err e)
  | ok u ↦
      let s = kept text in
      validated (if str_beq s [] then ([], ok tt) else read_lines [] (split_byte b',' s))
]

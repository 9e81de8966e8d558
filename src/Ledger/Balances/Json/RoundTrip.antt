-- ===== src/Ledger/Balances/Json/RoundTrip.antt =====
-- ledger/types/balances_json.go: what UnmarshalJSON makes of a text of MarshalJSON.
use dora_service_utils.Base.{
  ◌≡◌, ◌≢◌, refl, ap, ◌∙◌, true, none, some, List, [], ◌∷◌, map, arith, if◌then◌else◌, Option-cases,
  inl, inr, append-nil,
}
use dora_service_utils.Base.Int.{ℤ, beq_ℤ_iff, pos}
use dora_service_utils.Base.Text.{
  Str, str_beq, str_beq_iff, str_eq, split_byte, contains_byte-all_bytes, split_byte-sep,
  split_byte-no_sep,
}
use dora_service_utils.Base.Dict.{Dict, get, insert, get-insert}
use dora_service_utils.Base.FormatInt.{
  format_int, is_int_byte, all_bytes-format_int, parse_int-format_int,
}
use dora_service_utils.Base.Result.{Result, ok}
use dora_service_utils.Ledger.AssetId.{valid_asset_id, is_id_byte}
use dora_service_utils.Ledger.AssetId.Laws.{valid_asset_id-PassesGuards}
use dora_service_utils.Ledger.Balances.{Balances, entries, amount_of, of_map}
use dora_service_utils.Ledger.Balances.Selection.{validate, validate_entries}
use dora_service_utils.Ledger.Balances.WellFormed.{IsWellFormed}
use dora_service_utils.Ledger.Balances.Views.{validate_entries-get}
use dora_service_utils.Ledger.Balances.Json.{
  display_amount, output_ids, string_map, sort_ids, contents, kept, validated, read_pieces,
  read_lines, json_text, marshal_json, unmarshal_json,
}
use dora_service_utils.Ledger.Balances.Json.Listed.{
  has_id, Distinct, has_id-sort_ids, written-Distinct, get-string_map,
}
use dora_service_utils.Ledger.Balances.Json.Lines.{
  IsWritten, AllWritten, plain_line, split-contents, kept-contents-nonempty, kept-append,
  all_bytes-valid,
}

first : (id : Str) (ids : List Str) → has_id id (id ∷ ids) ≡ true
unfolding has_id
first id ids = ground (arith, str_beq_iff id id)

later : (id j : Str) (ids : List Str) → has_id j ids ≡ true → has_id j (id ∷ ids) ≡ true
unfolding has_id
later id j ids h = ground arith

-- The entries of the listed assets, set one after the other.
filled : (Str → ℤ) → Dict Str ℤ → List Str → Dict Str ℤ
filled f acc [] = acc
filled f acc (id ∷ ids) = filled f (insert id (f id) acc) ids

get-filled :
    (f : Str → ℤ) (acc : Dict Str ℤ) (ids : List Str) (j : Str)
    → get j (filled f acc ids) ≡ (if has_id j ids then some (f j) else get j acc)
unfolding filled has_id
get-filled f acc [] j = refl
get-filled f acc (id ∷ ids) j =
    ground (
      arith,
      get-filled f (insert id (f id) acc) ids j,
      get-insert id j (f id) acc,
      str_beq_iff id j,
    )

read_lines_step :
    (line : Str) (lines : List Str) (acc acc' : Dict Str ℤ)
    → read_pieces acc (split_byte b':' line) ≡ ok acc'
    → read_lines acc (line ∷ lines) ≡ read_lines acc' lines
unfolding read_lines
read_lines_step line lines acc acc' e = rw (e, read_lines) refl

validate_entries-insert :
    (id : Str) (v : ℤ) (d : Dict Str ℤ)
    → valid_asset_id id ≡ ok tt
    → id ≢ []
    → validate_entries true d ≡ ok tt
    → validate_entries true (insert id v d) ≡ ok tt
unfolding validate_entries insert
validate_entries-insert id v [] valid ne h = ground (arith, str_beq_iff id [])
validate_entries-insert id v ((j, w) ∷ d) valid ne h =
    ground (arith, validate_entries-insert id v d valid ne, str_beq_iff id [], str_beq_iff j [])

module _ (m : Dict Str Str) (f : Str → ℤ) where
  pieces :
      (id : Str)
      → IsWritten m f id
      → split_byte b':' (plain_line f id) ≡ id ∷ format_int (f id) ∷ []
  pieces id w =
      split_byte-sep b':' id (format_int (f id))
        (contains_byte-all_bytes is_id_byte b':' id (all_bytes-valid id w.valid) refl)
      ∙ ap (λ l. id ∷ l)
          (split_byte-no_sep b':' (format_int (f id)) (
            contains_byte-all_bytes is_int_byte b':' (format_int (f id))
              (all_bytes-format_int (f id)) refl))

  read_pieces-plain_line :
      (acc : Dict Str ℤ) (id : Str)
      → IsWritten m f id
      → get id acc ≡ none
      → read_pieces acc (split_byte b':' (plain_line f id)) ≡ ok (insert id (f id) acc)
  unfolding read_pieces
  read_pieces-plain_line acc id w fresh =
      rw (pieces id w) (ground (arith, w.valid, fresh, parse_int-format_int (f id) w.in_range))

  read_lines-plain :
      (ids : List Str) (acc : Dict Str ℤ)
      → AllWritten m f ids
      → Distinct ids
      → ((j : Str) → has_id j ids ≡ true → get j acc ≡ none)
      → read_lines acc (map (plain_line f) ids) ≡ (filled f acc ids, ok tt)
  unfolding filled
  read_lines-plain [] acc w h fresh = unfold read_lines in refl
  read_lines-plain (id ∷ ids) acc w h fresh =
      read_lines_step (plain_line f id) (map (plain_line f) ids) acc _
        (read_pieces-plain_line acc id w.0 (fresh id (first id ids)))
      ∙ read_lines-plain ids (insert id (f id) acc) w.1 h.1 (λ j e.
        ground
          (arith, get-insert id j (f id) acc, fresh j (later id j ids e), h.0, str_beq_iff id j))

  -- What the loop makes of a text, the empty one included.
  read_contents :
      (ids : List Str)
      → AllWritten m f ids
      → Distinct ids
      → (if str_beq (kept (contents m ids)) []
          then ([], ok tt)
          else read_lines [] (split_byte b',' (kept (contents m ids))))
        ≡ (filled f [] ids, ok tt)
  read_contents [] w h = unfold kept contents str_beq filled in refl
  read_contents (id ∷ ids) w h = rw (kept-contents-nonempty m f id ids w) (
      rw (split-contents m f id ids w)
        (read_lines-plain (id ∷ ids) [] w h (λ j e. unfold get in refl)))

  validate_entries-filled :
      (ids : List Str) (acc : Dict Str ℤ)
      → AllWritten m f ids
      → validate_entries true acc ≡ ok tt
      → validate_entries true (filled f acc ids) ≡ ok tt
  unfolding filled
  validate_entries-filled [] acc w h = h
  validate_entries-filled (id ∷ ids) acc w h =
      let shape = valid_asset_id-PassesGuards id w.0.valid in
      validate_entries-filled ids (insert id (f id) acc) w.1
        (validate_entries-insert id (f id) acc w.0.valid shape.not_empty h)

  written_all :
      (ids : List Str) → ((id : Str) → has_id id ids ≡ true → IsWritten m f id) → AllWritten m f ids
  written_all [] h = tt
  written_all (id ∷ ids) h = (h id (first id ids), written_all ids (λ j e. h j (later id j ids e)))

module _ (b : Balances) (h : IsWellFormed b) (v : validate b true ≡ ok tt) where
  texts : Dict Str Str
  texts = string_map [] (entries b)

  ids : List Str
  ids = sort_ids (output_ids (entries b))

  listed-IsWritten : (id : Str) → has_id id ids ≡ true → IsWritten texts (amount_of b) id
  unfolding texts ids validate amount_of display_amount get
  listed-IsWritten id e = elim (Option-cases (get id (entries b))) [
    | inl missing ↦ ground (arith, e, has_id-sort_ids (entries b) id h.unique, missing)
    | inr (x, found) ↦
        (let (ne, valid, _) = validate_entries-get true (entries b) id x v found in
          let listed = has_id-sort_ids (entries b) id h.unique in
          record {
            valid = valid;
            in_range = rw found (h.in_range id x found);
            shown =
                rw (get-string_map [] (entries b) id h.unique) (ground (arith, e, listed, found));
          })
  ]

  unmarshal_step :
      (c : Balances) (decode_floats : Str → Result (Unit {0})) (text : Str)
      → decode_floats text ≡ ok tt
      → unmarshal_json decode_floats c text
        ≡ validated (
            if str_beq (kept text) []
            then ([], ok tt)
            else read_lines [] (split_byte b',' (kept text)))
  unfolding unmarshal_json validated
  unmarshal_step c decode_floats text e = rw (e, unmarshal_json) refl

  -- The braces are not kept.
  kept-json_text : kept (json_text b) ≡ kept (contents texts ids)
  unfolding json_text texts ids kept
  kept-json_text =
      kept-append (contents texts ids) (b'}' ∷ []) ∙ append-nil (kept (contents texts ids))

  validated_ok : (d : Dict Str ℤ) → validated (d, ok tt) ≡ (of_map d, validate (of_map d) true)
  unfolding validated
  validated_ok d = refl

  ids-Distinct : Distinct ids
  unfolding ids
  ids-Distinct = written-Distinct (entries b) h.unique

  marshal_ok : marshal_json b ≡ ok (json_text b)
  unfolding marshal_json
  marshal_ok = ground (arith, v)

  valid_result : validate (of_map (filled (amount_of b) [] ids)) true ≡ ok tt
  unfolding validate validate_entries
  valid_result =
      validate_entries-filled texts (amount_of b) ids []
        (written_all texts (amount_of b) ids listed-IsWritten) refl

  amount_kept : (id : Str) → amount_of (of_map (filled (amount_of b) [] ids)) id ≡ amount_of b id
  unfolding ids amount_of validate get
  amount_kept id = elim (Option-cases (get id (entries b))) [
    | inl missing ↦ ground (
      arith,
      get-filled (amount_of b) [] ids id,
      has_id-sort_ids (entries b) id h.unique,
      missing,
    )
    | inr (x, found) ↦ ground (
      arith,
      get-filled (amount_of b) [] ids id,
      has_id-sort_ids (entries b) id h.unique,
      found,
      (validate_entries-get true (entries b) id x v found).0,
      str_beq_iff id [],
      beq_ℤ_iff x (pos 0),
    )
  ]

  -- MarshalJSON of a well-formed set that Validate accepts with its negative amounts, and then
  -- UnmarshalJSON into any receiver, where json.Unmarshal takes the text for a map of floats: neither
  -- returns an error, and every asset ends with the amount that it had.
  pub unmarshal_json-marshal_json :
      (c : Balances) (decode_floats : Str → Result (Unit {0}))
      → decode_floats (json_text b) ≡ ok tt
      → (marshal_json b ≡ ok (json_text b))
        × ((unmarshal_json decode_floats c (json_text b)).1 ≡ ok tt)
        × ((id : Str)
            → amount_of (unmarshal_json decode_floats c (json_text b)).0 id ≡ amount_of b id)
  unmarshal_json-marshal_json c decode_floats d =
      let w = written_all texts (amount_of b) ids listed-IsWritten in
      let distinct = ids-Distinct in
      let read =
        unmarshal_step c decode_floats (json_text b) d
        ∙ ap
            (λ s.
              validated (if str_beq s [] then ([], ok tt) else read_lines [] (split_byte b',' s)))
            kept-json_text
        ∙ ap validated (read_contents texts (amount_of b) ids w distinct)
        ∙ validated_ok (filled (amount_of b) [] ids) in
      (marshal_ok, rw read valid_result, λ id. rw read (amount_kept id))

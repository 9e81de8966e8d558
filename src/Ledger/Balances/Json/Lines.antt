-- ===== src/Ledger/Balances/Json/Lines.antt =====
-- ledger/types/balances_json.go: the lines that UnmarshalJSON finds in a text of MarshalJSON.
use dora_service_utils.Base.{
  ℕ, ◌≡◌, refl, ap, ◌∙◌, Bool, true, false, ◌||◌, List, [], ◌∷◌, ◌++◌, map, arith,
}
use dora_service_utils.Base.Int.{ℤ}
use dora_service_utils.Base.Word.{InI64}
use dora_service_utils.Base.Text.{
  Str, str_beq, str_eq, split_byte, contains_byte, all_bytes, contains_byte-all_bytes,
  split_byte-sep, split_byte-no_sep,
}
use dora_service_utils.Base.Dict.{Dict, get}
use dora_service_utils.Base.FormatInt.{format_int, is_int_byte, all_bytes-format_int}
use dora_service_utils.Base.Result.{ok}
use dora_service_utils.Ledger.AssetId.{valid_asset_id, is_id_byte}
use dora_service_utils.Ledger.AssetId.Laws.{all_bytes-trimmed, valid_asset_id-PassesGuards}
use dora_service_utils.Ledger.Balances.Json.{text_of, pair_text, contents, is_kept, kept}

pub all_bytes-valid : (id : Str) → valid_asset_id id ≡ ok tt → all_bytes is_id_byte id ≡ true
all_bytes-valid id h =
    let shape = valid_asset_id-PassesGuards id h in all_bytes-trimmed id shape.clean

pub kept-append : (s t : Str) → kept (s ++ t) ≡ kept s ++ kept t
unfolding kept
kept-append [] t = refl
kept-append (c ∷ s) t = ground (arith, kept-append s t)

kept_comma : (s : Str) → kept (b',' ∷ s) ≡ b',' ∷ kept s
unfolding kept
kept_comma s = refl

kept_all :
    (p : ℕ → Bool) (s : Str)
    → ((c : ℕ) → p c ≡ true → is_kept c ≡ true)
    → all_bytes p s ≡ true
    → kept s ≡ s
unfolding kept all_bytes
kept_all p [] h a = refl
kept_all p (c ∷ s) h a = ground (arith, kept_all p s h, h c)

kept_id : (id : Str) → valid_asset_id id ≡ ok tt → kept id ≡ id
kept_id id h = kept_all is_id_byte id (λ c e. ground arith) (all_bytes-valid id h)

kept_int : (z : ℤ) → kept (format_int z) ≡ format_int z
kept_int z = kept_all is_int_byte (format_int z) (λ c e. ground arith) (all_bytes-format_int z)

contains_byte-append :
    (c : ℕ) (s t : Str) → contains_byte c (s ++ t) ≡ contains_byte c s || contains_byte c t
unfolding contains_byte
contains_byte-append c [] t = refl
contains_byte-append c (x ∷ s) t = ground (arith, contains_byte-append c s t)

-- The line of an asset, without quotes.
abbrev pub plain_line : (Str → ℤ) → Str → Str
plain_line f id = id ++ (b':' ∷ format_int (f id))

module _ (m : Dict Str Str) (f : Str → ℤ) where
  -- An asset that is written with the text of its amount.
  pub record IsWritten (id : Str) : Type 0 where
    pub valid : valid_asset_id id ≡ ok tt
    pub in_range : InI64 (f id)
    pub shown : text_of (get id m) ≡ format_int (f id)

  abbrev pub AllWritten : List Str → Type 0
  AllWritten [] = Unit
  AllWritten (id ∷ ids) = IsWritten id × AllWritten ids

  plain_lines : List Str → Str
  plain_lines [] = []
  plain_lines (id ∷ []) = plain_line f id
  plain_lines (id ∷ j ∷ ids) = plain_line f id ++ (b',' ∷ plain_lines (j ∷ ids))

  kept_pair : (id : Str) → IsWritten id → kept (pair_text m id) ≡ plain_line f id
  unfolding pair_text kept
  kept_pair id w = rw (w.shown, kept-append, kept_id id w.valid) (rw kept_int refl)

  kept-contents : (ids : List Str) → AllWritten ids → kept (contents m ids) ≡ plain_lines ids
  unfolding contents plain_lines
  kept-contents [] w = unfold kept in refl
  kept-contents (id ∷ []) w = kept_pair id w.0
  kept-contents (id ∷ j ∷ ids) w =
      kept-append (pair_text m id) (b',' ∷ contents m (j ∷ ids))
      ∙ rw (kept_pair id w.0) (rw (kept_comma, kept-contents (j ∷ ids) w.1) refl)

  no_comma : (id : Str) → IsWritten id → contains_byte b',' (plain_line f id) ≡ false
  unfolding contains_byte
  no_comma id w = ground (
    arith,
    contains_byte-append b',' id (b':' ∷ format_int (f id)),
    contains_byte-all_bytes is_id_byte b',' id (all_bytes-valid id w.valid) refl,
    contains_byte-all_bytes is_int_byte b',' (format_int (f id)) (all_bytes-format_int (f id)) refl,
  )

  split-plain :
      (id : Str) (ids : List Str)
      → AllWritten (id ∷ ids)
      → split_byte b',' (plain_lines (id ∷ ids)) ≡ map (plain_line f) (id ∷ ids)
  unfolding plain_lines
  split-plain id [] w = split_byte-no_sep b',' (plain_line f id) (no_comma id w.0)
  split-plain id (j ∷ ids) w =
      split_byte-sep b',' (plain_line f id) (plain_lines (j ∷ ids)) (no_comma id w.0)
      ∙ ap (λ l. plain_line f id ∷ l) (split-plain j ids w.1)

  -- The lines of what is left of the text are those of the assets.
  pub split-contents :
      (id : Str) (ids : List Str)
      → AllWritten (id ∷ ids)
      → split_byte b',' (kept (contents m (id ∷ ids))) ≡ map (plain_line f) (id ∷ ids)
  split-contents id ids w = rw (kept-contents (id ∷ ids) w) (split-plain id ids w)

  -- A text with an asset in it is not empty.
  pub kept-contents-nonempty :
      (id : Str) (ids : List Str)
      → AllWritten (id ∷ ids)
      → str_beq (kept (contents m (id ∷ ids))) [] ≡ false
  unfolding plain_lines str_beq
  kept-contents-nonempty [] [] w = rw (kept-contents ([] ∷ []) w) refl
  kept-contents-nonempty [] (j ∷ ids) w = rw (kept-contents ([] ∷ j ∷ ids) w) refl
  kept-contents-nonempty (x ∷ id) [] w = rw (kept-contents ((x ∷ id) ∷ []) w) refl
  kept-contents-nonempty (x ∷ id) (j ∷ ids) w = rw (kept-contents ((x ∷ id) ∷ j ∷ ids) w) refl

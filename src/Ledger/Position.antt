-- ===== src/Ledger/Position.antt =====
-- ledger/types/position.go: the snapshot of a user's assets and debts. A *Balances may be nil before
-- Init, so a position is read with `Option Balances` until then and with `Balances` after. Methods
-- that write return the position that they leave. JSON is a parameter.
pub mod Sequence
pub mod Validity
use dora_service_utils.Base.{
  ℕ, ◌+◌, ◌%◌, Bool, true, false, not, ◌&&◌, ◌||◌, Option, none, some, List, [], ◌∷◌, if◌then◌else◌,
}
use dora_service_utils.Base.Int.{ℤ, pos}
use dora_service_utils.Base.Word.{u64_mod}
use dora_service_utils.Base.Text.{Str, str_beq}
use dora_service_utils.Base.Result.{
  Result, ok, err, Error, typed, invalid_data, invalid_input, internal, wrap_typed, is_ok, ◌>>=◌,
  ◌>>◌, fail_if,
}
use dora_service_utils.Ledger.AssetId.{valid_asset_id}
use dora_service_utils.Ledger.Balances.{Balances, empty_balances}
use dora_service_utils.Ledger.Balances.Selection

-- The exported fields, those that JSON reads and writes.
pub record Exported (B : Type 0) : Type 0 where
  pub user_id : Str
  pub owned : B
  pub locked : B
  pub supplied : B
  pub sseq : B
  pub inactive : B
  pub interest_sources : B
  pub native_asset : Str
  pub last_updated : ℤ
  pub sequence : ℕ

pub record Position (B : Type 0) : Type 0 where
  pub exported : Exported B
  pub original : Str
  pub original_sequence : ℕ

-- github.com/goccy/go-json: Marshal on a pointer to a position, and Unmarshal, which overwrites the
-- exported fields that it finds and leaves what it has written also where it fails.
pub record Json : Type 0 where
  pub marshal : Exported Balances → Result Str
  pub unmarshal : Str → Exported (Option Balances) → Exported (Option Balances) × Result (Unit {0})

-- The composite literals `Position{}` and `&Position{UserID: userID}`.
abbrev pub no_fields : Str → Exported (Option Balances)
no_fields user_id = record {
  user_id = user_id;
  owned = none;
  locked = none;
  supplied = none;
  sseq = none;
  inactive = none;
  interest_sources = none;
  native_asset = [];
  last_updated = pos 0;
  sequence = 0;
}

abbrev pub or_empty : Option Balances → Balances
or_empty none = empty_balances
or_empty (some b) = b

-- Init's replacement of nil balances.
unfoldable pub filled : Exported (Option Balances) → Exported Balances
filled p = record {
  user_id = p.user_id;
  owned = or_empty p.owned;
  locked = or_empty p.locked;
  supplied = or_empty p.supplied;
  sseq = or_empty p.sseq;
  inactive = or_empty p.inactive;
  interest_sources = or_empty p.interest_sources;
  native_asset = p.native_asset;
  last_updated = p.last_updated;
  sequence = p.sequence;
}

-- Fields with no nil balances, seen as fields that may have some.
unfoldable pub present : Exported Balances → Exported (Option Balances)
present p = record {
  user_id = p.user_id;
  owned = some p.owned;
  locked = some p.locked;
  supplied = some p.supplied;
  sseq = some p.sseq;
  inactive = some p.inactive;
  interest_sources = some p.interest_sources;
  native_asset = p.native_asset;
  last_updated = p.last_updated;
  sequence = p.sequence;
}

unfoldable pub raw : Position Balances → Position (Option Balances)
unfolding present
raw p = record {
  exported = present p.exported;
  original = p.original;
  original_sequence = p.original_sequence;
}

-- One clause of Validate: nil was refused before.
unfoldable pub valid_field : Option Balances → Bool → Result (Unit {0})
valid_field none allow_negative = err (typed invalid_data)
valid_field (some b) allow_negative = wrap_typed invalid_input (Selection.validate b allow_negative)

abbrev pub is_missing : Option Balances → Bool
is_missing none = true
is_missing (some b) = false

unfoldable pub validate : Position (Option Balances) → Result (Unit {0})
unfolding valid_field
validate p = do
  let e = p.exported
  fail_if (str_beq e.user_id []) (typed invalid_data)
  fail_if
      (is_missing e.owned
        || is_missing e.locked
        || is_missing e.supplied
        || is_missing e.sseq
        || is_missing e.inactive
        || is_missing e.interest_sources)
      (typed invalid_data)
  valid_field e.owned true
  valid_field e.locked false
  valid_field e.supplied false
  valid_field e.sseq true
  valid_field e.interest_sources true
  valid_field e.inactive true
  if str_beq e.native_asset [] then ok tt else valid_asset_id e.native_asset
  fail_if (str_beq p.original []) (typed internal)

-- NextSequence
unfoldable pub next_sequence : Position Balances → ℕ
next_sequence p = (p.original_sequence + 1) % u64_mod

module _ (json : Json) where
  open json use {marshal, unmarshal}

  -- The last step of Init.
  track : Position Balances → Result Str → Position Balances
  track p (ok j) = record p { original = j; original_sequence = p.exported.sequence }
  track p (err e) = p

  unfoldable pub init : Position (Option Balances) → Position Balances
  unfolding filled track
  init p =
      let q : Position Balances = record {
        exported = filled p.exported;
        original = p.original;
        original_sequence = p.original_sequence;
      } in
      if str_beq q.original [] then track q (marshal q.exported) else q

  unfoldable pub unmarshal_binary :
      Position (Option Balances) → Str → Position Balances × Result (Unit {0})
  unfolding init
  unmarshal_binary p bytes =
      let (exported, result) = unmarshal bytes p.exported in
      (init (record p { exported = exported }), result)

  unfoldable pub initial_position : Str → Position Balances
  unfolding init
  initial_position user_id =
      init (record { exported = no_fields user_id; original = []; original_sequence = 0 })

  unfoldable pub new_position : Exported (Option Balances) → Position Balances × Result (Unit {0})
  unfolding init validate raw
  new_position fields =
      let p = init (record { exported = fields; original = []; original_sequence = 0 }) in
      (p, validate (raw p))

  -- `j, _ := json.Marshal(p)`
  unfoldable pub json_string : Position Balances → Str
  json_string p = elim (marshal p.exported) [ ok j ↦ j | err e ↦ [] ]

  unfoldable pub is_modified : Position Balances → Bool
  unfolding json_string
  is_modified p = not (str_beq p.original (json_string p))

  unfoldable pub update_sequence : Position Balances → Position Balances
  unfolding is_modified next_sequence
  update_sequence p =
      if is_modified p
      then record p { exported = record p.exported { sequence = next_sequence p } }
      else p

  -- String: it leaves the position with its sequence updated.
  unfoldable pub string : Position Balances → Position Balances × Str
  unfolding update_sequence json_string
  string p = let q = update_sequence p in (q, json_string q)

  unfoldable pub copy : Position Balances → Position (Option Balances)
  unfolding json_string
  copy p = record {
    exported = (unmarshal (json_string p) (no_fields [])).0;
    original = p.original;
    original_sequence = p.original_sequence;
  }

  unfoldable pub snapshot : Position Balances → Position Balances
  unfolding json_string init
  snapshot p = init (record {
    exported = (unmarshal (json_string p) (no_fields [])).0;
    original = [];
    original_sequence = 0;
  })

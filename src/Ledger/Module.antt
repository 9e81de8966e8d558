-- ===== src/Ledger/Module.antt =====
-- ledger/types/module.go: the snapshot of the totals of the module. A *Balances may be nil before
-- Init, so a module is read with `Option Balances` until then and with `Balances` after. Methods that
-- write return the module that they leave, and none is a panic. JSON is a parameter.
pub mod Validity
pub mod Lifecycle
use dora_service_utils.Base.{
  ℕ, ◌+◌, ◌%◌, Bool, true, false, not, ◌||◌, Option, none, some, List, [], ◌∷◌, if◌then◌else◌,
}
use dora_service_utils.Base.Int.{ℤ, pos, negsuc, ltb_ℤ, beq_ℤ}
use dora_service_utils.Base.Word.{u64_mod}
use dora_service_utils.Base.Text.{Str, str_beq}
use dora_service_utils.Base.Dict.{Dict}
use dora_service_utils.Base.Result.{
  Result, ok, err, typed, invalid_data, invalid_input, internal, wrap_typed, ◌>>=◌, ◌>>◌, fail_if,
}
use dora_service_utils.Ledger.Balances.{Balances, entries, empty_balances}
use dora_service_utils.Ledger.Balances.Selection

-- The exported fields, those that JSON reads and writes.
pub record Exported (B : Type 0) : Type 0 where
  pub balance : B
  pub supplied : B
  pub virtual : B
  pub borrowed : B
  pub coupon_funds : B
  pub dollar_coupon_fund_sources : B
  pub total_supply_snapshots : B
  pub last_updated : ℤ
  pub sequence : ℕ

pub record Module (B : Type 0) : Type 0 where
  pub exported : Exported B
  pub original : Str
  pub original_sequence : ℕ

-- github.com/goccy/go-json: Marshal on a pointer to a module, and Unmarshal, which overwrites the
-- exported fields that it finds and leaves what it has written also where it fails.
pub record Json : Type 0 where
  pub marshal : Exported Balances → Result Str
  pub unmarshal : Str → Exported (Option Balances) → Exported (Option Balances) × Result (Unit {0})

-- The composite literal `Module{}`.
abbrev pub no_fields : Exported (Option Balances)
no_fields = record {
  balance = none;
  supplied = none;
  virtual = none;
  borrowed = none;
  coupon_funds = none;
  dollar_coupon_fund_sources = none;
  total_supply_snapshots = none;
  last_updated = pos 0;
  sequence = 0;
}

abbrev pub or_empty : Option Balances → Balances
or_empty none = empty_balances
or_empty (some b) = b

-- Init's replacement of nil balances.
unfoldable pub filled : Exported (Option Balances) → Exported Balances
filled m = record {
  balance = or_empty m.balance;
  supplied = or_empty m.supplied;
  virtual = or_empty m.virtual;
  borrowed = or_empty m.borrowed;
  coupon_funds = or_empty m.coupon_funds;
  dollar_coupon_fund_sources = or_empty m.dollar_coupon_fund_sources;
  total_supply_snapshots = or_empty m.total_supply_snapshots;
  last_updated = m.last_updated;
  sequence = m.sequence;
}

-- Fields with no nil balances, seen as fields that may have some.
unfoldable pub present : Exported Balances → Exported (Option Balances)
present m = record {
  balance = some m.balance;
  supplied = some m.supplied;
  virtual = some m.virtual;
  borrowed = some m.borrowed;
  coupon_funds = some m.coupon_funds;
  dollar_coupon_fund_sources = some m.dollar_coupon_fund_sources;
  total_supply_snapshots = some m.total_supply_snapshots;
  last_updated = m.last_updated;
  sequence = m.sequence;
}

unfoldable pub raw : Module Balances → Module (Option Balances)
unfolding present
raw m = record {
  exported = present m.exported;
  original = m.original;
  original_sequence = m.original_sequence;
}

-- `b.Validate(allowNegative)` and its wrapped error; a nil pointer panics.
unfoldable pub valid_field : Option Balances → Bool → Option (Result (Unit {0}))
valid_field none allow_negative = none
valid_field (some b) allow_negative =
    some (wrap_typed invalid_input (Selection.validate b allow_negative))

-- `if err := ...; err != nil { return err }`, then the rest.
infixr 5 ◌then◌
abbrev pub ◌then◌ :
    Option (Result (Unit {0})) → Option (Result (Unit {0})) → Option (Result (Unit {0}))
none then rest = none
some (ok u) then rest = rest
some (err e) then rest = some (err e)

-- `amt < -1 || amt == 0`
abbrev pub bad_snapshot : ℤ → Bool
bad_snapshot amt = ltb_ℤ amt (negsuc 0) || beq_ℤ amt (pos 0)

unfoldable pub valid_snapshots : Dict Str ℤ → Result (Unit {0})
valid_snapshots [] = ok tt
valid_snapshots ((id, amt) ∷ bals) = do
  fail_if (bad_snapshot amt) (typed invalid_data)
  valid_snapshots bals

-- `m.TotalSupplySnapshots.Bals`
unfoldable pub snapshot_entries : Option Balances → Option (Dict Str ℤ)
snapshot_entries none = none
snapshot_entries (some b) = some (entries b)

abbrev is_missing : Option Balances → Bool
is_missing none = true
is_missing (some b) = false

-- The nil check of Validate, which leaves out TotalSupplySnapshots.
unfoldable pub has_nil : Exported (Option Balances) → Bool
has_nil e =
    is_missing e.balance
    || is_missing e.supplied
    || is_missing e.borrowed
    || is_missing e.virtual
    || is_missing e.coupon_funds
    || is_missing e.dollar_coupon_fund_sources

valid_snapshots_of : Option (Dict Str ℤ) → Option (Result (Unit {0}))
unfolding valid_snapshots
valid_snapshots_of none = none
valid_snapshots_of (some d) = some (valid_snapshots d)

unfoldable pub validate : Module (Option Balances) → Option (Result (Unit {0}))
unfolding valid_field snapshot_entries has_nil valid_snapshots_of
validate m =
    let e = m.exported in
    some (fail_if (has_nil e) (typed invalid_data))
    then valid_field e.balance false
    then valid_field e.supplied false
    then valid_field e.virtual false
    then valid_field e.borrowed false
    then valid_field e.coupon_funds false
    then valid_field e.dollar_coupon_fund_sources false
    then valid_field e.total_supply_snapshots true
    then valid_snapshots_of (snapshot_entries e.total_supply_snapshots)
    then some (fail_if (str_beq m.original []) (typed internal))

-- NextSequence
unfoldable pub next_sequence : Module Balances → ℕ
next_sequence m = (m.original_sequence + 1) % u64_mod

module _ (json : Json) where
  open json use {marshal, unmarshal}

  -- The last step of Init.
  track : Module Balances → Result Str → Module Balances
  track m (ok j) = record m { original = j; original_sequence = m.exported.sequence }
  track m (err e) = m

  unfoldable pub init : Module (Option Balances) → Module Balances
  unfolding filled track
  init m =
      let n : Module Balances = record {
        exported = filled m.exported;
        original = m.original;
        original_sequence = m.original_sequence;
      } in
      if str_beq n.original [] then track n (marshal n.exported) else n

  unfoldable pub unmarshal_binary :
      Module (Option Balances) → Str → Module Balances × Result (Unit {0})
  unfolding init
  unmarshal_binary m bytes =
      let (exported, result) = unmarshal bytes m.exported in
      (init (record m { exported = exported }), result)

  unfoldable pub initial_module : Module Balances
  unfolding init
  initial_module = init (record { exported = no_fields; original = []; original_sequence = 0 })

  -- No parameter is stored in TotalSupplySnapshots.
  unfoldable pub new_module :
      (balance supplied borrowed virtual coupon sources : Option Balances)
      → ℤ
      → ℕ
      → Module Balances × Option (Result (Unit {0}))
  unfolding init validate raw
  new_module balance supplied borrowed virtual coupon sources last_updated sequence =
      let m = init (record {
        exported = record {
          balance = balance;
          supplied = supplied;
          virtual = virtual;
          borrowed = borrowed;
          coupon_funds = coupon;
          dollar_coupon_fund_sources = sources;
          total_supply_snapshots = none;
          last_updated = last_updated;
          sequence = sequence;
        };
        original = [];
        original_sequence = 0;
      }) in
      (m, validate (raw m))

  -- `j, _ := json.Marshal(m)`
  unfoldable pub json_string : Module Balances → Str
  json_string m = elim (marshal m.exported) [ ok j ↦ j | err e ↦ [] ]

  unfoldable pub is_modified : Module Balances → Bool
  unfolding json_string
  is_modified m = not (str_beq m.original (json_string m))

  unfoldable pub copy : Module Balances → Module (Option Balances)
  unfolding json_string
  copy m = record {
    exported = (unmarshal (json_string m) no_fields).0;
    original = m.original;
    original_sequence = m.original_sequence;
  }

  unfoldable pub snapshot : Module Balances → Module Balances
  unfolding json_string init
  snapshot m = init (record {
    exported = (unmarshal (json_string m) no_fields).0;
    original = [];
    original_sequence = 0;
  })

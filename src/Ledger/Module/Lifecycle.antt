-- ===== src/Ledger/Module/Lifecycle.antt =====
-- Init, NewModule, UnmarshalBinary, Copy and Snapshot of ledger/types/module.go.
use dora_service_utils.Base.{ℕ, ◌+◌, ◌%◌, ◌≡◌, ◌≢◌, Option, none, some, [], false, arith}
use dora_service_utils.Base.Int.{ℤ}
use dora_service_utils.Base.Text.{Str, str_beq_iff}
use dora_service_utils.Base.Word.{u64_mod}
use dora_service_utils.Base.Result.{ok}
use dora_service_utils.Ledger.Balances.{Balances, empty_balances}
use dora_service_utils.Ledger.Module.{
  Module, Json, no_fields, or_empty, filled, present, raw, next_sequence, init, json_string,
  is_modified, new_module, copy, snapshot, track, validate,
}
use dora_service_utils.Ledger.Module.Validity.{IsValid, validate_iff, validate-panics_iff}

module _ (json : Json) where
  open json use {marshal, unmarshal}

  -- NewModule that returns no error, nil balances included: each argument stands in the field of its
  -- name, nil ones replaced by empty balances, the total supply snapshots are empty, the module is
  -- valid and not modified, and its next sequence number is the one after the given one.
  pub new_module-IsValid :
      (balance supplied borrowed virtual coupon sources : Option Balances) (last_updated : ℤ)
      (sequence : ℕ) (m : Module Balances)
      → new_module json balance supplied borrowed virtual coupon sources last_updated sequence
        ≡ (m, some (ok tt))
      → IsValid (raw m)
        × (m.exported ≡ record {
          balance = or_empty balance;
          supplied = or_empty supplied;
          virtual = or_empty virtual;
          borrowed = or_empty borrowed;
          coupon_funds = or_empty coupon;
          dollar_coupon_fund_sources = or_empty sources;
          total_supply_snapshots = empty_balances;
          last_updated = last_updated;
          sequence = sequence;
        })
        × (is_modified json m ≡ false)
        × (next_sequence m ≡ (sequence + 1) % u64_mod)
  unfolding new_module init raw filled present track is_modified json_string next_sequence
  new_module-IsValid b s bo v c so lu sq m e =
      let valid : validate (raw m) ≡ some (ok tt) = ground arith in
      (
        (validate_iff (raw m)).0 valid,
        ground arith,
        ground (
          arith,
          str_beq_iff m.original [],
          str_beq_iff m.original m.original,
          str_beq_iff [] [],
        ),
        ground (arith, str_beq_iff [] []),
      )

  -- NewModule does not panic, whatever it is given.
  pub new_module_returns :
      (balance supplied borrowed virtual coupon sources : Option Balances) (last_updated : ℤ)
      (sequence : ℕ)
      → ¬ (
          (new_module json balance supplied borrowed virtual coupon sources last_updated sequence).1
          ≡ none)
  unfolding new_module init filled raw present track
  new_module_returns b s bo v c so lu sq h =
      absurd (ground (arith, validate-panics_iff (raw (new_module json b s bo v c so lu sq).0)))

  -- Where JSON reads back the exported fields that it wrote: Copy keeps every field of a module with
  -- the tracked ones, and a Snapshot of a module that marshals to a text that is not empty keeps the
  -- exported fields, is not modified, and has the sequence after the present one as its next.
  pub module_copy-snapshot :
      (m : Module Balances) (j : Str)
      → marshal m.exported ≡ ok j
      → j ≢ []
      → unmarshal j no_fields ≡ (present m.exported, ok tt)
      → (copy json m ≡ raw m)
        × ((snapshot json m).exported ≡ m.exported)
        × (is_modified json (snapshot json m) ≡ false)
        × (next_sequence (snapshot json m) ≡ (m.exported.sequence + 1) % u64_mod)
  unfolding copy snapshot raw json_string init is_modified next_sequence filled present track
  module_copy-snapshot m j e ne u =
      ground (arith, str_beq_iff j j, str_beq_iff j [], str_beq_iff [] [])

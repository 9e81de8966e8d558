-- ===== src/Tests/Module.antt =====
-- Runs of the theorems on the totals of the module.
use dora_service_utils.Base.{ℕ, ◌+◌, ◌%◌, ◌≡◌, ◌↔◌, refl, false, Option, none, some, [], ◌∷◌}
use dora_service_utils.Base.Int.{pos, negsuc}
use dora_service_utils.Base.Text.{Str, codes}
use dora_service_utils.Base.Result.{ok}
use dora_service_utils.Ledger.Balances.{Balances, of_map, empty_balances}
use dora_service_utils.Ledger.Module.{
  Exported, Module, Json, raw, validate, is_modified, new_module, next_sequence,
}
use dora_service_utils.Ledger.Module.Validity.{
  IsValid, PassesSix, validate_iff, validate-panics_iff,
}
use dora_service_utils.Ledger.Module.Lifecycle.{new_module-IsValid}

abbrev held : Balances
held = of_map ((codes "USD", pos 5) ∷ [])

abbrev fields : Exported Balances
fields = record {
  balance = held;
  supplied = held;
  virtual = empty_balances;
  borrowed = empty_balances;
  coupon_funds = empty_balances;
  dollar_coupon_fund_sources = empty_balances;
  total_supply_snapshots = of_map ((codes "BOND-123456", negsuc 0) ∷ []);
  last_updated = pos 0;
  sequence = 3;
}

abbrev module_ : Module (Option Balances)
module_ = raw (record { exported = fields; original = codes "x"; original_sequence = 3 })

validate_iff_example : (validate module_ ≡ some (ok tt)) ↔ IsValid module_
validate_iff_example = validate_iff module_

-- The same module, with nil snapshots.
abbrev without_snapshots : Module (Option Balances)
without_snapshots = record module_ {
  exported = record module_.exported { total_supply_snapshots = none };
}

validate-panics_iff_example : (validate without_snapshots ≡ none) ↔ (
    PassesSix without_snapshots.exported
    × (without_snapshots.exported.total_supply_snapshots ≡ none))
validate-panics_iff_example = validate-panics_iff without_snapshots

-- Every module is written as the same text.
abbrev one_text : Json
one_text = record { marshal = λ e. ok (codes "x"); unmarshal = λ s e. (e, ok tt) }

abbrev made : Module Balances
made = record {
  exported = record fields { total_supply_snapshots = empty_balances };
  original = codes "x";
  original_sequence = 3;
}

new_module-IsValid_example :
    IsValid (raw made)
    × (made.exported ≡ record fields { total_supply_snapshots = empty_balances })
    × (is_modified one_text made ≡ false)
    × (next_sequence made ≡ 4)
unfolding new_module dora_service_utils.Base.Text.str_beq
    dora_service_utils.Ledger.Balances.Selection.validate
    dora_service_utils.Ledger.Balances.Selection.validate_entries
    dora_service_utils.Ledger.AssetId.valid_asset_id dora_service_utils.Base.Text.has_prefix
    dora_service_utils.Base.Text.ends_with dora_service_utils.Base.Text.count_byte
    dora_service_utils.Base.Text.split_byte
new_module-IsValid_example =
    new_module-IsValid one_text (some held) (some held) none none none none (pos 0) 3 made refl

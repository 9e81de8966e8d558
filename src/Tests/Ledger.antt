-- ===== src/Tests/Ledger.antt =====
-- Runs of the theorems on amounts, balances and asset IDs.
use dora_service_utils.Base.{
  ◌↔◌, ◌+◌, ◌-◌, ◌*◌, ◌≤◌, ◌<◌, ◌≡◌, ◌≢◌, refl, Bool, true, false, not, ◌&&◌, ◌||◌, List, [], ◌∷◌,
  arith, if◌then◌else◌, some, none, ltb,
}
use dora_service_utils.Base.Int.{pos, ◌≤ℤ◌, ◌-ℤ◌, ◌+ℤ◌}
use dora_service_utils.Base.Word.{wrap64}
use dora_service_utils.Base.Text.{Str, codes, str_beq, str_eq, hyphen, contains_byte}
use dora_service_utils.Base.Dict.{get}
use dora_service_utils.Base.Result.{ok}
use dora_service_utils.Ledger.Amount.{Amount}
use dora_service_utils.Ledger.AssetId.{valid_asset_id}
use dora_service_utils.Ledger.AssetId.Shape.{IsAssetId, valid_asset_id_iff}
use dora_service_utils.Ledger.Balance.{Balance}
use dora_service_utils.Ledger.Balances.{Balances, of_map, amount_of, add_amount, entries}
use dora_service_utils.Ledger.Balances.Selection.{validate}
use dora_service_utils.Ledger.Balances.Calculus.{
  add_bals, sub_bals, sub_to_zero, safe_sub, sub_bal_to_zero, sub_amount, has_negative,
}
use dora_service_utils.Ledger.Balances.WellFormed.{IsWellFormed}
use dora_service_utils.Ledger.Balances.Arithmetic.{sub_bals-add_bals}
use dora_service_utils.Ledger.Balances.SafeSub.{safe_sub_exact}
use dora_service_utils.Ledger.Balances.ToZero.{taken_from}
use dora_service_utils.Ledger.Balances.Settlement.{due}
use dora_service_utils.Ledger.Balances.Views.{sub_to_zero_settles}

abbrev pub usd : Str
usd = codes "USD"

abbrev pub eur : Str
eur = codes "EUR"

abbrev pub held : Balances
held = of_map ((usd, pos 5) ∷ (eur, pos 7) ∷ [])

abbrev asked : Balances
asked = of_map ((usd, pos 8) ∷ [])

pub held-IsWellFormed : IsWellFormed held
unfolding get str_beq
held-IsWellFormed = record { unique = (refl, (refl, tt)); in_range = λ k v e. ground arith }

asked-IsWellFormed : IsWellFormed asked
unfolding get str_beq
asked-IsWellFormed = record { unique = (refl, tt); in_range = λ k v e. ground arith }

asked-valid : validate asked false ≡ ok tt
unfolding validate valid_asset_id dora_service_utils.Ledger.Balances.Selection.validate_entries
    str_beq dora_service_utils.Base.Text.has_prefix dora_service_utils.Base.Text.ends_with
    dora_service_utils.Base.Text.count_byte dora_service_utils.Base.Text.split_byte
asked-valid = refl

sub_to_zero_settles_example :
    IsWellFormed (sub_to_zero held asked).0
    × IsWellFormed (sub_to_zero held asked).1
    × ((j : Str)
        → (amount_of (sub_to_zero held asked).0 j
            ≡ amount_of held j -ℤ pos (taken_from (amount_of held j) (due asked j)))
          × (amount_of (sub_to_zero held asked).1 j
              ≡ pos (due asked j - taken_from (amount_of held j) (due asked j))))
sub_to_zero_settles_example =
    sub_to_zero_settles held asked held-IsWellFormed asked-IsWellFormed asked-valid

sub_bals-add_bals_example :
    IsWellFormed (add_bals held asked)
    × ((j : Str)
        → amount_of (add_bals held asked) j ≡ wrap64 (amount_of held j +ℤ amount_of asked j))
    × ((j : Str) → amount_of (add_bals held asked) j ≡ amount_of (add_bals asked held) j)
    × ((j : Str) → amount_of (sub_bals (add_bals held asked) asked) j ≡ amount_of held j)
sub_bals-add_bals_example = sub_bals-add_bals held asked held-IsWellFormed asked-IsWellFormed

safe_sub_exact_example :
    IsWellFormed (sub_amount held usd (pos 2))
    × (amount_of (sub_amount held usd (pos 2)) usd ≡ amount_of held usd -ℤ pos 2)
    × (pos 0 ≤ℤ amount_of (sub_amount held usd (pos 2)) usd)
    × (amount_of (sub_amount held usd (pos 2)) eur ≡ amount_of held eur)
unfolding safe_sub dora_service_utils.Ledger.Balances.Calculus.has_at_least get str_beq
safe_sub_exact_example =
    safe_sub_exact held (sub_amount held usd (pos 2)) usd eur (pos 2) held-IsWellFormed
      (ground arith) (ground arith) (ground arith) refl

abbrev claim : Balance
claim = record { asset = usd; amount = 8 }

valid_asset_id_iff_example : (valid_asset_id usd ≡ ok tt) ↔ IsAssetId usd
valid_asset_id_iff_example = valid_asset_id_iff usd

abbrev five : Amount
five = record { asset_id = usd; amount = 5 }

abbrev two : Amount
two = record { asset_id = usd; amount = 2 }

abbrev seven : Amount
seven = record { asset_id = usd; amount = 7 }

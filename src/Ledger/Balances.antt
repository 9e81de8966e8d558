-- ===== src/Ledger/Balances.antt =====
-- ledger/types/balances.go: sets of balances, asset IDs with int64 amounts. The map may be nil, which
-- a read takes for empty; every write goes to the fresh map of a Copy. A method returns a new
-- Balances or its receiver, and none writes through a pointer that another holds. The arithmetic of
-- balances_math.go is in Calculus, the selections of balances_misc.go in Selection.
pub mod Selection
pub mod Calculus
pub mod WellFormed
pub mod Arithmetic
pub mod Json
pub mod Special
pub mod SafeSub
pub mod ToZero
pub mod Settlement
pub mod Views
use dora_service_utils.Base.{Bool, true, not, Option, none, some, List, [], ◌∷◌, if◌then◌else◌}
use dora_service_utils.Base.Int.{ℤ, pos}
use dora_service_utils.Base.Word.{◌+i◌}
use dora_service_utils.Base.Text.{Str, str_beq, str_eq}
use dora_service_utils.Base.Dict.{Dict, get, insert, merge}

pub record Balances : Type 0 where
  pub bals : Option (Dict Str ℤ)

-- What `range b.Bals` visits.
abbrev pub entries_of : Option (Dict Str ℤ) → Dict Str ℤ
entries_of none = []
entries_of (some d) = d

abbrev pub entries : Balances → Dict Str ℤ
entries b = entries_of b.bals

abbrev pub of_map : Dict Str ℤ → Balances
of_map d = record { bals = some d }

-- A read of a missing key gives the zero value.
abbrev pub value_of : Option ℤ → ℤ
value_of none = pos 0
value_of (some v) = v

-- `d[id]`
abbrev pub read : Str → Dict Str ℤ → ℤ
read id d = value_of (get id d)

abbrev pub empty_balances : Balances
empty_balances = of_map []

-- `result[k] = v`, whatever stood there
abbrev pub overwrite : Option ℤ → ℤ → ℤ
overwrite old v = v

-- The map that Copy makes.
unfoldable pub copied : Balances → Dict Str ℤ
copied b = merge (λ v. true) overwrite [] (entries b)

unfoldable pub copy : Balances → Balances
unfolding copied
copy b = of_map (copied b)

unfoldable pub amount_of : Balances → Str → ℤ
amount_of b asset_id = read asset_id (entries b)

unfoldable pub add_amount : Balances → Str → ℤ → Balances
unfolding copied
add_amount b asset_id amount =
    let result = copied b in
    of_map (
      if not (str_beq asset_id [])
      then insert asset_id (read asset_id result +i amount) result
      else result)

unfoldable pub new_balances : Str → ℤ → Balances
new_balances asset_id amount = add_amount empty_balances asset_id amount

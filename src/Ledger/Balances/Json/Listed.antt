-- ===== src/Ledger/Balances/Json/Listed.antt =====
-- ledger/types/balances_json.go: the IDs and the texts that MarshalJSON collects before it writes.
use dora_service_utils.Base.{
  ◌≡◌, refl, Bool, false, not, ◌||◌, Option, none, some, List, [], ◌∷◌, arith, if◌then◌else◌,
}
use dora_service_utils.Base.Int.{ℤ}
use dora_service_utils.Base.Text.{Str, str_beq, str_beq_iff, str_eq}
use dora_service_utils.Base.Dict.{Dict, IsMap, get, insert, get-insert}
use dora_service_utils.Ledger.Balances.Json.{
  display_amount, is_skipped, output_ids, string_map, insert_sorted, sort_ids,
}

unfoldable pub has_id : Str → List Str → Bool
has_id j [] = false
has_id j (id ∷ ids) = str_beq id j || has_id j ids

-- No ID stands twice.
abbrev pub Distinct : List Str → Type 0
Distinct [] = Unit
Distinct (id ∷ ids) = (has_id id ids ≡ false) × Distinct ids

-- Whether a lookup is of an asset that is written.
abbrev pub is_listed : Str → Option ℤ → Bool
is_listed j none = false
is_listed j (some v) = not (is_skipped j v)

abbrev pub shown : Str → Option Str → Option ℤ → Option Str
shown j old none = old
shown j old (some v) = if is_skipped j v then old else some (display_amount v)

has_id-output_ids :
    (d : Dict Str ℤ) (j : Str) → IsMap d → has_id j (output_ids d) ≡ is_listed j (get j d)
unfolding has_id output_ids get
has_id-output_ids [] j h = refl
has_id-output_ids ((id, v) ∷ d) j h =
    ground (arith, has_id-output_ids d j h.1, str_beq_iff id j, h.0)

has_id-insert_sorted :
    (j id : Str) (ids : List Str) → has_id j (insert_sorted id ids) ≡ (str_beq id j || has_id j ids)
unfolding has_id insert_sorted
has_id-insert_sorted j id [] = refl
has_id-insert_sorted j id (i ∷ ids) = ground (arith, has_id-insert_sorted j id ids)

has_id-sort : (j : Str) (ids : List Str) → has_id j (sort_ids ids) ≡ has_id j ids
unfolding has_id sort_ids
has_id-sort j [] = refl
has_id-sort j (id ∷ ids) =
    ground (arith, has_id-insert_sorted j id (sort_ids ids), has_id-sort j ids)

insert_sorted-Distinct :
    (id : Str) (ids : List Str)
    → has_id id ids ≡ false
    → Distinct ids
    → Distinct (insert_sorted id ids)
unfolding has_id insert_sorted
insert_sorted-Distinct id [] n h = (refl, tt)
insert_sorted-Distinct id (j ∷ ids) n h = ground (
  arith,
  insert_sorted-Distinct id ids,
  has_id-insert_sorted j id ids,
  str_beq_iff id j,
  str_beq_iff j id,
)

sort_ids-Distinct : (ids : List Str) → Distinct ids → Distinct (sort_ids ids)
unfolding sort_ids
sort_ids-Distinct [] h = tt
sort_ids-Distinct (id ∷ ids) h =
    insert_sorted-Distinct id (sort_ids ids) (rw has_id-sort h.0) (sort_ids-Distinct ids h.1)

output_ids-Distinct : (d : Dict Str ℤ) → IsMap d → Distinct (output_ids d)
unfolding output_ids
output_ids-Distinct [] h = tt
output_ids-Distinct ((id, v) ∷ d) h =
    ground (arith, output_ids-Distinct d h.1, has_id-output_ids d id h.1, h.0)

-- The IDs that are written are those of the amounts that are not zero, each once.
pub has_id-sort_ids :
    (d : Dict Str ℤ) (j : Str)
    → IsMap d
    → has_id j (sort_ids (output_ids d)) ≡ is_listed j (get j d)
has_id-sort_ids d j h = rw has_id-sort (has_id-output_ids d j h)

pub written-Distinct : (d : Dict Str ℤ) → IsMap d → Distinct (sort_ids (output_ids d))
written-Distinct d h = sort_ids-Distinct (output_ids d) (output_ids-Distinct d h)

pub get-string_map :
    (m : Dict Str Str) (d : Dict Str ℤ) (j : Str)
    → IsMap d
    → get j (string_map m d) ≡ shown j (get j m) (get j d)
unfolding string_map get
get-string_map m [] j h = refl
get-string_map m ((id, v) ∷ d) j h = ground (
  arith,
  get-string_map m d j h.1,
  get-string_map (insert id (display_amount v) m) d j h.1,
  get-insert id j (display_amount v) m,
  str_beq_iff id j,
  h.0,
)

-- ===== src/Ledger/Position/Validity.antt =====
-- What a position that passes Validate promises.
use dora_service_utils.Base.{◌+◌, ◌%◌, ◌≡◌, ◌≢◌, true, false, Option, [], arith}
use dora_service_utils.Base.Text.{str_beq_iff}
use dora_service_utils.Base.Word.{u64_mod}
use dora_service_utils.Base.Result.{ok}
use dora_service_utils.Ledger.Balances.{Balances}
use dora_service_utils.Ledger.Balances.Selection
use dora_service_utils.Ledger.Position.{
  Exported, Position, Json, filled, present, raw, next_sequence, init, json_string, is_modified,
  new_position, validate, valid_field, track,
}

module _ (json : Json) where
  -- NewPosition that returns no error, whatever fields it is given, nil balances included: the user
  -- ID is not empty, every set of balances passes its own Validate, Locked and Supplied with no
  -- negative amount allowed, the position is not modified, and its next sequence number is the one
  -- after the given one.
  pub new_position_valid :
      (f : Exported (Option Balances)) (p : Position Balances)
      → new_position json f ≡ (p, ok tt)
      → (p.exported ≡ filled f)
        × (f.user_id ≢ [])
        × (Selection.validate p.exported.owned true ≡ ok tt)
        × (Selection.validate p.exported.locked false ≡ ok tt)
        × (Selection.validate p.exported.supplied false ≡ ok tt)
        × (Selection.validate p.exported.sseq true ≡ ok tt)
        × (Selection.validate p.exported.interest_sources true ≡ ok tt)
        × (Selection.validate p.exported.inactive true ≡ ok tt)
        × (is_modified json p ≡ false)
        × (next_sequence p ≡ (f.sequence + 1) % u64_mod)
  unfolding new_position init validate raw present track is_modified json_string next_sequence
      valid_field
  new_position_valid f p e = ground (
    arith,
    str_beq_iff f.user_id [],
    str_beq_iff p.original [],
    str_beq_iff p.original p.original,
    str_beq_iff [] [],
  )

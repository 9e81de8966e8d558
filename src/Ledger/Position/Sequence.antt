-- ===== src/Ledger/Position/Sequence.antt =====
-- When the sequence number of a position is raised.
use dora_service_utils.Base.{
  ◌+◌, ◌%◌, ◌≡◌, ◌≢◌, inl, inr, ap, refl, false, Option, [], arith, if◌then◌else◌, Bool-cases,
}
use dora_service_utils.Base.Text.{Str, str_beq_iff}
use dora_service_utils.Base.Word.{u64_mod}
use dora_service_utils.Base.Result.{ok}
use dora_service_utils.Ledger.Balances.{Balances}
use dora_service_utils.Ledger.Position.{
  Position, Json, no_fields, filled, present, raw, next_sequence, init, json_string, is_modified,
  update_sequence, string, copy, snapshot, track,
}

module _ (json : Json) where
  open json use {marshal, unmarshal}

  update_sequence_idem :
      (p : Position Balances)
      → update_sequence json (update_sequence json p) ≡ update_sequence json p
  unfolding update_sequence next_sequence
  update_sequence_idem p =
      let raised = record p { exported = record p.exported { sequence = next_sequence p } } in
      elim (Bool-cases (is_modified json p)) [
        | inl y ↦
            rw y (elim (Bool-cases (is_modified json raised)) [
              | inl z ↦ rw z refl
              | inr z ↦ rw z refl
            ])
        | inr n ↦ rw n (rw n refl)
      ]

  -- UpdateSequence raises the sequence of a modified position to one above the original sequence
  -- and leaves any other position alone; it never touches what IsModified compares with, and a
  -- second call changes nothing more, so String, which calls it, gives the same text each time.
  pub update_sequence_once :
      (p : Position Balances)
      → ((update_sequence json p).exported.sequence
          ≡ (if is_modified json p then next_sequence p else p.exported.sequence))
        × ((update_sequence json p).original ≡ p.original)
        × (next_sequence (update_sequence json p) ≡ next_sequence p)
        × (update_sequence json (update_sequence json p) ≡ update_sequence json p)
        × (string json (string json p).0 ≡ string json p)
  unfolding update_sequence string next_sequence
  update_sequence_once p =
      let idem = update_sequence_idem p in
      (
        ground arith,
        ground arith,
        ground arith,
        idem,
        ap (λ (q : Position Balances). (q, json_string json q)) idem,
      )

  -- Init is idempotent: a position that has been through Init is left as it is by another.
  pub init-init : (p : Position (Option Balances)) → init json (raw (init json p)) ≡ init json p
  unfolding init raw filled present track
  init-init p = ground arith

  -- Where JSON reads back the exported fields that it wrote: Copy keeps every field of a position
  -- with the tracked ones, so it is modified just when the position is, and a Snapshot of a
  -- position that marshals to a text keeps the exported fields, is not modified, and has the
  -- sequence after the present one as its next.
  pub copy-snapshot :
      (p : Position Balances) (j : Str)
      → marshal p.exported ≡ ok j
      → j ≢ []
      → unmarshal j (no_fields []) ≡ (present p.exported, ok tt)
      → (copy json p ≡ raw p)
        × ((snapshot json p).exported ≡ p.exported)
        × (is_modified json (snapshot json p) ≡ false)
        × (next_sequence (snapshot json p) ≡ (p.exported.sequence + 1) % u64_mod)
  unfolding copy snapshot raw json_string init is_modified next_sequence filled present track
  copy-snapshot p j e ne u = ground (arith, str_beq_iff j j, str_beq_iff j [], str_beq_iff [] [])

-- ===== src/Redis/Positions/RoundTrip.antt =====
-- SetUsersPosition and then GetUsersPosition of ledger/redis/positions.go.
use dora_service_utils.Base.{◌≡◌, ◌≢◌, refl, sym, ap, ◌∙◌, subst, false, none, some, [], ◌∷◌, arith}
use dora_service_utils.Base.Text.{Str, str_eq}
use dora_service_utils.Base.Dict.{get, insert, get-insert_self}
use dora_service_utils.Base.Result.{ok}
use dora_service_utils.Ledger.Balances.{Balances}
use dora_service_utils.Ledger.Position
use dora_service_utils.Ledger.Position.{
  Position, Exported, no_fields, present, is_modified, snapshot, json_string, unmarshal_binary,
  init,
}
use dora_service_utils.Ledger.Position.Sequence.{copy-snapshot}
use dora_service_utils.Redis.{
  Store, quiet, hgetall, hset, attempt, try_transaction, retry, watch_keys,
}
use dora_service_utils.Redis.Positions.{
  Positions, read_position, keep_position, and_then, read_values, read_hashes, read_body,
  with_initial, returned, get_users_position, get_users_position_keys, user_position_key,
  set_users_position, write_position, write_positions, go_on, write_body,
}

module _ (json : Position.Json) (p : Position Balances) (j : Str)
    (marshals : json.marshal p.exported ≡ ok j)
    (reads : json.unmarshal j (no_fields []) ≡ (present p.exported, ok tt)) where
  abbrev user : Str
  user = p.exported.user_id

  write_lem :
      (store : Store)
      → write_position json user p store ≡ (hset (user_position_key user) user j store, ok tt)
  unfolding write_position
  write_lem store = rw (marshals, write_position) refl

  set_quiet :
      (store : Store)
      → set_users_position json ((user, p) ∷ []) quiet [] store
        ≡ (hset (user_position_key user) user j store, ok tt)
  unfolding set_users_position try_transaction retry attempt write_body write_positions go_on
  set_quiet store = ground (arith, write_lem store)

  stored_hash :
      (store : Store)
      → get (user_position_key user) store ≡ none
      → hgetall (user_position_key user) (hset (user_position_key user) user j store)
        ≡ (user, j) ∷ []
  unfolding insert
  stored_hash store g = rw (get-insert_self (user_position_key user) _ store) (rw g refl)

  abbrev read_back : Position Balances
  read_back =
      init json (record { exported = present p.exported; original = []; original_sequence = 0 })

  read_position_lem : read_position json j ≡ (read_back, ok tt)
  unfolding read_position unmarshal_binary
  read_position_lem = rw reads refl

  json_string_lem : json_string json p ≡ j
  unfolding json_string
  json_string_lem = rw (marshals, json_string) refl

  -- What a snapshot of a text is.
  abbrev read_from : Str → Position Balances
  read_from t = init json (record {
    exported = (json.unmarshal t (no_fields [])).0;
    original = [];
    original_sequence = 0;
  })

  snapshot_lem : snapshot json p ≡ read_back
  unfolding snapshot
  snapshot_lem = ap read_from json_string_lem ∙ rw reads refl

  get_quiet :
      (store : Store)
      → hgetall (user_position_key user) store ≡ (user, j) ∷ []
      → get_users_position json (user ∷ []) quiet [] store
        ≡ ok (insert read_back.exported.user_id read_back (with_initial json (user ∷ []) []))
  unfolding get_users_position try_transaction retry attempt read_body read_hashes read_values
      keep_position and_then returned get_users_position_keys watch_keys
  get_quiet store h = rw h (rw read_position_lem refl)

module _ (json : Position.Json) where
  -- SetUsersPosition of one position under its own user ID, and then GetUsersPosition of that user,
  -- where JSON reads back the exported fields that it wrote as a text that is not empty, nothing was
  -- stored for the user before, and no one else changes the store: both succeed, and the position
  -- that is returned for the user has the exported fields of the one that was set and is not
  -- modified.
  pub get_users_position-set_users_position :
      (p : Position Balances) (j : Str) (store : Store)
      → json.marshal p.exported ≡ ok j
      → j ≢ []
      → json.unmarshal j (no_fields []) ≡ (present p.exported, ok tt)
      → get (user_position_key p.exported.user_id) store ≡ none
      → ((set_users_position json ((p.exported.user_id, p) ∷ []) quiet [] store).1 ≡ ok tt)
        × (ps : Positions) × (q : Position Balances) × (get_users_position json
              (p.exported.user_id ∷ [])
              quiet
              []
              (set_users_position json ((p.exported.user_id, p) ∷ []) quiet [] store).0
            ≡ ok ps)
        × (get p.exported.user_id ps ≡ some q)
        × (q.exported ≡ p.exported)
        × (is_modified json q ≡ false)
  get_users_position-set_users_position p j store m ne w g =
      let u = p.exported.user_id in
      let q = read_back json p j m w in
      let same : snapshot json p ≡ q = snapshot_lem json p j m w in
      let (copied, kept, unmodified, next) = copy-snapshot json p j m ne w in
      let exported : q.exported ≡ p.exported = ap (λ r. r.exported) (sym same) ∙ kept in
      rw (set_quiet json p j m w store) (
        refl,
        insert q.exported.user_id q (with_initial json (u ∷ []) []),
        q,
        get_quiet json p j m w _ (stored_hash json p j m w store g),
        ap
              (λ (e : Exported Balances).
                get e.user_id (insert q.exported.user_id q (with_initial json (u ∷ []) [])))
              (sym exported)
            ∙ get-insert_self q.exported.user_id q (with_initial json (u ∷ []) []),
        exported,
        subst (λ r. is_modified json r ≡ false) same unmodified,
      )

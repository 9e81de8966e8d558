-- ===== src/Redis/Positions.antt =====
-- ledger/redis/positions.go: the positions of users and of the module in the store. The map of
-- requests is an association list. The watched keys matter to the client alone; those of
-- SetUsersPosition are written out.
pub mod Requested
pub mod RoundTrip
use dora_service_utils.Base.{Option, none, some, List, [], ◌∷◌, ◌++◌, length, ℕ, zero, suc}
use dora_service_utils.Base.Text.{Str, codes, str_eq}
use dora_service_utils.Base.Dict.{Dict, get, insert}
use dora_service_utils.Base.Result.{Result, ok, err, Error, plain}
use dora_service_utils.Ledger.Balances.{Balances}
use dora_service_utils.Ledger.Position
use dora_service_utils.Ledger.Position.{Position, no_fields, unmarshal_binary, initial_position}
use dora_service_utils.Ledger.Module
use dora_service_utils.Ledger.Module.{Module, initial_module, unmarshal_binary as unmarshal_module}
use dora_service_utils.Redis.{Store, Attempt, Body, hgetall, hset, watch_keys, try_transaction}

unfoldable pub user_position_key : Str → Str
user_position_key user_id = codes "positions:users:" ++ user_id

abbrev pub module_position_key : Str
module_position_key = codes "positions"

unfoldable pub get_users_position_keys : List Str → List Str
unfolding user_position_key watch_keys
get_users_position_keys users = watch_keys user_position_key users

abbrev pub Positions : Type 0
Positions = Dict Str (Position Balances)

-- `if err := ...; err != nil { return nil, err }`, and the captured variable.
unfoldable pub returned : {S : Type 0} → (Store × S) × Result (Unit {0}) → Result S
returned ((store, s), ok u) = ok s
returned ((store, s), err e) = err e

-- `new(types.Module)`
abbrev zero_module : Module (Option Balances)
zero_module = record { exported = Module.no_fields; original = []; original_sequence = 0 }

module _ (json : Position.Json) where
  -- `new(types.Position)` with UnmarshalBinary
  unfoldable pub read_position : Str → Position Balances × Result (Unit {0})
  unfolding unmarshal_binary
  read_position v =
      unmarshal_binary json
        (record { exported = no_fields []; original = []; original_sequence = 0 }) v

  -- `positions[p.UserID] = p`, or the error
  keep_position : Positions → Position Balances × Result (Unit {0}) → Positions × Result (Unit {0})
  keep_position positions (p, ok u) = (insert p.exported.user_id p positions, ok tt)
  keep_position positions (p, err e) = (positions, err e)

  and_then :
      Positions × Result (Unit {0})
      → (Positions → Positions × Result (Unit {0}))
      → Positions × Result (Unit {0})
  and_then (positions, ok u) next = next positions
  and_then (positions, err e) next = (positions, err e)

  -- The loop over the values of one hash.
  unfoldable pub read_values : Dict Str Str → Positions → Positions × Result (Unit {0})
  unfolding read_position keep_position and_then
  read_values [] positions = (positions, ok tt)
  read_values ((field, v) ∷ res) positions =
      and_then (keep_position positions (read_position v)) (λ ps. read_values res ps)

  -- The loop over the keys.
  unfoldable pub read_hashes : List Str → Store → Positions → Positions × Result (Unit {0})
  unfolding read_values and_then
  read_hashes [] store positions = (positions, ok tt)
  read_hashes (k ∷ keys) store positions =
      and_then (read_values (hgetall k store) positions) (λ ps. read_hashes keys store ps)

  -- The transaction of getUsersPosition: a pipeline that fails gives its error with each command.
  read_body : List Str → Body Positions
  unfolding read_hashes
  read_body keys (some e) (store, positions) = ((store, positions), err e)
  read_body keys none (store, positions) =
      let (read, r) = read_hashes keys store positions in ((store, read), r)

  -- The loop that gives every requested user an initial position.
  unfoldable pub with_initial : List Str → Positions → Positions
  unfolding initial_position
  with_initial [] positions = positions
  with_initial (user_id ∷ users) positions = with_initial users (elim (get user_id positions) [
    | some p ↦ positions
    | none ↦ insert user_id (initial_position json user_id) positions
  ])

  -- GetUsersPosition, with the attempts that its transaction is given.
  unfoldable pub get_users_position : List Str → Attempt → List Attempt → Store → Result Positions
  unfolding returned read_body with_initial get_users_position_keys try_transaction
  get_users_position users a attempts store = returned (
      try_transaction (read_body (get_users_position_keys users)) a attempts
        (store, with_initial users []))

  -- One HSet of a position under its own ID; a position that does not marshal is an error.
  unfoldable pub write_position : Str → Position Balances → Store → Store × Result (Unit {0})
  write_position user_id position store = elim (json.marshal position.exported) [
    | err e ↦ (store, err e)
    | ok j ↦ (hset (user_position_key user_id) position.exported.user_id j store, ok tt)
  ]

  go_on :
      Store × Result (Unit {0}) → (Store → Store × Result (Unit {0})) → Store × Result (Unit {0})
  go_on (st, ok u) next = next st
  go_on (st, err e) next = (st, err e)

  unfoldable pub write_positions : Positions → Store → Store × Result (Unit {0})
  unfolding write_position go_on
  write_positions [] store = (store, ok tt)
  write_positions ((user_id, position) ∷ reqs) store =
      go_on (write_position user_id position store) (λ st. write_positions reqs st)

  -- Where HSet fails, it does so at the first request.
  write_body : Positions → Body (Unit {0})
  unfolding write_positions
  write_body reqs none (store, u) =
      let (written, r) = write_positions reqs store in ((written, u), r)
  write_body [] (some e) (store, u) = ((store, u), ok tt)
  write_body (r ∷ reqs) (some e) (store, u) = ((store, u), err e)

  -- SetUsersPosition
  unfoldable pub set_users_position :
      Positions → Attempt → List Attempt → Store → Store × Result (Unit {0})
  unfolding write_body try_transaction
  set_users_position reqs a attempts store =
      let ((written, u), r) = try_transaction (write_body reqs) a attempts (store, tt) in
      (written, r)

-- `make([]string, len(reqs))`: the keys that SetUsersPosition watches, since it appends to them only
-- once the transaction runs.
unfoldable pub set_users_position_watch : Positions → List Str
set_users_position_watch [] = []
set_users_position_watch (r ∷ reqs) = [] ∷ set_users_position_watch reqs

module _ (json : Module.Json) where
  -- The variable of getModulePosition: none is its nil.
  abbrev Variable : Type 0
  Variable = Option (Module (Option Balances))

  scan_module : Module (Option Balances) → Str → Variable × Result (Unit {0})
  scan_module m v = let (n, r) = unmarshal_module json m v in (some (Module.raw n), r)

  -- HGet and Scan, which unmarshals into the variable.
  module_body : Body Variable
  unfolding scan_module
  module_body conflict (store, none) = ((store, none), err plain)
  module_body conflict (store, some m) =
      elim (get (codes "module") (hgetall module_position_key store)) [
        | none ↦ ((store, none), ok tt)
        | some v ↦ let (w, r) = scan_module m v in ((store, w), r)
      ]

  found_module : Result Variable → Result (Module (Option Balances))
  unfolding initial_module
  found_module (err e) = err e
  found_module (ok none) = ok (Module.raw (initial_module json))
  found_module (ok (some m)) = ok m

  -- GetModulePosition
  unfoldable pub get_module_position :
      Attempt → List Attempt → Store → Result (Module (Option Balances))
  unfolding found_module returned module_body try_transaction
  get_module_position a attempts store =
      found_module (returned (try_transaction module_body a attempts (store, some zero_module)))

  write_module : Module Balances → Body (Unit {0})
  write_module m conflict (store, u) = elim (json.marshal m.exported) [
    | err e ↦ ((store, u), err e)
    | ok j ↦ ((hset module_position_key (codes "module") j store, u), ok tt)
  ]

  -- SetModulePosition
  unfoldable pub set_module_position :
      Module Balances → Attempt → List Attempt → Store → Store × Result (Unit {0})
  unfolding write_module try_transaction
  set_module_position m a attempts store =
      let ((written, u), r) = try_transaction (write_module m) a attempts (store, tt) in
      (written, r)

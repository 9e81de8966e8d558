-- ===== src/Redis/Positions/Requested.antt =====
-- What GetUsersPosition of ledger/redis/positions.go returns for the users that it is asked for.
use dora_service_utils.Base.{
  ◌≡◌, ◌≢◌, subst, Bool-cases, Bool, true, false, ◌||◌, Option, none, some, List, [], ◌∷◌, arith,
  Option-cases, inl, inr,
}
use dora_service_utils.Base.Text.{Str, str_beq, str_eq, str_beq_iff}
use dora_service_utils.Base.Dict.{Dict, get, insert, get-insert}
use dora_service_utils.Base.Result.{Result, ok, err, Error}
use dora_service_utils.Ledger.Balances.{Balances}
use dora_service_utils.Ledger.Position
use dora_service_utils.Ledger.Position.{Position, initial_position}
use dora_service_utils.Redis.{Store, Attempt, try_transaction, try_transaction_keeps}
use dora_service_utils.Redis.Positions.{
  Positions, read_position, keep_position, and_then, read_values, read_hashes, read_body,
  with_initial, returned, get_users_position, get_users_position_keys,
}

abbrev pub requested : Str → List Str → Bool
requested u [] = false
requested u (v ∷ users) = str_beq v u || requested u users

-- The user has an entry.
abbrev pub IsPresent : Str → Positions → Type 0
IsPresent u positions = get u positions ≢ none

insert-IsPresent :
    (u k : Str) (p : Position Balances) (positions : Positions)
    → IsPresent u positions
    → IsPresent u (insert k p positions)
insert-IsPresent u k p positions h e = ground (arith, h, get-insert k u p positions)

module _ (json : Position.Json) (u : Str) where
  keep_position-IsPresent :
      (positions : Positions) (r : Position Balances × Result (Unit {0}))
      → IsPresent u positions
      → IsPresent u (keep_position json positions r).0
  unfolding keep_position
  keep_position-IsPresent positions (p, ok tt) h =
      insert-IsPresent u p.exported.user_id p positions h
  keep_position-IsPresent positions (p, err e) h = h

  and_then-IsPresent :
      (r : Positions × Result (Unit {0})) (next : Positions → Positions × Result (Unit {0}))
      → ((ps : Positions) → IsPresent u ps → IsPresent u (next ps).0)
      → IsPresent u r.0
      → IsPresent u (and_then json r next).0
  unfolding and_then
  and_then-IsPresent (ps, ok tt) next keeps h = keeps ps h
  and_then-IsPresent (ps, err e) next keeps h = h

  read_values-IsPresent :
      (res : Dict Str Str) (positions : Positions)
      → IsPresent u positions
      → IsPresent u (read_values json res positions).0
  unfolding read_values
  read_values-IsPresent [] positions h = h
  read_values-IsPresent ((field, v) ∷ res) positions h =
      and_then-IsPresent _ _ (λ ps k. read_values-IsPresent res ps k)
        (keep_position-IsPresent positions (read_position json v) h)

  read_hashes-IsPresent :
      (keys : List Str) (store : Store) (positions : Positions)
      → IsPresent u positions
      → IsPresent u (read_hashes json keys store positions).0
  unfolding read_hashes
  read_hashes-IsPresent [] store positions h = h
  read_hashes-IsPresent (k ∷ keys) store positions h =
      and_then-IsPresent _ _ (λ ps p. read_hashes-IsPresent keys store ps p)
        (read_values-IsPresent _ positions h)

  read_body-IsPresent :
      (keys : List Str) (conflict : Option Error) (x : Store × Positions)
      → IsPresent u x.1
      → IsPresent u (read_body json keys conflict x).0.1
  unfolding read_body
  read_body-IsPresent keys (some e) (store, positions) h = h
  read_body-IsPresent keys none (store, positions) h = read_hashes-IsPresent keys store positions h

  with_initial-keeps :
      (users : List Str) (positions : Positions)
      → IsPresent u positions
      → IsPresent u (with_initial json users positions)
  unfolding with_initial
  with_initial-keeps [] positions h = h
  with_initial-keeps (v ∷ users) positions h = elim (Option-cases (get v positions)) [
    | inl n ↦
        rw n
          (with_initial-keeps users _ (insert-IsPresent u v (initial_position json v) positions h))
    | inr (p, s) ↦ rw s (with_initial-keeps users positions h)
  ]

  with_initial-IsPresent :
      (users : List Str) (positions : Positions)
      → requested u users ≡ true
      → IsPresent u (with_initial json users positions)
  unfolding with_initial
  with_initial-IsPresent [] positions h = absurd (ground arith)
  with_initial-IsPresent (v ∷ users) positions h = elim (Bool-cases (str_beq v u)) [
    | inl y ↦ elim (Option-cases (get v positions)) [
      | inl n ↦ rw n (
          with_initial-keeps users _
            (λ e. ground (arith, y, get-insert v u (initial_position json v) positions)))
      | inr (p, s) ↦
          rw s (with_initial-keeps users positions (λ e. ground (arith, y, s, str_beq_iff v u)))
    ]
    | inr n ↦ with_initial-IsPresent users _ (ground arith)
  ]

  returned-IsPresent :
      (r : (Store × Positions) × Result (Unit {0})) (ps : Positions)
      → returned r ≡ ok ps
      → IsPresent u r.0.1
      → IsPresent u ps
  unfolding returned
  returned-IsPresent ((store, s), ok tt) ps e h = subst (IsPresent u) (ground arith) h
  returned-IsPresent ((store, s), err x) ps e h = absurd (ground arith)

module _ (json : Position.Json) where
  -- GetUsersPosition that succeeds, after any number of attempts and whatever other clients do between
  -- them, has an entry for each user that it was asked for.
  pub get_users_position-IsPresent :
      (users : List Str) (a : Attempt) (attempts : List Attempt) (store : Store) (u : Str)
      (ps : Positions)
      → get_users_position json users a attempts store ≡ ok ps
      → requested u users ≡ true
      → IsPresent u ps
  unfolding get_users_position
  get_users_position-IsPresent users a attempts store u ps e h =
      let keys = get_users_position_keys users in
      returned-IsPresent json u
        (try_transaction (read_body json keys) a attempts (store, with_initial json users [])) ps e
        (try_transaction_keeps (read_body json keys) (IsPresent u)
          (λ c x p. read_body-IsPresent json u keys c x p) a attempts
          (store, with_initial json users []) (with_initial-IsPresent json u users [] h))

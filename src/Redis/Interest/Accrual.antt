-- ===== src/Redis/Interest/Accrual.antt =====
-- What is stored of interest by ledger/redis/interest.go, and what is read again.
use dora_service_utils.Base.{
  ◌+◌, ◌%◌, ◌<◌, ◌≡◌, ◌≢◌, refl, ap, ◌∙◌, Bool, false, Option, none, some, [], ◌∷◌, arith,
  Bool-cases, inl, inr, if◌then◌else◌,
}
use dora_service_utils.Base.Int.{pos}
use dora_service_utils.Base.Word.{u64_mod}
use dora_service_utils.Base.Text.{Str, codes, str_beq, str_eq}
use dora_service_utils.Base.Dict.{Dict, get, get-insert, get-insert_self}
use dora_service_utils.Base.Result.{ok}
use dora_service_utils.Redis.{
  Store, quiet, hgetall, hash_of, attempt, try_transaction, retry, watch_keys,
}
use dora_service_utils.Redis.Positions.{returned}
use dora_service_utils.Redis.Interest.{
  Format, Interest, user_interest_key, module_name, parse_uint64, zero_interest, parse_interest,
  read_interest, get_interest_tx, assigned, interest_body, get_user_interest, with_fields,
  set_user_interest_tx, set_all, interest_write, set_user_interest,
}
use dora_service_utils.Math.Float64.{Float64}
use dora_service_utils.Helpers.AssetData.{AssetData}
use dora_service_utils.Helpers.AssetData.Sums.{exact_borrowed_value}
use dora_service_utils.Ledger.Balances.{Balances}
use dora_service_utils.Ledger.Position
use dora_service_utils.Ledger.Position.{Position, initial_position}
use dora_service_utils.Redis.Positions.{user_position_key}
use dora_service_utils.Redis.Interest.Lending.{
  Clock, LendingAccrual, Failures, no_failures, owing, first_interest, find_position, accrued,
  read_accrual, write_accrual, accrue,
}

module _ (format : Format) where
  open format use {Time, zero_time, number, time, parse_time}

  -- The fields after HMSet.
  record Holds (i : Interest Time) (h : Dict Str Str) : Type 0 where
    earned : get (codes "earned") h ≡ some (number i.earned)
    owed : get (codes "owed") h ≡ some (number i.owed)
    claimed : get (codes "claimed") h ≡ some (number i.claimed)
    paid : get (codes "paid") h ≡ some (number i.paid)
    last_updated : get (codes "last_updated") h ≡ some (time i.last_updated)

  with_fields-Holds : (i : Interest Time) (h : Dict Str Str) → Holds i (with_fields format i h)
  unfolding with_fields str_beq
  with_fields-Holds i h = record {
    earned = get-insert (codes "earned") (codes "earned") _ _;
    owed =
        get-insert (codes "earned") (codes "owed") _ _
        ∙ get-insert (codes "owed") (codes "owed") _ _;
    claimed =
        get-insert (codes "earned") (codes "claimed") _ _
        ∙ get-insert (codes "owed") (codes "claimed") _ _
        ∙ get-insert (codes "claimed") (codes "claimed") _ _;
    paid =
        get-insert (codes "earned") (codes "paid") _ _
        ∙ get-insert (codes "owed") (codes "paid") _ _
        ∙ get-insert (codes "claimed") (codes "paid") _ _
        ∙ get-insert (codes "paid") (codes "paid") _ _;
    last_updated =
        get-insert (codes "earned") (codes "last_updated") _ _
        ∙ get-insert (codes "owed") (codes "last_updated") _ _
        ∙ get-insert (codes "claimed") (codes "last_updated") _ _
        ∙ get-insert (codes "paid") (codes "last_updated") _ _
        ∙ get-insert (codes "last_updated") (codes "last_updated") _ _;
  }

  stored :
      (u : Str) (i : Interest Time) (store : Store)
      → hgetall (user_interest_key u) (set_user_interest_tx format u i store)
        ≡ with_fields format i (hgetall (user_interest_key u) store)
  unfolding set_user_interest_tx
  stored u i store = ap hash_of (
      get-insert_self (user_interest_key u)
        (with_fields format i (hgetall (user_interest_key u) store)) store)

  none_stored :
      (k : Str) (store : Store)
      → get k store ≡ none
      → get_interest_tx format (k ∷ []) store ≡ ok (zero_interest format ∷ [])
  unfolding get_interest_tx read_interest
  none_stored k store h = rw h refl

  -- The owed interest of `u`, after the same has been written for `u` and for the module.
  owed_after :
      (u : Str) (i : Interest Time) (store : Store)
      → get (codes "owed") (
          hgetall
            (user_interest_key u)
            (set_user_interest_tx format module_name i (set_user_interest_tx format u i store)))
        ≡ some (number i.owed)
  unfolding set_user_interest_tx
  owed_after u i store =
      let first = set_user_interest_tx format u i store in
      let k = user_interest_key u in
      let m = user_interest_key module_name in
      let wrote = with_fields format i (hgetall m first) in
      let chosen : Bool → Option (Dict Str Str) = λ b. if b then some wrote else get k first in
      let looked = get-insert m k wrote first in
      elim (Bool-cases (str_beq m k)) [
        | inl y ↦
            ap (λ o. get (codes "owed") (hash_of o)) (looked ∙ ap chosen y)
            ∙ (with_fields-Holds i (hgetall m first)).owed
        | inr n ↦
            ap (λ o. get (codes "owed") (hash_of o)) (looked ∙ ap chosen n)
            ∙ ap (get (codes "owed")) (stored u i store)
            ∙ (with_fields-Holds i (hgetall k store)).owed
      ]

  -- Interest that the formats read back.
  pub record Readable (i : Interest Time) : Type 0 where
    pub earned : parse_uint64 (number i.earned) ≡ ok i.earned
    pub owed : parse_uint64 (number i.owed) ≡ ok i.owed
    pub claimed : parse_uint64 (number i.claimed) ≡ ok i.claimed
    pub paid : parse_uint64 (number i.paid) ≡ ok i.paid
    pub last_updated : parse_time (time i.last_updated) ≡ ok i.last_updated

  parse_interest_lem :
      (i : Interest Time) (h : Dict Str Str)
      → Holds i h
      → Readable i
      → parse_interest format h ≡ ok i
  unfolding parse_interest
  parse_interest_lem i h s r = ground (arith, r.earned, r.owed, r.claimed, r.paid, r.last_updated)

  read_nonempty : (h : Dict Str Str) → h ≢ [] → read_interest format h ≡ parse_interest format h
  unfolding read_interest
  read_nonempty [] n = absurd (n refl)
  read_nonempty (f ∷ h) n = refl

  Holds-nonempty : (i : Interest Time) (h : Dict Str Str) → Holds i h → h ≢ []
  unfolding get
  Holds-nonempty i [] s e = ground (arith, s.owed)
  Holds-nonempty i (f ∷ h) s e = ground arith

  read_stored :
      (u : Str) (i : Interest Time) (store : Store)
      → Readable i
      → get_interest_tx format (user_interest_key u ∷ []) (set_user_interest_tx format u i store)
        ≡ ok (i ∷ [])
  unfolding get_interest_tx
  read_stored u i store r =
      let h = with_fields format i (hgetall (user_interest_key u) store) in
      let holds = with_fields-Holds i (hgetall (user_interest_key u) store) in
      let read : read_interest format h ≡ ok i =
        read_nonempty h (Holds-nonempty i h holds) ∙ parse_interest_lem i h holds r in
      rw (stored u i store) (rw read refl)

  -- SetUserInterest for one user and then GetUserInterest of that user, where the formats read back
  -- what they wrote and no one else changes the store: both succeed, and what is returned is the
  -- interest that was set, whatever was stored before.
  pub get_user_interest-set_user_interest :
      (u : Str) (i : Interest Time) (store : Store)
      → Readable i
      → ((set_user_interest format ((u, i) ∷ []) quiet [] store).1 ≡ ok tt)
        × (get_user_interest format
              (u ∷ [])
              quiet
              []
              (set_user_interest format ((u, i) ∷ []) quiet [] store).0
            ≡ ok (i ∷ []))
  unfolding set_user_interest get_user_interest try_transaction retry attempt interest_write set_all
      interest_body assigned returned watch_keys
  get_user_interest-set_user_interest u i store r = (refl, rw (read_stored u i store r) refl)

module _ (format : Format) (json : Position.Json) (fl : Float64) (clock : Clock format.Time fl.F)
    (ad : AssetData fl.F) (flat_rate : fl.F) where
  open format use {Time, zero_time, number}
  open fl use {F, of_int}
  open clock use {after, unix, format_float}

  read_accrual_lem :
      (later : Time) (user : Str) (store : Store) (p : Position Balances) (borrowed : F)
      → after zero_time later ≡ false
      → find_position json user
          (initial_position json user)
          (hgetall (user_position_key user) store)
        ≡ ok p
      → exact_borrowed_value fl ad p ≡ (borrowed, none)
      → get module_name store ≡ none
      → get user store ≡ none
      → read_accrual format json fl clock ad flat_rate no_failures later user store
        ≡ ok (zero_interest format, zero_interest format, borrowed)
  unfolding read_accrual first_interest
  read_accrual_lem later user store p borrowed f found value m u =
      rw (none_stored format module_name store m)
        (rw found (rw value (rw (none_stored format user store u) (rw f refl))))

  accrue_read :
      (failures : Failures) (now later : Time) (user : Str) (store : Store) (m u : Interest Time)
      (borrowed : F)
      → read_accrual format json fl clock ad flat_rate failures later user store
        ≡ ok (m, u, borrowed)
      → accrue format json fl clock ad flat_rate failures now later user store ≡ (
          let amount = accrued format json fl clock ad flat_rate borrowed now u.last_updated in
          write_accrual format json fl clock ad flat_rate failures now user store
            (owing format json fl clock ad flat_rate amount m)
            (owing format json fl clock ad flat_rate amount u))
  unfolding accrue
  accrue_read failures now later user store m u borrowed e = rw (e, accrue) refl

  -- An accrual of lending interest for a user whose position is found and whose debts have a value,
  -- where no command fails, the zero time is not in the future and nothing is stored under the plain
  -- name of the user or of the module, which are no keys of interest, and what accrues since the zero
  -- time is a uint64: it succeeds, and the interest owed that is then stored for the user is what has
  -- accrued since the zero time alone, whatever was owed before and whenever it was last updated.
  pub accrue_forgets :
      (now later : Time) (user : Str) (store : Store) (p : Position Balances) (borrowed : F)
      → after zero_time later ≡ false
      → find_position json user
          (initial_position json user)
          (hgetall (user_position_key user) store)
        ≡ ok p
      → exact_borrowed_value fl ad p ≡ (borrowed, none)
      → accrued format json fl clock ad flat_rate borrowed now zero_time < u64_mod
      → get module_name store ≡ none
      → get user store ≡ none
      → (written : Store) × (record_of : LendingAccrual) × (accrue format json fl clock ad flat_rate
            no_failures now later user store
          ≡ (written, ok record_of))
        × (get (codes "owed") (hgetall (user_interest_key user) written)
            ≡ some (number (accrued format json fl clock ad flat_rate borrowed now zero_time)))
  unfolding write_accrual
  accrue_forgets now later user store p borrowed f found value fits m u =
      let amount = accrued format json fl clock ad flat_rate borrowed now zero_time in
      let i = record (zero_interest format) { owed = (0 + amount) % u64_mod } in
      (
        set_user_interest_tx format module_name i (set_user_interest_tx format user i store),
        record {
          user = user;
          time = unix now;
          from_unix_time = unix zero_time;
          to_unix_time = unix now;
          earned = codes "0";
          owed = format_float (of_int (pos i.owed));
        },
        accrue_read no_failures now later user store (zero_interest format) (zero_interest format)
            borrowed (read_accrual_lem later user store p borrowed f found value m u),
        owed_after format user i store ∙ ap (λ n. some (number n)) (omega (arith, fits)),
      )

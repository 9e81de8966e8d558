-- ===== src/Redis/Interest.antt =====
-- ledger/redis/interest.go: the interest of users in the store. The formats of numbers and times are
-- a parameter. The accrual of lending interest is in Lending.
pub mod Lending
pub mod Accrual
use dora_service_utils.Base.{
  ℕ, ◌+◌, ◌%◌, Bool, Option, none, some, List, [], ◌∷◌, ◌++◌, ltb, if◌then◌else◌,
}
use dora_service_utils.Base.Word.{u64_mod}
use dora_service_utils.Base.Text.{Str, codes, str_eq}
use dora_service_utils.Base.ParseInt.{parse_uint}
use dora_service_utils.Base.Dict.{Dict, get, insert}
use dora_service_utils.Base.Result.{Result, ok, err, Error, plain, ◌>>=◌, ◌>>◌, fail_if}
use dora_service_utils.Redis.{Store, Attempt, Body, hgetall, watch_keys, try_transaction}
use dora_service_utils.Redis.Positions.{returned}

-- How go-redis writes a uint64 and a time, and time.Parse with time.RFC3339Nano.
pub record Format : Type 1 where
  pub Time : Type 0
  pub zero_time : Time
  pub number : ℕ → Str
  pub time : Time → Str
  pub parse_time : Str → Result Time

-- types.Interest
pub record Interest (T : Type 0) : Type 0 where
  pub earned : ℕ
  pub owed : ℕ
  pub claimed : ℕ
  pub paid : ℕ
  pub last_updated : T

unfoldable pub user_interest_key : Str → Str
user_interest_key user_id = codes "interest:users:" ++ user_id

abbrev pub module_name : Str
module_name = codes "module"

-- `res[field]`
abbrev pub field_of : Str → Dict Str Str → Str
field_of field h = elim (get field h) [ none ↦ [] | some v ↦ v ]

-- strconv.ParseUint(s, 10, 64)
unfoldable pub parse_uint64 : Str → Result ℕ
unfolding parse_uint
parse_uint64 s = elim (parse_uint s) [
  | none ↦ err plain
  | some n ↦ if ltb n u64_mod then ok n else err plain
]

module _ (format : Format) where
  open format use {Time, zero_time, number, time, parse_time}

  abbrev pub zero_interest : Interest Time
  zero_interest = record { earned = 0; owed = 0; claimed = 0; paid = 0; last_updated = zero_time }

  unfoldable pub parse_interest : Dict Str Str → Result (Interest Time)
  unfolding parse_uint64
  parse_interest res = do
    earned ← parse_uint64 (field_of (codes "earned") res)
    owed ← parse_uint64 (field_of (codes "owed") res)
    claimed ← parse_uint64 (field_of (codes "claimed") res)
    paid ← parse_uint64 (field_of (codes "paid") res)
    last_updated ← parse_time (field_of (codes "last_updated") res)
    ok (record {
      earned = earned;
      owed = owed;
      claimed = claimed;
      paid = paid;
      last_updated = last_updated;
    })

  -- The interest of one hash.
  unfoldable pub read_interest : Dict Str Str → Result (Interest Time)
  unfolding parse_interest
  read_interest [] = ok zero_interest
  read_interest (f ∷ res) = parse_interest (f ∷ res)

  unfoldable pub get_interest_tx : List Str → Store → Result (List (Interest Time))
  unfolding read_interest
  get_interest_tx [] store = ok []
  get_interest_tx (k ∷ keys) store = do
    i ← read_interest (hgetall k store)
    interests ← get_interest_tx keys store
    ok (i ∷ interests)

  -- What the transaction assigns to its variable: nil beside an error.
  assigned : Result (List (Interest Time)) → List (Interest Time) × Result (Unit {0})
  assigned (ok l) = (l, ok tt)
  assigned (err e) = ([], err e)

  interest_body : List Str → Body (List (Interest Time))
  unfolding get_interest_tx assigned
  interest_body keys (some e) (store, interests) = ((store, []), err e)
  interest_body keys none (store, interests) =
      let (l, r) = assigned (get_interest_tx keys store) in ((store, l), r)

  -- GetUserInterest
  unfoldable pub get_user_interest :
      List Str → Attempt → List Attempt → Store → Result (List (Interest Time))
  unfolding interest_body returned watch_keys user_interest_key try_transaction
  get_user_interest users a attempts store =
      returned (
        try_transaction (interest_body (watch_keys user_interest_key users)) a attempts (store, []))

  -- The fields that HMSet writes.
  unfoldable pub with_fields : Interest Time → Dict Str Str → Dict Str Str
  with_fields i h = insert (codes "earned") (number i.earned) (
      insert (codes "owed") (number i.owed) (
        insert (codes "claimed") (number i.claimed) (
          insert (codes "paid") (number i.paid)
            (insert (codes "last_updated") (time i.last_updated) h))))

  -- setUserInterestTx
  unfoldable pub set_user_interest_tx : Str → Interest Time → Store → Store
  unfolding with_fields user_interest_key
  set_user_interest_tx user_id i store =
      insert (user_interest_key user_id) (with_fields i (hgetall (user_interest_key user_id) store))
        store

  set_all : Dict Str (Interest Time) → Store → Store
  unfolding set_user_interest_tx
  set_all [] store = store
  set_all ((user_id, i) ∷ reqs) store = set_all reqs (set_user_interest_tx user_id i store)

  -- Where HMSet fails, it does so at the first request.
  interest_write : Dict Str (Interest Time) → Body (Unit {0})
  unfolding set_all
  interest_write reqs none (store, u) = ((set_all reqs store, u), ok tt)
  interest_write [] (some e) (store, u) = ((store, u), ok tt)
  interest_write (r ∷ reqs) (some e) (store, u) = ((store, u), err e)

  -- SetUserInterest
  unfoldable pub set_user_interest :
      Dict Str (Interest Time) → Attempt → List Attempt → Store → Store × Result (Unit {0})
  unfolding interest_write try_transaction
  set_user_interest reqs a attempts store =
      let ((written, u), r) = try_transaction (interest_write reqs) a attempts (store, tt) in
      (written, r)

-- ===== src/Redis/Interest/Lending.antt =====
-- accrueLendingInterestTx of ledger/redis/interest.go: the interest of the module and of the user is
-- read under the plain names and written under the keys of the users.
use dora_service_utils.Base.{
  ℕ, ◌+◌, ◌%◌, Bool, ◌&&◌, Option, none, some, List, [], ◌∷◌, if◌then◌else◌,
}
use dora_service_utils.Base.Int.{ℤ, pos}
use dora_service_utils.Base.Word.{u64_mod, ◌-i◌}
use dora_service_utils.Base.Text.{Str, codes, str_beq, str_eq}
use dora_service_utils.Base.Dict.{Dict}
use dora_service_utils.Base.Result.{Result, ok, err, Error, plain, ◌>>=◌, ◌>>◌, fail_if}
use dora_service_utils.Math.Float64.{Float64}
use dora_service_utils.Helpers.AssetData.{AssetData}
use dora_service_utils.Helpers.AssetData.Sums.{exact_borrowed_value}
use dora_service_utils.Ledger.Balances.{Balances}
use dora_service_utils.Ledger.Position
use dora_service_utils.Ledger.Position.{Position, initial_position}
use dora_service_utils.Redis.{Store, hgetall}
use dora_service_utils.Redis.Positions.{user_position_key, read_position}
use dora_service_utils.Redis.Interest.{
  Format, Interest, module_name, zero_interest, get_interest_tx, set_user_interest_tx,
}

-- The methods After and Unix of time.Time, and strconv.FormatFloat(x, 'f', -1, 64).
pub record Clock (T F : Type 0) : Type 0 where
  pub after : T → T → Bool
  pub unix : T → ℤ
  pub format_float : F → Str

-- The errors of the commands, in their order.
pub record Failures : Type 0 where
  pub module_read : Option Error
  pub position_read : Option Error
  pub user_read : Option Error
  pub user_write : Option Error
  pub module_write : Option Error

abbrev pub no_failures : Failures
no_failures = record {
  module_read = none;
  position_read = none;
  user_read = none;
  user_write = none;
  module_write = none;
}

-- TxLendingInterestAccrual
pub record LendingAccrual : Type 0 where
  pub user : Str
  pub time : ℤ
  pub from_unix_time : ℤ
  pub to_unix_time : ℤ
  pub earned : Str
  pub owed : Str

-- `if err != nil { return nil, err }`, for the error of a command.
abbrev pub unless {ℓ} : {A : Type ℓ} → Option Error → Result A → Result A
unless none r = r
unless (some e) r = err e

-- The value that a sum returns, or its error.
abbrev pub value_or_error : {F : Type 0} → F × Option Error → Result F
value_or_error (x, none) = ok x
value_or_error (x, some e) = err e

-- `interest[0]`, if there is one
unfoldable pub first_interest :
    (format : Format) → List (Interest format.Time) → Interest format.Time
first_interest format [] = zero_interest format
first_interest format (i ∷ interests) = i

-- The loop over the values of the user's hash, which ends at the position of this user. `position` is
-- what stands in the variable.
unfoldable pub find_position :
    Position.Json → Str → Position Balances → Dict Str Str → Result (Position Balances)
find_position json user_id position [] = ok position
find_position json user_id position ((field, v) ∷ res) =
    let rest = find_position json user_id position res in
    let (p, r) = read_position json v in
    r >>= λ u. if str_beq p.exported.user_id user_id then ok p else rest

module _ (format : Format) (json : Position.Json) (fl : Float64) (clock : Clock format.Time fl.F)
    (ad : AssetData fl.F) (flat_rate : fl.F) where
  open format use {Time}
  open fl use {F, zero, lt, mul, div, of_int, to_uint64}
  open clock use {after, unix, format_float}

  -- 365.2425 days
  abbrev seconds_per_year : F
  seconds_per_year = of_int (pos 31556952)

  -- `uint64(interestAccrued)`, or 0 where the code adds nothing.
  unfoldable pub accrued : F → Time → Time → ℕ
  accrued borrowed now last_updated =
      if lt zero borrowed && after now last_updated
      then to_uint64 (
          mul (mul (div (of_int (unix now -i unix last_updated)) seconds_per_year) flat_rate)
            borrowed)
      else 0

  abbrev pub owing : ℕ → Interest Time → Interest Time
  owing amount i = record i { owed = (i.owed + amount) % u64_mod }

  -- What is read: the interest of the module and of the user, and the value that the user has
  -- borrowed. `later` is the second time.Now().
  unfoldable pub read_accrual :
      Failures → Time → Str → Store → Result (Interest Time × Interest Time × F)
  unfolding get_interest_tx first_interest find_position
  read_accrual failures later user_id store = do
    module_interest ← unless failures.module_read (get_interest_tx format (module_name ∷ []) store)
    position ← unless failures.position_read (
        find_position json user_id (initial_position json user_id)
          (hgetall (user_position_key user_id) store))
    borrowed ← value_or_error (exact_borrowed_value fl ad position)
    user_interest ← unless failures.user_read (get_interest_tx format (user_id ∷ []) store)
    fail_if (after (first_interest format user_interest).last_updated later) plain
    ok (first_interest format module_interest, first_interest format user_interest, borrowed)

  -- The two writes, of which the first stays where the second fails, and the record that is returned.
  unfoldable pub write_accrual :
      Failures → Time → Str → Store → Interest Time → Interest Time → Store × Result LendingAccrual
  unfolding set_user_interest_tx
  write_accrual failures now user_id store module_interest user_interest =
      elim failures.user_write [
        | some e ↦ (store, err e)
        | none ↦
            let written = set_user_interest_tx format user_id user_interest store in
            elim failures.module_write [
              | some e ↦ (written, err e)
              | none ↦ (
                set_user_interest_tx format module_name module_interest written,
                ok (record {
                  user = user_id;
                  time = unix now;
                  from_unix_time = unix user_interest.last_updated;
                  to_unix_time = unix now;
                  earned = codes "0";
                  owed = format_float (of_int (pos user_interest.owed));
                }),
              )
            ]
      ]

  -- accrueLendingInterestTx
  unfoldable pub accrue : Failures → Time → Time → Str → Store → Store × Result LendingAccrual
  unfolding read_accrual write_accrual accrued
  accrue failures now later user_id store = elim (read_accrual failures later user_id store) [
    | err e ↦ (store, err e)
    | ok (module_interest, user_interest, borrowed) ↦
        let amount = accrued borrowed now user_interest.last_updated in
        write_accrual failures now user_id store (owing amount module_interest)
          (owing amount user_interest)
  ]

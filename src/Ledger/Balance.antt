-- ===== src/Ledger/Balance.antt =====
-- ledger/types/balance.go: a pointer to an asset ID with a uint64 amount. A `*Balance` argument that
-- may be nil is an `Option`; no method writes through its pointer, so a result that is the receiver
-- itself is its value. JSON, text and the float methods AmtFloat and MulF are left out.
pub mod Laws
use dora_service_utils.Base.{
  ℕ, ◌+◌, ◌-◌, ◌%◌, Bool, true, false, not, ◌||◌, [], Option, none, some, ltb, nat_beq,
  if◌then◌else◌,
}
use dora_service_utils.Base.Int.{ℤ, pos, ltb_ℤ}
use dora_service_utils.Base.Word.{u64_mod, to_u64, to_i64}
use dora_service_utils.Base.Text.{Str, str_beq}
use dora_service_utils.Base.Result.{Result, ok, err, plain, ◌>>=◌, ◌>>◌, fail_if}

pub record Balance : Type 0 where
  pub asset : Str
  pub amount : ℕ

-- The constraint `Integer64`, int64 or uint64: the test `> 0` and the conversion to uint64.
pub record Integer64 (T : Type 0) : Type 0 where
  pub is_positive : T → Bool
  pub to_uint64 : T → ℕ

instance abbrev pub integer64_int64 : Integer64 ℤ
integer64_int64 = record { is_positive = λ z. ltb_ℤ (pos 0) z; to_uint64 = to_u64 }

instance abbrev pub integer64_uint64 : Integer64 ℕ
integer64_uint64 = record { is_positive = λ n. ltb 0 n; to_uint64 = λ n. n }

-- `&Balance{}`
abbrev pub empty_balance : Balance
empty_balance = record { asset = []; amount = 0 }

unfoldable pub new_balance : {T : Type 0} ⦃i : Integer64 T⦄ → Str → T → Balance
new_balance ⦃i⦄ asset amount =
    let amt : ℕ = if i.is_positive amount then i.to_uint64 amount else 0 in
    if not (str_beq asset []) then record { asset = asset; amount = amt } else empty_balance

unfoldable pub zero_balance : Str → Balance
zero_balance asset =
    if not (str_beq asset []) then record { asset = asset; amount = 0 } else empty_balance

unfoldable pub valid : Balance → Bool
valid b = not (str_beq b.asset [])

unfoldable pub copy : Balance → Balance
unfolding new_balance
copy b = new_balance b.asset b.amount

-- `int64(b.Amount)`
unfoldable pub amt : Balance → ℤ
unfolding to_i64
amt b = to_i64 b.amount

abbrev pub is_zero : Balance → Bool
is_zero b = nat_beq b.amount 0

-- The sum is taken in uint64.
unfoldable pub add : Balance → Option Balance → Result Balance
unfolding valid new_balance
add b none = ok b
add b (some bal) = do
  fail_if (not (valid b) || not (valid bal)) plain
  fail_if (not (str_beq b.asset bal.asset)) plain
  if nat_beq bal.amount 0
      then ok b
      else ok (new_balance b.asset ((b.amount + bal.amount) % u64_mod))

unfoldable pub sub : Balance → Option Balance → Result Balance
unfolding valid new_balance
sub b none = ok b
sub b (some bal) = do
  fail_if (not (valid b) || not (valid bal)) plain
  fail_if (not (str_beq b.asset bal.asset)) plain
  if nat_beq bal.amount 0 then ok b else do
    fail_if (ltb b.amount bal.amount) plain
    ok (new_balance b.asset (b.amount - bal.amount))

-- `return result, err == nil`; the result beside an error is nil.
abbrev with_ok : Result Balance → Option Balance × Bool
with_ok (ok result) = (some result, true)
with_ok (err e) = (none, false)

unfoldable pub sub_amt : Balance → ℕ → Option Balance × Bool
unfolding valid copy sub new_balance
sub_amt b amt =
    if not (valid b) || ltb b.amount amt
    then (none, false)
    else with_ok (sub (copy b) (some (new_balance b.asset amt)))

-- ===== src/Ledger/Amount.antt =====
-- ledger/types/amount.go: an asset ID with a uint64 amount. JSON and text output are left out.
pub mod Laws
use dora_service_utils.Base.{
  ℕ, ◌==◌, Bool, true, false, not, ◌&&◌, [], ltb, leb, nat_beq, if◌then◌else◌,
}
use dora_service_utils.Base.Text.{Str, str_beq, str_eq}
use dora_service_utils.Base.Result.{
  Result, ok, err, typed, internal, invalid_data, ◌>>=◌, ◌>>◌, fail_if, wrap_error,
}
use dora_service_utils.Math.SafeMath.{checked_add_u64, checked_sub_u64}

pub record Amount : Type 0 where
  pub asset_id : Str
  pub amount : ℕ

abbrev pub new_amount : Str → ℕ → Amount
new_amount asset_id amount = record { asset_id = asset_id; amount = amount }

-- `Amount{}`
abbrev pub empty_amount : Amount
empty_amount = record { asset_id = []; amount = 0 }

abbrev pub zero_amount : Str → Amount
zero_amount asset_id = new_amount asset_id 0

unfoldable pub equal : Amount → Amount → Bool
equal a x = str_beq a.asset_id x.asset_id && nat_beq a.amount x.amount

abbrev pub copy : Amount → Amount
copy a = new_amount a.asset_id a.amount

abbrev pub matches : Amount → Amount → Bool
matches a bal = str_beq a.asset_id bal.asset_id

unfoldable pub add : Amount → Amount → Result Amount
add a amt = do
  fail_if (not (matches a amt)) (typed internal)
  result ← checked_add_u64 a.amount amt.amount
  ok (new_amount a.asset_id result)

unfoldable pub add_uint64 : Amount → ℕ → Result Amount
add_uint64 a amt = do
  result ← wrap_error (checked_add_u64 a.amount amt)
  ok (new_amount a.asset_id result)

unfoldable pub sub : Amount → Amount → Result Amount
sub a amt = do
  fail_if (not (matches a amt)) (typed internal)
  result ← checked_sub_u64 a.amount amt.amount
  ok (new_amount a.asset_id result)

unfoldable pub sub_uint64 : Amount → ℕ → Result Amount
sub_uint64 a amt = do
  result ← wrap_error (checked_sub_u64 a.amount amt)
  ok (new_amount a.asset_id result)

-- `result, _ := ...`: the value beside an error is zero.
abbrev or_zero : Result ℕ → ℕ
or_zero (ok n) = n
or_zero (err e) = 0

abbrev pub lt_uint64 : Amount → ℕ → Bool
lt_uint64 a amt = ltb a.amount amt

unfoldable pub sub_to_zero : Amount → Amount → Result (Amount × Amount)
sub_to_zero a amt = do
  fail_if (not (matches a amt)) (typed internal)
  let taken = if lt_uint64 a amt.amount then copy a else amt
  ok (new_amount a.asset_id (or_zero (checked_sub_u64 a.amount taken.amount)), taken)

unfoldable pub sub_to_zero_uint64 : Amount → ℕ → Amount × ℕ
sub_to_zero_uint64 a amt =
    if ltb a.amount amt
    then (new_amount a.asset_id 0, a.amount)
    else (new_amount a.asset_id (or_zero (checked_sub_u64 a.amount amt)), amt)

abbrev pub lte_uint64 : Amount → ℕ → Bool
lte_uint64 a amt = leb a.amount amt

abbrev pub gt_uint64 : Amount → ℕ → Bool
gt_uint64 a amt = ltb amt a.amount

abbrev pub gte_uint64 : Amount → ℕ → Bool
gte_uint64 a amt = leb amt a.amount

unfoldable pub lt : Amount → Amount → Result Bool
lt a x = do fail_if (not (matches a x)) (typed internal); ok (ltb a.amount x.amount)

unfoldable pub lte : Amount → Amount → Result Bool
lte a x = do fail_if (not (matches a x)) (typed internal); ok (leb a.amount x.amount)

unfoldable pub gt : Amount → Amount → Result Bool
gt a x = do fail_if (not (matches a x)) (typed internal); ok (ltb x.amount a.amount)

unfoldable pub gte : Amount → Amount → Result Bool
gte a x = do fail_if (not (matches a x)) (typed internal); ok (leb x.amount a.amount)

unfoldable pub validate : Amount → Result (Unit {0})
validate a = fail_if (str_beq a.asset_id []) (typed invalid_data)

abbrev pub is_zero : Amount → Bool
is_zero a = nat_beq a.amount 0

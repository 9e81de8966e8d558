-- ===== src/Pools/Liquidity.antt =====
-- AddLiquidity and RemoveLiquidity of pools/types/pools.go. The statement
-- `p.F, err = math.Checked...(...)` writes F also when it fails, with the zero beside the error.
pub mod Changes
use dora_service_utils.Base.{ℕ, ◌+◌, Bool, true, false, not, List, [], ◌∷◌, ltb, if◌then◌else◌}
use dora_service_utils.Base.Int.{ℤ}
use dora_service_utils.Base.Word.{to_i64}
use dora_service_utils.Base.Text.{Str, str_beq}
use dora_service_utils.Base.Result.{
  Result, ok, err, Error, plain, err_amount_cannot_be_zero, err_base_asset_mismatch,
}
use dora_service_utils.Math.SafeMath.{checked_add_u64, checked_sub_u64}
use dora_service_utils.Math.BigFloat
use dora_service_utils.Math.BigFloat.{BigFloat, mul_f, add_f, uint64_of}
use dora_service_utils.Ledger.Amount
use dora_service_utils.Ledger.Amount.{Amount, new_amount, is_zero}
use dora_service_utils.Pools.{Pool, next_sequence}

-- The value that an assignment leaves.
abbrev pub written : Result ℕ → ℕ
written (ok n) = n
written (err e) = 0

module _ {D : Type 0} where
  -- The three writes and the sequence number, each only after the one before has succeeded.
  write_sequence : {A : Type 0} → Pool D → A → Pool D × Result A
  write_sequence p a = (record p { sequence = next_sequence p }, ok a)

  write_quote : {A : Type 0} → Pool D → Result ℕ → A → Pool D × Result A
  unfolding write_sequence
  write_quote p (ok n) a = write_sequence (record p { amount_quote = n }) a
  write_quote p (err e) a = (record p { amount_quote = 0 }, err e)

  write_base : {A : Type 0} → Pool D → Result ℕ → Result ℕ → A → Pool D × Result A
  unfolding write_quote
  write_base p (ok n) quote a = write_quote (record p { amount_base = n }) quote a
  write_base p (err e) quote a = (record p { amount_base = 0 }, err e)

  unfoldable pub write_all :
      {A : Type 0} → Pool D → Result ℕ → Result ℕ → Result ℕ → A → Pool D × Result A
  unfolding write_base
  write_all p (ok n) base quote a = write_base (record p { amount_shares = n }) base quote a
  write_all p (err e) base quote a = (record p { amount_shares = 0 }, err e)

module _ {D : Type 0} (bf : BigFloat D) where
  open bf use {F, set_int64, to_int, quo, mul, sign_is_zero, of_decimal}

  -- `new(big.Float).SetInt64(int64(n))`
  abbrev float_of : ℕ → F
  float_of n = set_int64 (to_i64 n)

  -- `math.Int(math.MulF(x, ratio)).Uint64()`
  unfoldable pub portion : ℕ → F → ℕ
  unfolding mul_f uint64_of
  portion x ratio = uint64_of (to_int (mul_f bf (float_of x ∷ ratio ∷ [])))

  -- The amounts of quote and shares for a deposit into a pool with no base.
  unfoldable pub first_deposit : Pool D → ℕ → ℕ × ℕ
  unfolding add_f uint64_of
  first_deposit p base_in =
      let base_in_f = float_of base_in in
      let quote_in_amt_f = mul (of_decimal p.initial_assets_ratio) base_in_f in
      (
        uint64_of (to_int quote_in_amt_f),
        uint64_of (to_int (add_f bf (base_in_f ∷ quote_in_amt_f ∷ []))),
      )

  -- The amounts of quote and shares for a further deposit.
  unfoldable pub next_deposit : Pool D → ℕ → ℕ × ℕ
  next_deposit p base_in =
      let added_ratio = quo (float_of base_in) (float_of p.amount_base) in
      (portion p.amount_quote added_ratio, portion p.amount_shares added_ratio)

  -- The amounts of quote and shares for a deposit of some base.
  unfoldable pub deposit_amounts : Pool D → ℕ → ℕ × ℕ
  unfolding first_deposit next_deposit
  deposit_amounts p base_in =
      if sign_is_zero (float_of p.amount_base)
      then first_deposit p base_in
      else next_deposit p base_in

  unfoldable pub deposit : Pool D → Amount → Pool D × Result (Amount × Amount)
  unfolding deposit_amounts
  deposit p base_in =
      let (quote_amt, shares_amt) = deposit_amounts p base_in.amount in
      write_all p (checked_add_u64 p.amount_shares shares_amt)
        (checked_add_u64 p.amount_base base_in.amount) (checked_add_u64 p.amount_quote quote_amt)
        (new_amount p.quote_asset quote_amt, new_amount p.pool_id shares_amt)

  unfoldable pub after_validation :
      {A : Type 0} → Pool D → Result (Unit {0}) → Pool D × Result A → Pool D × Result A
  after_validation p (ok u) rest = rest
  after_validation p (err e) rest = (p, err e)

  unfoldable pub add_liquidity : Pool D → Amount → Pool D × Result (Amount × Amount)
  unfolding deposit after_validation
  add_liquidity p base_in = after_validation p (Amount.validate base_in) (
      if is_zero base_in
      then (p, err err_amount_cannot_be_zero)
      else if not (str_beq base_in.asset_id p.base_asset)
      then (p, err err_base_asset_mismatch)
      else deposit p base_in)

  unfoldable pub withdraw : Pool D → Amount → Pool D × Result (List Amount)
  unfolding portion
  withdraw p shares_in =
      let remove_ratio = quo (float_of shares_in.amount) (float_of p.amount_shares) in
      let base_out = new_amount p.base_asset (portion p.amount_base remove_ratio) in
      let quote_out = new_amount p.quote_asset (portion p.amount_quote remove_ratio) in
      write_all p (checked_sub_u64 p.amount_shares shares_in.amount)
        (checked_sub_u64 p.amount_base base_out.amount)
        (checked_sub_u64 p.amount_quote quote_out.amount) (base_out ∷ quote_out ∷ [])

  unfoldable pub remove_liquidity : Pool D → Amount → Pool D × Result (List Amount)
  unfolding withdraw after_validation
  remove_liquidity p shares_in = after_validation p (Amount.validate shares_in) (
      if is_zero shares_in
      then (p, err err_amount_cannot_be_zero)
      else if not (str_beq shares_in.asset_id p.pool_id)
      then (p, err plain)
      else if ltb p.amount_shares shares_in.amount
      then (p, err plain)
      else withdraw p shares_in)

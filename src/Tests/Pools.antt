-- ===== src/Tests/Pools.antt =====
-- Runs of the theorems on pools, with exact fractions for the floats.
use dora_service_utils.Base.{
  ℕ, ◌+◌, ◌*◌, ◌/◌, ◌<◌, ◌≡◌, refl, Bool, true, false, List, [], ◌∷◌, arith, nat_beq, ◌⊎◌,
}
use dora_service_utils.Base.Int.{ℤ, pos, pos_part}
use dora_service_utils.Base.Word.{u64_mod}
use dora_service_utils.Base.Text.{Str, codes}
use dora_service_utils.Base.Result.{err, ok, err_overflow_add}
use dora_service_utils.Math.BigFloat.{BigFloat}
use dora_service_utils.Ledger.Amount.{Amount}
use dora_service_utils.Pools.{Pool, add_amount, sub_amount, other_asset_id, other_asset_id_from_set}
use dora_service_utils.Pools.Liquidity.{add_liquidity, remove_liquidity}
use dora_service_utils.Pools.Liquidity.Changes.{
  remove_liquidity_conserves, add_liquidity_conserves, add_liquidity_writes,
}
use dora_service_utils.Pools.Reserves.{AreU64, sub_amount-add_amount}

abbrev pub Fraction : Type 0
Fraction = ℕ × ℕ

abbrev pub times : Fraction → Fraction → Fraction
times (a, b) (c, d) = (a * c, b * d)

abbrev pub over : Fraction → Fraction → Fraction
over (a, b) (c, d) = (a * d, b * c)

abbrev pub sum : Fraction → Fraction → Fraction
sum (a, b) (c, d) = (a * d + c * b, b * d)

abbrev pub whole : Fraction → ℤ
whole (a, b) = pos (a / b)

abbrev pub is_zero_fraction : Fraction → Bool
is_zero_fraction (a, b) = nat_beq a 0

-- A decimal.Decimal is a number here.
abbrev pub fractions : BigFloat ℕ
fractions = record {
  F = Fraction;
  set_int64 = λ z. (pos_part z, 1);
  set_int = λ z. (pos_part z, 1);
  zero_f = (0, 1);
  one_f = (1, 1);
  add_to = sum;
  mul_by = times;
  mul = times;
  quo = over;
  to_int = whole;
  sign_is_zero = is_zero_fraction;
  of_decimal = λ d. (d, 1);
}

abbrev pub base : Str
base = codes "BOND"

abbrev pub quote : Str
quote = codes "USD"

abbrev pub share : Str
share = codes "BOND-USD"

abbrev pub pool_of : ℕ → ℕ → ℕ → ℕ → Pool ℕ
pool_of shares b q n = record {
  pool_id = share;
  base_asset = base;
  quote_asset = quote;
  is_product_pool = true;
  amount_shares = shares;
  amount_base = b;
  amount_quote = q;
  fees_collected_base = 0;
  fees_collected_quote = 0;
  fee_factor = 0;
  created_at = pos 0;
  maturity_at = pos 0;
  initial_assets_ratio = 4;
  display_name = [];
  sequence = n;
}

abbrev pub pool : Pool ℕ
pool = pool_of 100 50 200 7

pool-AreU64 : AreU64 pool
pool-AreU64 = record { shares = omega arith; base = omega arith; quote = omega arith }

abbrev amount_of : Str → ℕ → Amount
amount_of id n = record { asset_id = id; amount = n }

abbrev removed : Pool ℕ
removed = pool_of 90 45 180 8

remove_liquidity_conserves_example :
    (base ≡ pool.base_asset)
    × (quote ≡ pool.quote_asset)
    × (removed.amount_base + 5 ≡ pool.amount_base)
    × (removed.amount_quote + 20 ≡ pool.amount_quote)
    × (removed.amount_shares + 10 ≡ pool.amount_shares)
    × (removed.sequence ≡ 8)
unfolding remove_liquidity dora_service_utils.Ledger.Amount.validate
    dora_service_utils.Base.Text.str_beq dora_service_utils.Pools.Liquidity.write_all
    dora_service_utils.Math.SafeMath.checked_sub_u64 dora_service_utils.Base.Word.to_i64
remove_liquidity_conserves_example =
    remove_liquidity_conserves fractions pool removed (amount_of share 10) (amount_of base 5)
      (amount_of quote 20) pool-AreU64 (omega arith) refl

abbrev added : Pool ℕ
added = pool_of 110 55 220 8

add_liquidity_conserves_example :
    (quote ≡ pool.quote_asset)
    × (share ≡ pool.pool_id)
    × (added.amount_base ≡ pool.amount_base + 5)
    × (added.amount_quote ≡ pool.amount_quote + 20)
    × (added.amount_shares ≡ pool.amount_shares + 10)
    × AreU64 added
    × (added.sequence ≡ 8)
unfolding add_liquidity dora_service_utils.Ledger.Amount.validate
    dora_service_utils.Base.Text.str_beq dora_service_utils.Pools.Liquidity.write_all
    dora_service_utils.Math.SafeMath.checked_add_u64 dora_service_utils.Base.Word.to_i64
    dora_service_utils.Pools.Liquidity.portion
add_liquidity_conserves_example =
    add_liquidity_conserves fractions pool added (amount_of base 5) (amount_of quote 20)
      (amount_of share 10) pool-AreU64 (omega arith) (omega arith) (omega arith) refl

-- Two for one of so many shares: their sum is no uint64, and the pool is left with no shares.
abbrev full : Pool ℕ
full = pool_of 9000000000000000000 1 1 7

abbrev emptied : Pool ℕ
emptied = pool_of 0 1 1 7

full-AreU64 : AreU64 full
full-AreU64 = record { shares = omega arith; base = omega arith; quote = omega arith }

add_liquidity_writes_example :
    add_liquidity fractions full (amount_of base 2) ≡ (emptied, err err_overflow_add)
unfolding dora_service_utils.Base.Text.str_beq dora_service_utils.Base.Word.to_i64
    dora_service_utils.Pools.Liquidity.portion dora_service_utils.Pools.Liquidity.deposit_amounts
    dora_service_utils.Pools.Liquidity.next_deposit
add_liquidity_writes_example =
    add_liquidity_writes fractions full (amount_of base 2) full-AreU64 (omega arith)

abbrev grown : Pool ℕ
grown = pool_of 100 60 200 8

sub_amount-add_amount_example :
    (grown.amount_base + grown.amount_quote ≡ pool.amount_base + pool.amount_quote + 10)
    × AreU64 grown
    × (sub_amount grown (amount_of base 10) ≡ (pool_of 100 50 200 9, ok tt))
    × (grown.sequence ≡ 8)
unfolding add_amount dora_service_utils.Base.Text.str_beq
    dora_service_utils.Ledger.Amount.add_uint64 dora_service_utils.Math.SafeMath.checked_add_u64
sub_amount-add_amount_example =
    sub_amount-add_amount pool (amount_of base 10) grown pool-AreU64 (omega arith) refl

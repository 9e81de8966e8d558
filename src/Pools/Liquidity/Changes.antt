-- ===== src/Pools/Liquidity/Changes.antt =====
-- What AddLiquidity and RemoveLiquidity of pools/types/pools.go do to a pool, where they succeed and
-- where they fail, with no assumption on the floats.
use dora_service_utils.Base.{
  ℕ, ◌+◌, ◌%◌, ◌<◌, ◌≡◌, Bool-cases, leb, nat_beq, inl, inr, [], ◌∷◌, arith, if◌then◌else◌,
}
use dora_service_utils.Base.Word.{u64_mod, to_i64}
use dora_service_utils.Base.Text.{str_beq}
use dora_service_utils.Base.Result.{
  Result, ok, err, typed, invalid_data, err_overflow_add, err_amount_cannot_be_zero,
  err_base_asset_mismatch,
}
use dora_service_utils.Math.SafeMath.{checked_add_u64_lem, checked_sub_u64_lem}
use dora_service_utils.Math.BigFloat.{BigFloat, uint64_of}
use dora_service_utils.Ledger.Amount
use dora_service_utils.Ledger.Amount.{Amount, new_amount, is_zero}
use dora_service_utils.Pools.{Pool, next_sequence}
use dora_service_utils.Pools.Reserves.{AreU64}
use dora_service_utils.Pools.Liquidity.{
  write_all, after_validation, portion, first_deposit, next_deposit, deposit_amounts, deposit,
  add_liquidity, remove_liquidity,
}

module _ {D : Type 0} (bf : BigFloat D) where
  open bf use {quo, sign_is_zero}

  -- A RemoveLiquidity that succeeds, on a pool with uint64 reserves and for uint64 shares: it pays
  -- out amounts of the pool's base and quote, each reserve has gone down by exactly what was paid,
  -- the shares by exactly what was handed in, and the sequence number counts one change.
  pub remove_liquidity_conserves :
      (p p' : Pool D) (shares_in base_out quote_out : Amount)
      → AreU64 p
      → shares_in.amount < u64_mod
      → remove_liquidity bf p shares_in ≡ (p', ok (base_out ∷ quote_out ∷ []))
      → (base_out.asset_id ≡ p.base_asset)
        × (quote_out.asset_id ≡ p.quote_asset)
        × (p'.amount_base + base_out.amount ≡ p.amount_base)
        × (p'.amount_quote + quote_out.amount ≡ p.amount_quote)
        × (p'.amount_shares + shares_in.amount ≡ p.amount_shares)
        × (p'.sequence ≡ next_sequence p)
  unfolding remove_liquidity write_all
  remove_liquidity_conserves p p' s b q u hs e = ground (
    arith,
    checked_sub_u64_lem p.amount_shares s.amount,
    checked_sub_u64_lem p.amount_base b.amount,
    checked_sub_u64_lem p.amount_quote q.amount,
  )

  -- An AddLiquidity that succeeds, on a pool with uint64 reserves and for a uint64 amount: it names
  -- the pool's quote asset and the pool itself, each reserve and the shares have grown by exactly
  -- what was put in and what was given out, and the sequence number counts one change.
  pub add_liquidity_conserves :
      (p p' : Pool D) (base_in quote_in shares_out : Amount)
      → AreU64 p
      → base_in.amount < u64_mod
      → quote_in.amount < u64_mod
      → shares_out.amount < u64_mod
      → add_liquidity bf p base_in ≡ (p', ok (quote_in, shares_out))
      → (quote_in.asset_id ≡ p.quote_asset)
        × (shares_out.asset_id ≡ p.pool_id)
        × (p'.amount_base ≡ p.amount_base + base_in.amount)
        × (p'.amount_quote ≡ p.amount_quote + quote_in.amount)
        × (p'.amount_shares ≡ p.amount_shares + shares_out.amount)
        × AreU64 p'
        × (p'.sequence ≡ next_sequence p)
  unfolding add_liquidity write_all
  add_liquidity_conserves p p' b q s u hb hq hs e =
      let shares = checked_add_u64_lem p.amount_shares s.amount u.shares hs in
      let base = checked_add_u64_lem p.amount_base b.amount u.base hb in
      let quote = checked_add_u64_lem p.amount_quote q.amount u.quote hq in
      (
        ground (arith, shares, base, quote),
        ground (arith, shares, base, quote),
        ground (arith, shares, base, quote),
        ground (arith, shares, base, quote),
        ground (arith, shares, base, quote),
        record {
          shares = ground (arith, shares, base, quote);
          base = ground (arith, shares, base, quote);
          quote = ground (arith, shares, base, quote);
        },
        ground (arith, shares, base, quote),
      )

  portion-lt : (x : ℕ) (ratio : bf.F) → portion bf x ratio < u64_mod
  unfolding portion uint64_of
  portion-lt x ratio = omega arith

  deposit_amounts-lt :
      (p : Pool D) (x : ℕ)
      → ((deposit_amounts bf p x).0 < u64_mod) × ((deposit_amounts bf p x).1 < u64_mod)
  unfolding deposit_amounts
  deposit_amounts-lt p x = elim (Bool-cases (sign_is_zero (bf.set_int64 (to_i64 p.amount_base)))) [
    | inl y ↦ rw y (unfold first_deposit uint64_of in (omega arith, omega arith))
    | inr n ↦ rw n (unfold next_deposit in (portion-lt _ _, portion-lt _ _))
  ]

  -- What a deposit of base for some quote and shares leaves: the sums are written one after the other
  -- and the first that is no uint64 leaves 0 in its place and ends the call.
  abbrev pub deposited : Pool D → ℕ → ℕ → ℕ → Pool D × Result (Amount × Amount)
  deposited p base quote shares =
      if leb u64_mod (p.amount_shares + shares)
      then (record p { amount_shares = 0 }, err err_overflow_add)
      else if leb u64_mod (p.amount_base + base)
      then (
        record p { amount_shares = p.amount_shares + shares; amount_base = 0 },
        err err_overflow_add,
      )
      else if leb u64_mod (p.amount_quote + quote)
      then (
        record p {
          amount_shares = p.amount_shares + shares;
          amount_base = p.amount_base + base;
          amount_quote = 0;
        },
        err err_overflow_add,
      )
      else (
        record p {
          amount_shares = p.amount_shares + shares;
          amount_base = p.amount_base + base;
          amount_quote = p.amount_quote + quote;
          sequence = (p.sequence + 1) % u64_mod;
        },
        ok (new_amount p.quote_asset quote, new_amount p.pool_id shares),
      )

  deposit-deposited :
      (p : Pool D) (a : Amount)
      → AreU64 p
      → a.amount < u64_mod
      → deposit bf p a
        ≡ deposited p a.amount (deposit_amounts bf p a.amount).0 (deposit_amounts bf p a.amount).1
  unfolding deposit write_all
  deposit-deposited p a u h =
      let (quote, shares) = deposit_amounts-lt p a.amount in
      ground (
        arith,
        checked_add_u64_lem p.amount_shares (deposit_amounts bf p a.amount).1 u.shares shares,
        checked_add_u64_lem p.amount_base a.amount u.base h,
        checked_add_u64_lem p.amount_quote (deposit_amounts bf p a.amount).0 u.quote quote,
      )

  -- AddLiquidity, on a pool with uint64 reserves and for a uint64 amount: with no asset ID, an amount
  -- of zero or an asset that is not the base it returns the error and leaves the pool as it is.
  -- Otherwise, for the quote and the shares that the floats give, it writes the exact sums of shares,
  -- base and quote in this order; the first sum that is no uint64 leaves zero in its place, keeps the
  -- sums that were written before, changes nothing else and ends in the overflow error; and where all
  -- three fit the sequence number counts one change.
  pub add_liquidity_writes :
      (p : Pool D) (a : Amount)
      → AreU64 p
      → a.amount < u64_mod
      → add_liquidity bf p a ≡ (
          if str_beq a.asset_id []
          then (p, err (typed invalid_data))
          else if nat_beq a.amount 0
          then (p, err err_amount_cannot_be_zero)
          else if str_beq a.asset_id p.base_asset
          then deposited p a.amount
              (deposit_amounts bf p a.amount).0
              (deposit_amounts bf p a.amount).1
          else (p, err err_base_asset_mismatch))
  unfolding add_liquidity after_validation Amount.validate
  add_liquidity_writes p a u h = ground (arith, deposit-deposited p a u h)

-- ===== src/Pools/Reserves.antt =====
-- AddAmount, SubAmount and AddAccumulatedFees of pools/types/pools.go on the reserves of a pool.
use dora_service_utils.Base.{◌+◌, ◌<◌, ◌≡◌, arith}
use dora_service_utils.Base.Word.{u64_mod}
use dora_service_utils.Base.Result.{ok, err, Error}
use dora_service_utils.Math.SafeMath.{checked_add_u64_lem, checked_sub_u64_lem}
use dora_service_utils.Ledger.Amount.{Amount, add_uint64}
use dora_service_utils.Ledger.Balance.{Balance}
use dora_service_utils.Pools.{Pool, add_amount, sub_amount, add_accumulated_fees, next_sequence}

-- The reserves and the sequence number are uint64.
pub record AreU64 {D : Type 0} (p : Pool D) : Type 0 where
  pub shares : p.amount_shares < u64_mod
  pub base : p.amount_base < u64_mod
  pub quote : p.amount_quote < u64_mod

module _ {D : Type 0} (p : Pool D) where
  -- A pool with uint64 reserves, after AddAmount has succeeded with a uint64 amount: its two reserves
  -- together have grown by exactly the amount and are still uint64, the sequence number counts one
  -- change, and SubAmount of the same amount succeeds and gives the pool back, but for the sequence
  -- number, which then counts both changes.
  pub sub_amount-add_amount :
      (a : Amount) (p' : Pool D)
      → AreU64 p
      → a.amount < u64_mod
      → add_amount p a ≡ (p', ok tt)
      → (p'.amount_base + p'.amount_quote ≡ p.amount_base + p.amount_quote + a.amount)
        × AreU64 p'
        × (sub_amount p' a ≡ (record p { sequence = next_sequence p' }, ok tt))
        × (p'.sequence ≡ next_sequence p)
  unfolding add_amount sub_amount add_uint64
  sub_amount-add_amount a p' u ha e =
      let base_sum = checked_add_u64_lem a.amount p.amount_base ha u.base in
      let quote_sum = checked_add_u64_lem a.amount p.amount_quote ha u.quote in
      (
        ground (arith, base_sum, quote_sum),
        record {
          shares = ground (arith, base_sum, quote_sum);
          base = ground (arith, base_sum, quote_sum);
          quote = ground (arith, base_sum, quote_sum);
        },
        ground (
          arith,
          base_sum,
          quote_sum,
          checked_sub_u64_lem p'.amount_base a.amount,
          checked_sub_u64_lem p'.amount_quote a.amount,
        ),
        ground (arith, base_sum, quote_sum),
      )

  -- AddAmount, SubAmount and AddAccumulatedFees that return an error have left the pool as it was.
  pub failed_write_keeps :
      (a : Amount) (b : Balance) (e : Error)
      → ((add_amount p a).1 ≡ err e → (add_amount p a).0 ≡ p)
        × ((sub_amount p a).1 ≡ err e → (sub_amount p a).0 ≡ p)
        × ((add_accumulated_fees p b).1 ≡ err e → (add_accumulated_fees p b).0 ≡ p)
  unfolding add_amount sub_amount add_accumulated_fees
  failed_write_keeps a b e = ((λ f. ground arith), (λ f. ground arith), λ f. ground arith)

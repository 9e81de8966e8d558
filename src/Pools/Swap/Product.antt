-- ===== src/Pools/Swap/Product.antt =====
-- What a swap of pools/types/pools.go does to the product of the reserves of a pool, with no
-- assumption on the floats.
use dora_service_utils.Base.{
  ℕ, suc, ◌+◌, ◌-◌, ◌*◌, ◌/◌, ◌<◌, ◌≡◌, ◌≢◌, refl, subst, some, [], ◌∷◌, Bool, true, false,
  Bool-cases, inl, inr, arith, Option, not, if◌then◌else◌,
}
use dora_service_utils.Base.Int.{ℤ, pos, pos_part, ltb_ℤ, ◌+ℤ◌, ◌-ℤ◌}
use dora_service_utils.Base.Word.{to_u64, i64_half, to_i64, wrap64_id}
use dora_service_utils.Base.Text.{Str, str_beq, str_beq_iff}
use dora_service_utils.Base.Result.{Result, ok, err}
use dora_service_utils.Math.BigFloat.{BigFloat, mul_i_f}
use dora_service_utils.Math.BigInt.{sub_all}
use dora_service_utils.Ledger.Balance.{Balance, amt, valid, is_zero, new_balance, integer64_int64}
use dora_service_utils.Pools.{Pool}
use dora_service_utils.Pools.Swap.{
  swapped, swap_reserves, balances, swap_fee, swap_after_fee, simulate_product_pool_swap,
}
use dora_service_utils.Pools.Swap.Payment.{
  paid_out_exact, IsGreatestPayment, quotient-IsGreatestPayment, same_payment, to_i64_exact,
  new_balance_exact,
}

-- The amounts of a reserve that Balances returns are int64 values.
record IsReserve (r : Balance) : Type 0 where
  small : r.amount < i64_half
  named : r.asset ≡ [] → r.amount ≡ 0

new_balance-IsReserve : (s : Str) (n : ℕ) → IsReserve (new_balance s (to_i64 n))
unfolding new_balance to_i64 to_u64
new_balance-IsReserve s n = record {
  small = ground arith;
  named = λ e. ground (arith, str_beq_iff s []);
}

abbrev AreReserves : Result (Balance × Balance) → Type 0
AreReserves (ok (x, y)) = IsReserve x × IsReserve y
AreReserves (err e) = Unit

reserves_of :
    {x y : Balance} (r : Result (Balance × Balance))
    → r ≡ ok (x, y)
    → AreReserves r
    → IsReserve x × IsReserve y
reserves_of r e h = subst AreReserves e h

balances-AreReserves : {D : Type 0} (p : Pool D) (s : Str) → AreReserves (balances p s)
unfolding balances
balances-AreReserves p s =
    let base = new_balance-IsReserve p.base_asset p.amount_base in
    let quote = new_balance-IsReserve p.quote_asset p.amount_quote in
    elim (Bool-cases (str_beq s p.base_asset)) [
      | inl y ↦ rw y (base, quote)
      | inr n ↦ rw n (elim (Bool-cases (str_beq s p.quote_asset)) [
        | inl y ↦ rw y (quote, base)
        | inr n ↦ rw n tt
      ])
    ]

after_fee_exact :
    (b : Balance) (f : ℕ)
    → ltb_ℤ (pos 0) (sub_all (amt b) (pos f ∷ [])) ≡ true
    → (f < b.amount)
      × (b.amount < i64_half)
      × (sub_all (amt b) (pos f ∷ []) ≡ pos (suc (b.amount - f - 1)))
unfolding amt to_i64 sub_all ◌-ℤ◌ ◌+ℤ◌
after_fee_exact b f h = (ground arith, ground arith, ground arith)

-- Everything that a swap promises, from the two reserves and the fee.
abbrev pub KeepsProduct : Balance → Balance → Balance → ℕ → Balance → Balance → Type 0
KeepsProduct r_in r_out b f out fee =
    (out.asset ≡ r_out.asset)
    × (fee.asset ≡ b.asset)
    × (fee.amount ≡ f)
    × (f < b.amount)
    × IsGreatestPayment r_in.amount r_out.amount (b.amount - f) out.amount

-- The results, where the fee leaves something.
swap_after_fee_exact :
    (r_in r_out b : Balance) (f : ℕ)
    → IsReserve r_in
    → IsReserve r_out
    → ltb_ℤ (pos 0) (sub_all (amt b) (pos f ∷ [])) ≡ true
    → let a = suc (b.amount - f - 1) in
      swap_after_fee r_in r_out b (pos f)
      ≡ some (
          ok (
            new_balance r_out.asset (pos (r_out.amount * a / (r_in.amount + a))),
            new_balance b.asset (pos f),
          ))
unfolding swap_after_fee swapped amt
swap_after_fee_exact r_in r_out b f i o y =
    let (lt, low, eq) = after_fee_exact b f y in
    let a = b.amount - f - 1 in
    let q = r_out.amount * suc a / (r_in.amount + suc a) in
    let small = quotient-IsGreatestPayment r_in.amount r_out.amount (suc a) (omega arith) in
    rw y (
      rw eq (
        rw (to_i64_exact r_in.amount i.small) (
          rw (to_i64_exact r_out.amount o.small) (
            rw (paid_out_exact r_in.amount r_out.amount a) (
              rw (wrap64_id (pos q) (omega (arith, small.0, o.small), omega arith))
                (rw (wrap64_id (pos f) (omega arith, omega arith)) refl))))))

swap_after_fee-KeepsProduct :
    (r_in r_out b out fee : Balance) (f : ℕ)
    → IsReserve r_in
    → IsReserve r_out
    → b.asset ≢ []
    → swap_after_fee r_in r_out b (pos f) ≡ some (ok (out, fee))
    → KeepsProduct r_in r_out b f out fee
unfolding swap_after_fee
swap_after_fee-KeepsProduct r_in r_out b out fee f i o named e =
    elim (Bool-cases (ltb_ℤ (pos 0) (sub_all (amt b) (pos f ∷ [])))) [
      | inl y ↦
          let (lt, low, eq) = after_fee_exact b f y in
          let a = suc (b.amount - f - 1) in
          let q = r_out.amount * a / (r_in.amount + a) in
          let best : IsGreatestPayment r_in.amount r_out.amount a q =
            quotient-IsGreatestPayment r_in.amount r_out.amount a (omega arith) in
          let same : a ≡ b.amount - f = omega (arith, lt) in
          let best' : IsGreatestPayment r_in.amount r_out.amount (b.amount - f) q =
            same_payment r_in.amount r_out.amount a (b.amount - f) q same best in
          ground (
            arith,
            swap_after_fee_exact r_in r_out b f i o y,
            best',
            lt,
            new_balance_exact r_out.asset q (λ n. omega (arith, best.0, o.named n))
                (omega (arith, best.0, o.small)),
            new_balance_exact b.asset f (λ n. absurd (named n)) (omega arith),
          )
      | inr n ↦ absurd (ground arith)
    ]

positive_sub :
    (a b : ℤ)
    → ltb_ℤ (pos 0) (sub_all a (b ∷ [])) ≡ true
    → (n : ℕ) × (sub_all a (b ∷ []) ≡ pos (suc n))
unfolding sub_all ◌+ℤ◌ ◌-ℤ◌
positive_sub a b h = (pos_part (sub_all a (b ∷ [])) - 1, ground arith)

abbrev Returns : {A : Type 0} → Option A → Type 0
Returns {A} o = (a : A) × (o ≡ some a)

-- The check of the amount that the fee leaves is what keeps the divisor from zero.
swap_after_fee-Returns :
    (r_in r_out b : Balance) (fee : ℤ)
    → IsReserve r_in
    → IsReserve r_out
    → Returns (swap_after_fee r_in r_out b fee)
unfolding swap_after_fee swapped
swap_after_fee-Returns r_in r_out b fee i o =
    elim (Bool-cases (ltb_ℤ (pos 0) (sub_all (amt b) (fee ∷ [])))) [
      | inl y ↦
          let (a, eq) = positive_sub (amt b) fee y in
          rw y (
            rw eq (
              rw (to_i64_exact r_in.amount i.small) (
                rw (to_i64_exact r_out.amount o.small)
                  (rw (paid_out_exact r_in.amount r_out.amount a) (_, refl)))))
      | inr n ↦ rw n (_, refl)
    ]

guard-Returns :
    {A : Type 0} (c : Bool) (a : A) (o : Option A) → Returns o → Returns (if c then some a else o)
guard-Returns true a o h = (a, refl)
guard-Returns false a o h = h

module _ {D : Type 0} (bf : BigFloat D) where
  -- A swap against a product pool that succeeds, at a fee that is not negative, where Balances gave
  -- the two reserves: it pays in the asset of the other reserve, charges exactly the fee, which is
  -- less than the amount put in, in the asset put in, pays no more than the reserve, and pays the
  -- greatest amount with which the product of the two reserves does not fall once what is put in
  -- without the fee has been added.
  pub simulate_product_pool_swap-KeepsProduct :
      (p : Pool D) (b r_in r_out out fee : Balance) (f : ℕ)
      → balances p b.asset ≡ ok (r_in, r_out)
      → mul_i_f bf (amt b) (swap_fee bf p) ≡ pos f
      → simulate_product_pool_swap bf p b ≡ some (ok (out, fee))
      → KeepsProduct r_in r_out b f out fee
  unfolding simulate_product_pool_swap swap_reserves valid
  simulate_product_pool_swap-KeepsProduct p b r_in r_out out fee f r m e =
      let (i, o) = reserves_of _ r (balances-AreReserves p b.asset) in
      swap_after_fee-KeepsProduct r_in r_out b out fee f i o
        (λ n. ground (arith, e, n, str_beq_iff b.asset [])) (ground (arith, r, m, e))

  swap_reserves-Returns :
      (p : Pool D) (b : Balance) (r : Result (Balance × Balance))
      → AreReserves r
      → Returns (swap_reserves bf p b r)
  unfolding swap_reserves
  swap_reserves-Returns p b (ok (x, y)) h = swap_after_fee-Returns x y b _ h.0 h.1
  swap_reserves-Returns p b (err e) h = (_, refl)

  -- A swap against a product pool never panics: the divisor of its quotient is not zero, whatever the
  -- pool, the balance put in and the floats are.
  pub simulate_product_pool_swap_returns :
      (p : Pool D) (b : Balance)
      → (r : Result (Balance × Balance)) × (simulate_product_pool_swap bf p b ≡ some r)
  unfolding simulate_product_pool_swap swap_reserves
  simulate_product_pool_swap_returns p b = guard-Returns (not (valid b)) _ _ (
      guard-Returns (is_zero b) _ _
        (swap_reserves-Returns p b (balances p b.asset) (balances-AreReserves p b.asset)))

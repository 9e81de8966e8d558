-- ===== src/Pools/Yield/Curve.antt =====
-- The time of the yield curve, calculateT of pools/types/pools.go.
use dora_service_utils.Base.{
  ℕ, zero as nought, suc, ◌-◌, ◌<◌, ◌≡◌, ap, ◌∙◌, false, arith, Bool-cases, inl, inr, if◌then◌else◌,
}
use dora_service_utils.Base.Int.{ℤ, pos, negsuc, leb_ℤ, ◌-ℤ◌}
use dora_service_utils.Base.Word.{InI64, i64_half, wrap64, wrap64_id, ◌-i◌}
use dora_service_utils.Math.Float64.{Float64}
use dora_service_utils.Pools.Yield.{calculate_t}

module _ (fl : Float64) where
  open fl use {F, zero, one, lt, div, of_int}

  -- What IEEE 754 says of the comparisons here.
  pub record Ordered : Type 0 where
    pub one_not_lt_one : lt one one ≡ false
    pub one_not_lt_zero : lt one zero ≡ false
    pub zero_not_lt_zero : lt zero zero ≡ false
    pub quotient_not_negative :
        (a b : ℕ) → lt (div (of_int (pos (suc a))) (of_int (pos (suc b)))) zero ≡ false

  -- Between zero and one.
  abbrev pub InUnit : F → Type 0
  InUnit t = (lt t zero ≡ false) × (lt one t ≡ false)

  capped-InUnit : Ordered → (t : F) → lt t zero ≡ false → InUnit (if lt one t then one else t)
  capped-InUnit o t n = elim (Bool-cases (lt one t)) [
    | inl y ↦ rw y (o.one_not_lt_zero, o.one_not_lt_one)
    | inr m ↦ rw m (n, m)
  ]

  difference : (m n : ℕ) → n < m → pos m -ℤ pos n ≡ pos (suc (m - n - 1))
  unfolding ◌-ℤ◌
  difference m n h = ground arith

  sub_exact : (m n : ℕ) → n < m → m < i64_half → pos m -i pos n ≡ pos (suc (m - n - 1))
  unfolding ◌-i◌
  sub_exact m n h k =
      ap wrap64 (difference m n h) ∙ wrap64_id (pos (suc (m - n - 1))) (omega arith, omega arith)

  -- calculateT at a time that is not before 1970, where floats are ordered as IEEE 754 says: it is
  -- between zero and one, whatever the maturity and the duration are.
  pub calculate_t_bounds :
      (n : ℕ) (end duration : ℤ)
      → Ordered
      → InI64 end
      → InUnit (calculate_t fl (pos n) end duration)
  unfolding calculate_t
  calculate_t_bounds n (negsuc e) duration o i =
      ground (arith, o.one_not_lt_zero, o.zero_not_lt_zero)
  calculate_t_bounds n (pos m) (negsuc d) o i =
      ground (arith, o.one_not_lt_zero, o.zero_not_lt_zero)
  calculate_t_bounds n (pos m) (pos nought) o i =
      ground (arith, o.one_not_lt_zero, o.zero_not_lt_zero)
  calculate_t_bounds n (pos m) (pos (suc d)) o i = elim (Bool-cases (leb_ℤ (pos m) (pos n))) [
    | inl y ↦ ground (arith, y, o.one_not_lt_zero, o.zero_not_lt_zero)
    | inr x ↦
        let later : n < m = ground (arith, x) in
        let q = o.quotient_not_negative (m - n - 1) d in
        let started : leb_ℤ (pos (suc d)) (pos 0) ≡ false = ground arith in
        rw (started, x)
          (rw (sub_exact m n later i.0)
            (capped-InUnit o (div (of_int (pos (suc (m - n - 1)))) (of_int (pos (suc d)))) q))
  ]

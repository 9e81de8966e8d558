-- ===== src/Helpers/AssetData/Coupons/Periods.antt =====
-- How the coupon queries of helpers/asset.go relate.
use dora_service_utils.Base.{
  ℕ, ◌+◌, ◌≡◌, ◌∙◌, inl, inr, ap, refl, Bool, true, false, ◌&&◌, ◌||◌, List, [], ◌∷◌, arith,
  if◌then◌else◌, length, Bool-cases,
}
use dora_service_utils.Base.Int.{ℤ, ◌≤ℤ◌}
use dora_service_utils.Base.Text.{Str}
use dora_service_utils.Base.Result.{Result, ok, err, ◌>>=◌, Result-cases}
use dora_service_utils.Math.Float64.{Float64}
use dora_service_utils.Helpers.AssetData.{Coupon, AssetData, look}
use dora_service_utils.Helpers.AssetData.Coupons.{
  listed, map_is_nil, ending, coupons_ending_in_range,
}

module _ (fl : Float64) (unix_from_date : Str → Result ℤ) where
  open fl use {F, zero, lt}

  -- The number of coupons, or the error.
  abbrev pub count : Result (List (Coupon F)) → Result ℕ
  count (ok cs) = ok (length cs)
  count (err e) = err e

  abbrev pub plus : Result ℕ → Result ℕ → Result ℕ
  plus (ok m) (ok n) = ok (m + n)
  plus (ok m) (err e) = err e
  plus (err e) n = err e

  -- One more coupon in front of what a loop returns.
  abbrev kept : Bool → Coupon F → Result (List (Coupon F)) → Result (List (Coupon F))
  kept b x r = r >>= λ rest. ok (if b && lt zero x.yield then x ∷ rest else rest)

  abbrev one_if : Bool → ℕ
  one_if true = 1
  one_if false = 0

  count-kept :
      (b : Bool) (x : Coupon F) (r : Result (List (Coupon F)))
      → count (kept b x r) ≡ plus (ok (one_if (b && lt zero x.yield))) (count r)
  count-kept b x (err e) = refl
  count-kept b x (ok cs) = ground arith

  plus-swap :
      (m n : ℕ) (r s : Result ℕ)
      → plus (ok (m + n)) (plus r s) ≡ plus (plus (ok m) r) (plus (ok n) s)
  plus-swap m n (err e) s = refl
  plus-swap m n (ok k) (err e) = refl
  plus-swap m n (ok k) (ok l) = ap ok (omega arith)

  one_if-or :
      (p q y : Bool) → (p && q) ≡ false → one_if ((p || q) && y) ≡ one_if (p && y) + one_if (q && y)
  one_if-or p q y h = ground arith

  -- A test that is the disjoint union of two.
  ending-split :
      (r p q : ℤ → Bool) (cs : List (Coupon F))
      → ((e : ℤ) → (r e ≡ (p e || q e)) × ((p e && q e) ≡ false))
      → count (ending fl unix_from_date r cs)
        ≡ plus (count (ending fl unix_from_date p cs)) (count (ending fl unix_from_date q cs))
  unfolding ending
  ending-split r p q [] h = refl
  ending-split r p q (x ∷ cs) h = elim (Result-cases (unix_from_date x.date)) [
    | inr (e, f) ↦ rw f refl
    | inl (e, f) ↦
        let ep = ending fl unix_from_date p cs in
        let eq = ending fl unix_from_date q cs in
        let y = lt zero x.yield in
        rw f (
          count-kept (r e) x (ending fl unix_from_date r cs)
          ∙ (rw ((h e).0) (
              rw (one_if-or (p e) (q e) y ((h e).1)) (
                rw (ending-split r p q cs h) (
                  plus-swap (one_if (p e && y)) (one_if (q e && y)) (count ep) (count eq)
                  ∙ (rw (count-kept (p e) x ep) (rw (count-kept (q e) x eq) refl)))))))
  ]

  -- CouponsEndingInRange counts no coupon twice and misses none where a range is cut in two: the
  -- coupons that end in (a, c] are as many as those in (a, b] and in (b, c] together, and an error
  -- for the whole is an error for the parts.
  pub coupons_ending_in_range_splits :
      (ad : AssetData F) (id : Str) (a b c : ℤ)
      → a ≤ℤ b
      → b ≤ℤ c
      → count (coupons_ending_in_range fl unix_from_date ad id a c)
        ≡ plus
            (count (coupons_ending_in_range fl unix_from_date ad id a b))
            (count (coupons_ending_in_range fl unix_from_date ad id b c))
  unfolding coupons_ending_in_range
  coupons_ending_in_range_splits ad id a b c h k = elim (Bool-cases (map_is_nil ad.coupons)) [
    | inl y ↦ rw y refl
    | inr n ↦
        rw n (ending-split _ _ _ (listed (look id ad.coupons)) (λ e. (ground arith, ground arith)))
  ]

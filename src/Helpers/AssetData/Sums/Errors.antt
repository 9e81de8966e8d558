-- ===== src/Helpers/AssetData/Sums/Errors.antt =====
-- When the Exact... sums of helpers/asset.go return an error, and what they are where they do not.
use dora_service_utils.Base.{
  ◌≡◌, ◌↔◌, ◌⊎◌, inl, inr, refl, sym, ap, subst, ◌∙◌, true, false, not, Option, none, some, [], ◌∷◌,
  arith, Bool-cases, if◌then◌else◌,
}
use dora_service_utils.Base.Int.{ℤ, pos, ltb_ℤ}
use dora_service_utils.Base.Text.{Str}
use dora_service_utils.Base.Dict.{Dict}
use dora_service_utils.Base.Result.{ok, err, Error, Result-cases, ◌>>=◌}
use dora_service_utils.Math.Float64.{Float64}
use dora_service_utils.Ledger.Balances.{Balances, entries}
use dora_service_utils.Ledger.Balances.Selection.{iterate, iterate_entries}
use dora_service_utils.Ledger.Position.{Position}
use dora_service_utils.Helpers.AssetData.{
  AssetData, decimals_of, price_of, collateral_weight_of, asset_value_in_usd,
}
use dora_service_utils.Helpers.AssetData.Sums.{
  Term, added, sum_of, value_term, weighted_term, limit_term, collateral_term, exact_borrow_limit,
  exact_collateral_value,
}

module _ (fl : Float64) where
  open fl use {F, zero, one, beq, add}

  -- The values of the entries, one after the other.
  unfoldable pub total : (Str → ℤ → Term fl) → Dict Str ℤ → F → F
  unfolding added
  total term [] sum = sum
  total term ((id, amt) ∷ d) sum = total term d (added fl (term id amt) sum).0

  -- Each entry has the property.
  abbrev pub Each : (Str → ℤ → Type 0) → Dict Str ℤ → Type 0
  Each P [] = Unit
  Each P ((id, amt) ∷ d) = P id amt × Each P d

  -- A term with no error.
  abbrev pub IsValue : Term fl → Type 0
  IsValue (ok v) = Unit
  IsValue (err e) = ⊥

  module _ (term : Str → ℤ → Term fl) where
    sum_from : Dict Str ℤ → F → F × Option Error
    sum_from d s = iterate_entries (λ id amt u. added fl (term id amt) u) d s

    -- The rest of the loop, after what the callback gives for an entry.
    go_on : Dict Str ℤ → F × Option Error → F × Option Error
    go_on d (s, none) = sum_from d s
    go_on d (s, some e) = (s, some e)

    sum_from_lem :
        (id : Str) (amt : ℤ) (d : Dict Str ℤ) (s : F)
        → sum_from ((id, amt) ∷ d) s ≡ go_on d (added fl (term id amt) s)
    unfolding sum_from iterate_entries go_on
    sum_from_lem id amt d s = ground arith

    sum_from-ok :
        (id : Str) (amt : ℤ) (d : Dict Str ℤ) (s : F) (v : Option F)
        → term id amt ≡ ok v
        → sum_from ((id, amt) ∷ d) s ≡ sum_from d (added fl (ok v) s).0
    unfolding go_on added
    sum_from-ok id amt d s none e = sum_from_lem id amt d s ∙ ap (λ t. go_on d (added fl t s)) e
    sum_from-ok id amt d s (some v) e = sum_from_lem id amt d s ∙ ap (λ t. go_on d (added fl t s)) e

    sum_from-err :
        (id : Str) (amt : ℤ) (d : Dict Str ℤ) (s : F) (x : Error)
        → term id amt ≡ err x
        → sum_from ((id, amt) ∷ d) s ≡ (s, some x)
    unfolding go_on added
    sum_from-err id amt d s x e = sum_from_lem id amt d s ∙ ap (λ t. go_on d (added fl t s)) e

    module _ (P : Str → ℤ → Type 0)
        (fits : (id : Str) (amt : ℤ) → IsValue (term id amt) ↔ P id amt) where
      Each-of_none : (d : Dict Str ℤ) (s : F) → (sum_from d s).1 ≡ none → Each P d
      Each-of_none [] s h = tt
      Each-of_none ((id, amt) ∷ d) s h = elim (Result-cases (term id amt)) [
        | inl (v, e) ↦ (
          (fits id amt).0 (subst IsValue (sym e) tt),
          Each-of_none d (added fl (ok v) s).0
              (ap (λ r. r.1) (sym (sum_from-ok id amt d s v e)) ∙ h),
        )
        | inr (x, e) ↦
            let failed : some x ≡ none = ap (λ r. r.1) (sym (sum_from-err id amt d s x e)) ∙ h in
            absurd (ground arith)
      ]

      sum_of-Each : (d : Dict Str ℤ) (s : F) → Each P d → sum_from d s ≡ (total term d s, none)
      unfolding total
      sum_of-Each [] s h = unfold sum_from iterate_entries in refl
      sum_of-Each ((id, amt) ∷ d) s h = elim (Result-cases (term id amt)) [
        | inl (v, e) ↦
            sum_from-ok id amt d s v e
            ∙ sum_of-Each d (added fl (ok v) s).0 h.1
            ∙ ap (λ t. (total term d (added fl t s).0, none)) (sym e)
        | inr (x, e) ↦ absurd (subst IsValue e ((fits id amt).1 h.0))
      ]

      -- A sum that returns no error exactly where each entry fits, and is then the sum of the values.
      sum_iff :
          (b : Balances)
          → (((sum_of fl term b).1 ≡ none) ↔ Each P (entries b))
            × (((sum_of fl term b).1 ≡ none)
                → sum_of fl term b ≡ (total term (entries b) zero, none))
      unfolding sum_of iterate sum_from
      sum_iff b = (
        (λ h. Each-of_none (entries b) zero h, λ h. ap (λ r. r.1) (sum_of-Each (entries b) zero h)),
        λ h. sum_of-Each (entries b) zero (Each-of_none (entries b) zero h),
      )

  module _ (ad : AssetData F) where
    -- The asset has decimals and a price.
    abbrev pub IsPriced : Str → Type 0
    IsPriced id =
        ((decimals : ℤ) × (decimals_of ad id ≡ ok decimals))
        × ((price : F) × (price_of ad id ≡ ok price))

    -- The entry is not positive, or its asset has a collateral weight, which is zero or goes with
    -- decimals and a price.
    abbrev pub IsCovered : Str → ℤ → Type 0
    IsCovered id amt =
        (ltb_ℤ (pos 0) amt ≡ false)
        ⊎ ((cw : F) × (collateral_weight_of ad id ≡ ok cw) × ((beq cw zero ≡ true) ⊎ IsPriced id))

    IsValue-IsPriced :
        (amt : ℤ) (id : Str) (m : F) → IsValue (value_term fl ad amt id m) ↔ IsPriced id
    unfolding value_term asset_value_in_usd
    IsValue-IsPriced amt id m = elim (Result-cases (decimals_of ad id)) [
      | inl (d, e) ↦ elim (Result-cases (price_of ad id)) [
        | inl (q, g) ↦ rw e (rw g ((λ h. ((d, refl), (q, refl))), (λ h. tt)))
        | inr (x, g) ↦ rw e (rw g ((λ h. absurd h), (λ h. absurd (cc h.1.1))))
      ]
      | inr (x, e) ↦ rw e ((λ h. absurd h), (λ h. absurd (cc h.0.1)))
    ]

    -- What a weight leads to.
    IsValue-weighted :
        (amt : ℤ) (id : Str) (w m : F)
        → IsValue (weighted_term fl ad amt id w m) ↔ ((beq w zero ≡ true) ⊎ IsPriced id)
    unfolding weighted_term
    IsValue-weighted amt id w m = elim (Bool-cases (beq w zero)) [
      | inl y ↦ rw y ((λ h. inl refl), (λ h. tt))
      | inr n ↦
          let (to, from) = IsValue-IsPriced amt id m in
          rw n ((λ h. inr (to h)), (λ h. elim h [ inl y ↦ absurd (ground arith) | inr p ↦ from p ]))
    ]

    -- A callback that looks up the collateral weight and goes on with a multiplier.
    weighed : (F → F) → Str → ℤ → Term fl
    unfolding weighted_term
    weighed m id amt =
        if not (ltb_ℤ (pos 0) amt)
        then ok none
        else (collateral_weight_of ad id >>= λ cw. weighted_term fl ad amt id cw (m cw))

    weighed_iff : (m : F → F) (id : Str) (amt : ℤ) → IsValue (weighed m id amt) ↔ IsCovered id amt
    unfolding weighed
    weighed_iff m id amt = elim (Bool-cases (ltb_ℤ (pos 0) amt)) [
      | inr n ↦ rw n ((λ h. inl refl), (λ h. tt))
      | inl y ↦ elim (Result-cases (collateral_weight_of ad id)) [
        | inl (cw, e) ↦
            let (to, from) = IsValue-weighted amt id cw (m cw) in
            rw y (
              rw e (
                (λ h. inr (cw, refl, to h)),
                (λ h. elim h [
                  | inl z ↦ absurd (cc z)
                  | inr (w, same, p) ↦
                      let found : w ≡ cw = cc same in
                      from (subst (λ t. (beq t zero ≡ true) ⊎ IsPriced id) found p)
                ]),
              ))
        | inr (x, e) ↦ rw y (
            rw e (
              (λ h. absurd h),
              (λ h. elim h [ inl z ↦ absurd (cc z) | inr (w, same, p) ↦ absurd (cc same) ]),
            ))
      ]
    ]

    limit_term_iff : (id : Str) (amt : ℤ) → IsValue (limit_term fl ad id amt) ↔ IsCovered id amt
    unfolding limit_term weighed
    limit_term_iff id amt = weighed_iff (λ cw. cw) id amt

    collateral_term_iff :
        (id : Str) (amt : ℤ) → IsValue (collateral_term fl ad id amt) ↔ IsCovered id amt
    unfolding collateral_term weighed
    collateral_term_iff id amt = weighed_iff (λ cw. one) id amt

    -- ExactBorrowLimit returns no error exactly where each positive amount that is owned is of an
    -- asset with a collateral weight, which is zero or goes with decimals and a price, and so does
    -- ExactCollateralValue: one of them fails exactly where the other does.
    pub borrow_limit-collateral_value_iff :
        (p : Position Balances)
        → (((exact_borrow_limit fl ad p).1 ≡ none) ↔ Each IsCovered (entries p.exported.owned))
          × (((exact_collateral_value fl ad p).1 ≡ none)
              ↔ Each IsCovered (entries p.exported.owned))
    unfolding exact_borrow_limit exact_collateral_value
    borrow_limit-collateral_value_iff p = (
      (sum_iff (limit_term fl ad) IsCovered limit_term_iff p.exported.owned).0,
      (sum_iff (collateral_term fl ad) IsCovered collateral_term_iff p.exported.owned).0,
    )

-- ===== src/Ledger/Module/Validity.antt =====
-- When Validate of ledger/types/module.go accepts a module, and when it panics.
use dora_service_utils.Base.{
  ◌≡◌, ◌≢◌, ◌⊎◌, ◌↔◌, refl, Bool, true, false, Option, none, some, [], ◌∷◌, arith,
}
use dora_service_utils.Base.Int.{ℤ, pos, negsuc, ◌<ℤ◌}
use dora_service_utils.Base.Text.{Str, str_beq, str_beq_iff}
use dora_service_utils.Base.Dict.{Dict}
use dora_service_utils.Base.Result.{Result, ok, err, fail_if, typed, invalid_data, internal}
use dora_service_utils.Ledger.Balances.{Balances, entries}
use dora_service_utils.Ledger.Balances.Selection
use dora_service_utils.Ledger.Module.{
  Exported, Module, ◌then◌, has_nil, is_missing, valid_field, valid_snapshots, valid_snapshots_of,
  snapshot_entries, validate,
}

-- The balances are there, and pass their own Validate.
abbrev pub Passes : Option Balances → Bool → Type 0
Passes none allow_negative = ⊥
Passes (some b) allow_negative = Selection.validate b allow_negative ≡ ok tt

-- Every recorded supply is positive, or -1 for one that has not been tracked yet.
abbrev pub AllTracked : Dict Str ℤ → Type 0
AllTracked [] = Unit
AllTracked ((id, amt) ∷ d) = ((amt ≡ negsuc 0) ⊎ (pos 0 <ℤ amt)) × AllTracked d

abbrev pub TrackedSnapshots : Option Balances → Type 0
TrackedSnapshots none = ⊥
TrackedSnapshots (some b) = AllTracked (entries b)

-- The six sets that may hold no negative amount.
abbrev pub PassesSix : Exported (Option Balances) → Type 0
PassesSix e =
    Passes e.balance false
    × Passes e.supplied false
    × Passes e.virtual false
    × Passes e.borrowed false
    × Passes e.coupon_funds false
    × Passes e.dollar_coupon_fund_sources false

abbrev pub IsValid : Module (Option Balances) → Type 0
IsValid m =
    PassesSix m.exported
    × Passes m.exported.total_supply_snapshots true
    × TrackedSnapshots m.exported.total_supply_snapshots
    × (m.original ≢ [])

abbrev Accepts : Option (Result (Unit {0})) → Type 0
Accepts r = r ≡ some (ok tt)

then_iff : (a b : Option (Result (Unit {0}))) → Accepts (a then b) ↔ (Accepts a × Accepts b)
then_iff none b = ground arith
then_iff (some (ok tt)) b = ground arith
then_iff (some (err e)) b = ground arith

valid_field_iff : (o : Option Balances) (n : Bool) → Accepts (valid_field o n) ↔ Passes o n
unfolding valid_field
valid_field_iff none n = ground arith
valid_field_iff (some b) n = ground arith

valid_snapshots_iff : (d : Dict Str ℤ) → (valid_snapshots d ≡ ok tt) ↔ AllTracked d
unfolding valid_snapshots
valid_snapshots_iff [] = ground arith
valid_snapshots_iff ((id, amt) ∷ d) = ground (arith, valid_snapshots_iff d)

tracked_iff :
    (o : Option Balances) → Accepts (valid_snapshots_of (snapshot_entries o)) ↔ TrackedSnapshots o
unfolding snapshot_entries valid_snapshots_of
tracked_iff none = ground arith
tracked_iff (some b) = ground (arith, valid_snapshots_iff (entries b))

Passes-present : (o : Option Balances) (n : Bool) → Passes o n → is_missing o ≡ false
Passes-present none n p = absurd p
Passes-present (some b) n p = refl

has_nil_lem : (e : Exported (Option Balances)) → PassesSix e → has_nil e ≡ false
unfolding has_nil
has_nil_lem e p = ground (
  arith,
  Passes-present e.balance false p.0,
  Passes-present e.supplied false p.1,
  Passes-present e.virtual false p.2,
  Passes-present e.borrowed false p.3,
  Passes-present e.coupon_funds false p.4,
  Passes-present e.dollar_coupon_fund_sources false p.5,
)

-- Two checks, one after the other, of conditions that are known.
both :
    {P Q : Type 0} (a b : Option (Result (Unit {0})))
    → (Accepts a ↔ P)
    → (Accepts b ↔ Q)
    → Accepts (a then b) ↔ (P × Q)
both a b p q = (
  (λ h. let (x, y) = (then_iff a b).0 h in (p.0 x, q.0 y)),
  (λ h. (then_iff a b).1 (p.1 h.0, q.1 h.1)),
)

original_iff : (s : Str) → Accepts (some (fail_if (str_beq s []) (typed internal))) ↔ (s ≢ [])
original_iff s = ground (arith, str_beq_iff s [])

nil_iff :
    (e : Exported (Option Balances))
    → Accepts (some (fail_if (has_nil e) (typed invalid_data))) ↔ (has_nil e ≡ false)
nil_iff e = ground arith

-- Validate returns no error exactly where all seven sets of balances are there and pass their own
-- Validate, the first six with no negative amount allowed, every recorded total supply is positive or
-- -1, and the original text is not empty.
pub validate_iff : (m : Module (Option Balances)) → (validate m ≡ some (ok tt)) ↔ IsValid m
unfolding validate
validate_iff m =
    let e = m.exported in
    let checks = both _ _ (nil_iff e) (
      both _ _ (valid_field_iff e.balance false) (
        both _ _ (valid_field_iff e.supplied false) (
          both _ _ (valid_field_iff e.virtual false) (
            both _ _ (valid_field_iff e.borrowed false) (
              both _ _ (valid_field_iff e.coupon_funds false) (
                both _ _ (valid_field_iff e.dollar_coupon_fund_sources false) (
                  both _ _ (valid_field_iff e.total_supply_snapshots true) (
                    both _ _ (tracked_iff e.total_supply_snapshots)
                      (original_iff m.original))))))))) in
    (
      (λ h.
          let (n, (p1, (p2, (p3, (p4, (p5, (p6, (t, (s, o))))))))) = checks.0 h in
          ((p1, p2, p3, p4, p5, p6), t, s, o)),
      (λ v.
          let ((p1, p2, p3, p4, p5, p6), t, s, o) = v in
          checks.1 (has_nil_lem e v.0, (p1, (p2, (p3, (p4, (p5, (p6, (t, (s, o)))))))))),
    )

panics_iff :
    (a b : Option (Result (Unit {0}))) → (a then b ≡ none) ↔ ((a ≡ none) ⊎ (Accepts a × (b ≡ none)))
panics_iff none b = ground arith
panics_iff (some (ok tt)) b = ground arith
panics_iff (some (err e)) b = ground arith

-- Validate panics exactly where the six sets that may hold no negative amount are there and pass
-- their own Validate, and the total supply snapshots are nil.
pub validate-panics_iff :
    (m : Module (Option Balances))
    → (validate m ≡ none) ↔ (PassesSix m.exported × (m.exported.total_supply_snapshots ≡ none))
unfolding validate has_nil valid_field snapshot_entries valid_snapshots_of
validate-panics_iff m = ground arith

-- ===== src/Helpers/Stablecoin/Returns.antt =====
-- When the functions of helpers/users.go return, and do not panic at a division by zero.
use dora_service_utils.Base.{
  zero, suc, ◌≡◌, ◌≢◌, refl, Bool, true, false, not, ◌||◌, Option, none, some, List, [], ◌∷◌, arith,
  if◌then◌else◌, Bool-cases, inl, inr,
}
use dora_service_utils.Base.Int.{ℤ, pos, negsuc, ◌≤ℤ◌, leb_ℤ, -ℤ_parts}
use dora_service_utils.Base.Word.{◌-i◌, -i_exact}
use dora_service_utils.Base.Signed.{div_i64}
use dora_service_utils.Base.Text.{Str, str_beq}
use dora_service_utils.Base.Result.{ok, Result-cases}
use dora_service_utils.Ledger.Balance.{Balance, amt, integer64_int64}
use dora_service_utils.Ledger.Balances.{Balances, amount_of}
use dora_service_utils.Ledger.Balances.Calculus.{has_at_least}
use dora_service_utils.Ledger.Balances.Selection.{positive_assets}
use dora_service_utils.Ledger.Position.{Position}
use dora_service_utils.Helpers.AssetData.{AssetData, is_currency_of, decimals_of}
use dora_service_utils.Helpers.Stablecoin.{
  Work, ◌>>=◌, exp10, apply_decimals_then_round, convert_asset, convert_round, convert_all,
  activate, netted, net, min_i, with_decimals, clean, cleanup,
}
use dora_service_utils.Helpers.Stablecoin.Decimals.{exp10_exact, power_positive}

abbrev pub returns {ℓ} : {A : Type ℓ} → Option A → Bool
returns none = false
returns (some a) = true

-- A number of decimals from 0 to 18.
abbrev pub IsSmall : ℤ → Type 0
IsSmall d = (pos 0 ≤ℤ d) × (d ≤ℤ pos 18)

-- Every asset has a small number of decimals.
abbrev pub AreSmall : {F : Type 0} → AssetData F → Type 0
AreSmall assets = (id : Str) (d : ℤ) → decimals_of assets id ≡ ok d → IsSmall d

div_i64-returns : (a m : ℤ) → m ≢ pos 0 → returns (div_i64 a m) ≡ true
unfolding div_i64
div_i64-returns a (pos zero) h = ground arith
div_i64-returns a (pos (suc n)) h = refl
div_i64-returns a (negsuc n) h = refl

exp10-nonzero : (x : ℤ) → IsSmall x → exp10 x ≢ pos 0
exp10-nonzero (pos x) h e = ground (arith, exp10_exact x, power_positive x)
exp10-nonzero (negsuc x) h e = ground arith

-- What follows a computation that returns.
bind-returns :
    {A B : Type 0} (o : Option A) (f : A → Option B)
    → returns o ≡ true
    → ((a : A) → returns (f a) ≡ true)
    → returns (o >>= f) ≡ true
bind-returns none f h k = h
bind-returns (some a) f h k = k a

pub apply_decimals-returns :
    (n x : ℤ) (round_up : Bool)
    → IsSmall x
    → returns (apply_decimals_then_round n x round_up) ≡ true
unfolding apply_decimals_then_round
apply_decimals-returns n x round_up h =
    bind-returns (div_i64 n (exp10 x)) _ (div_i64-returns n (exp10 x) (exp10-nonzero x h))
      (λ r. refl)

-- The difference of two small numbers of decimals, the first not below the second.
difference-IsSmall : (a b : ℤ) → IsSmall a → IsSmall b → b ≤ℤ a → IsSmall (a -i b)
difference-IsSmall a b h k l = ground (arith, -i_exact a b, -ℤ_parts a b)

module _ {F : Type 0} (assets : AssetData F) (small : AreSmall assets) where
  module _ (required : Str) (decimals goal : ℤ) where
    round-returns :
        (w : Work) (id : Str) → returns (convert_round assets required decimals goal w id) ≡ true
    unfolding convert_round convert_asset
    round-returns w id = elim (Bool-cases (not (is_currency_of assets id) || str_beq id required)) [
      | inl y ↦ rw y refl
      | inr n ↦ rw n (elim (Result-cases (decimals_of assets id)) [
        | inr (x, f) ↦ rw f refl
        | inl (c, f) ↦ rw f (
            bind-returns (apply_decimals_then_round (amount_of w.owned id) c false) _
              (apply_decimals-returns (amount_of w.owned id) c false (small id c f)) (λ d. refl))
      ])
    ]

    loop-returns :
        (w : Work) (ids : List Str)
        → returns (convert_all assets required decimals goal w ids) ≡ true
    unfolding convert_all
    loop-returns w [] = refl
    loop-returns w (id ∷ ids) = elim (Bool-cases (leb_ℤ goal w.converted)) [
      | inl y ↦ rw y refl
      | inr n ↦ rw n (
          bind-returns (convert_round assets required decimals goal w id) _ (round-returns w id)
            (λ w'. loop-returns w' ids))
    ]

  either-returns :
      {A : Type 0} (b : Bool) (x y : Option A)
      → returns x ≡ true
      → returns y ≡ true
      → returns (if b then x else y) ≡ true
  either-returns true x y h k = h
  either-returns false x y h k = k

  activate-returns :
      (p : Position Balances) (required : Balance) → returns (activate assets p required) ≡ true
  unfolding activate
  activate-returns p required =
      let missing = amt required -i amount_of p.exported.owned required.asset in
      either-returns (not (is_currency_of assets required.asset)) _ _ refl (
        either-returns (has_at_least p.exported.owned required.asset (amt required)) _ _ refl
          (elim (Result-cases (decimals_of assets required.asset)) [
            | inr (x, f) ↦ rw f refl
            | inl (d, f) ↦ rw f (
                bind-returns (apply_decimals_then_round missing d true) _
                  (apply_decimals-returns missing d true (small required.asset d f))
                  (λ goal.
                    bind-returns (convert_all assets required.asset d goal _ _) _
                      (loop-returns required.asset d goal _ (positive_assets p.exported.owned))
                      (λ x. refl)))
          ]))

  netted-returns :
      (p : Position Balances) (pos_bal neg_bal : Balance) (up down : ℤ) (x y z : Option ℤ)
      → returns x ≡ true
      → returns y ≡ true
      → returns z ≡ true
      → returns (netted assets p pos_bal neg_bal up down x y z) ≡ true
  unfolding netted
  netted-returns p pos_bal neg_bal up down x y z h k l = ground arith

  net-returns :
      (p : Position Balances) (pos_id : Str) (pos_bal neg_bal : Balance) (m n : ℤ)
      → IsSmall m
      → IsSmall n
      → returns (net assets p pos_id pos_bal neg_bal m n) ≡ true
  unfolding net
  net-returns p pos_id pos_bal neg_bal m n h k =
      let least = min_i assets m n in
      let least_small : IsSmall least = ground arith in
      let up = difference-IsSmall m least h least_small (ground arith) in
      let down = difference-IsSmall n least k least_small (ground arith) in
      netted-returns p pos_bal neg_bal (m -i least) (n -i least) _ _ _
        (apply_decimals-returns (amount_of p.exported.owned pos_id) (m -i least) false up)
        (apply_decimals-returns (amt pos_bal) (m -i least) false up)
        (apply_decimals-returns (amt neg_bal) (n -i least) false down)

  with_decimals-returns :
      (p : Position Balances) (pos_id neg_id : Str) (pos_bal neg_bal : Balance)
      → returns (
          with_decimals assets p pos_id pos_bal neg_bal
            (decimals_of assets pos_id)
            (decimals_of assets neg_id))
        ≡ true
  unfolding with_decimals
  with_decimals-returns p pos_id neg_id pos_bal neg_bal =
      elim (Result-cases (decimals_of assets pos_id)) [
        | inr (x, f) ↦ rw f refl
        | inl (m, f) ↦ elim (Result-cases (decimals_of assets neg_id)) [
          | inr (x, g) ↦ rw f (rw g refl)
          | inl (n, g) ↦ rw f (
              rw g (net-returns p pos_id pos_bal neg_bal m n (small pos_id m f) (small neg_id n g)))
        ]
      ]

  clean-returns :
      (p : Position Balances) (neg_ids pos_ids : List Str)
      → returns (clean assets p neg_ids pos_ids) ≡ true
  unfolding clean
  clean-returns p [] pos_ids = refl
  clean-returns p (i ∷ is) [] = refl
  clean-returns p (i ∷ is) (j ∷ js) =
      either-returns (not (is_currency_of assets i)) _ _ refl
        (either-returns (not (is_currency_of assets j)) _ _ refl (with_decimals-returns p j i _ _))

  -- Where every registered asset has from 0 to 18 decimals, ActivateStablecoinEquivalence and
  -- CleanupStablecoinEquivalence return, on any position and for any balance.
  pub activate-cleanup_return :
      (p : Position Balances) (required : Balance)
      → (returns (activate assets p required) ≡ true) × (returns (cleanup assets p) ≡ true)
  unfolding cleanup
  activate-cleanup_return p required = (activate-returns p required, clean-returns p _ _)

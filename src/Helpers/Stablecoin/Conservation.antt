-- ===== src/Helpers/Stablecoin/Conservation.antt =====
-- helpers/users.go: what ActivateStablecoinEquivalence and CleanupStablecoinEquivalence do to what a
-- user owns, less the effect of stablecoin equivalence, which is the user's own balance.
use dora_service_utils.Base.{
  ◌≡◌, inl, inr, refl, Bool, true, false, not, ◌||◌, Option, none, some, List, [], ◌∷◌,
  if◌then◌else◌, Bool-cases, Option-cases,
}
use dora_service_utils.Base.Text.{Str, str_beq}
use dora_service_utils.Base.Int.{ℤ, pos, leb_ℤ}
use dora_service_utils.Base.Word.{◌-i◌}
use dora_service_utils.Base.Signed.{◌*i◌}
use dora_service_utils.Base.Result.{Result, ok, err, Result-cases}
use dora_service_utils.Ledger.Balance.{Balance, amt, integer64_int64}
use dora_service_utils.Ledger.Balances.{Balances, amount_of}
use dora_service_utils.Ledger.Balances.Calculus.{has_at_least}
use dora_service_utils.Ledger.Balances.Selection.{positive_assets, asset_ids, negative, positive}
use dora_service_utils.Ledger.Balances.WellFormed.{IsWellFormed}
use dora_service_utils.Ledger.Position.{Position}
use dora_service_utils.Helpers.AssetData.{AssetData, is_currency_of, decimals_of}
use dora_service_utils.Helpers.Stablecoin.{
  Outcome, Work, ◌>>=◌, apply_decimals_then_round, with_balances, exchange, advance, convert_asset,
  convert_round, convert_all, activate, netted, net, min_i, exp10, with_decimals, clean,
  after_exchange, cleanup,
}
use dora_service_utils.Helpers.Stablecoin.InStep.{
  IsInStep, IsInStep-refl, IsInStep-trans, exchange-IsInStep,
}

-- A choice between no change and a change in step.
kept_if :
    (b : Bool) (w w' : Work)
    → IsInStep w.owned w.sseq w.owned w.sseq
    → IsInStep w.owned w.sseq w'.owned w'.sseq
    → IsInStep w.owned w.sseq (if b then w else w').owned (if b then w else w').sseq
kept_if true w w' h k = h
kept_if false w w' h k = k

-- The work that a round leaves, if it does not panic, is in step.
abbrev KeepsStep : Work → Option Work → Type 0
KeepsStep w none = Unit
KeepsStep w (some w') = IsInStep w.owned w.sseq w'.owned w'.sseq

abbrev KeepsLoop : Work → Option (Work × Bool) → Type 0
KeepsLoop w none = Unit
KeepsLoop w (some (w', done)) = IsInStep w.owned w.sseq w'.owned w'.sseq

then_KeepsLoop :
    (w w' : Work) (r : Option (Work × Bool))
    → IsInStep w.owned w.sseq w'.owned w'.sseq
    → KeepsLoop w' r
    → KeepsLoop w r
then_KeepsLoop w w' none h k = tt
then_KeepsLoop w w' (some (w'', done)) h k =
    IsInStep-trans w.owned w.sseq w'.owned w'.sseq w''.owned w''.sseq h k

-- What both functions promise of a position: only Owned and SSEQ change, and they change in step.
pub record IsExchange (p q : Position Balances) : Type 0 where
  pub in_step : IsInStep p.exported.owned p.exported.sseq q.exported.owned q.exported.sseq
  pub other_fields : q ≡ with_balances p q.exported.owned q.exported.sseq

abbrev KeepsPosition : Position Balances → Option Outcome → Type 0
KeepsPosition p none = Unit
KeepsPosition p (some o) = IsExchange p o.left

-- A round leaves the work as it is, or does one exchange.
module _ {F : Type 0} (assets : AssetData F) (required : Str) (decimals goal : ℤ) where
  advance-IsInStep :
      (w : Work) (dollars : ℤ) (loss_id gain_id : Str) (loss gain : ℤ)
      → IsWellFormed w.owned
      → IsWellFormed w.sseq
      → let w' = advance w dollars (exchange w.owned w.sseq loss_id loss gain_id gain) in
        IsInStep w.owned w.sseq w'.owned w'.sseq
  unfolding advance
  advance-IsInStep w dollars loss_id gain_id loss gain h k =
      elim (Result-cases (exchange w.owned w.sseq loss_id loss gain_id gain)) [
        | inr (x, f) ↦ rw f (IsInStep-refl w.owned w.sseq h k)
        | inl ((o, s), f) ↦
            rw f (exchange-IsInStep w.owned w.sseq o s loss_id gain_id loss gain h k f)
      ]

  convert_asset-KeepsStep :
      (w : Work) (id : Str) (c_decimals : ℤ)
      → IsWellFormed w.owned
      → IsWellFormed w.sseq
      → KeepsStep w (convert_asset assets required decimals goal w id c_decimals)
  unfolding convert_asset
  convert_asset-KeepsStep w id c_decimals h k =
      elim (Option-cases (apply_decimals_then_round (amount_of w.owned id) c_decimals false)) [
        | inl f ↦ rw f tt
        | inr (d, f) ↦
            rw f
              (kept_if _ w _ (IsInStep-refl w.owned w.sseq h k) (advance-IsInStep w _ _ _ _ _ h k))
      ]

  convert_round-KeepsStep :
      (w : Work) (id : Str)
      → IsWellFormed w.owned
      → IsWellFormed w.sseq
      → KeepsStep w (convert_round assets required decimals goal w id)
  unfolding convert_round
  convert_round-KeepsStep w id h k =
      let same = IsInStep-refl w.owned w.sseq h k in
      elim (Bool-cases (not (is_currency_of assets id) || str_beq id required)) [
        | inl y ↦ rw y same
        | inr n ↦ rw n (elim (Result-cases (decimals_of assets id)) [
          | inr (x, f) ↦ rw f same
          | inl (c, f) ↦ rw f (convert_asset-KeepsStep w id c h k)
        ])
      ]

  convert_all-KeepsLoop :
      (w : Work) (ids : List Str)
      → IsWellFormed w.owned
      → IsWellFormed w.sseq
      → KeepsLoop w (convert_all assets required decimals goal w ids)
  unfolding convert_all
  convert_all-KeepsLoop w [] h k = IsInStep-refl w.owned w.sseq h k
  convert_all-KeepsLoop w (id ∷ ids) h k = elim (Bool-cases (leb_ℤ goal w.converted)) [
    | inl y ↦ rw y (IsInStep-refl w.owned w.sseq h k)
    | inr n ↦ rw n (elim (Option-cases (convert_round assets required decimals goal w id)) [
      | inl f ↦ rw f tt
      | inr (w', f) ↦
          let step = rw f at (convert_round-KeepsStep w id h k) in
          rw f (
            then_KeepsLoop w w' _ step
              (convert_all-KeepsLoop w' ids step.owned_fits step.sseq_fits))
    ])
  ]

module _ {F : Type 0} (assets : AssetData F) (p : Position Balances) where
  unchanged : IsWellFormed p.exported.owned → IsWellFormed p.exported.sseq → IsExchange p p
  unchanged h k = record {
    in_step = IsInStep-refl p.exported.owned p.exported.sseq h k;
    other_fields = refl;
  }

  -- An if keeps what both of its branches keep.
  kept_either :
      (b : Bool) (x y : Option Outcome)
      → KeepsPosition p x
      → KeepsPosition p y
      → KeepsPosition p (if b then x else y)
  kept_either true x y h k = h
  kept_either false x y h k = k

  loop-KeepsPosition :
      (r : Option (Work × Bool)) (c : ℤ)
      → KeepsLoop (record { owned = p.exported.owned; sseq = p.exported.sseq; converted = c }) r
      → KeepsPosition p
          (r >>= λ x. some (record { left = with_balances p x.0.owned x.0.sseq; copied = x.1 }))
  loop-KeepsPosition none c h = tt
  loop-KeepsPosition (some (w, done)) c h = record { in_step = h; other_fields = refl }

  -- What follows a computation that may panic.
  kept_bind :
      (o : Option ℤ) (f : ℤ → Option Outcome)
      → ((v : ℤ) → KeepsPosition p (f v))
      → KeepsPosition p (o >>= f)
  kept_bind none f h = tt
  kept_bind (some v) f h = h v

  activate-KeepsPosition :
      (required : Balance)
      → IsWellFormed p.exported.owned
      → IsWellFormed p.exported.sseq
      → KeepsPosition p (activate assets p required)
  unfolding activate
  activate-KeepsPosition required h k =
      let same = unchanged h k in
      kept_either (not (is_currency_of assets required.asset)) _ _ same (
        kept_either (has_at_least p.exported.owned required.asset (amt required)) _ _ same
          (elim (Result-cases (decimals_of assets required.asset)) [
            | inr (x, f) ↦ rw f same
            | inl (d, f) ↦ rw f (
                kept_bind _ _ (λ goal. loop-KeepsPosition _ (pos 0) (
                  convert_all-KeepsLoop assets required.asset d goal _
                    (positive_assets p.exported.owned) h k)))
          ]))

  after_exchange-KeepsPosition :
      (loss_id gain_id : Str) (loss gain : ℤ)
      → IsWellFormed p.exported.owned
      → IsWellFormed p.exported.sseq
      → KeepsPosition p (
          some (
            after_exchange assets p
              (exchange p.exported.owned p.exported.sseq loss_id loss gain_id gain)))
  unfolding after_exchange
  after_exchange-KeepsPosition loss_id gain_id loss gain h k =
      elim (Result-cases (exchange p.exported.owned p.exported.sseq loss_id loss gain_id gain)) [
        | inr (x, f) ↦ rw f (unchanged h k)
        | inl ((o, s), f) ↦ rw f (record {
          in_step = exchange-IsInStep _ _ o s loss_id gain_id loss gain h k f;
          other_fields = refl;
        })
      ]

  netted-KeepsPosition :
      (pos_bal neg_bal : Balance) (up down : ℤ) (x y z : Option ℤ)
      → IsWellFormed p.exported.owned
      → IsWellFormed p.exported.sseq
      → KeepsPosition p (netted assets p pos_bal neg_bal up down x y z)
  unfolding netted
  netted-KeepsPosition pos_bal neg_bal up down none y z h k = tt
  netted-KeepsPosition pos_bal neg_bal up down (some x) none z h k = tt
  netted-KeepsPosition pos_bal neg_bal up down (some x) (some y) none h k = tt
  netted-KeepsPosition pos_bal neg_bal up down (some x) (some y) (some z) h k =
      let amount = min_i assets (min_i assets x y) z in
      kept_either (leb_ℤ amount (pos 0)) _ _ (unchanged h k) (
        after_exchange-KeepsPosition pos_bal.asset neg_bal.asset (amount *i exp10 up)
          (amount *i exp10 down) h k)

  with_decimals-KeepsPosition :
      (pos_id : Str) (pos_bal neg_bal : Balance) (m n : Result ℤ)
      → IsWellFormed p.exported.owned
      → IsWellFormed p.exported.sseq
      → KeepsPosition p (with_decimals assets p pos_id pos_bal neg_bal m n)
  unfolding with_decimals net
  with_decimals-KeepsPosition pos_id pos_bal neg_bal (ok m) (ok n) h k =
      let up = m -i min_i assets m n in
      let down = n -i min_i assets m n in
      netted-KeepsPosition pos_bal neg_bal up down
        (apply_decimals_then_round (amount_of p.exported.owned pos_id) up false)
        (apply_decimals_then_round (amt pos_bal) up false)
        (apply_decimals_then_round (amt neg_bal) down false) h k
  with_decimals-KeepsPosition pos_id pos_bal neg_bal (ok m) (err e) h k = unchanged h k
  with_decimals-KeepsPosition pos_id pos_bal neg_bal (err e) n h k = unchanged h k

  clean-KeepsPosition :
      (neg_ids pos_ids : List Str)
      → IsWellFormed p.exported.owned
      → IsWellFormed p.exported.sseq
      → KeepsPosition p (clean assets p neg_ids pos_ids)
  unfolding clean
  clean-KeepsPosition [] pos_ids h k = unchanged h k
  clean-KeepsPosition (i ∷ is) [] h k = unchanged h k
  clean-KeepsPosition (i ∷ is) (j ∷ js) h k =
      kept_either (not (is_currency_of assets i)) _ _ (unchanged h k) (
        kept_either (not (is_currency_of assets j)) _ _ (unchanged h k)
          (with_decimals-KeepsPosition j _ _ _ _ h k))

module _ {F : Type 0} (assets : AssetData F) (p : Position Balances) (o : Outcome) where
  -- ActivateStablecoinEquivalence on a position with well-formed Owned and SSEQ, whenever it returns:
  -- of the position only Owned and SSEQ have changed, both are well formed, and each asset's amount
  -- in Owned less its amount in SSEQ is what it was, in int64.
  pub activate-IsExchange :
      (required : Balance)
      → IsWellFormed p.exported.owned
      → IsWellFormed p.exported.sseq
      → activate assets p required ≡ some o
      → IsExchange p o.left
  activate-IsExchange required h k e = rw e at (activate-KeepsPosition assets p required h k)

  -- CleanupStablecoinEquivalence on a position with well-formed Owned and SSEQ, whenever it returns: of
  -- the position only Owned and SSEQ have changed, both are well formed, and each asset's amount in
  -- Owned less its amount in SSEQ is what it was, in int64.
  pub cleanup-IsExchange :
      IsWellFormed p.exported.owned
      → IsWellFormed p.exported.sseq
      → cleanup assets p ≡ some o
      → IsExchange p o.left
  unfolding cleanup
  cleanup-IsExchange h k e = rw e at (
      clean-KeepsPosition assets p (asset_ids (negative p.exported.sseq))
        (asset_ids (positive p.exported.sseq)) h k)

-- ===== src/Helpers/Stablecoin.antt =====
-- helpers/users.go: stablecoins are exchanged for one another at whole dollars, one to one. The
-- decimals of an asset are an int, its amounts int64 with wrap-around; none is the panic of a
-- division by zero, which exp10 makes possible where 10 ^ x is a multiple of 2 ^ 64. Every function
-- writes to the position that it is given and returns it, or a Copy of it: an outcome is the
-- position that is left, and whether the result is a copy.
pub mod InStep
pub mod Conservation
pub mod Decimals
pub mod Returns
use dora_service_utils.Base.{
  ℕ, zero, suc, ◌-◌, Bool, true, false, not, ◌&&◌, ◌||◌, Option, none, some, List, [], ◌∷◌,
  if◌then◌else◌, ltb, map,
}
use dora_service_utils.Base.Int.{ℤ, pos, negsuc, ltb_ℤ, leb_ℤ, beq_ℤ, pos_part}
use dora_service_utils.Base.Word.{◌+i◌, ◌-i◌, to_u64, to_i64}
use dora_service_utils.Base.Signed.{◌*i◌, div_i64}
use dora_service_utils.Base.Text.{Str, str_beq, str_eq}
use dora_service_utils.Base.Result.{Result, ok, err}
use dora_service_utils.Ledger.Balance.{Balance, new_balance, amt, integer64_int64}
use dora_service_utils.Ledger.Balances.{Balances, amount_of, add_amount, entries}
use dora_service_utils.Ledger.Balances.Calculus.{safe_sub, sub_amount, has_at_least}
use dora_service_utils.Ledger.Balances.Selection.{
  asset_ids, positive_assets, positive, negative, select_positive,
}
use dora_service_utils.Ledger.Position.{Position}
use dora_service_utils.Helpers.AssetData.{AssetData, is_currency_of, decimals_of}

-- The rounds of `for i := 0; i < x; i++ { result *= 10 }`.
unfoldable pub ten_to : ℕ → ℤ → ℤ
ten_to zero result = result
ten_to (suc n) result = ten_to n (result *i pos 10)

-- The loop of a negative x runs no round.
unfoldable pub exp10 : ℤ → ℤ
unfolding ten_to
exp10 x = ten_to (pos_part x) (pos 1)

-- do blocks on Option
infixl 5 ◌>>=◌
abbrev pub ◌>>=◌ : {A B : Type 0} → Option A → (A → Option B) → Option B
none >>= f = none
some a >>= f = f a

unfoldable pub apply_decimals_then_round : ℤ → ℤ → Bool → Option ℤ
unfolding exp10
apply_decimals_then_round n x round_up = do
  let m = exp10 x
  result ← div_i64 n m
  some (if ltb_ℤ (result *i m) n && round_up then result +i pos 1 else result)

pub record Outcome : Type 0 where
  pub left : Position Balances
  pub copied : Bool

-- `return position`
abbrev same : Position Balances → Option Outcome
same p = some (record { left = p; copied = false })

-- `position.Owned = owned`, `position.SSEQ = sseq`
abbrev pub with_balances : Position Balances → Balances → Balances → Position Balances
with_balances p owned sseq = record p {
  exported = record p.exported { owned = owned; sseq = sseq };
}

-- What the loop of ActivateStablecoinEquivalence keeps.
pub record Work : Type 0 where
  pub owned : Balances
  pub sseq : Balances
  pub converted : ℤ

-- The writes of both functions, after SafeSub has given the first.
unfoldable pub exchanged :
    Result Balances → Balances → Str → ℤ → Str → ℤ → Result (Balances × Balances)
exchanged (err e) sseq loss_id loss gain_id gain = err e
exchanged (ok owned) sseq loss_id loss gain_id gain =
    ok (add_amount owned gain_id gain, add_amount (sub_amount sseq loss_id loss) gain_id gain)

unfoldable pub exchange : Balances → Balances → Str → ℤ → Str → ℤ → Result (Balances × Balances)
unfolding exchanged
exchange owned sseq loss_id loss gain_id gain =
    exchanged (safe_sub owned loss_id loss) sseq loss_id loss gain_id gain

unfoldable pub advance : Work → ℤ → Result (Balances × Balances) → Work
advance w dollars (err e) = w
advance w dollars (ok (owned, sseq)) = record {
  owned = owned;
  sseq = sseq;
  converted = w.converted +i dollars;
}

module _ {F : Type 0} (assets : AssetData F) where
  module _ (required : Str) (decimals : ℤ) (dollars_to_convert : ℤ) where
    -- A round after the decimals of the asset are known.
    unfoldable pub convert_asset : Work → Str → ℤ → Option Work
    unfolding advance exp10 exchange
    convert_asset w asset_id c_decimals = do
      dollars0 ← apply_decimals_then_round (amount_of w.owned asset_id) c_decimals false
      let room = dollars_to_convert -i w.converted
      let dollars = if ltb_ℤ room dollars0 then room else dollars0
      let gain = new_balance required (dollars *i exp10 decimals)
      let loss = new_balance asset_id (dollars *i exp10 c_decimals)
      some (
          if leb_ℤ dollars (pos 0)
          then w
          else advance w dollars
              (exchange w.owned w.sseq loss.asset (amt loss) gain.asset (amt gain)))

    -- A round of the loop; it does nothing at `continue`.
    unfoldable pub convert_round : Work → Str → Option Work
    unfolding convert_asset
    convert_round w asset_id =
        if not (is_currency_of assets asset_id) || str_beq asset_id required
        then some w
        else elim (decimals_of assets asset_id) [
          | err e ↦ some w
          | ok c_decimals ↦ convert_asset w asset_id c_decimals
        ]

    -- The loop, and whether it has run to its end.
    unfoldable pub convert_all : Work → List Str → Option (Work × Bool)
    convert_all w [] = some (w, true)
    convert_all w (id ∷ ids) =
        if leb_ℤ dollars_to_convert w.converted
        then some (w, false)
        else convert_round w id >>= λ w'. convert_all w' ids

  -- ActivateStablecoinEquivalence
  unfoldable pub activate : Position Balances → Balance → Option Outcome
  unfolding convert_all apply_decimals_then_round
  activate position balance_required =
      let required = balance_required.asset in
      let owned = position.exported.owned in
      if not (is_currency_of assets required)
      then same position
      else if has_at_least owned required (amt balance_required)
      then same position
      else elim (decimals_of assets required) [
        | err e ↦ same position
        | ok decimals ↦ do
          dollars ←
              apply_decimals_then_round (amt balance_required -i amount_of owned required) decimals
                true
          (w, done) ←
              convert_all required decimals dollars
                (record { owned = owned; sseq = position.exported.sseq; converted = pos 0 })
                (positive_assets owned)
          some (record { left = with_balances position w.owned w.sseq; copied = done })
      ]

  -- `min` of int and int64
  abbrev pub min_i : ℤ → ℤ → ℤ
  min_i a b = if ltb_ℤ b a then b else a

  -- What the last statements of CleanupStablecoinEquivalence do.
  unfoldable pub after_exchange : Position Balances → Result (Balances × Balances) → Outcome
  after_exchange position (err e) = record { left = position; copied = false }
  after_exchange position (ok (owned, sseq)) = record {
    left = with_balances position owned sseq;
    copied = true;
  }

  -- From the minimum of the amounts on; the amounts that are owned, gained and lost may be panics.
  unfoldable pub netted :
      Position Balances
      → Balance
      → Balance
      → ℤ
      → ℤ
      → Option ℤ
      → Option ℤ
      → Option ℤ
      → Option Outcome
  unfolding after_exchange exp10 exchange
  netted position pos_bal neg_bal up down (some amt_owned) (some amt_pos) (some amt_neg) =
      let amount = min_i (min_i amt_owned amt_pos) amt_neg in
      if leb_ℤ amount (pos 0)
      then same position
      else some (
          after_exchange position (
            exchange position.exported.owned position.exported.sseq pos_bal.asset
              (amount *i exp10 up) neg_bal.asset (amount *i exp10 down)))
  netted position pos_bal neg_bal up down _ _ _ = none

  -- From the amounts on, once the two assets and their decimals are known.
  unfoldable pub net : Position Balances → Str → Balance → Balance → ℤ → ℤ → Option Outcome
  unfolding netted apply_decimals_then_round
  net position pos_id pos_bal neg_bal pos_exponent neg_exponent =
      let minimum_exponent = min_i pos_exponent neg_exponent in
      let up = pos_exponent -i minimum_exponent in
      let down = neg_exponent -i minimum_exponent in
      netted position pos_bal neg_bal up down
        (apply_decimals_then_round (amount_of position.exported.owned pos_id) up false)
        (apply_decimals_then_round (amt pos_bal) up false)
        (apply_decimals_then_round (amt neg_bal) down false)

  unfoldable pub with_decimals :
      Position Balances → Str → Balance → Balance → Result ℤ → Result ℤ → Option Outcome
  unfolding net
  with_decimals position pos_id pos_bal neg_bal (ok pos_exponent) (ok neg_exponent) =
      net position pos_id pos_bal neg_bal pos_exponent neg_exponent
  with_decimals position pos_id pos_bal neg_bal _ _ = same position

  -- With the asset IDs of the lost and of the gained balances.
  unfoldable pub clean : Position Balances → List Str → List Str → Option Outcome
  unfolding with_decimals
  clean position (neg_id ∷ neg_ids) (pos_id ∷ pos_ids) =
      let sseq = position.exported.sseq in
      let neg_bal = select_positive (negative sseq) neg_id in
      let pos_bal = select_positive (positive sseq) pos_id in
      if not (is_currency_of assets neg_id)
      then same position
      else if not (is_currency_of assets pos_id)
      then same position
      else with_decimals position pos_id pos_bal neg_bal (decimals_of assets pos_id)
          (decimals_of assets neg_id)
  clean position _ _ = same position

  -- CleanupStablecoinEquivalence
  unfoldable pub cleanup : Position Balances → Option Outcome
  unfolding clean
  cleanup position =
      clean position (asset_ids (negative position.exported.sseq))
        (asset_ids (positive position.exported.sseq))

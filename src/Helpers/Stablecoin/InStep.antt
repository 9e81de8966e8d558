-- ===== src/Helpers/Stablecoin/InStep.antt =====
-- An exchange of one stablecoin for another, as ActivateStablecoinEquivalence and
-- CleanupStablecoinEquivalence of helpers/users.go make it,
-- and the changes of Owned and SSEQ that are in step.
use dora_service_utils.Base.{◌≡◌, ◌∙◌, refl, arith}
use dora_service_utils.Base.Text.{Str}
use dora_service_utils.Base.Int.{ℤ}
use dora_service_utils.Base.Word.{
  ◌+i◌, ◌-i◌, to_u64-injective, to_u64-+i, to_u64--i, to_u64-lt, -i-InI64, neg_i,
}
use dora_service_utils.Base.Result.{ok}
use dora_service_utils.Ledger.Balance.{integer64_int64}
use dora_service_utils.Ledger.Balances.{Balances, amount_of, add_amount}
use dora_service_utils.Ledger.Balances.Calculus.{safe_sub, sub_amount}
use dora_service_utils.Ledger.Balances.WellFormed.{IsWellFormed, add_amount-IsWellFormed}
use dora_service_utils.Ledger.Balances.Arithmetic.{amount_of-add_amount}
use dora_service_utils.Helpers.Stablecoin.{exchanged, exchange}

-- The user's own amount of an asset: Owned less SSEQ, in the arithmetic of int64.
abbrev pub own : Balances → Balances → Str → ℤ
own owned sseq j = amount_of owned j -i amount_of sseq j

-- What an exchange may do: Owned and SSEQ stay well formed and no asset's own amount changes.
pub record IsInStep (owned sseq owned' sseq' : Balances) : Type 0 where
  pub owned_fits : IsWellFormed owned'
  pub sseq_fits : IsWellFormed sseq'
  pub same_own : (j : Str) → own owned' sseq' j ≡ own owned sseq j

-- The same change on both sides of a difference.
step_difference : (a b x : ℤ) → (a +i x) -i (b +i x) ≡ a -i b
step_difference a b x = to_u64-injective _ _ (-i-InI64 (a +i x) (b +i x)) (-i-InI64 a b) (
    omega (
      arith,
      to_u64--i (a +i x) (b +i x),
      to_u64--i a b,
      to_u64-+i a x,
      to_u64-+i b x,
      to_u64-lt a,
      to_u64-lt b,
      to_u64-lt x,
    ))

add_both :
    (owned sseq : Balances) (id : Str) (x : ℤ)
    → IsWellFormed owned
    → IsWellFormed sseq
    → IsInStep owned sseq (add_amount owned id x) (add_amount sseq id x)
add_both owned sseq id x h k = record {
  owned_fits = add_amount-IsWellFormed owned id x h;
  sseq_fits = add_amount-IsWellFormed sseq id x k;
  same_own = λ j. rw (amount_of-add_amount owned id x j h) (
      rw (amount_of-add_amount sseq id x j k)
        (ground (arith, step_difference (amount_of owned j) (amount_of sseq j) x)));
}

pub IsInStep-refl :
    (owned sseq : Balances)
    → IsWellFormed owned
    → IsWellFormed sseq
    → IsInStep owned sseq owned sseq
IsInStep-refl owned sseq h k = record { owned_fits = h; sseq_fits = k; same_own = λ j. refl }

pub IsInStep-trans :
    (o s o' s' o'' s'' : Balances)
    → IsInStep o s o' s'
    → IsInStep o' s' o'' s''
    → IsInStep o s o'' s''
IsInStep-trans o s o' s' o'' s'' h k = record {
  owned_fits = k.owned_fits;
  sseq_fits = k.sseq_fits;
  same_own = λ j. k.same_own j ∙ h.same_own j;
}

exchange-ok :
    (owned sseq owned' sseq' : Balances) (loss_id gain_id : Str) (loss gain : ℤ)
    → exchange owned sseq loss_id loss gain_id gain ≡ ok (owned', sseq')
    → (owned' ≡ add_amount (add_amount owned loss_id (neg_i loss)) gain_id gain)
      × (sseq' ≡ add_amount (add_amount sseq loss_id (neg_i loss)) gain_id gain)
unfolding exchange exchanged sub_amount safe_sub
exchange-ok owned sseq owned' sseq' loss_id gain_id loss gain e = (ground arith, ground arith)

pub exchange-IsInStep :
    (owned sseq owned' sseq' : Balances) (loss_id gain_id : Str) (loss gain : ℤ)
    → IsWellFormed owned
    → IsWellFormed sseq
    → exchange owned sseq loss_id loss gain_id gain ≡ ok (owned', sseq')
    → IsInStep owned sseq owned' sseq'
exchange-IsInStep owned sseq owned' sseq' loss_id gain_id loss gain h k e =
    let (f, g) = exchange-ok owned sseq owned' sseq' loss_id gain_id loss gain e in
    let one = add_both owned sseq loss_id (neg_i loss) h k in
    let two = add_both _ _ gain_id gain one.owned_fits one.sseq_fits in
    rw f (rw g (IsInStep-trans owned sseq _ _ _ _ one two))

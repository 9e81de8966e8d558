-- ===== src/Base/Result.antt =====
-- errors/error.go and the error values of math/safemath.go and metrics/errors.go: a Go function that
-- returns a value and an `error` returns a `Result`. The texts of messages are not modelled; a
-- sentinel error is a constructor, `wrapped` is `fmt.Errorf("...%w", err)` and `plain` an error with
-- no type of its own.
use dora_service_utils.Base.{◌≡◌, refl, Bool, true, false, ◌⊎◌, inl, inr}

-- `ErrorType` of errors/error.go, its constants in their order.
pub data ErrorType : Type 0 where
  not_found invalid_input internal access_denied invalid_data rate_limit deprecated : ErrorType

pub data Error : Type 0 where
  err_overflow_add err_overflow_mul err_overflow_sub err_div_by_zero : Error
  err_asset_not_found_in_pool err_pool_should_have_2_assets err_insufficient_balance : Error
  err_amount_cannot_be_zero err_base_asset_mismatch : Error
  err_metrics_disabled err_metrics_running err_metrics_not_running : Error
  typed : ErrorType → Error
  plain : Error
  wrapped : Error → Error
  wrapped_typed : ErrorType → Error → Error

pub data Result {ℓ} (A : Type ℓ) : Type ℓ where
  ok : A → Result A
  err : Error → Result A

-- `if c { return err }`
abbrev pub fail_if : Bool → Error → Result (Unit {0})
fail_if true e = err e
fail_if false e = ok tt

infixl 5 ◌>>=◌
abbrev pub ◌>>=◌ {ℓ κ} : {X : Type ℓ} {Y : Type κ} → Result X → (X → Result Y) → Result Y
ok x >>= next = next x
err e >>= next = err e

-- A step whose only result is its error.
infixl 5 ◌>>◌
abbrev pub ◌>>◌ {ℓ} : {Y : Type ℓ} → Result (Unit {0}) → Result Y → Result Y
check >> rest = check >>= λ _. rest

-- `if err != nil { return fmt.Errorf("...%w", err) }`
abbrev pub wrap_error {ℓ} : {A : Type ℓ} → Result A → Result A
wrap_error (ok a) = ok a
wrap_error (err e) = err (wrapped e)

-- `if err != nil { return errors.Wrap(typ, err, "...") }`
abbrev pub wrap_typed {ℓ} : {A : Type ℓ} → ErrorType → Result A → Result A
wrap_typed t (ok a) = ok a
wrap_typed t (err e) = err (wrapped_typed t e)

abbrev pub is_ok {ℓ} : {A : Type ℓ} → Result A → Bool
is_ok (ok a) = true
is_ok (err e) = false

pub Result-cases {ℓ} :
    {A : Type ℓ} (r : Result A) → ((a : A) × (r ≡ ok a)) ⊎ ((e : Error) × (r ≡ err e))
Result-cases (ok a) = inl (a, refl)
Result-cases (err e) = inr (e, refl)

-- A step that goes on has given a value.
pub >>=-eq-ok {ℓ κ} :
    {X : Type ℓ} {Y : Type κ} (m : Result X) (f : X → Result Y) {y : Y}
    → (m >>= f) ≡ ok y
    → (x : X) × (m ≡ ok x) × (f x ≡ ok y)
>>=-eq-ok (ok x) f h = (x, refl, h)
>>=-eq-ok (err e) f h = cc

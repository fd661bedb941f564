-- ===== src/Shared/Errors.antt =====
-- apps/api/src/common/errors/app.exception.ts: the exception of business code as a value. The
-- message text and the details of an exception are not modelled, its code and status are.
use tamam.Prelude.{ap, refl, ◌≡◌, ℕ, Bool, true, false, not, Option, none, some}

-- The codes of packages/shared-types/src/api.ts that the modelled code throws or returns.
pub data ErrorCode : Type 0 where
  validation_failed conflict invalid_state_transition : ErrorCode
  promo_invalid promo_expired promo_usage_exceeded promo_min_order_not_met : ErrorCode
  promo_not_eligible : ErrorCode
  not_found forbidden version_conflict quote_not_approved internal_error : ErrorCode
  otp_invalid otp_expired otp_too_many_attempts otp_resend_cooldown rate_limited : ErrorCode
  idempotency_key_reused idempotency_key_required offer_expired feature_disabled : ErrorCode

pub record AppException : Type 0 where
  pub code : ErrorCode
  -- the HTTP status
  pub status : ℕ

-- `AppException.validation`
abbrev pub validation : AppException
validation = record { code = validation_failed; status = 422 }

-- `AppException.conflict(message, code)`
abbrev pub conflict_error : ErrorCode → AppException
conflict_error c = record { code = c; status = 409 }

-- `AppException.badRequest(code, message)`
abbrev pub bad_request : ErrorCode → AppException
bad_request c = record { code = c; status = 400 }

-- `AppException.invalidTransition`
abbrev pub invalid_transition : AppException
invalid_transition = record { code = invalid_state_transition; status = 409 }

-- `AppException.notFound`
abbrev pub not_found_error : AppException
not_found_error = record { code = not_found; status = 404 }

-- `AppException.forbidden`
abbrev pub forbidden_error : AppException
forbidden_error = record { code = forbidden; status = 403 }

-- `AppException.versionConflict`
abbrev pub stale_version : AppException
stale_version = record { code = version_conflict; status = 409 }

-- `AppException.internal`
abbrev pub internal_exception : AppException
internal_exception = record { code = internal_error; status = 500 }

-- What a call that may throw gives.
pub data Result {ℓ} (A : Type ℓ) : Type ℓ where
  ok : A → Result A
  err : AppException → Result A

infixl 5 ◌>>=◌ ◌>>◌
abbrev pub ◌>>=◌ {ℓ κ} :
    {Value : Type ℓ} {Next : Type κ} → Result Value → (Value → Result Next) → Result Next
err exception >>= next = err exception
ok value >>= next = next value

abbrev pub ◌>>◌ {ℓ} : {B : Type ℓ} → Result (Unit {0}) → Result B → Result B
first >> second = first >>= λ _. second

-- `if (bad) throw e`
abbrev pub throw_if : Bool → AppException → Result (Unit {0})
throw_if true e = err e
throw_if false e = ok tt

-- A sequence that returns: both parts do.
pub then_ok {ℓ} :
    {B : Type ℓ} (m : Result (Unit {0})) (k : Result B) {b : B}
    → (m >> k) ≡ ok b
    → (m ≡ ok tt) × (k ≡ ok b)
then_ok (ok u) k h = (refl, h)
then_ok (err e) k h = cc

pub bind_ok {ℓ κ} :
    {V : Type ℓ} {W : Type κ} (call : Result V) (next : V → Result W) {w : W}
    → (call >>= next) ≡ ok w
    → (v : V) × (call ≡ ok v) × (next v ≡ ok w)
bind_ok (err e) next h = cc
bind_ok (ok v) next h = (v, refl, h)

pub throw_if-ok : (b : Bool) (e : AppException) → throw_if b e ≡ ok tt → b ≡ false
throw_if-ok true e h = cc
throw_if-ok false e h = refl

pub ok-injective {ℓ} : {A : Type ℓ} (a b : A) → ok a ≡ ok b → a ≡ b
ok-injective a b h = cc

-- `if (!value) throw e`
abbrev pub or_throw {ℓ} : {V : Type ℓ} → Option V → AppException → Result V
or_throw none e = err e
or_throw (some v) e = ok v

-- Whether a call returned.
abbrev pub is_ok {ℓ} : {A : Type ℓ} → Result A → Bool
is_ok (ok _) = true
is_ok (err _) = false

-- A sequence whose second part never returns does not return.
pub >>=-fails {ℓ κ} :
    {V : Type ℓ} {W : Type κ} (call : Result V) (next : V → Result W)
    → ((v : V) → is_ok (next v) ≡ false)
    → is_ok (call >>= next) ≡ false
>>=-fails (ok v) next fails = fails v
>>=-fails (err e) next fails = refl

pub throw_if-fails {ℓ} :
    {W : Type ℓ} (b : Bool) (e : AppException) (next : Result W)
    → b ≡ true
    → is_ok (throw_if b e >> next) ≡ false
throw_if-fails true e next h = refl
throw_if-fails false e next h = cc

pub err-ok {ℓ} : {A : Type ℓ} (e : AppException) (a : A) → err e ≡ ok a → ⊥
err-ok e a h = cc

-- `if (!test) throw e`, past which the test holds.
pub throw_unless-ok : (b : Bool) (e : AppException) → throw_if (not b) e ≡ ok tt → b ≡ true
throw_unless-ok true e h = refl
throw_unless-ok false e h = cc

pub or_throw-ok {ℓ} :
    {V : Type ℓ} (value : Option V) (e : AppException) (v : V)
    → or_throw value e ≡ ok v
    → value ≡ some v
or_throw-ok none e v h = absurd (err-ok e v h)
or_throw-ok (some w) e v h = ap some (ok-injective _ _ h)

-- A row of guards that returned.
pub all_ok {ℓ} :
    {B : Type ℓ} (first second : Result (Unit {0})) (last : Result B) {b : B}
    → (first >> second >> last) ≡ ok b
    → (first ≡ ok tt) × (second ≡ ok tt) × (last ≡ ok b)
all_ok (ok u) (ok v) last h = (refl, refl, h)
all_ok (ok u) (err e) last h = cc
all_ok (err e) second last h = cc

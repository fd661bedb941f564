-- ===== src/Otp.antt =====
-- apps/api/src/modules/auth/otp.service.ts: the codes that one phone number was sent. The hash of
-- a code is a parameter, as are the new code and what the rate limiter answers; the message that carries the code
-- is not modelled. Times are in milliseconds, the settings in seconds.
mod Tests
pub mod Attempts
pub mod Guesses
pub mod Codes
use Prim.Native.String.{String}
use tamam.Prelude.{
  ℕ, suc, ◌+◌, ◌*◌, ◌-◌, ltb, leb, Bool, true, false, not, ◌&&◌, Option, none, some, List, [], ◌∷◌,
  map, if◌then◌else◌,
}
use tamam.Prelude.Data.{◌===◌}
use tamam.Prelude.Lists.{find?}
use tamam.Shared.Errors.{
  Result, ok, err, AppException, ErrorCode, otp_invalid, otp_expired, otp_too_many_attempts,
  otp_resend_cooldown, rate_limited,
}
use tamam.Shared.Text.{string_eq}

pub data Audience : Type 0 where
  customer partner : Audience

-- A row of `otp_requests`.
pub record OtpRequest : Type 0 where
  pub code_hash : String
  pub audience : Audience
  pub attempts : ℕ
  pub max_attempts : ℕ
  pub created_at : ℕ
  pub expires_at : ℕ
  pub consumed_at : Option ℕ

-- `consumedAt: null`
abbrev pub is_active : OtpRequest → Bool
is_active otp = elim otp.consumed_at [ none ↦ true | some _ ↦ false ]

abbrev pub consume : ℕ → OtpRequest → OtpRequest
consume now otp = record {
  code_hash = otp.code_hash;
  audience = otp.audience;
  attempts = otp.attempts;
  max_attempts = otp.max_attempts;
  created_at = otp.created_at;
  expires_at = otp.expires_at;
  consumed_at = some now;
}

-- `attempts: { increment: 1 }`
abbrev pub bump : OtpRequest → OtpRequest
bump otp = record {
  code_hash = otp.code_hash;
  audience = otp.audience;
  attempts = suc otp.attempts;
  max_attempts = otp.max_attempts;
  created_at = otp.created_at;
  expires_at = otp.expires_at;
  consumed_at = otp.consumed_at;
}

-- An update of the latest active row; the rows of a phone number stand with the latest first.
unfoldable pub update_active : (OtpRequest → OtpRequest) → List OtpRequest → List OtpRequest
update_active change [] = []
update_active change (otp ∷ rest) =
    let others = update_active change rest in
    if is_active otp then change otp ∷ rest else otp ∷ others

abbrev invalid_code : AppException
invalid_code = record { code = otp_invalid; status = 400 }

abbrev expired_code : AppException
expired_code = record { code = otp_expired; status = 400 }

abbrev pub too_many : AppException
too_many = record { code = otp_too_many_attempts; status = 429 }

-- The branch of `verify` for a code that differs.
unfoldable pub wrong_code : ℕ → OtpRequest → List OtpRequest → List OtpRequest × Result Audience
wrong_code now otp rows =
    if leb otp.max_attempts (suc otp.attempts)
    then (update_active (λ r. consume now (bump r)) rows, err too_many)
    else (update_active bump rows, err invalid_code)

-- `verify` with the row that it finds.
unfoldable pub verify_row :
    (String → String)
    → ℕ
    → String
    → List OtpRequest
    → Option OtpRequest
    → List OtpRequest × Result Audience
verify_row hash now code rows none = (rows, err invalid_code)
verify_row hash now code rows (some otp) =
    if ltb otp.expires_at now
    then (rows, err expired_code)
    else if leb otp.max_attempts otp.attempts
    then (rows, err too_many)
    else if not (otp.code_hash === hash code)
    then wrong_code now otp rows
    else (update_active (consume now) rows, ok otp.audience)

-- `verify`: what it leaves in the table, and what it returns.
unfoldable pub verify :
    (String → String) → ℕ → String → List OtpRequest → List OtpRequest × Result Audience
verify hash now code rows = verify_row hash now code rows (find? is_active rows)

-- `elapsed < cooldown`
abbrev pub cools_down : ℕ → ℕ → Option OtpRequest → Bool
cools_down now cooldown none = false
cools_down now cooldown (some last) = ltb now (last.created_at + cooldown * 1000)

-- The transaction of `request`.
abbrev pub issue : ℕ → OtpRequest → List OtpRequest → List OtpRequest
issue now fresh rows = fresh ∷ map (λ r. if is_active r then consume now r else r) rows

-- The settings that `request` reads.
pub record OtpSettings : Type 0 where
  pub ttl : ℕ
  pub max_attempts : ℕ
  pub cooldown : ℕ

-- The row that `request` creates.
abbrev pub otp_row : (String → String) → OtpSettings → ℕ → String → Audience → OtpRequest
otp_row hash settings now code audience = record {
  code_hash = hash code;
  audience = audience;
  attempts = 0;
  max_attempts = settings.max_attempts;
  created_at = now;
  expires_at = now + settings.ttl * 1000;
  consumed_at = none;
}

-- `request`, up to the message; `allowed` is what the limiter answers for the phone number and the
-- address.
unfoldable pub request :
    (String → String)
    → OtpSettings
    → ℕ
    → String
    → Audience
    → Bool
    → List OtpRequest
    → Result (List OtpRequest)
request hash settings now code audience allowed rows =
    if cools_down now settings.cooldown (find? is_active rows)
    then err (record { code = otp_resend_cooldown; status = 429 })
    else if not allowed
    then err (record { code = rate_limited; status = 429 })
    else ok (issue now (otp_row hash settings now code audience) rows)

-- ===== src/Otp/Codes.antt =====
-- Sending a code, and using it.
use Prim.Native.String.{String}
use tamam.Otp.{
  OtpRequest, OtpSettings, Audience, is_active, consume, update_active, wrong_code, verify_row,
  verify, request, issue, cools_down, otp_row,
}
use tamam.Otp.Attempts.{IsSingle, no_active, count-spend, issue-IsSingle}
use tamam.Prelude.{
  ℕ, suc, ◌+◌, ◌*◌, ◌≤◌, ltb, leb, ◌≡◌, refl, Bool, true, false, Option, none, some, List, inl, inr,
  ◌⊎◌, Bool-cases, arith,
}
use tamam.Prelude.Data.{◌===◌}
use tamam.Prelude.Lists.{find?}
use tamam.Shared.Errors.{Result, ok, is_ok, ok-injective}
use tamam.Shared.Text.{string_eq}

-- A call that returned has left no good code.
Uses : List OtpRequest × Result Audience → Type 0
Uses done = (is_ok done.1 ≡ false) ⊎ (find? is_active done.0 ≡ none)

wrong_code-fails :
    (now : ℕ) (otp : OtpRequest) (rows : List OtpRequest)
    → is_ok (wrong_code now otp rows).1 ≡ false
unfolding wrong_code
wrong_code-fails now otp rows = elim (Bool-cases (leb otp.max_attempts (suc otp.attempts))) [
  | inl e ↦ rw e refl
  | inr e ↦ rw e refl
]

verify_row-Uses :
    (hash : String → String) (now : ℕ) (code : String) (rows : List OtpRequest)
    (found : Option OtpRequest)
    → IsSingle rows
    → Uses (verify_row hash now code rows found)
unfolding verify_row Uses
verify_row-Uses hash now code rows none single = inl refl
verify_row-Uses hash now code rows (some otp) single = elim (Bool-cases (ltb otp.expires_at now)) [
  | inl x ↦ rw x (inl refl)
  | inr x ↦ elim (Bool-cases (leb otp.max_attempts otp.attempts)) [
    | inl y ↦ rw (x, y) (inl refl)
    | inr y ↦ elim (Bool-cases (otp.code_hash === hash code)) [
      | inr w ↦ rw (x, y, w) (inl (wrong_code-fails now otp rows))
      | inl w ↦
          rw (x, y, w)
            (inr (
              no_active (update_active (consume now) rows)
                (count-spend (consume now) rows (λ _. refl) single)))
    ]
  ]
]

-- A code works once: after a call of `verify` that returned, the next one throws, whatever code it brings.
pub verify-once :
    (hash : String → String) (now later : ℕ) (code again : String) (rows : List OtpRequest)
    → IsSingle rows
    → is_ok (verify hash now code rows).1 ≡ true
    → is_ok (verify hash later again (verify hash now code rows).0).1 ≡ false
unfolding verify verify_row Uses
verify-once hash now later code again rows single returned =
    elim (verify_row-Uses hash now code rows (find? is_active rows) single) [
      | inl threw ↦ absurd (cc)
      | inr gone ↦ rw gone refl
    ]

-- What `request` left.
request-issue :
    (hash : String → String) (settings : OtpSettings) (now : ℕ) (code : String)
    (audience : Audience) (allowed : Bool) (rows rows' : List OtpRequest)
    → request hash settings now code audience allowed rows ≡ ok rows'
    → issue now (otp_row hash settings now code audience) rows ≡ rows'
unfolding request
request-issue hash settings now code audience allowed rows rows' returned =
    elim (Bool-cases (cools_down now settings.cooldown (find? is_active rows))) [
      | inl e ↦ absurd (cc)
      | inr e ↦ elim (Bool-cases allowed) [
        | inl a ↦ ok-injective _ _ (rw (e, a) at returned)
        | inr a ↦ absurd (cc)
      ]
    ]

-- The code that `request` sends works: when `request` returned and the limit is at least one attempt, `verify` with that code
-- returns the audience, at any time up to the end of the code's life.
pub request-verify :
    (hash : String → String) (settings : OtpSettings) (now later : ℕ) (code : String)
    (audience : Audience) (allowed : Bool) (rows rows' : List OtpRequest)
    → 1 ≤ settings.max_attempts
    → later ≤ now + settings.ttl * 1000
    → request hash settings now code audience allowed rows ≡ ok rows'
    → (verify hash later code rows').1 ≡ ok audience
unfolding verify verify_row
request-verify hash settings now later code audience allowed rows rows' limit alive returned =
    let left = request-issue hash settings now code audience allowed rows rows' returned in
    let fresh : ltb (now + settings.ttl * 1000) later ≡ false = ground arith in
    let allows : leb settings.max_attempts 0 ≡ false = ground arith in
    let right : hash code === hash code ≡ true = (string_eq.beq_iff _ _).1 refl in
    rw (← left) (rw (fresh, allows, right) refl)

-- After `request` only its own code is good.
request-IsSingle :
    (hash : String → String) (settings : OtpSettings) (now : ℕ) (code : String)
    (audience : Audience) (allowed : Bool) (rows rows' : List OtpRequest)
    → request hash settings now code audience allowed rows ≡ ok rows'
    → IsSingle rows'
request-IsSingle hash settings now code audience allowed rows rows' returned =
    rw (← request-issue hash settings now code audience allowed rows rows' returned)
      (issue-IsSingle now (otp_row hash settings now code audience) rows refl)

-- ===== src/Otp/Guesses.antt =====
-- The guesses that a code allows.
use Prim.Native.String.{String}
use tamam.Otp.{OtpRequest, Audience, is_active, consume, bump, wrong_code, verify_row, verify}
use tamam.Otp.Attempts.{IsSingle, no_active, find-update_active, count-spend, count-keep}
use tamam.Prelude.{
  ℕ, suc, ◌+◌, ◌-◌, ◌≤◌, ltb, leb, ◌≡◌, refl, true, false, Option, none, some, List, inl, inr, ◌⊎◌,
  Bool-cases, if◌then◌else◌, arith,
}
use tamam.Prelude.Data.{◌===◌}
use tamam.Prelude.Lists.{find?, find?-satisfies}
use tamam.Shared.Errors.{Result, is_ok}
use tamam.Shared.Text.{string_eq}

-- The guesses that the active code still allows, if it has not expired at this time.
abbrev pub left_of : ℕ → Option OtpRequest → ℕ
left_of later none = 0
left_of later (some otp) = if ltb otp.expires_at later then 0 else otp.max_attempts - otp.attempts

abbrev pub left : ℕ → List OtpRequest → ℕ
left later rows = left_of later (find? is_active rows)

-- A call returned, or it took a guess, or none is left.
abbrev Spends : ℕ → List OtpRequest → List OtpRequest × Result Audience → Type 0
Spends later rows done =
    IsSingle done.0
    × ((is_ok done.1 ≡ true)
        ⊎ (suc (left later done.0) ≤ left later rows)
        ⊎ (left later done.0 ≡ 0))

expired_left :
    (later now : ℕ) (otp : OtpRequest)
    → now ≤ later
    → ltb otp.expires_at now ≡ true
    → left_of later (some otp) ≡ 0
expired_left later now otp h e = ground arith

spent_left :
    (later : ℕ) (otp : OtpRequest)
    → leb otp.max_attempts otp.attempts ≡ true
    → left_of later (some otp) ≡ 0
spent_left later otp e = ground arith

bumped_left :
    (later : ℕ) (otp : OtpRequest)
    → leb otp.max_attempts (suc otp.attempts) ≡ false
    → (suc (left_of later (some (bump otp))) ≤ left_of later (some otp))
      ⊎ (left_of later (some (bump otp)) ≡ 0)
bumped_left later otp e = elim (Bool-cases (ltb otp.expires_at later)) [
  | inl x ↦ rw x (inr refl)
  | inr x ↦ rw x (inl (ground arith))
]

wrong_code-Spends :
    (now later : ℕ) (rows : List OtpRequest) (otp : OtpRequest)
    → IsSingle rows
    → find? is_active rows ≡ some otp
    → Spends later rows (wrong_code now otp rows)
unfolding wrong_code
wrong_code-Spends now later rows otp single found =
    elim (Bool-cases (leb otp.max_attempts (suc otp.attempts))) [
      | inl e ↦
          let none_left = count-spend (λ r. consume now (bump r)) rows (λ _. refl) single in
          rw (e, none_left, no_active _ none_left) (omega arith, inr (inr refl))
      | inr e ↦
          let kept = count-keep bump rows (λ _. refl) in
          let active : is_active (bump otp) ≡ true = find?-satisfies is_active rows otp found in
          rw (e, kept, found, find-update_active bump rows otp found active)
            (single, inr (bumped_left later otp e))
    ]

verify_row-Spends :
    (hash : String → String) (now later : ℕ) (code : String) (rows : List OtpRequest)
    (found : Option OtpRequest)
    → now ≤ later
    → IsSingle rows
    → find? is_active rows ≡ found
    → Spends later rows (verify_row hash now code rows found)
unfolding verify_row
verify_row-Spends hash now later code rows none h single e = (single, inr (inr (rw e refl)))
verify_row-Spends hash now later code rows (some otp) h single e =
    elim (Bool-cases (ltb otp.expires_at now)) [
      | inl x ↦ rw (x, e) (single, inr (inr (expired_left later now otp h x)))
      | inr x ↦ elim (Bool-cases (leb otp.max_attempts otp.attempts)) [
        | inl y ↦ rw (x, y, e) (single, inr (inr (spent_left later otp y)))
        | inr y ↦ elim (Bool-cases (otp.code_hash === hash code)) [
          | inr w ↦ rw (x, y, w) (wrong_code-Spends now later rows otp single e)
          | inl w ↦
              let none_left = count-spend (consume now) rows (λ _. refl) single in
              rw (x, y, w) (rw none_left (omega arith), inl refl)
        ]
      ]
    ]

-- Calls of `verify` that threw, up to a time: the rows that they lead to, and how many they were.
pub data Fails (hash : String → String) (later : ℕ) (rows : List OtpRequest)
    : ℕ → List OtpRequest → Type 0 where
  start : Fails hash later rows 0 rows
  fail :
      {n : ℕ} {rows' : List OtpRequest}
      → Fails hash later rows n rows'
      → (now : ℕ) → now ≤ later
      → (code : String) → is_ok (verify hash now code rows').1 ≡ false
      → Fails hash later rows (suc n) (verify hash now code rows').0

one_spent :
    (hash : String → String) (later now : ℕ) (code : String) (rows : List OtpRequest)
    → now ≤ later
    → IsSingle rows
    → Spends later rows (verify hash now code rows)
unfolding verify
one_spent hash later now code rows h single =
    verify_row-Spends hash now later code rows (find? is_active rows) h single refl

Fails-left :
    (hash : String → String) (later : ℕ) (rows : List OtpRequest) (n : ℕ) (rows' : List OtpRequest)
    → IsSingle rows
    → Fails hash later rows n rows'
    → IsSingle rows' × ((left later rows' + n ≤ left later rows) ⊎ (left later rows' ≡ 0))
Fails-left hash later rows n rows' single start = (single, inl (omega arith))
Fails-left hash later rows n rows' single (fail {n = m} {rows' = before} fails now h code threw) =
    let (one, before_left) = Fails-left hash later rows m before single fails in
    let (still, spent) = one_spent hash later now code before h one in
    (
      still,
      elim spent [
        | inl returned ↦ absurd (cc)
        | inr (inl less) ↦ elim before_left [
          | inl some_left ↦ inl (omega arith)
          | inr none_left ↦ inr (omega arith)
        ]
        | inr (inr gone) ↦ inr gone
      ],
    )

closed_row :
    (hash : String → String) (now : ℕ) (code : String) (rows : List OtpRequest)
    (found : Option OtpRequest)
    → left_of now found ≡ 0
    → is_ok (verify_row hash now code rows found).1 ≡ false
unfolding verify_row
closed_row hash now code rows none h = refl
closed_row hash now code rows (some otp) h = elim (Bool-cases (ltb otp.expires_at now)) [
  | inl x ↦ rw x refl
  | inr x ↦
      let spent : leb otp.max_attempts otp.attempts ≡ true = ground arith in rw (x, spent) refl
]

-- A code cannot be guessed by trying: when as many calls of `verify` have thrown as the code that is active at the start
-- allows (none without such a code), the next call throws too, even for the right code.
pub verify-guesses :
    (hash : String → String) (now : ℕ) (rows : List OtpRequest) (n : ℕ) (rows' : List OtpRequest)
    (code : String)
    → IsSingle rows
    → left now rows ≤ n
    → Fails hash now rows n rows'
    → is_ok (verify hash now code rows').1 ≡ false
unfolding verify
verify-guesses hash now rows n rows' code single enough fails =
    let (_, spent) = Fails-left hash now rows n rows' single fails in
    closed_row hash now code rows' (find? is_active rows')
      (elim spent [ inl less ↦ omega arith | inr none_left ↦ none_left ])

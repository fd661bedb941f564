-- ===== src/Otp/Attempts.antt =====
-- How often a code can be guessed, and used.
use tamam.Otp.{OtpRequest, is_active, consume, update_active, issue}
use tamam.Prelude.{
  ℕ, suc, ◌≤◌, ◌≡◌, refl, sym, ap, ◌∙◌, true, false, none, some, List, [], ◌∷◌, map, inl, inr,
  Bool-cases, if◌then◌else◌, arith,
}
use mathlib.Core.Option.{some-injective}
use tamam.Prelude.Lists.{find?}
use tamam.Shared.Text.{string_eq}

-- The codes that are neither used nor spent.
abbrev pub count_active : List OtpRequest → ℕ
count_active [] = 0
count_active (r ∷ rest) = if is_active r then suc (count_active rest) else count_active rest

-- At most one code is good.
abbrev pub IsSingle : List OtpRequest → Type 0
IsSingle rows = count_active rows ≤ 1

pub no_active : (rows : List OtpRequest) → count_active rows ≡ 0 → find? is_active rows ≡ none
no_active [] h = refl
no_active (r ∷ rest) h = elim (Bool-cases (is_active r)) [
  | inl e ↦ absurd (suc_zero (sym (rw e at h)))
  | inr e ↦ rw e (no_active rest (rw e at h))
]
  where
    suc_zero : {n : ℕ} → 0 ≡ suc n → ⊥
    suc_zero h = omega arith

-- The row that an update of the active one leaves.
pub find-update_active :
    (change : OtpRequest → OtpRequest) (rows : List OtpRequest) (otp : OtpRequest)
    → find? is_active rows ≡ some otp
    → is_active (change otp) ≡ true
    → find? is_active (update_active change rows) ≡ some (change otp)
unfolding update_active
find-update_active change [] otp h e = cc
find-update_active change (r ∷ rest) otp h e = elim (Bool-cases (is_active r)) [
  | inl on ↦
      let same : r ≡ otp = some-injective _ _ (rw on at h) in
      let kept : is_active (change r) ≡ true = rw same e in
      rw on (rw kept (ap (λ x. some (change x)) same))
  | inr off ↦ rw off (rw off (find-update_active change rest otp (rw off at h) e))
]

pub count-spend :
    (change : OtpRequest → OtpRequest) (rows : List OtpRequest)
    → ((otp : OtpRequest) → is_active (change otp) ≡ false)
    → IsSingle rows
    → count_active (update_active change rows) ≡ 0
unfolding update_active
count-spend change [] spends single = refl
count-spend change (r ∷ rest) spends single = elim (Bool-cases (is_active r)) [
  | inl on ↦ rw on (rw (spends r) (at_most_none (rw on at single)))
  | inr off ↦ rw off (rw off (count-spend change rest spends (rw off at single)))
]
  where
    at_most_none : {n : ℕ} → suc n ≤ 1 → n ≡ 0
    at_most_none h = omega arith

pub count-keep :
    (change : OtpRequest → OtpRequest) (rows : List OtpRequest)
    → ((otp : OtpRequest) → is_active (change otp) ≡ is_active otp)
    → count_active (update_active change rows) ≡ count_active rows
unfolding update_active
count-keep change [] keeps = refl
count-keep change (r ∷ rest) keeps = elim (Bool-cases (is_active r)) [
  | inl on ↦ rw on (rw (keeps r ∙ on) refl)
  | inr off ↦ rw off (rw off (count-keep change rest keeps))
]

-- `request` leaves one good code, the new one.
all_consumed :
    (now : ℕ) (rows : List OtpRequest)
    → count_active (map (λ r. if is_active r then consume now r else r) rows) ≡ 0
all_consumed now [] = refl
all_consumed now (r ∷ rest) = elim (Bool-cases (is_active r)) [
  | inl on ↦ rw on (all_consumed now rest)
  | inr off ↦ rw off (rw off (all_consumed now rest))
]

pub issue-IsSingle :
    (now : ℕ) (fresh : OtpRequest) (rows : List OtpRequest)
    → is_active fresh ≡ true
    → IsSingle (issue now fresh rows)
issue-IsSingle now fresh rows e = rw (e, all_consumed now rows) (omega arith)

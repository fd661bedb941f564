-- ===== src/Prelude/Data.antt =====
-- Decidable equality of data as a Boolean test, `===` and `includes` of the source.
use tamam.Prelude.{==_iff, ◌==◌, ℕ, ◌≡◌, refl, ◌↔◌, Bool, true, false}

-- An interface for `===`: a test, and what it decides.
pub record Eq {ℓ} (A : Type ℓ) : Type ℓ where
  pub beq : A → A → Bool
  pub beq_iff : (a b : A) → (beq a b ≡ true) ↔ (a ≡ b)

infix 50 ◌===◌
abbrev pub ◌===◌ {ℓ} : {A : Type ℓ} ⦃e : Eq A⦄ → A → A → Bool
◌===◌ ⦃e⦄ = e.beq

abbrev pub of_dec {ℓ} : {A : Type ℓ} → Dec A → Bool
of_dec (yes _) = true
of_dec (no _) = false

pub of_dec_iff {ℓ} : {A : Type ℓ} (d : Dec A) → (of_dec d ≡ true) ↔ A
of_dec_iff (yes a) = (λ _. a, λ _. refl)
of_dec_iff (no na) = (λ e. cc, λ a. absurd (na a))

-- Equality of an enumeration, from the decision that `hlevel` builds.
abbrev pub discrete_eq {ℓ} : {A : Type ℓ} → Discrete A → Eq A
discrete_eq d = record { beq = λ a b. of_dec (d a b); beq_iff = λ a b. of_dec_iff (d a b) }

instance abbrev pub nat_eq : Eq ℕ
nat_eq = record { beq = ◌==◌; beq_iff = ==_iff }

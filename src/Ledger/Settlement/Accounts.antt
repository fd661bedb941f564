-- ===== src/Ledger/Settlement/Accounts.antt =====
-- What each group of settlement entries adds to the balance of the partner's account.
use Prim.Native.String.{String}
use tamam.Ledger.{
  platform_cash_clearing, platform_promo_expense, platform_revenue, pos, credit_line,
  platform_account_code, debit_line, LedgerLine,
}
use tamam.Ledger.Balance.{debit_of, credit_of}
use tamam.Ledger.Settlement.{payer, paid_entries, fee_entries, cash_entries}
use tamam.Ledger.Settlement.Sums.{
  total-append, total-paid_entries, total-cash_entries, total-fee_entries, total, IsMeasure,
}
use tamam.Prelude.{
  ◌++◌, [], ◌∙◌, refl, inr, inl, ◌≡◌, if◌then◌else◌, Bool, Bool-cases, ◌≢◌, Option, List, some,
  none, false,
}
use tamam.Prelude.Data.{◌===◌}
use tamam.Prelude.Int.{◌+ℤ◌, int_laws, ◌-ℤ◌, ◌≤ℤ◌, ℤ}
use tamam.Shared.Enums.{LedgerAccountType}
use tamam.Shared.Text.{string_eq}

-- The entry is on this account.
abbrev posts_to : String → Option String → Bool
posts_to code none = false
posts_to code (some c) = c === code

-- What an entry adds to the balance of an account.
abbrev signed : String → LedgerLine → ℤ
signed code e = if posts_to code e.account_code then credit_of e -ℤ debit_of e else pos 0

-- What the entries together add to the balance of an account.
unfoldable pub account_net : String → List LedgerLine → ℤ
unfolding total
account_net code es = total (signed code) es

signed-debit_other : (x c : String) (a : ℤ) → c ≢ x → signed x (debit_line c a) ≡ pos 0
signed-debit_other x c a h = elim (Bool-cases (c === x)) [
  | inl e ↦ absurd (h ((string_eq.beq_iff c x).0 e))
  | inr n ↦ rw n
]

signed-credit_other : (x c : String) (a : ℤ) → c ≢ x → signed x (credit_line c a) ≡ pos 0
signed-credit_other x c a h = elim (Bool-cases (c === x)) [
  | inl e ↦ absurd (h ((string_eq.beq_iff c x).0 e))
  | inr n ↦ rw n
]

signed-debit_self : (x : String) (a : ℤ) → signed x (debit_line x a) ≡ pos 0 -ℤ a
signed-debit_self x a = rw ((string_eq.beq_iff x x).1 refl) (omega int_laws)

signed-credit_self : (x : String) (a : ℤ) → signed x (credit_line x a) ≡ a
signed-credit_self x a = rw ((string_eq.beq_iff x x).1 refl) (omega int_laws)

signed-IsMeasure : (x : String) → IsMeasure (signed x)
signed-IsMeasure x = record {
  zero_debit = λ c. elim (Bool-cases (c === x)) [ inl e ↦ rw e (omega int_laws) | inr n ↦ rw n ];
  zero_credit = λ c. elim (Bool-cases (c === x)) [ inl e ↦ rw e (omega int_laws) | inr n ↦ rw n ];
}

module _ (currency partner : String)
    (apart : (type : LedgerAccountType) → platform_account_code type currency ≢ partner) where
  pub cash_entries-partner :
      (t p c : ℤ)
      → pos 0 ≤ℤ t
      → pos 0 ≤ℤ p
      → pos 0 ≤ℤ c
      → account_net partner (cash_entries currency partner t p c) ≡ p -ℤ c
  unfolding account_net
  cash_entries-partner t p c ht hp hc =
      total-cash_entries (signed partner) (signed-IsMeasure partner) currency partner t p c ht hp hc
      ∙ simp
          (
            signed-debit_other partner _ t (apart platform_cash_clearing),
            signed-debit_other partner _ p (apart platform_promo_expense),
            signed-credit_other partner _ c (apart platform_revenue),
            signed-credit_other partner _ t (apart platform_cash_clearing),
            signed-debit_self,
            signed-credit_self,
          )
          (omega int_laws)

  pub paid_entries-partner :
      (payer : String) (t p n c : ℤ)
      → payer ≢ partner
      → pos 0 ≤ℤ t
      → pos 0 ≤ℤ p
      → pos 0 ≤ℤ n
      → pos 0 ≤ℤ c
      → account_net partner (paid_entries currency payer partner t p n c) ≡ n
  unfolding account_net
  paid_entries-partner payer t p n c other ht hp hn hc =
      total-paid_entries (signed partner) (signed-IsMeasure partner) currency partner payer t p n c
        ht hp hn hc
      ∙ simp
          (
            signed-debit_other partner payer t other,
            signed-debit_other partner _ p (apart platform_promo_expense),
            signed-credit_other partner _ c (apart platform_revenue),
            signed-credit_self,
          )
          (omega int_laws)

  pub fee_entries-partner :
      (payer : String) (fee k : ℤ)
      → payer ≢ partner
      → pos 0 ≤ℤ k
      → k ≤ℤ fee
      → account_net partner (fee_entries currency payer partner fee k) ≡ k
  unfolding account_net
  fee_entries-partner payer fee k other hk le =
      total-fee_entries (signed partner) (signed-IsMeasure partner) currency partner payer fee k hk
        (omega int_laws)
      ∙ simp
          (
            signed-debit_other partner payer fee other,
            signed-credit_other partner _ (fee -ℤ k) (apart platform_revenue),
            signed-credit_self,
          )
          (omega int_laws)

pub account_net-nil : (x : String) → account_net x [] ≡ pos 0
unfolding account_net total
account_net-nil x = refl

pub account_net-append :
    (x : String) (xs ys : List LedgerLine)
    → account_net x (xs ++ ys) ≡ account_net x xs +ℤ account_net x ys
unfolding account_net
account_net-append x xs ys = total-append (signed x) xs ys

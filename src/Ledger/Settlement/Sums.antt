-- ===== src/Ledger/Settlement/Sums.antt =====
-- Sums over the entries that `settlementEntries` pushes.
use Prim.Native.String.{String}
use tamam.Ledger.{
  platform_revenue, platform_promo_expense, credit_line, platform_account_code,
  platform_cash_clearing, debit_line, pos, LedgerLine,
}
use tamam.Ledger.Balance.{credit_of, debit_of, debits, credits}
use tamam.Ledger.Settlement.{cash_entries, fee_entries, paid_entries, is_positive, push_if}
use tamam.Prelude.{
  ap₂, inr, inl, ◌∙◌, arith, refl, Bool-cases, false, ap, sym, ◌≡◌, List, [], ◌∷◌, ◌++◌,
}
use tamam.Prelude.Int.{◌-ℤ◌, int_laws, +ℤ_assoc, +ℤ-zero, zero-+ℤ, ◌≤ℤ◌, ◌+ℤ◌, ℤ}
use tamam.Shared.Enums.{LedgerAccountType}

-- The sum of an amount read off each entry.
unfoldable pub total : (LedgerLine → ℤ) → List LedgerLine → ℤ
total f [] = pos 0
total f (e ∷ es) = f e +ℤ total f es

pub debits-total : (es : List LedgerLine) → debits es ≡ total debit_of es
unfolding debits total
debits-total [] = refl
debits-total (e ∷ es) = ap (λ t. debit_of e +ℤ t) (debits-total es)

pub credits-total : (es : List LedgerLine) → credits es ≡ total credit_of es
unfolding credits total
credits-total [] = refl
credits-total (e ∷ es) = ap (λ t. credit_of e +ℤ t) (credits-total es)

pub total-append :
    (f : LedgerLine → ℤ) (xs ys : List LedgerLine) → total f (xs ++ ys) ≡ total f xs +ℤ total f ys
unfolding total
total-append f [] ys = sym (zero-+ℤ (total f ys))
total-append f (x ∷ xs) ys =
    ap (λ t. f x +ℤ t) (total-append f xs ys) ∙ sym (+ℤ_assoc (f x) (total f xs) (total f ys))

zero_of : (a : ℤ) → pos 0 ≤ℤ a → is_positive a ≡ false → a ≡ pos 0
zero_of a h k = ground arith

-- An amount read off an entry that is 0 where the entry's amount is 0.
pub record IsMeasure (f : LedgerLine → ℤ) : Type 0 where
  pub zero_debit : (code : String) → f (debit_line code (pos 0)) ≡ pos 0
  pub zero_credit : (code : String) → f (credit_line code (pos 0)) ≡ pos 0

pub debit_of-IsMeasure : IsMeasure debit_of
debit_of-IsMeasure = record { zero_debit = λ c. omega int_laws; zero_credit = λ c. refl }

pub credit_of-IsMeasure : IsMeasure credit_of
credit_of-IsMeasure = record { zero_debit = λ c. refl; zero_credit = λ c. omega int_laws }

-- Entries pushed if their amount is positive count as if they always were.
total-push :
    (f : LedgerLine → ℤ) (line : ℤ → LedgerLine) (a : ℤ)
    → pos 0 ≤ℤ a
    → f (line (pos 0)) ≡ pos 0
    → total f (push_if (is_positive a) (line a ∷ [])) ≡ f (line a)
unfolding total
total-push f line a h z = elim (Bool-cases (is_positive a)) [
  | inl p ↦ rw p (+ℤ-zero _)
  | inr n ↦ rw n (sym z ∙ ap (λ t. f (line t)) (sym (zero_of a h n)))
]

total-push_pair :
    (f : LedgerLine → ℤ) (line other : ℤ → LedgerLine) (a : ℤ)
    → pos 0 ≤ℤ a
    → f (line (pos 0)) ≡ pos 0
    → f (other (pos 0)) ≡ pos 0
    → total f (push_if (is_positive a) (line a ∷ other a ∷ [])) ≡ f (line a) +ℤ f (other a)
unfolding total
total-push_pair f line other a h z y = elim (Bool-cases (is_positive a)) [
  | inl p ↦ rw p (ap (λ t. f (line a) +ℤ t) (+ℤ-zero _))
  | inr n ↦ rw n (
      sym (ap₂ ◌+ℤ◌ z y ∙ +ℤ-zero (pos 0))
      ∙ ap (λ t. f (line t) +ℤ f (other t)) (sym (zero_of a h n)))
]

module _ (f : LedgerLine → ℤ) (m : IsMeasure f) (currency partner : String) where
  open m use {zero_debit, zero_credit}

  abbrev code : LedgerAccountType → String
  code type = platform_account_code type currency

  pub total-cash_entries :
      (t p c : ℤ)
      → pos 0 ≤ℤ t
      → pos 0 ≤ℤ p
      → pos 0 ≤ℤ c
      → total f (cash_entries currency partner t p c)
        ≡ f (debit_line (code platform_cash_clearing) t)
          +ℤ f (credit_line partner t)
          +ℤ (f (debit_line (code platform_promo_expense) p)
              +ℤ f (credit_line partner p)
              +ℤ (f (debit_line partner c)
                  +ℤ f (credit_line (code platform_revenue) c)
                  +ℤ (f (debit_line partner t) +ℤ f (credit_line (code platform_cash_clearing) t))))
  unfolding cash_entries
  total-cash_entries t p c ht hp hc = simp (
    total-append,
    total-push_pair f (debit_line (code platform_cash_clearing)) (credit_line partner) t ht
        (zero_debit _) (zero_credit _),
    total-push_pair f (debit_line (code platform_promo_expense)) (credit_line partner) p hp
        (zero_debit _) (zero_credit _),
    total-push_pair f (debit_line partner) (credit_line (code platform_revenue)) c hc (zero_debit _)
        (zero_credit _),
    total-push_pair f (debit_line partner) (credit_line (code platform_cash_clearing)) t ht
        (zero_debit _) (zero_credit _),
  )

  pub total-paid_entries :
      (payer : String) (t p n c : ℤ)
      → pos 0 ≤ℤ t
      → pos 0 ≤ℤ p
      → pos 0 ≤ℤ n
      → pos 0 ≤ℤ c
      → total f (paid_entries currency payer partner t p n c)
        ≡ f (debit_line payer t)
          +ℤ (f (debit_line (code platform_promo_expense) p)
              +ℤ (f (credit_line partner n) +ℤ f (credit_line (code platform_revenue) c)))
  unfolding paid_entries
  total-paid_entries payer t p n c ht hp hn hc = simp (
    total-append,
    total-push f (debit_line payer) t ht (zero_debit _),
    total-push f (debit_line (code platform_promo_expense)) p hp (zero_debit _),
    total-push f (credit_line partner) n hn (zero_credit _),
    total-push f (credit_line (code platform_revenue)) c hc (zero_credit _),
  )

  pub total-fee_entries :
      (payer : String) (fee k : ℤ)
      → pos 0 ≤ℤ k
      → pos 0 ≤ℤ fee -ℤ k
      → total f (fee_entries currency payer partner fee k)
        ≡ f (debit_line payer fee)
          +ℤ (f (credit_line partner k) +ℤ f (credit_line (code platform_revenue) (fee -ℤ k)))
  unfolding fee_entries total
  total-fee_entries payer fee k hk hs =
      ap (λ t. f (debit_line payer fee) +ℤ t)
        (total-append f (push_if (is_positive k) (credit_line partner k ∷ [])) _
          ∙ ap₂ ◌+ℤ◌ (total-push f (credit_line partner) k hk (zero_credit _))
              (total-push f (credit_line (code platform_revenue)) (fee -ℤ k) hs (zero_credit _)))

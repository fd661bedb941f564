-- ===== src/Ledger/Settlement/Balanced.antt =====
-- Every settlement plan balances, and what a settlement needs in order not to throw.
use Prim.Native.String.{String}
use text.Mathlib.TextEquality.{eq_iff}
use text.Mathlib.TextLemmas.{append-eq-nil_iff}
use tamam.Ledger.{
  add_credit, add_debit, ◌+++◌, ok, credit_line, debit_line, pos, LedgerLine, platform_account_code,
}
use tamam.Ledger.Balance.{
  credit_of, debit_of, assert_balanced_iff, IsBalanced, credits, debits, IsLine,
}
use tamam.Ledger.Settlement.{
  paid_entries, fee_entries, cash_entries, assert_entries, is_positive, push_if,
}
use tamam.Ledger.Settlement.Sums.{
  credit_of-IsMeasure, total-fee_entries, total-paid_entries, debit_of-IsMeasure,
  total-cash_entries, credits-total, total-append, debits-total,
}
use tamam.Prelude.{
  ap₂, sym, refl, ◌∙◌, inr, arith, inl, Bool-cases, ◌≡◌, List, [], ◌∷◌, ◌++◌, some, true, false,
}
use tamam.Prelude.Data.{◌===◌}
use tamam.Prelude.Int.{◌-ℤ◌, parts_of_eq, int_laws, ◌+ℤ◌, ◌≤ℤ◌, ℤ}
use tamam.Prelude.Lists.{All}
use tamam.Shared.Enums.{credit, debit, LedgerEntryDirection, customer_wallet, LedgerAccountType}
use tamam.Shared.Text.{string_eq, has_text}

All-append {ℓ κ} :
    {A : Type ℓ} (P : A → Type κ) (xs ys : List A) → All P xs → All P ys → All P (xs ++ ys)
All-append P [] ys h k = k
All-append P (x ∷ xs) ys h k = (h.0, All-append P xs ys h.1 k)

push_if-lines :
    (a : ℤ) (es : List LedgerLine)
    → (pos 1 ≤ℤ a → All IsLine es)
    → All IsLine (push_if (is_positive a) es)
push_if-lines a es h = elim (Bool-cases (is_positive a)) [
  | inl p ↦ rw p (h (ground arith))
  | inr n ↦ rw n tt
]

pub debit_line-IsLine :
    (code : String) (a : ℤ) → has_text (some code) ≡ true → pos 1 ≤ℤ a → IsLine (debit_line code a)
debit_line-IsLine code a h p = record { positive = p; one_account = h }

pub credit_line-IsLine :
    (code : String) (a : ℤ) → has_text (some code) ≡ true → pos 1 ≤ℤ a → IsLine (credit_line code a)
credit_line-IsLine code a h p = record { positive = p; one_account = h }

pub both : {x y : LedgerLine} → IsLine x → IsLine y → All IsLine (x ∷ y ∷ [])
both h k = (h, (k, tt))

append-has_text : (p q : String) → (p === "") ≡ false → has_text (some (p +++ q)) ≡ true
append-has_text p q h = elim (Bool-cases ((p +++ q) === "")) [
  | inl e ↦ cc (sym h ∙ (eq_iff p "").1 (append-eq-nil_iff.0 ((eq_iff (p +++ q) "").0 e)).0)
  | inr n ↦ rw n
]

-- The text of a platform account is never empty.
pub platform_account_code-has_text :
    (type : LedgerAccountType) (currency : String)
    → has_text (some (platform_account_code type currency)) ≡ true
unfolding platform_account_code
platform_account_code-has_text customer_wallet currency = append-has_text _ _ refl
platform_account_code-has_text _ currency = append-has_text _ _ refl

-- Entries that balance, whatever their number.
pub record IsFair (es : List LedgerLine) : Type 0 where
  pub lines : All IsLine es
  pub sums : debits es ≡ credits es

pub nil-IsFair : IsFair []
unfolding debits credits
nil-IsFair = record { lines = tt; sums = refl }

pub append-IsFair : (xs ys : List LedgerLine) → IsFair xs → IsFair ys → IsFair (xs ++ ys)
append-IsFair xs ys h k = record {
  lines = All-append IsLine xs ys h.lines k.lines;
  sums =
      debits-total (xs ++ ys)
      ∙ total-append debit_of xs ys
      ∙ ap₂ ◌+ℤ◌ (sym (debits-total xs) ∙ h.sums ∙ credits-total xs)
          (sym (debits-total ys) ∙ k.sums ∙ credits-total ys)
      ∙ sym (total-append credit_of xs ys)
      ∙ sym (credits-total (xs ++ ys));
}

-- A balanced list that is not empty has two entries, since one alone has nothing against it.
IsFair-IsBalanced : (e : LedgerLine) (es : List LedgerLine) → IsFair (e ∷ es) → IsBalanced (e ∷ es)
unfolding debits credits
IsFair-IsBalanced e [] h = absurd (one_alone e.direction e.amount_minor h.lines.0.positive h.sums)
  where
    one_alone :
        (d : LedgerEntryDirection) (a : ℤ)
        → pos 1 ≤ℤ a
        → add_debit d a (pos 0) +ℤ pos 0 ≡ add_credit d a (pos 0) +ℤ pos 0
        → ⊥
    one_alone debit a p q = omega (int_laws, parts_of_eq _ _ q)
    one_alone credit a p q = omega (int_laws, parts_of_eq _ _ q)
IsFair-IsBalanced e (e' ∷ es) h = record { entries = omega arith; lines = h.lines; sums = h.sums }

-- Entries that balance pass the check of `settlementEntries`.
pub assert_entries-IsFair : (es : List LedgerLine) → IsFair es → assert_entries es ≡ ok tt
assert_entries-IsFair [] h = refl
assert_entries-IsFair (e ∷ es) h = (assert_balanced_iff (e ∷ es)).1 (IsFair-IsBalanced e es h)

module _ (currency partner : String) (named : has_text (some partner) ≡ true) where
  platform_line :
      (type : LedgerAccountType) → has_text (some (platform_account_code type currency)) ≡ true
  platform_line type = platform_account_code-has_text type currency

  cash_entries-lines : (t p c : ℤ) → All IsLine (cash_entries currency partner t p c)
  unfolding cash_entries
  cash_entries-lines t p c =
      All-append IsLine _ _
        (push_if-lines t _
          (λ h. both (debit_line-IsLine _ t (platform_line _) h) (credit_line-IsLine _ t named h)))
        (All-append IsLine _ _
          (push_if-lines p _ (λ h.
            both (debit_line-IsLine _ p (platform_line _) h) (credit_line-IsLine _ p named h)))
          (All-append IsLine _ _
            (push_if-lines c _ (λ h.
              both (debit_line-IsLine _ c named h) (credit_line-IsLine _ c (platform_line _) h)))
            (push_if-lines t _ (λ h.
              both (debit_line-IsLine _ t named h) (credit_line-IsLine _ t (platform_line _) h)))))

  pub cash_entries-IsFair :
      (t p c : ℤ)
      → pos 0 ≤ℤ t
      → pos 0 ≤ℤ p
      → pos 0 ≤ℤ c
      → IsFair (cash_entries currency partner t p c)
  cash_entries-IsFair t p c ht hp hc = record {
    lines = cash_entries-lines t p c;
    sums =
        debits-total _
        ∙ total-cash_entries debit_of debit_of-IsMeasure currency partner t p c ht hp hc
        ∙ omega int_laws
        ∙ sym (total-cash_entries credit_of credit_of-IsMeasure currency partner t p c ht hp hc)
        ∙ sym (credits-total _);
  }

  module _ (payer : String) (known : has_text (some payer) ≡ true) where
    paid_entries-lines : (t p n c : ℤ) → All IsLine (paid_entries currency payer partner t p n c)
    unfolding paid_entries
    paid_entries-lines t p n c =
        All-append IsLine _ _ (push_if-lines t _ (λ h. (debit_line-IsLine _ t known h, tt))) (
          All-append IsLine _ _
            (push_if-lines p _ (λ h. (debit_line-IsLine _ p (platform_line _) h, tt)))
            (All-append IsLine _ _ (push_if-lines n _ (λ h. (credit_line-IsLine _ n named h, tt)))
              (push_if-lines c _ (λ h. (credit_line-IsLine _ c (platform_line _) h, tt)))))

    pub paid_entries-IsFair :
        (t p n c : ℤ)
        → pos 0 ≤ℤ t
        → pos 0 ≤ℤ p
        → pos 0 ≤ℤ n
        → pos 0 ≤ℤ c
        → t +ℤ p ≡ n +ℤ c
        → IsFair (paid_entries currency payer partner t p n c)
    paid_entries-IsFair t p n c ht hp hn hc split = record {
      lines = paid_entries-lines t p n c;
      sums =
          debits-total _
          ∙ total-paid_entries debit_of debit_of-IsMeasure currency partner payer t p n c ht hp hn
              hc
          ∙ omega (int_laws, parts_of_eq _ _ split)
          ∙ sym (
              total-paid_entries credit_of credit_of-IsMeasure currency partner payer t p n c ht hp
                hn hc)
          ∙ sym (credits-total _);
    }

    pub fee_entries-IsFair :
        (fee k : ℤ)
        → pos 1 ≤ℤ fee
        → pos 0 ≤ℤ k
        → k ≤ℤ fee
        → IsFair (fee_entries currency payer partner fee k)
    unfolding fee_entries
    fee_entries-IsFair fee k hf hk le = record {
      lines = (
        debit_line-IsLine payer fee known hf,
        All-append IsLine _ _ (push_if-lines k _ (λ h. (credit_line-IsLine _ k named h, tt)))
            (push_if-lines (fee -ℤ k) _ (λ h. (credit_line-IsLine _ _ (platform_line _) h, tt))),
      );
      sums =
          debits-total _
          ∙ total-fee_entries debit_of debit_of-IsMeasure currency partner payer fee k hk
              (omega int_laws)
          ∙ omega int_laws
          ∙ sym (
              total-fee_entries credit_of credit_of-IsMeasure currency partner payer fee k hk
                (omega int_laws))
          ∙ sym (credits-total _);
    }

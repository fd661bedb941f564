-- ===== src/Ledger/Settlement/Refund.antt =====
-- What `refundEntries` returns.
use Prim.Native.String.{String}
use tamam.Ledger.{
  credit_line, debit_line, ok, LedgerLine, platform_refund_expense, platform_account_code,
}
use tamam.Ledger.Balance.{IsBalanced, assert_balanced_iff, debits, credits}
use tamam.Ledger.Settlement.{refund_entries}
use tamam.Ledger.Settlement.Balanced.{
  both, debit_line-IsLine, credit_line-IsLine, platform_account_code-has_text,
}
use tamam.Ledger.Settlement.Returns.{require_non_negative-ok}
use tamam.Prelude.{[], ◌∷◌, ◌≡◌, refl, true, some, List, arith}
use tamam.Prelude.Int.{ℤ, pos, ◌≤ℤ◌, int_laws}
use tamam.Shared.Errors.{Result}
use tamam.Shared.Text.{has_text}

abbrev pub Refunds : Result (List LedgerLine) → Type 0
Refunds r = (es : List LedgerLine) × (r ≡ ok es) × IsBalanced es

-- For a positive amount and a named customer account `refundEntries` never throws: it returns
-- entries that pass the balance check, and so have the same debits as credits.
pub refund_entries-Refunds :
    (amount : ℤ) (currency customer : String)
    → pos 1 ≤ℤ amount
    → has_text (some customer) ≡ true
    → Refunds (refund_entries amount currency customer)
unfolding refund_entries debits credits
refund_entries-Refunds amount currency customer h named =
    let account = platform_account_code platform_refund_expense currency in
    let known = platform_account_code-has_text platform_refund_expense currency in
    let posted = debit_line account amount ∷ credit_line customer amount ∷ [] in
    let balanced : IsBalanced posted = record {
      entries = omega arith;
      lines =
          both (debit_line-IsLine account amount known h)
            (credit_line-IsLine customer amount named h);
      sums = omega int_laws;
    } in
    rw (require_non_negative-ok amount (omega arith), (assert_balanced_iff posted).1 balanced)
      (posted, refl, balanced)

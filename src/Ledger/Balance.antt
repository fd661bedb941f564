-- ===== src/Ledger/Balance.antt =====
-- What `assertBalanced` accepts, and the sums of a list of entries.
use mathlib.Core.Path.{ap₂}
use tamam.Ledger.{
  assert_balanced, differ, add_debit, add_credit, ok, pos, LedgerLine, tally, check_line,
}
use tamam.Prelude.{ap, le→ltb, sym, ltb, ◌≤◌, [], not, ◌∙◌, ◌↔◌, false, arith, ◌∷◌, List, ◌≡◌}
use tamam.Prelude.Int.{zero-+ℤ, int_laws, ◌+ℤ◌, ◌≤ℤ◌, ℤ}
use tamam.Prelude.Lists.{length, All}
use tamam.Shared.Enums.{credit, debit, LedgerEntryDirection}
use tamam.Shared.Errors.{throw_if-ok, ok-injective, bind_ok, validation, throw_if, then_ok}
use tamam.Shared.Text.{has_text}

-- An entry that the ledger takes: a positive amount, on exactly one of the two kinds of account.
pub record IsLine (e : LedgerLine) : Type 0 where
  pub positive : pos 1 ≤ℤ e.amount_minor
  pub one_account : has_text e.account_code ≡ not (has_text e.wallet_id)

-- The amount that an entry debits, and the one that it credits.
abbrev pub debit_of : LedgerLine → ℤ
debit_of e = add_debit e.direction e.amount_minor (pos 0)

abbrev pub credit_of : LedgerLine → ℤ
credit_of e = add_credit e.direction e.amount_minor (pos 0)

unfoldable pub debits : List LedgerLine → ℤ
debits [] = pos 0
debits (e ∷ es) = debit_of e +ℤ debits es

unfoldable pub credits : List LedgerLine → ℤ
credits [] = pos 0
credits (e ∷ es) = credit_of e +ℤ credits es

check_line-ok : (e : LedgerLine) → IsLine e → check_line e ≡ ok tt
unfolding check_line
check_line-ok e h = ground arith

check_line-IsLine : (e : LedgerLine) → check_line e ≡ ok tt → IsLine e
unfolding check_line
check_line-IsLine e h = ground arith

step-debit :
    (e : LedgerLine) (t rest : ℤ)
    → add_debit e.direction e.amount_minor t +ℤ rest ≡ t +ℤ (debit_of e +ℤ rest)
step-debit e t rest = by_direction e.direction e.amount_minor
  where
    by_direction :
        (d : LedgerEntryDirection) (a : ℤ)
        → add_debit d a t +ℤ rest ≡ t +ℤ (add_debit d a (pos 0) +ℤ rest)
    by_direction debit a = omega int_laws
    by_direction credit a = omega int_laws

step-credit :
    (e : LedgerLine) (t rest : ℤ)
    → add_credit e.direction e.amount_minor t +ℤ rest ≡ t +ℤ (credit_of e +ℤ rest)
step-credit e t rest = by_direction e.direction e.amount_minor
  where
    by_direction :
        (d : LedgerEntryDirection) (a : ℤ)
        → add_credit d a t +ℤ rest ≡ t +ℤ (add_credit d a (pos 0) +ℤ rest)
    by_direction debit a = omega int_laws
    by_direction credit a = omega int_laws

tally-sums :
    (es : List LedgerLine) (d c : ℤ)
    → All IsLine es
    → tally es d c ≡ ok (d +ℤ debits es, c +ℤ credits es)
unfolding tally debits credits
tally-sums [] d c h = ap₂ (λ x y. ok (x, y)) (omega int_laws) (omega int_laws)
tally-sums (e ∷ es) d c h = rw (check_line-ok e h.0) (
    tally-sums es _ _ h.1
    ∙ ap₂ (λ x y. ok (x, y)) (step-debit e d (debits es)) (step-credit e c (credits es)))

tally-IsLine :
    (es : List LedgerLine) (d c : ℤ) (sums : ℤ × ℤ) → tally es d c ≡ ok sums → All IsLine es
unfolding tally
tally-IsLine [] d c sums h = tt
tally-IsLine (e ∷ es) d c sums h =
    let (first, others) = then_ok (check_line e) _ h in
    (check_line-IsLine e first, tally-IsLine es _ _ sums others)

differ_iff : (a b : ℤ) → (differ a b ≡ false) ↔ (a ≡ b)
differ_iff a b = ground arith

-- A transaction as the double-entry rules want it.
pub record IsBalanced (es : List LedgerLine) : Type 0 where
  pub entries : 2 ≤ length es
  pub lines : All IsLine es
  pub sums : debits es ≡ credits es

-- `assertBalanced` returns exactly on a list of at least two entries, each with a positive amount
-- on exactly one account, whose debits and credits have the same sum.
pub assert_balanced_iff : (es : List LedgerLine) → (assert_balanced es ≡ ok tt) ↔ IsBalanced es
unfolding assert_balanced
assert_balanced_iff es = (
  λ h.
      let (enough, rest) = then_ok (throw_if (ltb (length es) 2) validation) _ h in
      let (sums, counted, same) = bind_ok (tally es (pos 0) (pos 0)) _ rest in
      let lines = tally-IsLine es _ _ sums counted in
      let totals = ok-injective _ _ (sym counted ∙ tally-sums es (pos 0) (pos 0) lines) in
      record {
        entries = ground (arith, throw_if-ok _ _ enough);
        lines = lines;
        sums =
            (sym (zero-+ℤ (debits es))
              ∙ sym (ap (λ s. s.0) totals)
              ∙ (differ_iff sums.0 sums.1).0 (throw_if-ok _ _ same)
              ∙ ap (λ s. s.1) totals
              ∙ zero-+ℤ (credits es));
      },
  λ b. rw (
    tally-sums es (pos 0) (pos 0) b.lines,
    le→ltb (length es) 2 b.entries,
    (differ_iff _ _).1 (ap (λ t. pos 0 +ℤ t) b.sums),
  ),
)

-- ===== src/Disputes.antt =====
-- apps/api/src/modules/disputes/domain/dispute-decision.ts: which jobs can be disputed, which
-- disputes can be decided, and what a decision books for the partner. The number of a dispute is
-- not modelled.
use Prim.Native.String.{String}
use tamam.Ledger.{LedgerLine, platform_account_code}
use tamam.Ledger.Settlement.Balanced.{both, platform_account_code-has_text}
use tamam.Ledger.Balance.{IsBalanced, debits, credits}
use tamam.Prelude.{
  ◌≡◌, refl, Bool, true, false, not, ◌&&◌, none, some, List, [], ◌∷◌, inl, inr, Bool-cases,
  if◌then◌else◌, arith,
}
use tamam.Prelude.Int.{ℤ, pos, negate, leb_ℤ, ltb_ℤ, ◌≤ℤ◌, int_laws}
use tamam.Prelude.Lists.{includes}
use tamam.Shared.Enums.{
  DisputeStatus, JobStatus, job_status_eq, dispute_status_eq, debit, credit,
  platform_refund_expense,
}
use tamam.Shared.Errors.{
  Result, bad_request, conflict_error, invalid_state_transition, conflict, throw_if,
}
use tamam.Shared.Text.{has_text}

-- `LIVE_DISPUTE_STATUSES`
abbrev live_dispute_statuses : List DisputeStatus
live_dispute_statuses = DisputeStatus.opened ∷ DisputeStatus.under_review ∷ []

-- `CUSTOMER_DISPUTABLE_JOB_STATUSES`
abbrev customer_disputable_job_statuses : List JobStatus
customer_disputable_job_statuses = JobStatus.completed ∷ JobStatus.work_completed ∷ []

-- `PARTNER_DISPUTABLE_JOB_STATUSES`
abbrev partner_disputable_job_statuses : List JobStatus
partner_disputable_job_statuses = JobStatus.completed ∷ []

-- `assertJobDisputable`
unfoldable assert_job_disputable : JobStatus → Bool → Result (Unit {0})
assert_job_disputable status opened_by_customer =
    throw_if
      (not (
        includes
          (if opened_by_customer
            then customer_disputable_job_statuses
            else partner_disputable_job_statuses)
          status))
      (bad_request invalid_state_transition)

-- `assertDecidable`
unfoldable assert_decidable : DisputeStatus → Result (Unit {0})
assert_decidable status =
    throw_if (not (includes live_dispute_statuses status)) (conflict_error conflict)

abbrev is_zero : ℤ → Bool
is_zero a = leb_ℤ a (pos 0) && leb_ℤ (pos 0) a

-- `partnerAdjustmentEntries`
unfoldable partner_adjustment_entries : ℤ → String → String → List LedgerLine
partner_adjustment_entries adjustment currency partner_wallet_id =
    let amount = if ltb_ℤ adjustment (pos 0) then negate adjustment else adjustment in
    let expense = platform_account_code platform_refund_expense currency in
    if is_zero adjustment
    then []
    else if ltb_ℤ adjustment (pos 0)
    then record {
      account_code = none;
      wallet_id = some partner_wallet_id;
      direction = debit;
      amount_minor = amount;
    }
      ∷ record {
        account_code = some expense;
        wallet_id = none;
        direction = credit;
        amount_minor = amount;
      }
      ∷ []
    else record {
      account_code = none;
      wallet_id = some partner_wallet_id;
      direction = credit;
      amount_minor = amount;
    }
      ∷ record {
        account_code = some expense;
        wallet_id = none;
        direction = debit;
        amount_minor = amount;
      }
      ∷ []

-- One entry on the wallet and one on the expense account, of the same amount.
pair-IsBalanced :
    (wallet expense : String) (amount : ℤ)
    → pos 1 ≤ℤ amount
    → has_text (some wallet) ≡ true
    → has_text (some expense) ≡ true
    → IsBalanced (
        record {
          account_code = none;
          wallet_id = some wallet;
          direction = debit;
          amount_minor = amount;
        }
        ∷ record {
          account_code = some expense;
          wallet_id = none;
          direction = credit;
          amount_minor = amount;
        }
        ∷ [])
      × IsBalanced (
          record {
            account_code = none;
            wallet_id = some wallet;
            direction = credit;
            amount_minor = amount;
          }
          ∷ record {
            account_code = some expense;
            wallet_id = none;
            direction = debit;
            amount_minor = amount;
          }
          ∷ [])
unfolding debits credits
pair-IsBalanced wallet expense amount positive named known =
    let on_wallet : false ≡ not (has_text (some wallet)) = rw named refl in
    (
      record {
        entries = omega arith;
        lines =
            both (record { positive = positive; one_account = on_wallet })
              (record { positive = positive; one_account = known });
        sums = omega int_laws;
      },
      record {
        entries = omega arith;
        lines =
            both (record { positive = positive; one_account = on_wallet })
              (record { positive = positive; one_account = known });
        sums = omega int_laws;
      },
    )

-- An adjustment that is not zero books entries that pass the balance check, on the partner's named wallet and on
-- the platform's refund expense.
partner_adjustment_entries-IsBalanced :
    (adjustment : ℤ) (currency wallet : String)
    → has_text (some wallet) ≡ true
    → is_zero adjustment ≡ false
    → IsBalanced (partner_adjustment_entries adjustment currency wallet)
unfolding partner_adjustment_entries
partner_adjustment_entries-IsBalanced adjustment currency wallet named moves =
    let expense = platform_account_code platform_refund_expense currency in
    let known = platform_account_code-has_text platform_refund_expense currency in
    elim (Bool-cases (ltb_ℤ adjustment (pos 0))) [
      | inl below ↦
          rw (moves, below)
            (pair-IsBalanced wallet expense (negate adjustment) (ground arith) named known).0
      | inr above ↦
          rw (moves, above) (pair-IsBalanced wallet expense adjustment (ground arith) named known).1
    ]

-- ===== src/Quotes/Submit.antt =====
-- `submit` of apps/api/src/modules/quotes/quotes.service.ts.
use Prim.Native.String.{String}
use tamam.Jobs.Policy.{RequestUser, is_assigned_partner, get_for_user}
use tamam.Jobs.Service.{JobRow, transition_in_tx, no_patch}
use tamam.Money.{Decimal}
use tamam.Prelude.{
  ℕ, ◌+◌, Bool, true, false, not, ◌||◌, Option, none, some, List, ◌∷◌, if◌then◌else◌,
}
use tamam.Prelude.Data.{◌===◌}
use tamam.Prelude.Int.{ℤ}
use tamam.Quotes.Amounts.{QuoteItem, QuoteAmounts, amounts_of}
use tamam.Shared.Enums.{
  JobType, JobStatus, JobActorType, QuoteStatus, QuoteKind, job_type_eq, job_status_eq,
  quote_status_eq,
}
use tamam.Shared.Errors.{Result, ok, forbidden_error, invalid_transition, throw_if, ◌>>=◌, ◌>>◌}
use tamam.Shared.Text.{string_eq}
use tamam.Quotes.Store.{
  quote_kind_eq, Quote, Store, set_status, find_latest, max_revision, is_submitted,
  submitted_or_rejected,
}

-- `SubmitQuoteInput`
pub record SubmitQuoteInput : Type 0 where
  pub items : List QuoteItem
  pub discount_minor : ℤ
  pub kind : QuoteKind
  pub version : ℕ

-- The statuses that the guards of `submit` let through.
abbrev pub takes_quote : Bool → JobStatus → Bool
takes_quote true s = s === JobStatus.work_started || s === JobStatus.waiting_for_parts
takes_quote false s =
    s === JobStatus.quote_required
    || (s === JobStatus.quote_rejected || s === JobStatus.inspection_started)

abbrev pub is_change_order : SubmitQuoteInput → JobRow → Bool
is_change_order input job =
    input.kind === QuoteKind.change_order || job.status === JobStatus.work_started

-- `if (previous && previous.status === SUBMITTED)` mark it superseded.
abbrev pub supersede : Option Quote → List Quote → List Quote
supersede none quotes = quotes
supersede (some previous) quotes =
    if is_submitted previous then set_status previous.id QuoteStatus.superseded quotes else quotes

abbrev pub quote_id : Option Quote → Option String
quote_id none = none
quote_id (some q) = some q.id

-- The rows of `service_quotes` after the transaction of `submit`.
unfoldable pub quotes_after_submit : String → Bool → QuoteAmounts → List Quote → List Quote
quotes_after_submit id change amounts quotes =
    let previous = find_latest submitted_or_rejected quotes in
    record {
      id = id;
      kind = if change then QuoteKind.change_order else QuoteKind.initial;
      revision = max_revision quotes + 1;
      status = QuoteStatus.submitted;
      supersedes_quote_id = quote_id previous;
      amounts = amounts;
    }
    ∷ supersede previous quotes

-- `submit`; `id` is the new row's, `tax_percent` the one of the job's pricing rule.
unfoldable pub submit : ℕ → String → Decimal → Store → RequestUser → SubmitQuoteInput → Result Store
submit now id tax_percent store user input = do
  job ← get_for_user (some store.job) user
  throw_if (not (is_assigned_partner user job)) forbidden_error
  throw_if (not (job.type === JobType.home_service)) invalid_transition
  throw_if (not (takes_quote (is_change_order input job) job.status)) invalid_transition
  amounts ← amounts_of input.items input.discount_minor tax_percent
  moved ←
      transition_in_tx now (some store.job) JobStatus.quote_submitted
        (record { type = JobActorType.partner; id = some user.id })
        (record {
          expected_version = some input.version;
          event_type =
              some
                (if is_change_order input job then "change_order.submitted" else "quote.submitted");
          patch = no_patch;
        })
  ok (record {
    job = moved;
    estimated_total_minor = store.estimated_total_minor;
    quotes = quotes_after_submit id (is_change_order input job) amounts store.quotes;
  })

-- ===== src/Quotes/Decide.antt =====
-- `decide`, `onResponseTimeout` and `closeInspectionOnly` of
-- apps/api/src/modules/quotes/quotes.service.ts.
use Prim.Native.String.{String}
use tamam.Jobs.Policy.{RequestUser, is_customer, is_staff, actor_type_for, get_for_user}
use tamam.Jobs.Service.{JobRow, transition_in_tx, no_patch, keep, set}
use tamam.Prelude.{ℕ, Bool, not, ◌&&◌, Option, none, some, List, map, if◌then◌else◌}
use tamam.Prelude.Data.{◌===◌}
use tamam.Prelude.Int.{pos}
use tamam.Pricing.Final.{FareTerms, finalize_fare}
use tamam.Prelude.Lists.{find?}
use tamam.Shared.Enums.{
  JobStatus, JobActorType, QuoteStatus, QuoteKind, job_type_eq, job_status_eq, quote_status_eq,
}
use tamam.Shared.Errors.{
  Result, ok, err, quote_not_approved, bad_request, forbidden_error, invalid_transition, throw_if,
  or_throw, ◌>>=◌, ◌>>◌,
}
use tamam.Shared.Text.{string_eq}
use tamam.Quotes.Store.{
  quote_kind_eq, Quote, Store, with_status, set_status, find_latest, is_submitted,
}

-- `DecideQuoteInput`: `approve` is `decision === 'APPROVE'`.
pub record DecideQuoteInput : Type 0 where
  pub approve : Bool
  pub version : ℕ

-- The rows of `service_quotes` after the transaction of `decide`.
unfoldable pub quotes_after_decide : Bool → Quote → List Quote → List Quote
quotes_after_decide approve quote quotes =
    let decided =
      set_status quote.id (if approve then QuoteStatus.approved else QuoteStatus.rejected) quotes in
    if approve && quote.kind === QuoteKind.change_order
    then map
        (λ q.
          if q.status === QuoteStatus.approved && not (q.id === quote.id)
          then with_status QuoteStatus.superseded q
          else q)
        decided
    else decided

-- `if (approve && isChangeOrder)` the change of `decide` back to WORK_STARTED.
unfoldable pub resume_work : ℕ → Bool → Option String → JobRow → Result JobRow
resume_work now resumes partner moved =
    if resumes
    then transition_in_tx now (some moved) JobStatus.work_started
        (record { type = JobActorType.partner; id = partner })
        (record {
          expected_version = none;
          event_type = some "work.resumed_after_change_order";
          patch = no_patch;
        })
    else ok moved

-- `decide`
unfoldable pub decide : ℕ → Store → RequestUser → DecideQuoteInput → Result Store
unfolding resume_work
decide now store user input = do
  job ← get_for_user (some store.job) user
  throw_if (not (is_customer user job) && not (is_staff user)) forbidden_error
  throw_if (not (job.status === JobStatus.quote_submitted)) invalid_transition
  quote ← or_throw (find_latest is_submitted store.quotes) (bad_request quote_not_approved)
  moved ←
      transition_in_tx now (some store.job)
        (if input.approve then JobStatus.quote_approved else JobStatus.quote_rejected)
        (record {
          type = if is_staff user then JobActorType.admin else JobActorType.customer;
          id = some user.id;
        })
        (record { expected_version = some input.version; event_type = none; patch = no_patch })
  resumed ←
      resume_work now (input.approve && quote.kind === QuoteKind.change_order) job.partner_id moved
  ok (record {
    job = resumed;
    estimated_total_minor =
        if input.approve then quote.amounts.total_minor else store.estimated_total_minor;
    quotes = quotes_after_decide input.approve quote store.quotes;
  })

-- What a call leaves in the store, and what it returns: no transaction undoes the one for the other.
abbrev pub reject_quote : Store → Quote → Store
reject_quote store quote = record {
  job = store.job;
  estimated_total_minor = store.estimated_total_minor;
  quotes = set_status quote.id QuoteStatus.rejected store.quotes;
}

abbrev pub with_job : Store → Result JobRow → Store × Result (Unit {0})
with_job store (err e) = (store, err e)
with_job store (ok moved) = (
  record {
    job = moved;
    estimated_total_minor = store.estimated_total_minor;
    quotes = store.quotes;
  },
  ok tt,
)

-- The rest of `onResponseTimeout`, past its early returns.
unfoldable pub time_out : ℕ → Store → Quote → Store × Result (Unit {0})
time_out now store quote = with_job (reject_quote store quote) (
    transition_in_tx now (some store.job) JobStatus.quote_rejected
      (record { type = JobActorType.system; id = none })
      (record { expected_version = none; event_type = some "quote.timeout"; patch = no_patch }))

-- `onResponseTimeout` with the row that it finds.
unfoldable pub time_out_found : ℕ → Store → Option Quote → Store × Result (Unit {0})
time_out_found now store none = (store, ok tt)
time_out_found now store (some quote) =
    if not (is_submitted quote)
    then (store, ok tt)
    else if not (store.job.status === JobStatus.quote_submitted)
    then (store, ok tt)
    else time_out now store quote

-- `onResponseTimeout`
unfoldable pub on_response_timeout : ℕ → Store → String → Store × Result (Unit {0})
unfolding time_out_found
on_response_timeout now store id = time_out_found now store (find? (λ q. q.id === id) store.quotes)

-- `closeInspectionOnly`; `terms` is what `finalizeFare` reads of the job and of the rows it names.
unfoldable pub close_inspection_only : ℕ → FareTerms → Store → RequestUser → ℕ → Result Store
close_inspection_only now terms store user version = do
  job ← get_for_user (some store.job) user
  throw_if (not (is_customer user job) && not (is_staff user)) forbidden_error
  throw_if (not (job.status === JobStatus.quote_rejected)) invalid_transition
  fare ← finalize_fare job.type terms (record {
    distance_meters = none;
    duration_seconds = none;
    waiting_seconds = none;
    hours = none;
    quote = none;
    options_minor = some (pos 0);
  })
  moved ←
      transition_in_tx now (some store.job) JobStatus.completed
        (record { type = actor_type_for user job; id = some user.id })
        (record {
          expected_version = some version;
          event_type = some "job.completed_inspection_only";
          patch = record {
            partner_id = keep;
            vehicle_id = keep;
            dispatch_started_at = keep;
            final_total_minor = set (some fare.total_minor);
            breakdown = set (some fare.lines);
          };
        })
  ok (record {
    job = moved;
    estimated_total_minor = store.estimated_total_minor;
    quotes = store.quotes;
  })

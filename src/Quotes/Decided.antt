-- ===== src/Quotes/Decided.antt =====
-- What `decide` does to the quotes of a job, and to the job.
use Prim.Native.String.{String}
use tamam.Jobs.Policy.{RequestUser, get_for_user, is_customer, is_staff, get_for_user-ok}
use tamam.Jobs.Service.{JobRow, transition_in_tx, no_patch}
use tamam.Jobs.Service.Runs.{returned-IsMoved}
use tamam.Prelude.{
  ℕ, ◌≡◌, sym, ap, ◌∙◌, Bool, true, false, not, ◌&&◌, ◌||◌, Option, none, some, if◌then◌else◌,
  arith, map,
}
use tamam.Prelude.Data.{◌===◌}
use tamam.Quotes.Decide.{decide, DecideQuoteInput, quotes_after_decide, resume_work}
use tamam.Quotes.Pending.{find_latest-found}
use tamam.Quotes.Rows.{answer, quotes_after_decide-answer, is_latest, find_latest-is_latest}
use tamam.Quotes.Submitted.{at_version}
use tamam.Quotes.Store.{Quote, Store, find_latest, is_submitted, quote_kind_eq}
use tamam.Shared.Enums.{
  JobStatus, JobActorType, QuoteKind, job_type_eq, job_status_eq, quote_status_eq,
}
use tamam.Shared.Errors.{
  Result, ok, throw_if, or_throw, or_throw-ok, bind_ok, then_ok, throw_if-ok, throw_unless-ok,
  ok-injective, ◌>>=◌, ◌>>◌, forbidden_error, invalid_transition, bad_request, quote_not_approved,
}

-- Whether this answer sends the technician back to work.
abbrev pub resumes : DecideQuoteInput → Quote → Bool
resumes input quote = input.approve && quote.kind === QuoteKind.change_order

-- The status after an answer to a quote.
abbrev pub answered : DecideQuoteInput → Quote → JobStatus
answered input quote =
    if resumes input quote
    then JobStatus.work_started
    else if input.approve
    then JobStatus.quote_approved
    else JobStatus.quote_rejected

-- What holds when `decide` returns.
pub record IsDecided (store : Store) (user : RequestUser) (input : DecideQuoteInput) (after : Store)
    : Type 0 where
  pub by : is_customer user store.job || is_staff user ≡ true
  pub waited : store.job.status ≡ JobStatus.quote_submitted
  pub version : store.job.version ≡ input.version
  pub quote : Quote
  pub found : find_latest is_submitted store.quotes ≡ some quote
  pub status : after.job.status ≡ answered input quote
  pub pending : is_submitted quote ≡ true
  pub latest : is_latest is_submitted quote store.quotes ≡ true
  pub quotes : after.quotes ≡ map (answer input.approve quote) store.quotes
  pub estimate :
      after.estimated_total_minor
      ≡ (if input.approve then quote.amounts.total_minor else store.estimated_total_minor)

decide_parts :
    {A : Type 0} (seen : Result JobRow) (a b : JobRow → Result (Unit {0})) (quote : Result Quote)
    (moved : Result JobRow) (resumed : JobRow → Quote → JobRow → Result JobRow)
    (made : Quote → JobRow → A) (last : A)
    → (seen >>= λ job.
        a job >> (b job >> (quote >>= λ q. moved >>= λ m. resumed job q m >>= λ r. ok (made q r))))
      ≡ ok last
    → (job : JobRow) × (q : Quote) × (m : JobRow) × (r : JobRow) × (seen ≡ ok job)
      × (a job ≡ ok tt)
      × (b job ≡ ok tt)
      × (quote ≡ ok q)
      × (moved ≡ ok m)
      × (resumed job q m ≡ ok r)
      × (made q r ≡ last)
decide_parts seen a b quote moved resumed made last h =
    let (job, e₀, h₀) = bind_ok seen _ h in
    let (e₁, h₁) = then_ok (a job) _ h₀ in
    let (e₂, h₂) = then_ok (b job) _ h₁ in
    let (q, e₃, h₃) = bind_ok quote _ h₂ in
    let (m, e₄, h₄) = bind_ok moved _ h₃ in
    let (r, e₅, h₅) = bind_ok (resumed job q m) _ h₄ in
    (job, q, m, r, e₀, e₁, e₂, e₃, e₄, e₅, ok-injective _ _ h₅)

pub either_of : (a b : Bool) → not a && not b ≡ false → a || b ≡ true
either_of a b h = ground arith

resume_work-status :
    (now : ℕ) (approve change : Bool) (partner : Option String) (m r : JobRow)
    → m.status ≡ (if approve then JobStatus.quote_approved else JobStatus.quote_rejected)
    → resume_work now (approve && change) partner m ≡ ok r
    → r.status ≡ (
        if approve && change
        then JobStatus.work_started
        else if approve
        then JobStatus.quote_approved
        else JobStatus.quote_rejected)
unfolding resume_work
resume_work-status now true true partner m r before h =
    let (_, _, moved) = returned-IsMoved now m JobStatus.work_started _ _ r h in moved.status
resume_work-status now true false partner m r before h =
    ap (λ j. j.status) (sym (ok-injective _ _ h)) ∙ before
resume_work-status now false change partner m r before h =
    ap (λ j. j.status) (sym (ok-injective _ _ h)) ∙ before

-- When `decide` returns, the customer of the job or an agent asked for it while the job was in
-- QUOTE_SUBMITTED, at its current version. Of the quotes that waited the one with the highest revision
-- is answered: its row is approved or rejected, an approved change order supersedes every other
-- approved quote, and the other rows stay. An approval makes its total the job's estimate. The job is
-- then in QUOTE_APPROVED or QUOTE_REJECTED, and in WORK_STARTED when a change order was approved.
pub decide-IsDecided :
    (now : ℕ) (store : Store) (user : RequestUser) (input : DecideQuoteInput) (after : Store)
    → decide now store user input ≡ ok after
    → IsDecided store user input after
unfolding decide
decide-IsDecided now store user input after returned =
    let (job, quote, moved, resumed, seen, by, waited, found, changed, resumes, made) =
      decide_parts (get_for_user (some store.job) user)
        (λ job. throw_if (not (is_customer user job) && not (is_staff user)) forbidden_error)
        (λ job. throw_if (not (job.status === JobStatus.quote_submitted)) invalid_transition)
        (or_throw (find_latest is_submitted store.quotes) (bad_request quote_not_approved))
        (transition_in_tx now (some store.job)
          (if input.approve then JobStatus.quote_approved else JobStatus.quote_rejected)
          (record {
            type = if is_staff user then JobActorType.admin else JobActorType.customer;
            id = some user.id;
          })
          (record { expected_version = some input.version; event_type = none; patch = no_patch }))
        (λ job quote moved.
          resume_work now (input.approve && quote.kind === QuoteKind.change_order) job.partner_id
            moved)
        (λ quote resumed. record {
          job = resumed;
          estimated_total_minor =
              if input.approve then quote.amounts.total_minor else store.estimated_total_minor;
          quotes = quotes_after_decide input.approve quote store.quotes;
        })
        after returned in
    let (_, same) = get_for_user-ok store.job job user seen in
    let (fresh, _, is_moved) = returned-IsMoved now store.job _ _ _ moved changed in
    record {
      by = rw same (either_of _ _ (throw_if-ok _ _ by));
      version = at_version _ _ fresh;
      waited = rw same ((job_status_eq.beq_iff _ _).0 (throw_unless-ok _ _ waited));
      quote = quote;
      found = or_throw-ok _ _ _ found;
      status =
          ap (λ s. s.job.status) (sym made)
          ∙ resume_work-status now input.approve _ _ moved resumed is_moved.status resumes;
      pending = (find_latest-found is_submitted store.quotes quote (or_throw-ok _ _ _ found)).0;
      latest = find_latest-is_latest is_submitted store.quotes quote (or_throw-ok _ _ _ found);
      quotes =
          ap (λ s. s.quotes) (sym made)
          ∙ quotes_after_decide-answer input.approve quote store.quotes;
      estimate = ap (λ s. s.estimated_total_minor) (sym made);
    }

-- ===== src/Quotes/Submitted.antt =====
-- What `submit` and `decide` do to the quotes of a job, and to the job.
use Prim.Native.String.{String}
use tamam.Jobs.Machine.{can}
use tamam.Jobs.Policy.{RequestUser, get_for_user, is_assigned_partner, get_for_user-ok}
use tamam.Jobs.Service.{JobRow, transition_in_tx, is_stale, state_of, no_patch}
use tamam.Jobs.Service.Runs.{returned-IsMoved}
use tamam.Jobs.Reach.{every_edge, can-every_edge}
use tamam.Prelude.Lists.{includes, all}
use tamam.Prelude.{refl, ltb, map, ◌+◌, Bool, List, [], ◌∷◌, ◌||◌, inl, inr, Bool-cases}
use tamam.Money.{Decimal}
use tamam.Prelude.{ℕ, ◌≡◌, sym, ap, ◌∙◌, true, false, not, some, if◌then◌else◌, arith}
use tamam.Prelude.Data.{◌===◌}
use tamam.Quotes.Amounts.{QuoteAmounts, amounts_of}
use tamam.Quotes.Rows.{give_way, supersede-give_way, max_revision-below}
use tamam.Quotes.Store.{Store, Quote, find_latest, submitted_or_rejected, max_revision}
use tamam.Quotes.Submit.{
  SubmitQuoteInput, submit, is_change_order, takes_quote, quotes_after_submit, quote_id,
}
use tamam.Shared.Enums.{
  JobType, JobStatus, JobActorType, QuoteKind, QuoteStatus, job_type_eq, job_status_eq,
  quote_status_eq,
}
use tamam.Shared.Errors.{
  Result, ok, throw_if, bind_ok, then_ok, throw_unless-ok, ok-injective, ◌>>=◌, ◌>>◌,
  forbidden_error, invalid_transition,
}

-- What holds when `submit` returns.
pub record IsSubmitted (id : String) (store : Store) (user : RequestUser) (input : SubmitQuoteInput)
    (tax : Decimal) (after : Store) : Type 0 where
  pub by : is_assigned_partner user store.job ≡ true
  pub home : store.job.type ≡ JobType.home_service
  pub takes : takes_quote (is_change_order input store.job) store.job.status ≡ true
  pub version : store.job.version ≡ input.version
  pub accepted : can (state_of store.job) JobStatus.quote_submitted JobActorType.partner ≡ true
  pub status : after.job.status ≡ JobStatus.quote_submitted
  pub amounts : QuoteAmounts
  pub billed : amounts_of input.items input.discount_minor tax ≡ ok amounts
  pub quote : Quote
  pub new_id : quote.id ≡ id
  pub kind :
      quote.kind
      ≡ (if is_change_order input store.job then QuoteKind.change_order else QuoteKind.initial)
  pub waits : quote.status ≡ QuoteStatus.submitted
  pub priced : quote.amounts ≡ amounts
  pub follows :
      quote.supersedes_quote_id ≡ quote_id (find_latest submitted_or_rejected store.quotes)
  pub newest : all (λ q. ltb q.revision quote.revision) store.quotes ≡ true
  pub quotes :
      after.quotes
      ≡ quote ∷ map (give_way (find_latest submitted_or_rejected store.quotes)) store.quotes
  pub estimate : after.estimated_total_minor ≡ store.estimated_total_minor

-- The row that `submit` inserts.
abbrev new_quote : String → Bool → QuoteAmounts → List Quote → Quote
new_quote id change amounts quotes = record {
  id = id;
  kind = if change then QuoteKind.change_order else QuoteKind.initial;
  revision = max_revision quotes + 1;
  status = QuoteStatus.submitted;
  supersedes_quote_id = quote_id (find_latest submitted_or_rejected quotes);
  amounts = amounts;
}

quotes_after_submit-new_quote :
    (id : String) (change : Bool) (amounts : QuoteAmounts) (quotes : List Quote)
    → quotes_after_submit id change amounts quotes
      ≡ new_quote id change amounts quotes
        ∷ map (give_way (find_latest submitted_or_rejected quotes)) quotes
unfolding quotes_after_submit
quotes_after_submit-new_quote id change amounts quotes =
    ap (λ rest. new_quote id change amounts quotes ∷ rest)
      (supersede-give_way (find_latest submitted_or_rejected quotes) quotes)

-- Five calls and the store made of the last.
parts_of :
    {A : Type 0} (seen : Result JobRow) (a b c : JobRow → Result (Unit {0}))
    (amounts : JobRow → Result QuoteAmounts) (moved : JobRow → Result JobRow)
    (made : JobRow → QuoteAmounts → JobRow → A) (last : A)
    → (seen >>= λ job.
        a job >> (b job >> (c job >> (amounts job >>= λ x. moved job >>= λ m. ok (made job x m)))))
      ≡ ok last
    → (job : JobRow) × (x : QuoteAmounts) × (m : JobRow) × (seen ≡ ok job)
      × (a job ≡ ok tt)
      × (b job ≡ ok tt)
      × (c job ≡ ok tt)
      × (amounts job ≡ ok x)
      × (moved job ≡ ok m)
      × (made job x m ≡ last)
parts_of seen a b c amounts moved made last h =
    let (job, e₀, h₀) = bind_ok seen _ h in
    let (e₁, h₁) = then_ok (a job) _ h₀ in
    let (e₂, h₂) = then_ok (b job) _ h₁ in
    let (e₃, h₃) = then_ok (c job) _ h₂ in
    let (x, e₄, h₄) = bind_ok (amounts job) _ h₃ in
    let (m, e₅, h₅) = bind_ok (moved job) _ h₄ in
    (job, x, m, e₀, e₁, e₂, e₃, e₄, e₅, ok-injective _ _ h₅)

pub at_version :
    (expected version : ℕ) → is_stale (some expected) version ≡ false → version ≡ expected
at_version expected version h = ground arith

pub submit-IsSubmitted :
    (now : ℕ) (id : String) (tax : Decimal) (store : Store) (user : RequestUser)
    (input : SubmitQuoteInput) (after : Store)
    → submit now id tax store user input ≡ ok after
    → IsSubmitted id store user input tax after
unfolding submit
submit-IsSubmitted now id tax store user input after returned =
    let (job, amounts, moved, seen, by, home, takes, billed, changed, made) =
      parts_of (get_for_user (some store.job) user)
        (λ job. throw_if (not (is_assigned_partner user job)) forbidden_error)
        (λ job. throw_if (not (job.type === JobType.home_service)) invalid_transition)
        (λ job.
          throw_if (not (takes_quote (is_change_order input job) job.status)) invalid_transition)
        (λ _. amounts_of input.items input.discount_minor tax)
        (λ job.
          transition_in_tx now (some store.job) JobStatus.quote_submitted
            (record { type = JobActorType.partner; id = some user.id })
            (record {
              expected_version = some input.version;
              event_type = some (
                  if is_change_order input job
                  then "change_order.submitted"
                  else "quote.submitted");
              patch = no_patch;
            }))
        (λ job amounts moved. record {
          job = moved;
          estimated_total_minor = store.estimated_total_minor;
          quotes = quotes_after_submit id (is_change_order input job) amounts store.quotes;
        })
        after returned in
    let (_, same) = get_for_user-ok store.job job user seen in
    let (fresh, accepted, is_moved) =
      returned-IsMoved now store.job JobStatus.quote_submitted _ _ moved changed in
    record {
      by = rw same (throw_unless-ok _ _ by);
      home = rw same ((job_type_eq.beq_iff _ _).0 (throw_unless-ok _ _ home));
      takes = rw same (throw_unless-ok _ _ takes);
      version = at_version _ _ fresh;
      accepted = accepted;
      status = ap (λ s. s.job.status) (sym made) ∙ is_moved.status;
      amounts = amounts;
      billed = billed;
      quote = new_quote id (is_change_order input store.job) amounts store.quotes;
      new_id = refl;
      kind = refl;
      waits = refl;
      priced = refl;
      follows = refl;
      newest = max_revision-below store.quotes;
      quotes =
          rw same (ap (λ s. s.quotes) (sym made))
          ∙ quotes_after_submit-new_quote id (is_change_order input store.job) amounts store.quotes;
      estimate = ap (λ s. s.estimated_total_minor) (sym made);
    }

-- The statuses from which `submit` can return.
abbrev pub submit_statuses : List JobStatus
submit_statuses = JobStatus.quote_required ∷ JobStatus.quote_rejected ∷ JobStatus.work_started ∷ []

abbrev shut_statuses : JobStatus → Bool
shut_statuses s = s === JobStatus.inspection_started || s === JobStatus.waiting_for_parts

shut_edges :
    every_edge JobType.home_service shut_statuses (λ t. not (t === JobStatus.quote_submitted))
    ≡ true
unfolding every_edge
shut_edges = refl

shut-can :
    (s : JobStatus)
    → can
        (record { type = JobType.home_service; status = s })
        JobStatus.quote_submitted
        JobActorType.partner
      ≡ true
    → shut_statuses s ≡ false
shut-can s accepted = elim (Bool-cases (shut_statuses s)) [
  | inr e ↦ e
  | inl e ↦
      let closed =
        can-every_edge JobType.home_service shut_statuses
          (λ t. not (t === JobStatus.quote_submitted)) s JobStatus.quote_submitted
          JobActorType.partner shut_edges e accepted in
      cc
]

open_status :
    (change : Bool) (s : JobStatus)
    → takes_quote change s ≡ true
    → shut_statuses s ≡ false
    → includes submit_statuses s ≡ true
open_status true s takes open' = ground arith
open_status false s takes open' = ground arith

-- The status guards of `submit` let it pass in INSPECTION_STARTED and WAITING_FOR_PARTS too, yet it only
-- returns for a job that was in QUOTE_REQUIRED, QUOTE_REJECTED or WORK_STARTED.
pub submit-from :
    (now : ℕ) (id : String) (tax : Decimal) (store : Store) (user : RequestUser)
    (input : SubmitQuoteInput) (after : Store)
    → submit now id tax store user input ≡ ok after
    → includes submit_statuses store.job.status ≡ true
submit-from now id tax store user input after returned =
    let done = submit-IsSubmitted now id tax store user input after returned in
    let from : can (record { type = JobType.home_service; status = store.job.status })
          JobStatus.quote_submitted JobActorType.partner
        ≡ true =
      rw (← done.home) done.accepted in
    open_status (is_change_order input store.job) store.job.status done.takes
      (shut-can store.job.status from)

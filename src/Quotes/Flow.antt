-- ===== src/Quotes/Flow.antt =====
-- Sequences of the operations on a job with quotes, and the quotes that wait meanwhile.
use Prim.Native.String.{String}
use tamam.Jobs.Machine.{can}
use tamam.Jobs.Policy.{RequestUser}
use tamam.Jobs.Reach.{every_edge, can-every_edge}
use tamam.Jobs.Service.{JobRow, TransitionActor, TransitionOptions, transition_in_tx}
use tamam.Jobs.Service.Runs.{returned-IsMoved}
use tamam.Money.{Decimal}
use tamam.Pricing.Final.{FareTerms}
use tamam.Prelude.{
  ℕ, ◌≤◌, ◌≡◌, refl, Bool, true, false, not, ◌||◌, some, inl, inr, Bool-cases, arith, ◌∙◌, sym,
}
use tamam.Prelude.Data.{◌===◌}
use tamam.Quotes.Counts.{added-count, decided-count, on_response_timeout-count}
use tamam.Quotes.Decide.{decide, DecideQuoteInput, close_inspection_only, on_response_timeout}
use tamam.Quotes.Decided.{decide-IsDecided}
use tamam.Quotes.Closed.{close_inspection_only-IsClosed}
use tamam.Quotes.Pending.{count_submitted}
use tamam.Quotes.Store.{Store, quote_kind_eq, find_latest, submitted_or_rejected}
use tamam.Quotes.Submit.{SubmitQuoteInput, submit}
use tamam.Quotes.Rows.{quotes_after_decide-answer}
use tamam.Quotes.Submitted.{submit-IsSubmitted}
use tamam.Quotes.Timeout.{on_response_timeout-job, answers}
use tamam.Shared.Enums.{JobType, JobStatus, JobActorType, job_status_eq, quote_status_eq}
use tamam.Shared.Errors.{ok}
use tamam.Shared.Text.{string_eq}

-- The statuses in which a quote may wait.
abbrev pub may_wait : JobStatus → Bool
may_wait s = s === JobStatus.quote_submitted || s === JobStatus.cancelled

abbrev pub bound : Bool → ℕ
bound true = 1
bound false = 0

-- A quote waits only in those statuses, and only one.
abbrev pub IsPending : Store → Type 0
IsPending store = count_submitted store.quotes ≤ bound (may_wait store.job.status)

abbrev pub with_row : Store → JobRow → Store
with_row store job = record {
  job = job;
  estimated_total_minor = store.estimated_total_minor;
  quotes = store.quotes;
}

-- The operations of the service that returned or left a change behind, and every other change of the
-- job's status but the answer to a quote, in any order.
pub data Runs (first : Store) : Store → Type 0 where
  start : Runs first first
  submitted :
      {store after : Store}
      → Runs first store
      → (now : ℕ) (id : String) (tax : Decimal) (user : RequestUser) (input : SubmitQuoteInput)
      → submit now id tax store user input ≡ ok after
      → Runs first after
  decided :
      {store after : Store}
      → Runs first store
      → (now : ℕ) (user : RequestUser) (input : DecideQuoteInput)
      → decide now store user input ≡ ok after
      → Runs first after
  timed_out :
      {store : Store}
      → Runs first store
      → (now : ℕ) (id : String) → Runs first (on_response_timeout now store id).0
  closed :
      {store after : Store}
      → Runs first store
      → (now : ℕ) (terms : FareTerms) (user : RequestUser) (version : ℕ)
      → close_inspection_only now terms store user version ≡ ok after
      → Runs first after
  changed :
      {store : Store}
      → Runs first store
      → (now : ℕ) (to : JobStatus) (actor : TransitionActor) (opts : TransitionOptions)
        (job : JobRow)
      → answers to ≡ false
      → transition_in_tx now (some store.job) to actor opts ≡ ok job
      → Runs first (with_row store job)

abbrev still_waits : JobStatus → Bool
still_waits t = may_wait t || answers t

waiting_closed : (ty : JobType) → every_edge ty may_wait still_waits ≡ true
unfolding every_edge
waiting_closed JobType.ride = refl
waiting_closed _ = refl

waits_on :
    (before after answer : Bool)
    → answer ≡ false
    → after || answer ≡ true
    → bound before ≤ bound after
waits_on true true answer e h = omega arith
waits_on false true answer e h = omega arith
waits_on before false answer e h = absurd (cc)

-- From the statuses where a quote may wait, only an answer leads out.
can-may_wait :
    (ty : JobType) (s t : JobStatus) (actor : JobActorType)
    → can (record { type = ty; status = s }) t actor ≡ true
    → answers t ≡ false
    → bound (may_wait s) ≤ bound (may_wait t)
can-may_wait ty s t actor accepted other = elim (Bool-cases (may_wait s)) [
  | inr e ↦ rw e (omega arith)
  | inl e ↦
      let closed =
        can-every_edge ty may_wait still_waits s t actor (waiting_closed ty) e accepted in
      waits_on (may_wait s) (may_wait t) (answers t) other closed
]

no_quote_edge :
    every_edge JobType.home_service may_wait (λ t. not (t === JobStatus.quote_submitted)) ≡ true
unfolding every_edge
no_quote_edge = refl

-- `submit` does not return while a quote may wait.
submit-may_wait :
    (s : JobStatus) (actor : JobActorType)
    → can (record { type = JobType.home_service; status = s }) JobStatus.quote_submitted actor
      ≡ true
    → may_wait s ≡ false
submit-may_wait s actor accepted = elim (Bool-cases (may_wait s)) [
  | inr e ↦ e
  | inl e ↦
      let closed =
        can-every_edge JobType.home_service may_wait (λ t. not (t === JobStatus.quote_submitted)) s
          JobStatus.quote_submitted actor no_quote_edge e accepted in
      cc
]

-- Where no quote may wait before, none waits after more quotes than there are.
none_waits : (count : ℕ) (waits : Bool) → waits ≡ false → count ≤ bound waits → count ≡ 0
none_waits count waits e h = let none' : bound waits ≡ 0 = rw e refl in omega arith

one_waits : (count : ℕ) (waits : Bool) → count ≤ bound waits → count ≤ 1
one_waits count true h = h
one_waits count false h = omega arith

submitted-IsPending :
    (now : ℕ) (id : String) (tax : Decimal) (store : Store) (user : RequestUser)
    (input : SubmitQuoteInput) (after : Store)
    → submit now id tax store user input ≡ ok after
    → IsPending store
    → IsPending after
submitted-IsPending now id tax store user input after returned pending =
    let done = submit-IsSubmitted now id tax store user input after returned in
    let from : can (record { type = JobType.home_service; status = store.job.status })
          JobStatus.quote_submitted JobActorType.partner
        ≡ true =
      rw (← done.home) done.accepted in
    let nothing =
      none_waits _ _ (submit-may_wait store.job.status JobActorType.partner from) pending in
    let grown =
      added-count done.quote (find_latest submitted_or_rejected store.quotes) store.quotes in
    let status = done.status in let quotes = done.quotes in rw (status, quotes) (omega arith)

-- From a store where at most one quote waits, and none unless the job is in QUOTE_SUBMITTED or cancelled,
-- every sequence of submissions, answers, timeouts, closings and other changes of status leads to such
-- a store: two quotes of a job never wait at once.
pub Runs-IsPending : (first store : Store) → IsPending first → Runs first store → IsPending store
Runs-IsPending first store fine start = fine
Runs-IsPending first after fine (submitted {store = before} runs now id tax user input returned) =
    submitted-IsPending now id tax before user input after returned
      (Runs-IsPending first before fine runs)
Runs-IsPending first after fine (decided {store = before} runs now user input returned) =
    let done = decide-IsDecided now before user input after returned in
    let one = one_waits _ _ (Runs-IsPending first before fine runs) in
    let nothing = decided-count input.approve done.quote before.quotes done.found one in
    let quotes =
      done.quotes ∙ sym (quotes_after_decide-answer input.approve done.quote before.quotes) in
    rw (quotes, nothing) (omega arith)
Runs-IsPending first after fine (timed_out {store = before} runs now id) =
    let pending = Runs-IsPending first before fine runs in
    let fewer = on_response_timeout-count now before id in
    rw (on_response_timeout-job now before id) (omega arith)
Runs-IsPending first after fine (closed {store = before} runs now terms user version returned) =
    let done = close_inspection_only-IsClosed now terms before user version after returned in
    let pending = Runs-IsPending first before fine runs in
    let shut : may_wait before.job.status ≡ false = rw done.rejected refl in
    let nothing = none_waits _ _ shut pending in
    let quotes = done.quotes in rw (quotes, nothing) (omega arith)
Runs-IsPending first after fine
      (changed {store = before} runs now to actor opts job other returned) =
    let (_, accepted, moved) = returned-IsMoved now before.job to actor opts job returned in
    let pending = Runs-IsPending first before fine runs in
    let kept = can-may_wait before.job.type before.job.status to actor.type accepted other in
    let status = moved.status in rw status (omega arith)

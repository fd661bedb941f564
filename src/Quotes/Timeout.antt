-- ===== src/Quotes/Timeout.antt =====
-- What becomes of a job whose quote nobody answers.
use Prim.Native.String.{String}
use mathlib.Core.Option.{some-injective}
use tamam.Jobs.Machine.{can}
use tamam.Jobs.Reach.{every_edge, can-every_edge}
use tamam.Jobs.Service.{
  JobRow, TransitionActor, TransitionOptions, transition_in_tx, is_stale, state_of,
}
use tamam.Jobs.Service.Outcome.{Returns, transition_in_tx-Returns}
use tamam.Prelude.{
  arith, ℕ, ◌≡◌, refl, ap, and_intro, or_left, or_right, ◌&&◌, ◌||◌, Bool, true, false, not, Option,
  none, some, List, [], ◌∷◌, inl, inr, Bool-cases,
}
use tamam.Prelude.Data.{◌===◌}
use tamam.Prelude.Lists.{find?, any}
use tamam.Jobs.Policy.{
  get_for_user-fails, RequestUser, get_for_user, is_customer, is_staff, is_assigned_partner,
}
use tamam.Quotes.Pending.{count_submitted, waits_in, find_latest-none, count-set_status_lt}
use tamam.Quotes.Decide.{
  decide, DecideQuoteInput, close_inspection_only, on_response_timeout, time_out, time_out_found,
  with_job, reject_quote,
}
use tamam.Money.{Decimal}
use tamam.Pricing.Final.{FareTerms}
use tamam.Quotes.Submit.{submit, SubmitQuoteInput, takes_quote, is_change_order}
use tamam.Quotes.Store.{Store, Quote, find_latest, is_submitted, set_status}
use tamam.Shared.Enums.{job_type_eq, JobType, JobStatus, JobActorType, QuoteStatus, job_status_eq}
use tamam.Shared.Errors.{
  Result, ok, err, is_ok, >>=-fails, throw_if, throw_if-fails, forbidden_error, invalid_transition,
}
use tamam.Shared.Text.{string_eq}

-- The changes of status that only `decide` makes.
abbrev pub answers : JobStatus → Bool
answers s = s === JobStatus.quote_approved || s === JobStatus.quote_rejected

refused :
    (job : JobRow) (to : JobStatus) (actor : TransitionActor) (opts : TransitionOptions)
    (r : Result JobRow)
    → Returns (some job) to actor opts r
    → is_stale opts.expected_version job.version ≡ false
    → can (state_of job) to actor.type ≡ false
    → r ≡ err invalid_transition
refused job to actor opts (ok job') (_, accepted, _) fresh closed = cc
refused job to actor opts (err e) (inl (stale, _)) fresh closed = cc
refused job to actor opts (err e) (inr (_, _, same)) fresh closed = ap err same

-- A change that the table has no row for.
pub transition_in_tx-refused :
    (now : ℕ) (job : JobRow) (to : JobStatus) (actor : TransitionActor) (opts : TransitionOptions)
    → is_stale opts.expected_version job.version ≡ false
    → can (state_of job) to actor.type ≡ false
    → transition_in_tx now (some job) to actor opts ≡ err invalid_transition
transition_in_tx-refused now job to actor opts fresh closed =
    refused job to actor opts _ (transition_in_tx-Returns now (some job) to actor opts) fresh closed

no_timeout_edge :
    (ty : JobType)
    → can
        (record { type = ty; status = JobStatus.quote_submitted })
        JobStatus.quote_rejected
        JobActorType.system
      ≡ false
unfolding can
no_timeout_edge JobType.ride = refl
no_timeout_edge _ = refl

-- The call for a quote that still waits: it throws, and its quote is rejected.
pub time_out-throws :
    (now : ℕ) (store : Store) (quote : Quote)
    → store.job.status ≡ JobStatus.quote_submitted
    → time_out now store quote ≡ (reject_quote store quote, err invalid_transition)
unfolding time_out
time_out-throws now store quote waits =
    let closed : can (state_of store.job) JobStatus.quote_rejected JobActorType.system ≡ false =
      rw waits (no_timeout_edge store.job.type) in
    ap (with_job (reject_quote store quote))
      (transition_in_tx-refused now store.job JobStatus.quote_rejected _ _ refl closed)

-- Whatever row is found, the job stays.
time_out_found-job :
    (now : ℕ) (store : Store) (found : Option Quote)
    → (time_out_found now store found).0.job ≡ store.job
unfolding time_out_found
time_out_found-job now store none = refl
time_out_found-job now store (some quote) = elim (Bool-cases (is_submitted quote)) [
  | inr e ↦ rw e refl
  | inl e ↦ elim (Bool-cases (store.job.status === JobStatus.quote_submitted)) [
    | inr w ↦ rw (e, w) refl
    | inl w ↦
        let waits : store.job.status ≡ JobStatus.quote_submitted =
          (job_status_eq.beq_iff _ _).0 w in
        rw (e, w, time_out-throws now store quote waits) refl
  ]
]

-- The job that waits for the answer to a quote does not move when the time for the answer is over,
-- whatever quote the call names.
pub on_response_timeout-job :
    (now : ℕ) (store : Store) (id : String) → (on_response_timeout now store id).0.job ≡ store.job
unfolding on_response_timeout
on_response_timeout-job now store id =
    time_out_found-job now store (find? (λ q. q.id === id) store.quotes)

-- A quote of the job waits, and the job waits for it: the call throws, and rejects the quote.
on_response_timeout-throws :
    (now : ℕ) (store : Store) (id : String) (quote : Quote)
    → find? (λ q. q.id === id) store.quotes ≡ some quote
    → is_submitted quote ≡ true
    → store.job.status ≡ JobStatus.quote_submitted
    → on_response_timeout now store id ≡ (reject_quote store quote, err invalid_transition)
unfolding on_response_timeout time_out_found
on_response_timeout-throws now store id quote found pending waits =
    let open' : store.job.status === JobStatus.quote_submitted ≡ true =
      (job_status_eq.beq_iff _ _).1 waits in
    rw (found, pending, open') (time_out-throws now store quote waits)

settled_first :
    (id : String) (quotes : List Quote) (quote : Quote)
    → find? (λ q. q.id === id) quotes ≡ some quote
    → is_submitted quote ≡ true
    → any (waits_in quote.id) quotes ≡ true
settled_first id [] quote found pending = cc
settled_first id (q ∷ rest) quote found pending = elim (Bool-cases (q.id === id)) [
  | inl e ↦
      let same : q ≡ quote = some-injective _ _ (rw e at found) in
      rw same (or_left _ _ (and_intro _ _ ((string_eq.beq_iff quote.id quote.id).1 refl) pending))
  | inr e ↦ or_right _ _ (settled_first id rest quote (rw e at found) pending)
]

-- No quote waits: `decide` returns for nobody.
decide-nothing_pending :
    (now : ℕ) (store : Store) (user : RequestUser) (input : DecideQuoteInput)
    → find_latest is_submitted store.quotes ≡ none
    → is_ok (decide now store user input) ≡ false
unfolding decide
decide-nothing_pending now store user input nothing = rw nothing (
    >>=-fails (get_for_user (some store.job) user) _ (λ job.
      >>=-fails (throw_if (not (is_customer user job) && not (is_staff user)) forbidden_error) _
        (λ _.
          >>=-fails (throw_if (not (job.status === JobStatus.quote_submitted)) invalid_transition) _
            (λ _. refl))))

waiting_closed :
    (change : Bool) (s : JobStatus)
    → s ≡ JobStatus.quote_submitted
    → not (takes_quote change s) ≡ true
waiting_closed true s waits = rw waits refl
waiting_closed false s waits = rw waits refl

submit-waiting :
    (now : ℕ) (id : String) (tax : Decimal) (store : Store) (user : RequestUser)
    (input : SubmitQuoteInput)
    → store.job.status ≡ JobStatus.quote_submitted
    → is_ok (submit now id tax store user input) ≡ false
unfolding submit
submit-waiting now id tax store user input waits = get_for_user-fails store.job user _ (
    >>=-fails (throw_if (not (is_assigned_partner user store.job)) forbidden_error) _ (λ _.
      >>=-fails (throw_if (not (store.job.type === JobType.home_service)) invalid_transition) _
        (λ _.
          throw_if-fails _ invalid_transition _
            (waiting_closed (is_change_order input store.job) store.job.status waits))))

close_inspection_only-waiting :
    (now : ℕ) (terms : FareTerms) (store : Store) (user : RequestUser) (version : ℕ)
    → store.job.status ≡ JobStatus.quote_submitted
    → is_ok (close_inspection_only now terms store user version) ≡ false
unfolding close_inspection_only
close_inspection_only-waiting now terms store user version waits =
    let other : not (store.job.status === JobStatus.quote_rejected) ≡ true = rw waits refl in
    get_for_user-fails store.job user _ (
      >>=-fails (throw_if (not (is_customer user store.job) && not (is_staff user)) forbidden_error)
        _ (λ _. throw_if-fails _ invalid_transition _ other))

-- An answer or a cancellation.
abbrev pub leaves_to : JobStatus → Bool
leaves_to s = answers s || s === JobStatus.cancelled

waiting_edges :
    (ty : JobType) → every_edge ty (λ s. s === JobStatus.quote_submitted) leaves_to ≡ true
unfolding every_edge
waiting_edges JobType.ride = refl
waiting_edges _ = refl

waiting-leaves_to :
    (job : JobRow) (to : JobStatus) (actor : JobActorType)
    → job.status ≡ JobStatus.quote_submitted
    → not (can (state_of job) to actor) || leaves_to to ≡ true
waiting-leaves_to job to actor waits = elim (Bool-cases (can (state_of job) to actor)) [
  | inr e ↦ rw e refl
  | inl accepted ↦
      let inside = (job_status_eq.beq_iff _ _).1 waits in
      rw accepted (
        can-every_edge job.type (λ s. s === JobStatus.quote_submitted) leaves_to job.status to actor
          (waiting_edges job.type) inside accepted)
]

-- The customer does not answer the only quote that waits. The call that should close it throws
-- INVALID_STATE_TRANSITION. It rejects the quote, yet the job stays as it was, in QUOTE_SUBMITTED.
-- After it `decide`, `submit` and `closeInspectionOnly` throw for everybody, and the table accepts no
-- change of status from there but to QUOTE_APPROVED, QUOTE_REJECTED or CANCELLED.
pub on_response_timeout-stays :
    (now later : ℕ) (store : Store) (id : String) (quote : Quote)
    → find? (λ q. q.id === id) store.quotes ≡ some quote
    → is_submitted quote ≡ true
    → store.job.status ≡ JobStatus.quote_submitted
    → count_submitted store.quotes ≡ 1
    → ((on_response_timeout now store id).1 ≡ err invalid_transition)
      × ((on_response_timeout now store id).0.job ≡ store.job)
      × ((on_response_timeout now store id).0.quotes
          ≡ set_status quote.id QuoteStatus.rejected store.quotes)
      × ((to : JobStatus) (actor : JobActorType)
          → not (can (state_of (on_response_timeout now store id).0.job) to actor) || leaves_to to
            ≡ true)
      × ((user : RequestUser) (input : DecideQuoteInput)
          → is_ok (decide later (on_response_timeout now store id).0 user input) ≡ false)
      × ((user : RequestUser) (new : String) (tax : Decimal) (input : SubmitQuoteInput)
          → is_ok (submit later new tax (on_response_timeout now store id).0 user input) ≡ false)
      × ((user : RequestUser) (terms : FareTerms) (version : ℕ)
          → is_ok
              (close_inspection_only later terms (on_response_timeout now store id).0 user version)
            ≡ false)
on_response_timeout-stays now later store id quote found pending waits one =
    let left = reject_quote store quote in
    let fewer =
      count-set_status_lt quote.id QuoteStatus.rejected store.quotes refl
        (settled_first id store.quotes quote found pending) in
    let nothing : find_latest is_submitted left.quotes ≡ none =
      find_latest-none is_submitted left.quotes (omega arith) in
    rw (on_response_timeout-throws now store id quote found pending waits) (
      refl,
      refl,
      refl,
      λ to actor. waiting-leaves_to store.job to actor waits,
      λ user input. decide-nothing_pending later left user input nothing,
      λ user new tax input. submit-waiting later new tax left user input waits,
      λ user terms version. close_inspection_only-waiting later terms left user version waits,
    )

-- ===== src/Quotes/Closed.antt =====
-- What `closeInspectionOnly` does to a job.
use tamam.Jobs.Policy.{
  RequestUser, get_for_user, is_customer, is_staff, get_for_user-ok, actor_type_for,
}
use tamam.Jobs.Service.{JobRow, transition_in_tx}
use tamam.Jobs.Service.Runs.{returned-IsMoved}
use tamam.Prelude.{refl, ℕ, ◌≡◌, sym, ap, ◌∙◌, true, false, not, ◌&&◌, ◌||◌, some}
use tamam.Prelude.Data.{◌===◌}
use tamam.Jobs.Service.Holders.{returned_row}
use tamam.Jobs.Machine.{can}
use tamam.Jobs.Reach.{every_edge, can-every_edge}
use tamam.Jobs.Service.{updated_row, JobEvent, Patch, or_keep, keep, set, state_of}
use tamam.Prelude.Lists.{any}
use tamam.Pricing.{FareResult}
use tamam.Pricing.Final.{FareTerms, finalize_fare}
use tamam.Pricing.Unquoted.{is_work, no_quote, finalize_fare-IsWorkless}
use tamam.Quotes.Decide.{close_inspection_only}
use tamam.Quotes.Submitted.{at_version}
use tamam.Quotes.Store.{Store, quote_kind_eq}
use tamam.Shared.Enums.{
  JobType, JobStatus, JobActorType, job_type_eq, job_status_eq, quote_status_eq,
}
use tamam.Shared.Errors.{
  Result, ok, throw_if, bind_ok, then_ok, throw_if-ok, throw_unless-ok, ok-injective, ◌>>=◌, ◌>>◌,
  forbidden_error, invalid_transition,
}
use tamam.Quotes.Decided.{either_of}

-- What holds when `closeInspectionOnly` returns.
pub record IsClosed (terms : FareTerms) (store : Store) (user : RequestUser) (version : ℕ)
    (after : Store) : Type 0 where
  pub by : is_customer user store.job || is_staff user ≡ true
  pub rejected : store.job.status ≡ JobStatus.quote_rejected
  pub home : store.job.type ≡ JobType.home_service
  pub at : store.job.version ≡ version
  pub status : after.job.status ≡ JobStatus.completed
  pub fare : FareResult
  pub computed : finalize_fare JobType.home_service terms no_quote ≡ ok fare
  pub unquoted : any is_work fare.lines ≡ false
  pub charged : after.job.final_total_minor ≡ some fare.total_minor
  pub itemised : after.job.breakdown ≡ some fare.lines
  pub quotes : after.quotes ≡ store.quotes

close_parts :
    {A : Type 0} (seen : Result JobRow) (a b : JobRow → Result (Unit {0}))
    (fare : JobRow → Result FareResult) (moved : JobRow → FareResult → Result JobRow)
    (made : JobRow → A) (last : A)
    → (seen >>= λ job. a job >> (b job >> (fare job >>= λ f. moved job f >>= λ m. ok (made m))))
      ≡ ok last
    → (job : JobRow) × (f : FareResult) × (m : JobRow) × (seen ≡ ok job)
      × (a job ≡ ok tt)
      × (b job ≡ ok tt)
      × (fare job ≡ ok f)
      × (moved job f ≡ ok m)
      × (made m ≡ last)
close_parts seen a b fare moved made last h =
    let (job, e₀, h₀) = bind_ok seen _ h in
    let (e₁, h₁) = then_ok (a job) _ h₀ in
    let (e₂, h₂) = then_ok (b job) _ h₁ in
    let (f, e₃, h₃) = bind_ok (fare job) _ h₂ in
    let (m, e₄, h₄) = bind_ok (moved job f) _ h₃ in
    (job, f, m, e₀, e₁, e₂, e₃, e₄, ok-injective _ _ h₄)

total_of_row :
    (now : ℕ) (job : JobRow) (to : JobStatus) (patch : Patch) (event : JobEvent)
    → (updated_row now job to patch event).final_total_minor
      ≡ or_keep patch.final_total_minor job.final_total_minor
unfolding updated_row
total_of_row now job to patch event = refl

breakdown_of_row :
    (now : ℕ) (job : JobRow) (to : JobStatus) (patch : Patch) (event : JobEvent)
    → (updated_row now job to patch event).breakdown ≡ or_keep patch.breakdown job.breakdown
unfolding updated_row
breakdown_of_row now job to patch event = refl

closing_edges :
    (ty : JobType)
    → every_edge ty (λ s. s === JobStatus.quote_rejected) (λ _. ty === JobType.home_service) ≡ true
unfolding every_edge
closing_edges JobType.home_service = refl
closing_edges JobType.ride = refl
closing_edges _ = refl

-- Only a home service leaves QUOTE_REJECTED.
rejected-home :
    (job : JobRow) (to : JobStatus) (actor : JobActorType)
    → job.status ≡ JobStatus.quote_rejected
    → can (state_of job) to actor ≡ true
    → job.type ≡ JobType.home_service
rejected-home job to actor rejected accepted = (job_type_eq.beq_iff _ _).0 (
    can-every_edge job.type (λ s. s === JobStatus.quote_rejected)
      (λ _. job.type === JobType.home_service) job.status to actor (closing_edges job.type)
      ((job_status_eq.beq_iff _ _).1 rejected) accepted)

pub close_inspection_only-IsClosed :
    (now : ℕ) (terms : FareTerms) (store : Store) (user : RequestUser) (version : ℕ) (after : Store)
    → close_inspection_only now terms store user version ≡ ok after
    → IsClosed terms store user version after
unfolding close_inspection_only
close_inspection_only-IsClosed now terms store user version after returned =
    let (job, fare, moved, seen, by, rejected, computed, changed, made) =
      close_parts (get_for_user (some store.job) user)
        (λ job. throw_if (not (is_customer user job) && not (is_staff user)) forbidden_error)
        (λ job. throw_if (not (job.status === JobStatus.quote_rejected)) invalid_transition)
        (λ job. finalize_fare job.type terms no_quote)
        (λ job fare.
          transition_in_tx now (some store.job) JobStatus.completed
            (record { type = actor_type_for user job; id = some user.id })
            (record {
              expected_version = some version;
              event_type = some "job.completed_inspection_only";
              patch = record {
                partner_id = keep;
                vehicle_id = keep;
                dispatch_started_at = keep;
                final_total_minor = set (some fare.total_minor);
                breakdown = set (some fare.lines);
              };
            }))
        (λ moved. record {
          job = moved;
          estimated_total_minor = store.estimated_total_minor;
          quotes = store.quotes;
        })
        after returned in
    let (_, same) = get_for_user-ok store.job job user seen in
    let (fresh, accepted, is_moved) = returned-IsMoved now store.job _ _ _ moved changed in
    let was : store.job.status ≡ JobStatus.quote_rejected =
      rw same ((job_status_eq.beq_iff _ _).0 (throw_unless-ok _ _ rejected)) in
    let home = rejected-home store.job JobStatus.completed _ was accepted in
    let priced : finalize_fare JobType.home_service terms no_quote ≡ ok fare =
      rw (← home, same) computed in
    let (event, row) = returned_row now store.job _ _ _ moved changed in
    record {
      by = rw same (either_of _ _ (throw_if-ok _ _ by));
      rejected = was;
      home = home;
      at = at_version _ _ fresh;
      fare = fare;
      computed = priced;
      unquoted = finalize_fare-IsWorkless terms fare priced;
      itemised =
          ap (λ s. s.job.breakdown) (sym made)
          ∙ (ap (λ j. j.breakdown) (sym row) ∙ breakdown_of_row now store.job _ _ event);
      status = ap (λ s. s.job.status) (sym made) ∙ is_moved.status;
      charged =
          ap (λ s. s.job.final_total_minor) (sym made)
          ∙ (ap (λ j. j.final_total_minor) (sym row) ∙ total_of_row now store.job _ _ event);
      quotes = ap (λ s. s.quotes) (sym made);
    }

-- ===== src/Jobs/Transitions.antt =====
-- packages/shared-types/src/job-state-machine.ts: the table of legal status changes, row by row,
-- and the searches over it.
use Prim.Native.String.{String}
use tamam.Prelude.{◌++◌, Bool, ◌&&◌, Option, none, some, List, [], ◌∷◌, map}
use tamam.Prelude.Data.{◌===◌}
use tamam.Prelude.Lists.{find?, filter, includes}
use tamam.Shared.Enums.{
  job_type_eq, job_status_eq, job_actor_eq, JobType, ride, delivery, home_service, JobActorType,
  customer, partner, admin, system, JobStatus, draft, requested, searching, assigned,
  partner_en_route, partner_arrived, waiting_customer, in_progress, inspection_started,
  quote_required, quote_submitted, quote_approved, quote_rejected, work_started, waiting_for_parts,
  work_completed, customer_confirmed, completed, cancelled, no_partner_available, disputed,
}

-- `JobTransition`; `job_types` is `none` where the row leaves it out.
pub record JobTransition : Type 0 where
  pub source : JobStatus
  pub target : JobStatus
  pub actors : List JobActorType
  pub job_types : Option (List JobType)
  pub event : String

abbrev row :
    JobStatus → JobStatus → List JobActorType → Option (List JobType) → String → JobTransition
row f t a j e = record { source = f; target = t; actors = a; job_types = j; event = e }

abbrev every_type : Option (List JobType)
every_type = none

-- `MOBILITY`
abbrev mobility : Option (List JobType)
mobility = some (ride ∷ delivery ∷ [])

-- `HOME`
abbrev home : Option (List JobType)
home = some (home_service ∷ [])

-- Creation, search, the partner's way, and the start and end of mobility jobs.
abbrev pub movement_transitions : List JobTransition
movement_transitions =
    (row draft requested (customer ∷ admin ∷ []) every_type "job.requested")
    ∷ (row requested searching (system ∷ admin ∷ []) every_type "dispatch.started")
    ∷ (row searching assigned (system ∷ admin ∷ []) every_type "partner.assigned")
    ∷ (row searching no_partner_available (system ∷ admin ∷ []) every_type "dispatch.exhausted")
    ∷ (row no_partner_available searching (customer ∷ admin ∷ system ∷ []) every_type
        "dispatch.retried")
    ∷ (row assigned partner_en_route (partner ∷ admin ∷ []) every_type "partner.en_route")
    ∷ (row partner_en_route partner_arrived (partner ∷ admin ∷ system ∷ []) every_type
        "partner.arrived")
    ∷ (row partner_arrived waiting_customer (system ∷ partner ∷ []) every_type "partner.waiting")
    ∷ (row assigned searching (partner ∷ admin ∷ system ∷ []) every_type "partner.unassigned")
    ∷ (row partner_en_route searching (partner ∷ admin ∷ system ∷ []) every_type
        "partner.unassigned")
    ∷ (row partner_arrived searching (admin ∷ []) every_type "partner.unassigned")
    ∷ (row waiting_customer searching (admin ∷ []) every_type "partner.unassigned")
    ∷ (row partner_arrived in_progress (partner ∷ admin ∷ []) mobility "job.started")
    ∷ (row waiting_customer in_progress (partner ∷ admin ∷ []) mobility "job.started")
    ∷ (row in_progress completed (partner ∷ admin ∷ []) mobility "job.completed")
    ∷ []

-- The flow of a home service.
abbrev pub home_service_transitions : List JobTransition
home_service_transitions =
    (row partner_arrived inspection_started (partner ∷ admin ∷ []) home "inspection.started")
    ∷ (row waiting_customer inspection_started (partner ∷ admin ∷ []) home "inspection.started")
    ∷ (row inspection_started quote_required (partner ∷ system ∷ []) home "quote.required")
    ∷ (row inspection_started work_started (partner ∷ []) home "work.started")
    ∷ (row quote_required quote_submitted (partner ∷ []) home "quote.submitted")
    ∷ (row quote_submitted quote_approved (customer ∷ admin ∷ []) home "quote.approved")
    ∷ (row quote_submitted quote_rejected (customer ∷ admin ∷ []) home "quote.rejected")
    ∷ (row quote_rejected quote_submitted (partner ∷ []) home "quote.resubmitted")
    ∷ (row quote_rejected completed (system ∷ admin ∷ customer ∷ []) home
        "job.completed_inspection_only")
    ∷ (row quote_approved work_started (partner ∷ admin ∷ []) home "work.started")
    ∷ (row work_started waiting_for_parts (partner ∷ []) home "work.waiting_for_parts")
    ∷ (row waiting_for_parts work_started (partner ∷ []) home "work.resumed")
    ∷ (row work_started quote_submitted (partner ∷ []) home "change_order.submitted")
    ∷ (row work_started work_completed (partner ∷ []) home "work.completed")
    ∷ (row work_completed customer_confirmed (customer ∷ system ∷ admin ∷ []) home
        "customer.confirmed")
    ∷ (row customer_confirmed completed (system ∷ admin ∷ []) home "job.completed")
    ∷ (row work_completed disputed (customer ∷ admin ∷ []) home "job.disputed")
    ∷ []

-- Cancellations and disputes.
abbrev pub cancellation_transitions : List JobTransition
cancellation_transitions =
    (row requested cancelled (customer ∷ admin ∷ system ∷ []) every_type "job.cancelled")
    ∷ (row searching cancelled (customer ∷ admin ∷ system ∷ []) every_type "job.cancelled")
    ∷ (row no_partner_available cancelled (customer ∷ admin ∷ system ∷ []) every_type
        "job.cancelled")
    ∷ (row assigned cancelled (customer ∷ admin ∷ []) every_type "job.cancelled")
    ∷ (row partner_en_route cancelled (customer ∷ admin ∷ []) every_type "job.cancelled")
    ∷ (row partner_arrived cancelled (customer ∷ partner ∷ admin ∷ []) every_type "job.cancelled")
    ∷ (row waiting_customer cancelled (customer ∷ partner ∷ admin ∷ system ∷ []) every_type
        "job.cancelled")
    ∷ (row inspection_started cancelled (customer ∷ admin ∷ []) home "job.cancelled")
    ∷ (row quote_required cancelled (customer ∷ partner ∷ admin ∷ []) home "job.cancelled")
    ∷ (row quote_submitted cancelled (customer ∷ admin ∷ system ∷ []) home "job.cancelled")
    ∷ (row quote_approved cancelled (customer ∷ admin ∷ []) home "job.cancelled")
    ∷ (row in_progress cancelled (admin ∷ []) every_type "job.cancelled")
    ∷ (row work_started cancelled (admin ∷ []) home "job.cancelled")
    ∷ (row completed disputed (customer ∷ partner ∷ admin ∷ []) every_type "job.disputed")
    ∷ (row disputed completed (admin ∷ []) every_type "dispute.resolved")
    ∷ []

-- `JOB_TRANSITIONS`
unfoldable pub job_transitions : List JobTransition
job_transitions = movement_transitions ++ (home_service_transitions ++ cancellation_transitions)

-- `!t.jobTypes || t.jobTypes.includes(jobType)`
abbrev pub applies_to : Option (List JobType) → JobType → Bool
applies_to none ty = Bool.true
applies_to (some types) ty = includes types ty

-- The test of `findTransition` on one row.
abbrev pub matches : JobStatus → JobStatus → JobType → JobActorType → JobTransition → Bool
matches f t ty actor tr =
    tr.source === f && (tr.target === t && (includes tr.actors actor && applies_to tr.job_types ty))

unfoldable pub find_transition :
    JobStatus → JobStatus → JobType → JobActorType → Option JobTransition
unfolding job_transitions
find_transition f t ty actor = find? (matches f t ty actor) job_transitions

-- The test of `allowedTargets` on one row.
abbrev pub leaves : JobStatus → JobType → JobActorType → JobTransition → Bool
leaves f ty actor tr = tr.source === f && (includes tr.actors actor && applies_to tr.job_types ty)

unfoldable pub allowed_targets : JobStatus → JobType → JobActorType → List JobStatus
unfolding job_transitions
allowed_targets f ty actor = map (λ tr. tr.target) (filter (leaves f ty actor) job_transitions)

-- `PARTNER_BUSY_STATUSES`
abbrev pub partner_busy_statuses : List JobStatus
partner_busy_statuses =
    assigned ∷ partner_en_route ∷ partner_arrived ∷ waiting_customer ∷ in_progress
    ∷ inspection_started ∷ quote_required ∷ quote_submitted ∷ quote_approved ∷ work_started
    ∷ waiting_for_parts ∷ []

-- `CANCELLATION_FEE_ELIGIBLE_STATUSES`
abbrev pub cancellation_fee_eligible_statuses : List JobStatus
cancellation_fee_eligible_statuses =
    assigned ∷ partner_en_route ∷ partner_arrived ∷ waiting_customer ∷ inspection_started
    ∷ quote_required ∷ quote_submitted ∷ quote_approved ∷ []

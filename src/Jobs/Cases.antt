-- ===== src/Jobs/Cases.antt =====
-- A Boolean claim about job types and statuses is proved by running it on all of them.
use tamam.Prelude.{[], true, Bool, ◌∷◌, List, ◌≡◌, refl}
use tamam.Prelude.Lists.{all-includes, all, includes}
use tamam.Shared.Enums.{job_type_eq, job_status_eq, active_job_statuses, JobType, JobStatus}

abbrev job_types : List JobType
job_types =
    JobType.ride ∷ JobType.delivery ∷ JobType.home_service ∷ JobType.food ∷ JobType.grocery
    ∷ JobType.pharmacy ∷ JobType.shopping ∷ JobType.moving ∷ JobType.road_assistance ∷ []

abbrev job_statuses : List JobStatus
job_statuses =
    JobStatus.draft ∷ JobStatus.completed ∷ JobStatus.cancelled ∷ JobStatus.no_partner_available
    ∷ JobStatus.disputed ∷ active_job_statuses

job_types_complete : (ty : JobType) → includes job_types ty ≡ true
job_types_complete JobType.ride = refl
job_types_complete _ = refl

job_statuses_complete : (s : JobStatus) → includes job_statuses s ≡ true
job_statuses_complete JobStatus.draft = refl
job_statuses_complete _ = refl

-- The claim holds at every type and status.
unfoldable pub every_state : (JobType → JobStatus → Bool) → Bool
every_state p = all (λ ty. all (p ty) job_statuses) job_types

pub every_state-at :
    (p : JobType → JobStatus → Bool) (ty : JobType) (s : JobStatus)
    → every_state p ≡ true
    → p ty s ≡ true
unfolding every_state
every_state-at p ty s h =
    all-includes (p ty) job_statuses s
      (all-includes (λ t. all (p t) job_statuses) job_types ty h (job_types_complete ty))
      (job_statuses_complete s)

-- ===== src/Jobs/Reach/Gates.antt =====
-- What a job must have gone through before its later statuses.
use tamam.Jobs.Reach.{Reach}
use tamam.Prelude.{[], true, not, Bool, ◌∷◌, ◌++◌, List, ◌≡◌}
use tamam.Prelude.Lists.{includes}
use tamam.Shared.Enums.{
  JobStatus, job_status_eq, home_service, in_progress, disputed, completed, quote_rejected,
  work_started, work_completed, customer_confirmed, JobType,
}

-- Passing through one of the statuses `gate`.
pub data Through (ty : JobType) (gate : List JobStatus) (s t : JobStatus) : Type 0 where
  at : (g : JobStatus) → includes gate g ≡ true → Reach ty s g → Reach ty g t → Through ty gate s t

abbrev outside : List JobStatus → JobStatus → Bool
outside l s = not (includes l s)

-- The statuses that a job has only after a gate: for a mobility job the end and the dispute, for a
-- home service the finished work and the confirmation too.
abbrev pub gated : JobType → List JobStatus
gated home_service = work_completed ∷ customer_confirmed ∷ completed ∷ disputed ∷ []
gated _ = completed ∷ disputed ∷ []

-- The gate of such a status. A home service ends after finished work, or after a rejected quote,
-- when the inspection alone is charged.
abbrev pub gate_of : JobType → JobStatus → List JobStatus
gate_of home_service work_completed = work_started ∷ []
gate_of home_service customer_confirmed = work_completed ∷ []
gate_of home_service _ = work_completed ∷ quote_rejected ∷ []
gate_of _ _ = in_progress ∷ []

-- What lies behind the gate, as far as the rows lead into it.
abbrev behind : JobType → JobStatus → List JobStatus
behind home_service work_completed = work_completed ∷ []
behind home_service customer_confirmed = customer_confirmed ∷ []
behind home_service _ = customer_confirmed ∷ completed ∷ disputed ∷ []
behind _ _ = completed ∷ disputed ∷ []

before_gate : JobType → JobStatus → JobStatus → Bool
before_gate ty s = outside (behind ty s ++ gate_of ty s)

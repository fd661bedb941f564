-- ===== src/Jobs/Tests.antt =====
-- The theorems on the jobs at concrete statuses.
use tamam.Jobs.Machine.{assert, targets, JobState}
use tamam.Jobs.Machine.Agreement.{assert-Outcome, Outcome}
use tamam.Jobs.Reach.{Reach}
use tamam.Jobs.Reach.Exits.{targets-empty_iff_cancelled}
use tamam.Jobs.Reach.Lanes.{lane, Reach-iff_lane}
use tamam.Prelude.{true, [], ◌≡◌, ◌↔◌, refl}
use tamam.Prelude.Lists.{includes}
use tamam.Shared.Enums.{
  job_status_eq, completed, in_progress, cancelled, partner_arrived, ride, JobType, JobStatus,
  JobActorType,
}

abbrev arrived : JobState
arrived = record { type = ride; status = partner_arrived }

assert-Outcome_example :
    Outcome arrived in_progress JobActorType.partner
      (assert arrived in_progress JobActorType.partner)
assert-Outcome_example = assert-Outcome arrived in_progress JobActorType.partner

Reach-iff_lane_example :
    Reach ride JobStatus.draft completed ↔ (includes (lane ride) completed ≡ true)
Reach-iff_lane_example = Reach-iff_lane ride completed

targets-empty_iff_cancelled_example :
    ((ty : JobType) (actor : JobActorType)
      → targets (record { type = ty; status = completed }) actor ≡ [])
    ↔ (JobStatus.completed ≡ cancelled)
targets-empty_iff_cancelled_example = targets-empty_iff_cancelled completed

ride_arrives : Reach ride JobStatus.draft partner_arrived
ride_arrives = (Reach-iff_lane ride partner_arrived).1 refl

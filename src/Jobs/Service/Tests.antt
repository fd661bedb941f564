-- ===== src/Jobs/Service/Tests.antt =====
-- The theorems on the changes of a job's row at a concrete ride.
use tamam.Jobs.Machine.{assert}
use tamam.Jobs.Service.{
  JobRow, TransitionActor, TransitionOptions, transition_in_tx, updated_row, no_patch,
}
use tamam.Jobs.Service.Holders.{is_free, transition_in_tx-is_free}
use tamam.Jobs.Service.Outcome.{Returns, transition_in_tx-Returns}
use tamam.Jobs.Service.Runs.{unchanged, step, Follows, Runs-Follows}
use tamam.Jobs.Service.Writers.{transition_in_tx-no_lost_update}
use tamam.Jobs.Transitions.{find_transition, job_transitions}
use tamam.Prelude.{◌≡◌, refl, true, none, some, []}
use tamam.Shared.Enums.{JobType, JobStatus, JobActorType, requested}
use tamam.Shared.Errors.{Result, ok, err, stale_version}

abbrev drafted : JobRow
drafted = record {
  type = JobType.ride;
  customer_id = "customer";
  status = JobStatus.draft;
  version = 0;
  partner_id = none;
  vehicle_id = none;
  dispatch_started_at = none;
  assigned_at = none;
  partner_arrived_at = none;
  started_at = none;
  completed_at = none;
  cancelled_at = none;
  final_total_minor = none;
  breakdown = none;
  events = [];
}

abbrev rider : TransitionActor
rider = record { type = JobActorType.customer; id = some "customer" }

abbrev at_first : TransitionOptions
at_first = record { expected_version = some 0; event_type = none; patch = no_patch }

abbrev row_of : Result JobRow → JobRow → JobRow
row_of (ok row) other = row
row_of (err e) other = other

abbrev asked : JobRow
unfolding transition_in_tx
asked = row_of (transition_in_tx 5 (some drafted) requested rider at_first) drafted

asked_once : transition_in_tx 5 (some drafted) requested rider at_first ≡ ok asked
unfolding asked transition_in_tx updated_row assert find_transition job_transitions
asked_once = refl

transition_in_tx-Returns_example :
    Returns
      (some drafted)
      requested
      rider
      at_first
      (transition_in_tx 5 (some drafted) requested rider at_first)
transition_in_tx-Returns_example =
    transition_in_tx-Returns 5 (some drafted) requested rider at_first

Runs-Follows_example : Follows drafted asked
Runs-Follows_example =
    Runs-Follows drafted asked (step unchanged 5 requested rider at_first asked_once)

transition_in_tx-no_lost_update_example :
    transition_in_tx 6 (some asked) JobStatus.cancelled rider at_first ≡ err stale_version
transition_in_tx-no_lost_update_example =
    transition_in_tx-no_lost_update 5 6 drafted asked asked requested JobStatus.cancelled rider
      rider at_first at_first asked_once unchanged refl

transition_in_tx-is_free_example : is_free asked ≡ true
transition_in_tx-is_free_example =
    transition_in_tx-is_free 5 drafted requested rider at_first asked refl refl asked_once

-- ===== src/Jobs/Service.antt =====
-- `transitionInTx` of apps/api/src/modules/jobs/jobs.service.ts on the row of one job. The
-- transaction that locks the row runs as one step. The row has the fields that a transition reads
-- or that the modelled callers set; the note, the place and the request of an event are not modelled.
mod Tests
pub mod Outcome
pub mod Runs
pub mod Writers
pub mod Holders
use Prim.Native.String.{String}
use tamam.Jobs.Machine.{JobState, assert}
use tamam.Jobs.Transitions.{JobTransition}
use tamam.Prelude.{
  ℕ, suc, ◌+◌, Bool, true, false, not, ◌&&◌, ◌||◌, ◌==◌, Option, none, some, List, [], ◌∷◌, ◌++◌,
  if◌then◌else◌,
}
use tamam.Prelude.Data.{◌===◌}
use tamam.Prelude.Int.{ℤ}
use tamam.Pricing.{FareLine}
use tamam.Prelude.Lists.{includes}
use tamam.Shared.Enums.{
  JobType, JobStatus, JobActorType, job_status_eq, searching, assigned, partner_arrived,
  partner_en_route, waiting_customer, inspection_started, completed, cancelled, requested,
  no_partner_available,
}
use tamam.Shared.Errors.{
  Result, ok, err, ◌>>=◌, ◌>>◌, throw_if, or_throw, not_found_error, stale_version,
}

-- A row of `job_events`.
pub record JobEvent : Type 0 where
  pub type : String
  pub from_status : JobStatus
  pub to_status : JobStatus
  pub actor_type : JobActorType
  pub actor_id : Option String

-- A row of `jobs` with its events, the latest first.
pub record JobRow : Type 0 where
  pub type : JobType
  pub customer_id : String
  pub status : JobStatus
  pub version : ℕ
  pub partner_id : Option String
  pub vehicle_id : Option String
  pub dispatch_started_at : Option ℕ
  pub assigned_at : Option ℕ
  pub partner_arrived_at : Option ℕ
  pub started_at : Option ℕ
  pub completed_at : Option ℕ
  pub cancelled_at : Option ℕ
  pub final_total_minor : Option ℤ
  pub breakdown : Option (List FareLine)
  pub events : List JobEvent

-- `TransitionActor`
pub record TransitionActor : Type 0 where
  pub type : JobActorType
  pub id : Option String

-- What a caller makes of a field that may be null: it leaves it out, or sets it, maybe to null.
pub data Change {ℓ} (A : Type ℓ) : Type ℓ where
  keep : Change A
  set : Option A → Change A

-- The fields of `patch` that are modelled; connecting a partner or a vehicle sets its id.
pub record Patch : Type 0 where
  pub partner_id : Change String
  pub vehicle_id : Change String
  pub dispatch_started_at : Change ℕ
  pub final_total_minor : Change ℤ
  pub breakdown : Change (List FareLine)

pub record TransitionOptions : Type 0 where
  pub expected_version : Option ℕ
  pub event_type : Option String
  pub patch : Patch

abbrev pub no_patch : Patch
no_patch = record {
  partner_id = keep;
  vehicle_id = keep;
  dispatch_started_at = keep;
  final_total_minor = keep;
  breakdown = keep;
}

-- The field after the patch.
abbrev pub or_keep {ℓ} : {A : Type ℓ} → Change A → Option A → Option A
or_keep keep old = old
or_keep (set new) old = new

-- `opts.expectedVersion !== undefined && opts.expectedVersion !== current.version`
abbrev pub is_stale : Option ℕ → ℕ → Bool
is_stale none version = false
is_stale (some expected) version = not (expected == version)

-- `if (test) timestamps.field = now`
abbrev pub stamp : Bool → ℕ → Option ℕ → Option ℕ
stamp test now old = if test then some now else old

-- The statuses from which a search lets the partner go.
abbrev pub assigned_statuses : List JobStatus
assigned_statuses = assigned ∷ partner_en_route ∷ partner_arrived ∷ waiting_customer ∷ []

abbrev pub releases_partner : JobStatus → JobStatus → Bool
releases_partner from to = to === searching && includes assigned_statuses from

-- `if (releases) field = null`
abbrev pub unless_released {ℓ} : {A : Type ℓ} → Bool → Option A → Option A
unless_released releases old = if releases then none else old

abbrev pub event_of :
    JobRow → JobStatus → TransitionActor → TransitionOptions → JobTransition → JobEvent
event_of current to actor opts edge = record {
  type = elim opts.event_type [ none ↦ edge.event | some type ↦ type ];
  from_status = current.status;
  to_status = to;
  actor_type = actor.type;
  actor_id = actor.id;
}

-- `tx.job.update`: the status, the next version, the time stamps, then the patch.
unfoldable pub updated_row : ℕ → JobRow → JobStatus → Patch → JobEvent → JobRow
updated_row now current to patch event =
    let releases = releases_partner current.status to in
    record {
      type = current.type;
      customer_id = current.customer_id;
      status = to;
      version = suc current.version;
      partner_id = or_keep patch.partner_id (unless_released releases current.partner_id);
      vehicle_id = or_keep patch.vehicle_id (unless_released releases current.vehicle_id);
      dispatch_started_at =
          or_keep patch.dispatch_started_at
            (stamp (to === searching) now current.dispatch_started_at);
      assigned_at = unless_released releases (stamp (to === assigned) now current.assigned_at);
      partner_arrived_at =
          unless_released releases (stamp (to === partner_arrived) now current.partner_arrived_at);
      started_at =
          stamp (to === JobStatus.in_progress || to === inspection_started) now current.started_at;
      completed_at = stamp (to === completed) now current.completed_at;
      cancelled_at = stamp (to === cancelled) now current.cancelled_at;
      final_total_minor = or_keep patch.final_total_minor current.final_total_minor;
      breakdown = or_keep patch.breakdown current.breakdown;
      events = event ∷ current.events;
    }

abbrev pub state_of : JobRow → JobState
state_of row = record { type = row.type; status = row.status }

-- `transitionInTx`; the argument is the row that `FOR UPDATE` finds.
unfoldable pub transition_in_tx :
    ℕ → Option JobRow → JobStatus → TransitionActor → TransitionOptions → Result JobRow
unfolding updated_row
transition_in_tx now row to actor opts = do
  current ← or_throw row not_found_error
  throw_if (is_stale opts.expected_version current.version) stale_version
  edge ← assert (state_of current) to actor.type
  ok (updated_row now current to opts.patch (event_of current to actor opts edge))

-- The domain events of `emit`.
pub data DomainEvent : Type 0 where
  status_changed job_assigned job_completed job_cancelled : DomainEvent
  no_partner job_started unassigned : DomainEvent

abbrev pub emit_if : Bool → DomainEvent → List DomainEvent
emit_if test event = if test then event ∷ [] else []

unfoldable pub emitted : JobStatus → JobStatus → List DomainEvent
emitted from to =
    status_changed
    ∷ (emit_if (to === assigned) job_assigned
        ++ (emit_if (to === completed) job_completed
            ++ (emit_if (to === cancelled) job_cancelled
                ++ (emit_if (to === no_partner_available) no_partner
                    ++ (emit_if (to === JobStatus.in_progress || to === inspection_started)
                          job_started
                        ++ emit_if
                            (to === searching
                              && (not (from === requested) && not (from === no_partner_available)))
                            unassigned)))))

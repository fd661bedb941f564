-- ===== src/Jobs/Service/Outcome.antt =====
-- What `transitionInTx` returns and throws.
use tamam.Jobs.Machine.{can}
use tamam.Jobs.Machine.Agreement.{assert-Outcome}
use tamam.Jobs.Machine.Agreement
use tamam.Jobs.Service.{
  JobRow, JobEvent, TransitionActor, TransitionOptions, transition_in_tx, updated_row, state_of,
  event_of, is_stale,
}
use tamam.Jobs.Transitions.{JobTransition}
use tamam.Prelude.{
  ℕ, suc, ◌≡◌, refl, true, false, Option, none, some, ◌⊎◌, inl, inr, Bool-cases, ◌∷◌,
}
use tamam.Shared.Enums.{JobStatus}
use tamam.Shared.Errors.{
  Result, ok, err, AppException, not_found_error, stale_version, invalid_transition, ◌>>=◌,
}

-- The row after an accepted change: the next version, and one event more, which records it.
pub record IsMoved (current : JobRow) (to : JobStatus) (actor : TransitionActor) (job : JobRow)
    : Type 0 where
  pub status : job.status ≡ to
  pub type : job.type ≡ current.type
  pub version : job.version ≡ suc current.version
  pub event : JobEvent
  pub events : job.events ≡ event ∷ current.events
  pub from : event.from_status ≡ current.status
  pub target : event.to_status ≡ to
  pub by : event.actor_type ≡ actor.type

-- Why a change of a row that is there is refused.
abbrev pub Refusal :
    JobRow → JobStatus → TransitionActor → TransitionOptions → AppException → Type 0
Refusal current to actor opts e =
    ((is_stale opts.expected_version current.version ≡ true) × (e ≡ stale_version))
    ⊎ ((is_stale opts.expected_version current.version ≡ false)
        × (can (state_of current) to actor.type ≡ false)
        × (e ≡ invalid_transition))

abbrev pub Returns :
    Option JobRow → JobStatus → TransitionActor → TransitionOptions → Result JobRow → Type 0
Returns none to actor opts (ok job) = ⊥
Returns none to actor opts (err e) = e ≡ not_found_error
Returns (some current) to actor opts (ok job) =
    (is_stale opts.expected_version current.version ≡ false)
    × (can (state_of current) to actor.type ≡ true)
    × IsMoved current to actor job
Returns (some current) to actor opts (err e) = Refusal current to actor opts e

moved :
    (now : ℕ) (current : JobRow) (to : JobStatus) (actor : TransitionActor)
    (opts : TransitionOptions)
    → is_stale opts.expected_version current.version ≡ false
    → (r : Result JobTransition) → Agreement.Outcome (state_of current) to actor.type r
    → Returns (some current) to actor opts (
        r >>= λ edge.
        ok (updated_row now current to opts.patch (event_of current to actor opts edge)))
unfolding updated_row
moved now current to actor opts fresh (ok edge) (m, s, t, a, y, l, c) = (
  fresh,
  c,
  record {
    status = refl;
    type = refl;
    version = refl;
    event = event_of current to actor opts edge;
    events = refl;
    from = refl;
    target = refl;
    by = refl;
  },
)
moved now current to actor opts fresh (err e) (same, l, c) = inr (fresh, c, same)

-- A change of a job's status, whoever asks: without the row it throws NOT_FOUND; at another version
-- than the one expected VERSION_CONFLICT; where the state machine does not let the actor make the
-- change INVALID_STATE_TRANSITION; and otherwise it returns the row with the new status, the next
-- version, and one event more, which names the old status, the new one and the actor.
pub transition_in_tx-Returns :
    (now : ℕ) (row : Option JobRow) (to : JobStatus) (actor : TransitionActor)
    (opts : TransitionOptions)
    → Returns row to actor opts (transition_in_tx now row to actor opts)
unfolding transition_in_tx
transition_in_tx-Returns now none to actor opts = refl
transition_in_tx-Returns now (some current) to actor opts =
    elim (Bool-cases (is_stale opts.expected_version current.version)) [
      | inl stale ↦ rw stale (inl (stale, refl))
      | inr fresh ↦ rw fresh (
          moved now current to actor opts fresh _ (assert-Outcome (state_of current) to actor.type))
    ]

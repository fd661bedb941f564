-- ===== src/Jobs/Reach/Exits.antt =====
-- Which statuses a job can leave, and what a customer may cancel.
use mathlib.Core.Bool
use tamam.Jobs.Cases.{every_state-at, every_state}
use tamam.Jobs.Machine.{is_terminal, targets, can}
use tamam.Jobs.Reach.{Reach, can-every_edge, every_edge}
use tamam.Jobs.Reach.Lanes.{lane, Reach-iff_lane}
use tamam.Jobs.Transitions.{cancellation_fee_eligible_statuses}
use tamam.Prelude.{
  not, Bool, arith, true, [], implied, beq→eq, ◌⊎◌, ◌||◌, ◌↔◌, ◌∷◌, List, ◌≡◌, refl,
}
use tamam.Prelude.Lists.{includes}
use tamam.Shared.Enums.{
  JobActorType, job_status_eq, JobStatus, JobType, ride, home_service, admin, cancelled, searching,
  disputed, requested, no_partner_available,
}

cancelled-targets :
    (ty : JobType) (actor : JobActorType)
    → targets (record { type = ty; status = cancelled }) actor ≡ []
unfolding targets
cancelled-targets ty actor = refl

stuck-cancelled :
    (s : JobStatus)
    → targets (record { type = home_service; status = s }) admin ≡ []
    → targets (record { type = ride; status = s }) admin ≡ []
    → targets (record { type = home_service; status = s }) JobActorType.partner ≡ []
    → s ≡ cancelled
unfolding targets
stuck-cancelled cancelled _ _ _ = refl
stuck-cancelled _ h k p = cc

-- CANCELLED is the one status that nobody can move a job out of, whatever its type: the other
-- two statuses of TERMINAL_JOB_STATUSES have a way out.
pub targets-empty_iff_cancelled :
    (s : JobStatus)
    → ((ty : JobType) (actor : JobActorType)
        → targets (record { type = ty; status = s }) actor ≡ [])
      ↔ (s ≡ cancelled)
targets-empty_iff_cancelled s = (
  λ h.
      stuck-cancelled s (h home_service admin) (h ride admin) (h home_service JobActorType.partner),
  λ e. rw e cancelled-targets,
)

abbrev after_terminal : List JobStatus
after_terminal = disputed ∷ searching ∷ cancelled ∷ []

terminal-closed : (ty : JobType) → every_edge ty is_terminal (includes after_terminal) ≡ true
unfolding every_edge is_terminal
terminal-closed ride = refl
terminal-closed _ = refl

-- A job in a terminal status only moves to a dispute, back to the search, or to CANCELLED.
pub terminal_exits :
    (ty : JobType) (s t : JobStatus) (actor : JobActorType)
    → is_terminal s ≡ true
    → can (record { type = ty; status = s }) t actor ≡ true
    → (t ≡ disputed) ⊎ (t ≡ searching) ⊎ (t ≡ cancelled)
terminal_exits ty s t actor h accepted =
    let listed =
      can-every_edge ty is_terminal (includes after_terminal) s t actor (terminal-closed ty) h
        accepted in
    after_terminal-cases t listed
  where
    after_terminal-cases :
        (u : JobStatus)
        → includes after_terminal u ≡ true
        → (u ≡ disputed) ⊎ (u ≡ searching) ⊎ (u ≡ cancelled)
    after_terminal-cases u k = ground arith

-- Cancelling is free while no partner is committed.
abbrev pub free_to_cancel : List JobStatus
free_to_cancel = requested ∷ searching ∷ no_partner_available ∷ []

abbrev fee_or_free : JobStatus → Bool
fee_or_free s = includes free_to_cancel s || includes cancellation_fee_eligible_statuses s

abbrev cancels_in_lane : JobType → JobStatus → Bool
cancels_in_lane ty s =
    not (includes (lane ty) s)
    || Bool.beq (can (record { type = ty; status = s }) cancelled JobActorType.customer)
        (fee_or_free s)

cancels : every_state cancels_in_lane ≡ true
unfolding every_state can
cancels = refl

-- In every status that a job of the type can have, its customer may cancel exactly in the
-- statuses where that is free and in those of CANCELLATION_FEE_ELIGIBLE_STATUSES.
pub can-cancel_customer :
    (ty : JobType) (s : JobStatus)
    → Reach ty JobStatus.draft s
    → can (record { type = ty; status = s }) cancelled JobActorType.customer
      ≡ (includes free_to_cancel s || includes cancellation_fee_eligible_statuses s)
can-cancel_customer ty s r =
    beq→eq _ _
      (implied _ _ (every_state-at cancels_in_lane ty s cancels) ((Reach-iff_lane ty s).0 r))

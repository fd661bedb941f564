-- ===== src/Jobs/Reach.antt =====
-- The statuses that a job of each type reaches through the state machine, from DRAFT.
pub mod Lanes
pub mod Gates
pub mod Exits
use Prim.Native.String.{String}
use tamam.Jobs.Machine.{JobState, can, is_some}
use tamam.Jobs.Machine.Agreement.{matches_parts, find_transition-matches}
use tamam.Jobs.Transitions.{JobTransition, job_transitions, applies_to, find_transition, matches}
use tamam.Prelude.{
  ap, ◌∙◌, sym, inr, inl, Option-cases, ◌≡◌, Bool, true, false, ◌&&◌, ◌||◌, not, Option, none, some,
  List, [], ◌∷◌, arith,
}
use tamam.Prelude.Lists.{all, includes, find?-all, find?-satisfies}
use tamam.Shared.Enums.{JobType, JobStatus, JobActorType, job_status_eq}

-- A job of one type goes from a status to another by changes that `can` accepts, each for
-- some actor.
pub data Reach (ty : JobType) (s : JobStatus) : JobStatus → Type 0 where
  here : Reach ty s s
  next :
      {t u : JobStatus}
      → Reach ty s t
      → (actor : JobActorType) → can (record { type = ty; status = t }) u actor ≡ true
      → Reach ty s u

-- Every row of the table for this job type that starts in `inside` ends in `after`.
abbrev pub leads : JobType → (JobStatus → Bool) → (JobStatus → Bool) → JobTransition → Bool
leads ty inside after edge =
    not (applies_to edge.job_types ty && inside edge.source) || after edge.target

unfoldable pub every_edge : JobType → (JobStatus → Bool) → (JobStatus → Bool) → Bool
unfolding job_transitions
every_edge ty inside after = all (leads ty inside after) job_transitions

-- A check of the rows carries over to every accepted change.
pub can-every_edge :
    (ty : JobType) (inside after : JobStatus → Bool) (s t : JobStatus) (actor : JobActorType)
    → every_edge ty inside after ≡ true
    → inside s ≡ true
    → can (record { type = ty; status = s }) t actor ≡ true
    → after t ≡ true
unfolding can every_edge
can-every_edge ty inside after s t actor check at h =
    elim (Option-cases (find_transition s t ty actor)) [
      | inl e ↦ cc (sym h ∙ ap is_some e)
      | inr (edge, e) ↦
          let (source, target, _, applies) =
            matches_parts s t ty actor edge (find_transition-matches s t ty actor edge e) in
          let checked =
            find?-all (matches s t ty actor) (leads ty inside after) job_transitions edge check e in
          let at' : inside edge.source ≡ true = rw source at in rw (← target) (ground arith)
    ]

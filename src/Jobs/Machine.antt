-- ===== src/Jobs/Machine.antt =====
-- apps/api/src/modules/jobs/domain/job-state-machine.ts: `JobStateMachine`.
pub mod Agreement
use tamam.Jobs.Transitions.{
  JobTransition, job_transitions, matches, leaves, find_transition, allowed_targets,
}
use tamam.Prelude.{
  ◌∙◌, sym, ◌≡◌, refl, ◌↔◌, Bool, true, false, ◌&&◌, Option, none, some, List, [], ◌∷◌, map, arith,
}
use tamam.Prelude.Data.{◌===◌}
use tamam.Prelude.Lists.{
  includes, includes-any, any, any_congr, any-map, any-and_eq-filter, find?, find?-satisfies,
  filter,
}
use tamam.Shared.Enums.{
  job_type_eq, job_status_eq, job_actor_eq, JobType, JobStatus, JobActorType, terminal_job_statuses,
}
use tamam.Shared.Errors.{Result, ok, err, invalid_transition}

-- The part of a job that the machine reads.
pub record JobState : Type 0 where
  pub type : JobType
  pub status : JobStatus

-- `JobStateMachine.assert`
unfoldable pub assert : JobState → JobStatus → JobActorType → Result JobTransition
unfolding find_transition
assert job to actor = elim (find_transition job.status to job.type actor) [
  | none ↦ err invalid_transition
  | some t ↦ ok t
]

abbrev pub is_some {ℓ} : {A : Type ℓ} → Option A → Bool
is_some none = false
is_some (some _) = true

-- `JobStateMachine.can`
unfoldable pub can : JobState → JobStatus → JobActorType → Bool
unfolding find_transition
can job to actor = is_some (find_transition job.status to job.type actor)

-- `JobStateMachine.targets`
unfoldable pub targets : JobState → JobActorType → List JobStatus
unfolding allowed_targets
targets job actor = allowed_targets job.status job.type actor

-- `JobStateMachine.isTerminal`
unfoldable pub is_terminal : JobStatus → Bool
is_terminal s = includes terminal_job_statuses s

-- ===== src/Jobs/Service/Runs.antt =====
-- Sequences of accepted changes of one job, against the statuses that the table reaches.
use tamam.Jobs.Machine.{can}
use tamam.Jobs.Reach.{Reach, here}
use tamam.Jobs.Service.Outcome.{IsMoved, Returns, transition_in_tx-Returns}
use tamam.Jobs.Service.{
  JobRow, TransitionActor, TransitionOptions, transition_in_tx, state_of, is_stale,
}
use tamam.Prelude.{ℕ, suc, ◌+◌, ◌≡◌, refl, ◌∙◌, true, false, some, arith}
use mathlib.Core.Path.{subst}
use tamam.Prelude.Lists.{length}
use tamam.Shared.Enums.{JobStatus}
use tamam.Shared.Errors.{ok}

-- The calls of `transition_in_tx` that returned, from one row of a job to another.
pub data Runs (first : JobRow) : JobRow → Type 0 where
  unchanged : Runs first first
  step :
      {job job' : JobRow}
      → Runs first job
      → (now : ℕ) (to : JobStatus) (actor : TransitionActor) (opts : TransitionOptions)
      → transition_in_tx now (some job) to actor opts ≡ ok job'
      → Runs first job'

-- What a call that returned has done.
pub returned-IsMoved :
    (now : ℕ) (job : JobRow) (to : JobStatus) (actor : TransitionActor) (opts : TransitionOptions)
    (job' : JobRow)
    → transition_in_tx now (some job) to actor opts ≡ ok job'
    → (is_stale opts.expected_version job.version ≡ false)
      × (can (state_of job) to actor.type ≡ true)
      × IsMoved job to actor job'
returned-IsMoved now job to actor opts job' returned =
    subst (Returns (some job) to actor opts) returned
      (transition_in_tx-Returns now (some job) to actor opts)

-- A later row of the job against the first: no other type, a status that the table reaches, and
-- one event more for each version.
abbrev pub Follows : JobRow → JobRow → Type 0
Follows first job =
    (job.type ≡ first.type)
    × Reach first.type first.status job.status
    × (job.version + length first.events ≡ first.version + length job.events)

one_more : (v l w m : ℕ) → v + l ≡ w + m → suc v + l ≡ w + suc m
one_more v l w m same = omega arith

Moved-Follows :
    (first job job' : JobRow) (to : JobStatus) (actor : TransitionActor)
    → can (state_of job) to actor.type ≡ true
    → IsMoved job to actor job'
    → Follows first job
    → Follows first job'
Moved-Follows first job job' to actor accepted moved (type, reach, count) =
    let row_moved = moved.status in
    let version = moved.version in
    let grown = moved.events in
    let accepts : can (record { type = first.type; status = job.status }) to actor.type ≡ true =
      rw (← type) accepted in
    (
      moved.type ∙ type,
      (rw row_moved (Reach.next reach actor.type accepts)),
      (rw (version, grown) (one_more _ _ _ _ count)),
    )

-- Whatever calls of `transitionInTx` return, in whatever order, the job keeps its type, its status is
-- one that the transition table leads to from its first status, and its version has grown by
-- exactly the number of events that were written.
pub Runs-Follows : (first job : JobRow) → Runs first job → Follows first job
Runs-Follows first job unchanged = (refl, here, refl)
Runs-Follows first job (step {job = row} runs now to actor opts returned) =
    let (_, accepted, moved) = returned-IsMoved now row to actor opts job returned in
    Moved-Follows first row job to actor accepted moved (Runs-Follows first row runs)

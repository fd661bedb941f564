-- ===== src/Jobs/Service/Writers.antt =====
-- Two writers of one row of a job that both read it at the same version.
use tamam.Jobs.Service.Runs.{returned-IsMoved, Runs, unchanged, step}
use tamam.Jobs.Service.{JobRow, TransitionActor, TransitionOptions, transition_in_tx, is_stale}
use tamam.Prelude.{ℕ, suc, ◌==◌, ◌≤◌, ◌<◌, ◌≡◌, refl, sym, not, true, some, arith}
use tamam.Shared.Enums.{JobStatus}
use tamam.Shared.Errors.{ok, err, stale_version}

-- A version that is not the row's.
differs-stale : (expected version : ℕ) → expected < version → not (expected == version) ≡ true
differs-stale expected version below = ground arith

stale-throws :
    (now : ℕ) (job : JobRow) (to : JobStatus) (actor : TransitionActor) (opts : TransitionOptions)
    → is_stale opts.expected_version job.version ≡ true
    → transition_in_tx now (some job) to actor opts ≡ err stale_version
unfolding transition_in_tx
stale-throws now job to actor opts stale = rw stale refl

-- A call that returned leaves a later version.
pub moved-later :
    (now : ℕ) (job : JobRow) (to : JobStatus) (actor : TransitionActor) (opts : TransitionOptions)
    (job' : JobRow)
    → transition_in_tx now (some job) to actor opts ≡ ok job'
    → suc job.version ≡ job'.version
moved-later now job to actor opts job' returned =
    let (_, _, moved) = returned-IsMoved now job to actor opts job' returned in sym moved.version

pub Runs-later : (first job : JobRow) → Runs first job → first.version ≤ job.version
Runs-later first job unchanged = omega arith
Runs-later first job (step {job = row} runs now to actor opts returned) =
    let before = Runs-later first row runs in
    let later = moved-later now row to actor opts job returned in omega arith

-- Of two writers that read the job at one version, the second one to write loses: once a call of
-- `transitionInTx` has returned, and after any further calls, a call that expects the version before it
-- throws VERSION_CONFLICT, whatever it asks for.
pub transition_in_tx-no_lost_update :
    (now later : ℕ) (job job' latest : JobRow) (to to' : JobStatus) (actor actor' : TransitionActor)
    (opts opts' : TransitionOptions)
    → transition_in_tx now (some job) to actor opts ≡ ok job'
    → Runs job' latest
    → opts'.expected_version ≡ some job.version
    → transition_in_tx later (some latest) to' actor' opts' ≡ err stale_version
transition_in_tx-no_lost_update now later job job' latest to to' actor actor' opts opts' returned
      runs expects =
    let grown = moved-later now job to actor opts job' returned in
    let kept = Runs-later job' latest runs in
    let below : job.version < latest.version = omega arith in
    let stale : is_stale opts'.expected_version latest.version ≡ true =
      rw expects (differs-stale job.version latest.version below) in
    stale-throws later latest to' actor' opts' stale

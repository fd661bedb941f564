-- ===== src/Jobs/Service/Holders.antt =====
-- The partner on a job, while the job waits for one.
use Prim.Native.String.{String}
use tamam.Jobs.Machine.{can, assert}
use tamam.Jobs.Transitions.{JobTransition}
use tamam.Jobs.Reach.{every_edge, can-every_edge}
use tamam.Jobs.Service.{
  JobRow, JobEvent, TransitionActor, TransitionOptions, Patch, Change, keep, set, transition_in_tx,
  updated_row, state_of, event_of, assigned_statuses, releases_partner, unless_released, or_keep,
  is_stale,
}
use tamam.Jobs.Service.Runs.{returned-IsMoved}
use tamam.Prelude.{
  ℕ, ◌≡◌, refl, sym, ap, ◌∙◌, Bool, true, false, not, ◌||◌, ◌&&◌, Option, none, some, List, [], ◌∷◌,
  inl, inr, arith, Bool-cases,
}
use tamam.Prelude.Data.{◌===◌}
use tamam.Prelude.Lists.{includes}
use tamam.Shared.Enums.{
  JobType, JobStatus, JobActorType, job_status_eq, requested, searching, no_partner_available,
  assigned,
}
use tamam.Shared.Errors.{Result, ok, err, ◌>>=◌, ◌>>◌, stale_version, ok-injective, throw_if}

-- The statuses of a job that has no partner yet.
abbrev pub waiting_statuses : List JobStatus
waiting_statuses = JobStatus.draft ∷ requested ∷ searching ∷ no_partner_available ∷ []

abbrev pub waits : JobStatus → Bool
waits s = includes waiting_statuses s

abbrev pub is_none {ℓ} : {A : Type ℓ} → Option A → Bool
is_none none = true
is_none (some _) = false

-- Whether a change of the partner names nobody.
abbrev pub names_no_one : Change String → Bool
names_no_one keep = true
names_no_one (set partner) = is_none partner

-- A job that waits has no partner.
abbrev pub is_free : JobRow → Bool
is_free row = not (waits row.status) || is_none row.partner_id

-- Only the change to ASSIGNED connects a partner.
abbrev pub connects_on_assign : JobStatus → Patch → Bool
connects_on_assign to patch = to === assigned || names_no_one patch.partner_id

abbrev neither : JobStatus → Bool
neither s = not (waits s) && not (includes assigned_statuses s)

abbrev leaves_waiting : JobStatus → Bool
leaves_waiting s = not (waits s)

abbrev only_searches : JobStatus → Bool
only_searches s = not (waits s) || s === searching

after_work_closed : (ty : JobType) → every_edge ty neither leaves_waiting ≡ true
unfolding every_edge
after_work_closed JobType.ride = refl
after_work_closed _ = refl

assigned_closed : (ty : JobType) → every_edge ty (includes assigned_statuses) only_searches ≡ true
unfolding every_edge
assigned_closed JobType.ride = refl
assigned_closed _ = refl

-- A change into a status where the job waits comes from such a status, or it lets the partner go.
enters_waiting :
    (ty : JobType) (s t : JobStatus) (actor : JobActorType)
    → can (record { type = ty; status = s }) t actor ≡ true
    → waits t ≡ true
    → waits s || releases_partner s t ≡ true
enters_waiting ty s t actor accepted waiting = elim (Bool-cases (waits s)) [
  | inl w ↦ rw w refl
  | inr w ↦ elim (Bool-cases (includes assigned_statuses s)) [
    | inl a ↦
        let closed =
          can-every_edge ty (includes assigned_statuses) only_searches s t actor
            (assigned_closed ty) a accepted in
        ground arith
    | inr a ↦
        let outside : neither s ≡ true = rw (w, a) refl in
        let closed =
          can-every_edge ty neither leaves_waiting s t actor (after_work_closed ty) outside
            accepted in
        ground arith
  ]
]

written_row :
    (now : ℕ) (job : JobRow) (to : JobStatus) (actor : TransitionActor) (opts : TransitionOptions)
    (job' : JobRow) (checked : Result (Unit {0})) (edge : Result JobTransition)
    → (checked
        >> (edge >>= λ e. ok (updated_row now job to opts.patch (event_of job to actor opts e))))
      ≡ ok job'
    → (event : JobEvent) × (updated_row now job to opts.patch event ≡ job')
written_row now job to actor opts job' (ok _) (ok edge) h =
    (event_of job to actor opts edge, ok-injective _ _ h)
written_row now job to actor opts job' (ok _) (err e) h = cc
written_row now job to actor opts job' (err e) edge h = cc

-- The row that a call returns.
pub returned_row :
    (now : ℕ) (job : JobRow) (to : JobStatus) (actor : TransitionActor) (opts : TransitionOptions)
    (job' : JobRow)
    → transition_in_tx now (some job) to actor opts ≡ ok job'
    → (event : JobEvent) × (updated_row now job to opts.patch event ≡ job')
unfolding transition_in_tx
returned_row now job to actor opts job' returned =
    written_row now job to actor opts job'
      (throw_if (is_stale opts.expected_version job.version) stale_version)
      (assert (state_of job) to actor.type) returned

partner_of :
    (now : ℕ) (job : JobRow) (to : JobStatus) (patch : Patch) (event : JobEvent)
    → (updated_row now job to patch event).partner_id
      ≡ or_keep patch.partner_id (unless_released (releases_partner job.status to) job.partner_id)
unfolding updated_row
partner_of now job to patch event = refl

not_assigned : (to : JobStatus) → waits to ≡ true → to === assigned ≡ false
not_assigned JobStatus.draft w = refl
not_assigned JobStatus.assigned w = cc
not_assigned _ w = refl

no_one :
    (change : Change String) (partner : Option String) (releases : Bool)
    → names_no_one change ≡ true
    → releases || is_none partner ≡ true
    → is_none (or_keep change (unless_released releases partner)) ≡ true
no_one keep partner true e f = refl
no_one keep partner false e f = f
no_one (set none) partner releases e f = refl
no_one (set (some p)) partner releases e f = cc

released_or_free :
    (from releases partner : Bool)
    → not from || partner ≡ true
    → from || releases ≡ true
    → releases || partner ≡ true
released_or_free false true partner f e = refl
released_or_free false false partner f e = cc
released_or_free true releases partner f e = ground arith

nobody_connected :
    (to_assigned free : Bool) → to_assigned ≡ false → to_assigned || free ≡ true → free ≡ true
nobody_connected false free e h = h
nobody_connected true free e h = cc

-- A job that waits for a partner (DRAFT, REQUESTED, SEARCHING, NO_PARTNER_AVAILABLE) has none: a change
-- of its status keeps this, when it connects a partner only on the way to ASSIGNED.
pub transition_in_tx-is_free :
    (now : ℕ) (job : JobRow) (to : JobStatus) (actor : TransitionActor) (opts : TransitionOptions)
    (job' : JobRow)
    → is_free job ≡ true
    → connects_on_assign to opts.patch ≡ true
    → transition_in_tx now (some job) to actor opts ≡ ok job'
    → is_free job' ≡ true
transition_in_tx-is_free now job to actor opts job' free connects returned =
    let (_, accepted, moved) = returned-IsMoved now job to actor opts job' returned in
    let (event, same) = returned_row now job to actor opts job' returned in
    let row_moved = moved.status in
    let partner : job'.partner_id
        ≡ or_keep opts.patch.partner_id
            (unless_released (releases_partner job.status to) job.partner_id) =
      ap (λ row. row.partner_id) (sym same) ∙ partner_of now job to opts.patch event in
    elim (Bool-cases (waits to)) [
      | inr moves ↦ rw (row_moved, moves) refl
      | inl waiting ↦
          let other = not_assigned to waiting in
          let entered = enters_waiting job.type job.status to actor.type accepted waiting in
          let open' : names_no_one opts.patch.partner_id ≡ true =
            nobody_connected (to === assigned) _ other connects in
          let left : releases_partner job.status to || is_none job.partner_id ≡ true =
            released_or_free (waits job.status) _ _ free entered in
          rw (row_moved, waiting, partner) (no_one _ _ _ open' left)
    ]

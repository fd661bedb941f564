-- ===== src/Jobs/Machine/Agreement.antt =====
-- `assert`, `can` and `targets` answer alike, and an accepted change is a row of the table.
use mathlib.Core.List.{Memᴰ}
use tamam.Jobs.Machine.{JobState, assert, can, targets, is_some}
use tamam.Jobs.Transitions.{
  JobTransition, job_transitions, matches, leaves, find_transition, applies_to,
}
use tamam.Prelude.{
  inr, ap, and_split, inl, ◌∙◌, sym, ◌≡◌, refl, Bool, true, false, ◌&&◌, some, List, [], ◌∷◌, arith,
  Option-cases,
}
use tamam.Prelude.Data.{◌===◌}
use tamam.Prelude.Lists.{
  includes, includes-any, any, any_congr, any-map, any-and_eq-filter, find?, find?-satisfies,
  find?-mem, filter,
}
use tamam.Shared.Enums.{job_type_eq, job_status_eq, job_actor_eq, JobType, JobStatus, JobActorType}
use tamam.Shared.Errors.{Result, ok, err, invalid_transition}

-- The row that `find_transition` returns is a row of this move.
pub find_transition-matches :
    (f t : JobStatus) (ty : JobType) (actor : JobActorType) (edge : JobTransition)
    → find_transition f t ty actor ≡ some edge
    → matches f t ty actor edge ≡ true
unfolding find_transition
find_transition-matches f t ty actor edge h =
    find?-satisfies (matches f t ty actor) job_transitions edge h

is_some-find? {ℓ} : {A : Type ℓ} (p : A → Bool) (xs : List A) → is_some (find? p xs) ≡ any p xs
is_some-find? p [] = refl
is_some-find? p (x ∷ xs) = ground (arith, is_some-find? p xs)

find_transition-mem :
    (f t : JobStatus) (ty : JobType) (actor : JobActorType) (edge : JobTransition)
    → find_transition f t ty actor ≡ some edge
    → Memᴰ edge job_transitions
unfolding find_transition
find_transition-mem f t ty actor edge h = find?-mem (matches f t ty actor) job_transitions edge h

swap_tests : (a b c : Bool) → (a && (b && c)) ≡ ((a && c) && b)
swap_tests a b c = ground arith

-- `targets` lists a status exactly if `can` accepts it.
pub includes-targets :
    (job : JobState) (to : JobStatus) (actor : JobActorType)
    → includes (targets job actor) to ≡ can job to actor
unfolding targets can
includes-targets job to actor =
    includes-any (targets job actor) to
    ∙ any-map (λ edge. edge.target) (λ s. s === to)
        (filter (leaves job.status job.type actor) job_transitions)
    ∙ sym (
        any-and_eq-filter (leaves job.status job.type actor) (λ edge. edge.target === to)
          job_transitions)
    ∙ sym (
        any_congr (matches job.status to job.type actor) _ job_transitions
          (λ edge. swap_tests (edge.source === job.status) (edge.target === to) _))
    ∙ sym (is_some-find? (matches job.status to job.type actor) job_transitions)

-- What the outcome of `assert` says.
abbrev pub Outcome : JobState → JobStatus → JobActorType → Result JobTransition → Type 0
Outcome job to actor (ok edge) =
    Memᴰ edge job_transitions
    × (edge.source ≡ job.status)
    × (edge.target ≡ to)
    × (includes edge.actors actor ≡ true)
    × (applies_to edge.job_types job.type ≡ true)
    × (includes (targets job actor) to ≡ true)
    × (can job to actor ≡ true)
Outcome job to actor (err e) =
    (e ≡ invalid_transition)
    × (includes (targets job actor) to ≡ false)
    × (can job to actor ≡ false)

pub matches_parts :
    (f t : JobStatus) (ty : JobType) (actor : JobActorType) (edge : JobTransition)
    → matches f t ty actor edge ≡ true
    → (edge.source ≡ f)
      × (edge.target ≡ t)
      × (includes edge.actors actor ≡ true)
      × (applies_to edge.job_types ty ≡ true)
matches_parts f t ty actor edge h =
    let (h₁, r₁) = and_split _ _ h in
    let (h₂, r₂) = and_split _ _ r₁ in
    let (h₃, h₄) = and_split _ _ r₂ in
    ((job_status_eq.beq_iff edge.source f).0 h₁, (job_status_eq.beq_iff edge.target t).0 h₂, h₃, h₄)

-- `assert` either returns a row that stands in the table, for this very change, which names the actor
-- and covers the job type, and then `can` is true and `targets` lists the new status; or it throws
-- INVALID_STATE_TRANSITION, `can` is false and `targets` does not list it.
pub assert-Outcome :
    (job : JobState) (to : JobStatus) (actor : JobActorType)
    → Outcome job to actor (assert job to actor)
unfolding assert can
assert-Outcome job to actor = elim (Option-cases (find_transition job.status to job.type actor)) [
  | inl e ↦ rw (e, assert) (refl, includes-targets job to actor ∙ ap is_some e, ap is_some e)
  | inr (edge, e) ↦
      let (s, t, a, y) =
        matches_parts job.status to job.type actor edge
          (find_transition-matches job.status to job.type actor edge e) in
      let row = find_transition-mem job.status to job.type actor edge e in
      rw (e, assert) (row, s, t, a, y, includes-targets job to actor ∙ ap is_some e, ap is_some e)
]

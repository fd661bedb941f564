-- ===== src/Jobs/Reach/Lanes.antt =====
-- Which statuses a job of each type can have: the mobility subset, the home-service subset, and
-- for the reserved types only the statuses before any work.
use mathlib.Core.Option.{some-injective}
use mathlib.Core.Path.{subst}
use tamam.Jobs.Cases.{every_state, every_state-at}
use tamam.Jobs.Machine.{can}
use tamam.Jobs.Reach.{Reach, here, next, every_edge, can-every_edge}
use tamam.Prelude.{
  implied, Bool-cases, ◌||◌, not, if◌then◌else◌, ◌≡◌, refl, ◌↔◌, Bool, true, false, List, [], ◌∷◌,
  ◌++◌, inr, inl, none, ap, Option, some,
}
use tamam.Prelude.Data.{◌===◌}
use tamam.Prelude.Lists.{includes}
use tamam.Shared.Enums.{
  system, partner, customer, no_partner_available, customer_confirmed, cancelled, work_completed,
  waiting_customer, waiting_for_parts, work_started, partner_arrived, partner_en_route,
  quote_rejected, quote_approved, assigned, quote_submitted, disputed, searching, quote_required,
  completed, requested, in_progress, inspection_started, draft, JobType, ride, delivery,
  home_service, JobStatus, JobActorType, job_status_eq,
}

-- Every type: the request, the search for a partner and the partner's way.
abbrev pub common_lane : List JobStatus
common_lane =
    draft ∷ requested ∷ searching ∷ assigned ∷ partner_en_route ∷ partner_arrived ∷ waiting_customer
    ∷ cancelled ∷ no_partner_available ∷ []

abbrev pub mobility_lane : List JobStatus
mobility_lane = common_lane ++ (in_progress ∷ completed ∷ disputed ∷ [])

abbrev pub home_lane : List JobStatus
home_lane =
    common_lane
    ++ (inspection_started ∷ quote_required ∷ quote_submitted ∷ quote_approved ∷ quote_rejected
        ∷ work_started ∷ waiting_for_parts ∷ work_completed ∷ customer_confirmed ∷ completed
        ∷ disputed ∷ [])

abbrev pub lane : JobType → List JobStatus
lane ride = mobility_lane
lane delivery = mobility_lane
lane home_service = home_lane
lane _ = common_lane

lane-closed : (ty : JobType) → every_edge ty (includes (lane ty)) (includes (lane ty)) ≡ true
unfolding every_edge
lane-closed ride = refl
lane-closed _ = refl

Reach-lane :
    {ty : JobType} {s t : JobStatus}
    → includes (lane ty) s ≡ true
    → Reach ty s t
    → includes (lane ty) t ≡ true
Reach-lane h here = h
Reach-lane h (next r actor ok) = can-every_edge _ _ _ _ _ actor (lane-closed _) (Reach-lane h r) ok

draft-lane : (ty : JobType) → includes (lane ty) JobStatus.draft ≡ true
draft-lane ride = refl
draft-lane _ = refl

-- Requests made in turn; `none` if one of them is refused.
walk : JobType → JobStatus → List (JobActorType × JobStatus) → Option JobStatus
walk ty s [] = some s
walk ty s ((actor, t) ∷ rest) =
    if can (record { type = ty; status = s }) t actor then walk ty t rest else none

walk-Reach :
    {ty : JobType} {s : JobStatus} (t u : JobStatus) (steps : List (JobActorType × JobStatus))
    → Reach ty s t
    → walk ty t steps ≡ some u
    → Reach ty s u
unfolding walk
walk-Reach t u [] r h = subst (Reach _ _) (some-injective _ _ h) r
walk-Reach {ty} t u ((actor, v) ∷ rest) r h =
    elim (Bool-cases (can (record { type = ty; status = t }) v actor)) [
      | inl e ↦ walk-Reach v u rest (next r actor e) (rw (e, walk) at h)
      | inr e ↦ cc (rw (e, walk) at h)
    ]

abbrev to_partner : List (JobActorType × JobStatus)
to_partner =
    (customer, requested)
    ∷ (system, searching)
    ∷ (system, assigned)
    ∷ (partner, partner_en_route)
    ∷ (partner, partner_arrived)
    ∷ []

abbrev to_work : List (JobActorType × JobStatus)
to_work = to_partner ++ ((partner, inspection_started) ∷ (partner, work_started) ∷ [])

abbrev to_quote : List (JobActorType × JobStatus)
to_quote =
    to_partner
    ++ ((partner, inspection_started) ∷ (partner, quote_required) ∷ (partner, quote_submitted) ∷ [])

abbrev to_completed : JobType → List (JobActorType × JobStatus)
to_completed home_service =
    to_work
    ++ ((partner, work_completed) ∷ (customer, customer_confirmed) ∷ (system, completed) ∷ [])
to_completed _ = to_partner ++ ((partner, in_progress) ∷ (partner, completed) ∷ [])

-- A way to each status.
abbrev route : JobType → JobStatus → List (JobActorType × JobStatus)
route ty draft = []
route ty requested = (customer, requested) ∷ []
route ty searching = (customer, requested) ∷ (system, searching) ∷ []
route ty assigned = (customer, requested) ∷ (system, searching) ∷ (system, assigned) ∷ []
route ty partner_en_route =
    (customer, requested)
    ∷ (system, searching)
    ∷ (system, assigned)
    ∷ (partner, partner_en_route)
    ∷ []
route ty partner_arrived = to_partner
route ty waiting_customer = to_partner ++ ((system, waiting_customer) ∷ [])
route ty in_progress = to_partner ++ ((partner, in_progress) ∷ [])
route ty inspection_started = to_partner ++ ((partner, inspection_started) ∷ [])
route ty quote_required =
    to_partner ++ ((partner, inspection_started) ∷ (partner, quote_required) ∷ [])
route ty quote_submitted = to_quote
route ty quote_approved = to_quote ++ ((customer, quote_approved) ∷ [])
route ty quote_rejected = to_quote ++ ((customer, quote_rejected) ∷ [])
route ty work_started = to_work
route ty waiting_for_parts = to_work ++ ((partner, waiting_for_parts) ∷ [])
route ty work_completed = to_work ++ ((partner, work_completed) ∷ [])
route ty customer_confirmed =
    to_work ++ ((partner, work_completed) ∷ (customer, customer_confirmed) ∷ [])
route ty completed = to_completed ty
route ty cancelled = (customer, requested) ∷ (customer, cancelled) ∷ []
route ty no_partner_available =
    (customer, requested) ∷ (system, searching) ∷ (system, no_partner_available) ∷ []
route ty disputed = to_completed ty ++ ((customer, disputed) ∷ [])

abbrev arrives : Option JobStatus → JobStatus → Bool
arrives none s = false
arrives (some t) s = t === s

abbrev arrives_in_lane : JobType → JobStatus → Bool
arrives_in_lane ty s = not (includes (lane ty) s) || arrives (walk ty draft (route ty s)) s

route-arrives : every_state arrives_in_lane ≡ true
unfolding every_state walk can
route-arrives = refl

arrives-eq : (o : Option JobStatus) (s : JobStatus) → arrives o s ≡ true → o ≡ some s
arrives-eq none s h = cc
arrives-eq (some t) s h = ap some ((job_status_eq.beq_iff t s).0 h)

-- From DRAFT a job reaches exactly the statuses of its type's lane: a ride or delivery never
-- enters the inspection, quote and work statuses, a home service never enters IN_PROGRESS, and a
-- job of a reserved type never starts, completes or is disputed; and each status of the lane is
-- reached.
pub Reach-iff_lane :
    (ty : JobType) (s : JobStatus) → Reach ty draft s ↔ (includes (lane ty) s ≡ true)
Reach-iff_lane ty s = (
  Reach-lane (draft-lane ty),
  λ h.
      let arrived : arrives (walk ty draft (route ty s)) s ≡ true =
        implied _ _ (every_state-at arrives_in_lane ty s route-arrives) h in
      walk-Reach draft s (route ty s) here (arrives-eq _ s arrived),
)

-- ===== src/Support.antt =====
-- apps/api/src/modules/support/domain/ticket-state.ts: the states of a support ticket, and where a
-- report goes. The number of a ticket is not modelled.
use Prim.Native.String.{String}
use tamam.Prelude.{◌≡◌, refl, Bool, not, ◌||◌, Option, none, some, List, [], ◌∷◌, if◌then◌else◌}
use tamam.Prelude.Data.{◌===◌}
use tamam.Prelude.Lists.{includes}
use tamam.Shared.Enums.{
  TicketStatus, TicketCategory, TicketPriority, ticket_status_eq, ticket_category_eq,
}
use tamam.Shared.Errors.{Result, ok, conflict_error, invalid_state_transition, throw_if}
use tamam.Shared.Text.{string_eq}

-- `TICKET_TRANSITIONS`
unfoldable ticket_transitions : TicketStatus → List TicketStatus
ticket_transitions TicketStatus.opened =
    TicketStatus.in_progress ∷ TicketStatus.waiting_user ∷ TicketStatus.resolved
    ∷ TicketStatus.closed ∷ []
ticket_transitions TicketStatus.in_progress =
    TicketStatus.waiting_user ∷ TicketStatus.resolved ∷ TicketStatus.closed ∷ []
ticket_transitions TicketStatus.waiting_user =
    TicketStatus.in_progress ∷ TicketStatus.resolved ∷ TicketStatus.closed ∷ []
ticket_transitions TicketStatus.resolved = TicketStatus.in_progress ∷ TicketStatus.closed ∷ []
ticket_transitions TicketStatus.closed = []

-- `ACTIVE_TICKET_STATUSES`
abbrev active_ticket_statuses : List TicketStatus
active_ticket_statuses =
    TicketStatus.opened ∷ TicketStatus.in_progress ∷ TicketStatus.waiting_user ∷ []

-- `canTransitionTicket`
unfoldable can_transition_ticket : TicketStatus → TicketStatus → Bool
unfolding ticket_transitions
can_transition_ticket from to = from === to || includes (ticket_transitions from) to

-- `assertTicketTransition`
unfoldable assert_ticket_transition : TicketStatus → TicketStatus → Result (Unit {0})
unfolding can_transition_ticket
assert_ticket_transition from to =
    throw_if (not (can_transition_ticket from to)) (conflict_error invalid_state_transition)

-- `priorityFor`
abbrev priority_for : TicketCategory → Option TicketPriority → TicketPriority
priority_for category (some requested) = requested
priority_for category none =
    if category === TicketCategory.safety then TicketPriority.high else TicketPriority.normal

-- `SAFETY_REPORT_REASONS`
abbrev safety_report_reasons : List String
safety_report_reasons = "UNSAFE_DRIVING" ∷ "HARASSMENT" ∷ []

record ReportRouting : Type 0 where
  category : TicketCategory
  priority : TicketPriority

-- `routeReport`
unfoldable route_report : String → Bool → ReportRouting
route_report reason reported_is_partner =
    if includes safety_report_reasons reason
    then record { category = TicketCategory.safety; priority = TicketPriority.critical }
    else record {
      category =
          if reported_is_partner
          then TicketCategory.partner_behaviour
          else TicketCategory.customer_behaviour;
      priority = TicketPriority.high;
    }

-- A closed ticket never moves.
closed-stays :
    (to : TicketStatus)
    → assert_ticket_transition TicketStatus.closed to ≡ ok tt
    → to ≡ TicketStatus.closed
unfolding assert_ticket_transition can_transition_ticket ticket_transitions
closed-stays TicketStatus.closed h = refl
closed-stays _ h = cc

-- Every ticket can be closed.
open-closes : (from : TicketStatus) → assert_ticket_transition from TicketStatus.closed ≡ ok tt
unfolding assert_ticket_transition can_transition_ticket ticket_transitions
open-closes TicketStatus.closed = refl
open-closes _ = refl

-- ===== src/Quotes/Tests.antt =====
-- The theorems on the quotes at concrete jobs.
use Prim.Native.String.{String}
use tamam.Jobs.Policy.{
  RequestUser, can_view, get_for_user, is_customer, is_staff, is_assigned_partner,
}
use tamam.Jobs.Service.{JobRow, transition_in_tx, updated_row, state_of}
use tamam.Jobs.Machine.{assert, can}
use tamam.Jobs.Transitions.{find_transition, job_transitions}
use tamam.Money.{Decimal, one}
use tamam.Prelude.Int.{pos, ◌+ℤ◌, ◌-ℤ◌}
use tamam.Pricing.Final.{FareTerms}
use tamam.Prelude.{
  Option, ℕ, ◌*◌, ◌≡◌, refl, true, false, not, ◌||◌, none, some, List, [], ◌∷◌, arith,
}
use tamam.Prelude.Lists.{includes}
use tamam.Quotes.Amounts.{QuoteItem, QuoteItemKind, amounts_of}
use tamam.Quotes.Totals.{Bills, amounts_of-Bills}
use tamam.Quotes.Decide.{
  decide, DecideQuoteInput, on_response_timeout, close_inspection_only, quotes_after_decide,
  resume_work,
}
use tamam.Quotes.Decided.{IsDecided, decide-IsDecided}
use tamam.Quotes.Store.{Store, Quote, set_status}
use tamam.Quotes.Submit.{submit, SubmitQuoteInput, quotes_after_submit}
use tamam.Quotes.Submitted.{submit-from, submit_statuses}
use tamam.Quotes.Timeout.{on_response_timeout-stays, leaves_to}
use tamam.Quotes.Flow.{start, submitted, timed_out, IsPending, Runs-IsPending}
use tamam.Shared.Enums.{
  JobType, JobStatus, JobActorType, job_status_eq, QuoteStatus, QuoteKind, UserRole, JobUrgency,
}
use tamam.Shared.Errors.{is_ok, Result, ok, err, invalid_transition}

abbrev inspected : JobRow
inspected = record {
  type = JobType.home_service;
  customer_id = "customer";
  status = JobStatus.quote_required;
  version = 7;
  partner_id = some "technician";
  vehicle_id = none;
  dispatch_started_at = some 1;
  assigned_at = some 2;
  partner_arrived_at = some 3;
  started_at = some 4;
  completed_at = none;
  cancelled_at = none;
  final_total_minor = none;
  breakdown = none;
  events = [];
}

abbrev no_quotes : Store
no_quotes = record { job = inspected; estimated_total_minor = pos 0; quotes = [] }

abbrev technician : RequestUser
technician = record {
  id = "technician";
  roles = UserRole.partner ∷ [];
  permissions = [];
  partner_id = some "technician";
  customer_id = none;
  is_super_admin = false;
}

abbrev customer : RequestUser
customer = record {
  id = "customer";
  roles = UserRole.customer ∷ [];
  permissions = [];
  partner_id = none;
  customer_id = some "customer";
  is_super_admin = false;
}

abbrev two_items : List QuoteItem
two_items =
    record { kind = QuoteItemKind.labor; quantity = 2 * one; unit_price_minor = 500 }
    ∷ record { kind = QuoteItemKind.parts; quantity = one; unit_price_minor = 250 }
    ∷ []

abbrev first_quote : SubmitQuoteInput
first_quote = record {
  items = two_items;
  discount_minor = pos 50;
  kind = QuoteKind.initial;
  version = 7;
}

amounts_of-Bills_example :
    Bills two_items (pos 50) (10 * one) (amounts_of two_items (pos 50) (10 * one))
amounts_of-Bills_example = amounts_of-Bills two_items (pos 50) (10 * one)

-- The store that a call returned, or another.
abbrev returned : Result Store → Store → Store
returned (ok store) other = store
returned (err e) other = other

abbrev quoted : Store
unfolding submit
quoted = returned (submit 10 "quote" 0 no_quotes technician first_quote) no_quotes

quoted_once : submit 10 "quote" 0 no_quotes technician first_quote ≡ ok quoted
unfolding submit quoted can_view get_for_user is_customer is_assigned_partner transition_in_tx
    updated_row assert find_transition job_transitions amounts_of quotes_after_submit ◌+ℤ◌ ◌-ℤ◌
quoted_once = refl

submit-from_example : includes submit_statuses JobStatus.quote_required ≡ true
submit-from_example = submit-from 10 "quote" 0 no_quotes technician first_quote quoted quoted_once

abbrev approval : DecideQuoteInput
approval = record { approve = true; version = 8 }

abbrev approved : Store
unfolding decide quoted
approved = returned (decide 11 quoted customer approval) quoted

approved_once : decide 11 quoted customer approval ≡ ok approved
unfolding decide approved quoted submit can_view get_for_user is_customer is_staff
    is_assigned_partner transition_in_tx updated_row assert find_transition job_transitions
    amounts_of quotes_after_submit quotes_after_decide resume_work ◌+ℤ◌ ◌-ℤ◌
approved_once = refl

decide-IsDecided_example : IsDecided quoted customer approval approved
decide-IsDecided_example = decide-IsDecided 11 quoted customer approval approved approved_once

abbrev rejection : DecideQuoteInput
rejection = record { approve = false; version = 8 }

abbrev rejected : Store
unfolding decide quoted
rejected = returned (decide 11 quoted customer rejection) quoted

abbrev no_surcharge : JobUrgency → Option Decimal
no_surcharge _ = none

-- An inspection of 3.00 with a tax of 10 %.
abbrev inspection : FareTerms
inspection = record {
  pricing_snapshot = some (record {
    rule = record {
      as_ride = none;
      as_delivery = none;
      as_home_service = some (record {
        inspection_fee = 300;
        inspection_fee_waived_on_approval = true;
        urgency_surcharge_percent = no_surcharge;
        booking_fee = 0;
        tax_percent = 10 * one;
      });
    };
    surge_multiplier = one;
    tax_percent = none;
    size = none;
    weight_kg = none;
  });
  promo_discount_minor = pos 0;
  urgency = JobUrgency.standard;
  distance_meters = none;
  duration_seconds = none;
  category = none;
}

abbrev closed : Store
unfolding close_inspection_only rejected
closed = returned (close_inspection_only 12 inspection rejected customer 9) rejected

no_quotes-IsPending : IsPending no_quotes
no_quotes-IsPending = omega arith

Runs-IsPending_example : IsPending (on_response_timeout 99 quoted "quote").0
Runs-IsPending_example =
    Runs-IsPending no_quotes (on_response_timeout 99 quoted "quote").0 no_quotes-IsPending
      (timed_out (submitted start 10 "quote" 0 technician first_quote quoted_once) 99 "quote")

abbrev waiting_quote : Quote
waiting_quote = record {
  id = "quote";
  kind = QuoteKind.initial;
  revision = 1;
  status = QuoteStatus.submitted;
  supersedes_quote_id = none;
  amounts = record {
    labor_cost_minor = pos 1000;
    parts_cost_minor = pos 250;
    additional_fees_minor = pos 0;
    discount_minor = pos 50;
    tax_minor = pos 0;
    total_minor = pos 1200;
  };
}

abbrev waiting_job : JobRow
waiting_job = record {
  type = JobType.home_service;
  customer_id = "customer";
  status = JobStatus.quote_submitted;
  version = 8;
  partner_id = some "technician";
  vehicle_id = none;
  dispatch_started_at = some 1;
  assigned_at = some 2;
  partner_arrived_at = some 3;
  started_at = some 4;
  completed_at = none;
  cancelled_at = none;
  final_total_minor = none;
  breakdown = none;
  events = [];
}

abbrev waiting : Store
waiting = record { job = waiting_job; estimated_total_minor = pos 0; quotes = waiting_quote ∷ [] }

on_response_timeout-stays_example :
    ((on_response_timeout 99 waiting "quote").1 ≡ err invalid_transition)
    × ((on_response_timeout 99 waiting "quote").0.job ≡ waiting.job)
    × ((on_response_timeout 99 waiting "quote").0.quotes
        ≡ set_status waiting_quote.id QuoteStatus.rejected waiting.quotes)
    × ((to : JobStatus) (actor : JobActorType)
        → not (can (state_of (on_response_timeout 99 waiting "quote").0.job) to actor)
            || leaves_to to
          ≡ true)
    × ((user : RequestUser) (input : DecideQuoteInput)
        → is_ok (decide 100 (on_response_timeout 99 waiting "quote").0 user input) ≡ false)
    × ((user : RequestUser) (new : String) (tax : Decimal) (input : SubmitQuoteInput)
        → is_ok (submit 100 new tax (on_response_timeout 99 waiting "quote").0 user input) ≡ false)
    × ((user : RequestUser) (terms : FareTerms) (version : ℕ)
        → is_ok (
            close_inspection_only 100 terms (on_response_timeout 99 waiting "quote").0 user version)
          ≡ false)
on_response_timeout-stays_example =
    on_response_timeout-stays 99 100 waiting "quote" waiting_quote refl refl refl refl

-- ===== src/Lib.antt =====
-- A model of TAMAM's business rules, the domain code of its API (apps/api) and of the
-- shared packages, with the theorems that it does what it is meant to.
--
-- The program is an on-demand platform: customers request jobs (rides, deliveries, home services),
-- partners do them, and chalets are booked by the hour. Its services keep their state in a
-- database; what may happen to a job, what it costs and how the money is booked is decided by the
-- functions modelled here, as functions from values to values.
--
-- The parts, and the code each models:
-- - Prelude: names of the library, Boolean tests, the integers of `bigint`, list searches.
-- - Shared.Enums, Shared.Errors, Shared.Text: packages/shared-types/src/enums.ts, the codes of
--   packages/shared-types/src/api.ts, and apps/api/src/common/errors/app.exception.ts. A call that
--   may throw gives a `Result`; an exception is its code and HTTP status.
-- - Jobs.Transitions: JOB_TRANSITIONS, findTransition, allowedTargets and the status lists of
--   packages/shared-types/src/job-state-machine.ts. Jobs.Machine: the class JobStateMachine of
--   apps/api/src/modules/jobs/domain/job-state-machine.ts. Jobs.Cases and Jobs.Reach: every status
--   of every job type, and the statuses that changes accepted by the machine lead to.
-- - Jobs.Service: transitionInTx of apps/api/src/modules/jobs/jobs.service.ts on the row of one job,
--   with its events; its child modules hold the proofs on one call, on calls in a row, on two
--   writers and on the partner of a job. Jobs.Policy: JobPolicy of
--   apps/api/src/modules/jobs/domain/job-policy.ts and getForUser of the service.
-- - Quotes: apps/api/src/modules/quotes/quotes.service.ts on one job with its quotes. Amounts, Store,
--   Submit and Decide hold the operations; Totals, Rows, Submitted, Decided, Closed, Timeout, Pending,
--   Counts and Flow the proofs.
-- - Otp: request and verify of apps/api/src/modules/auth/otp.service.ts on the codes of a phone number.
-- - Money: percentOf, multiply, roundDiv, max0 and clampMin of apps/api/src/common/utils/money.ts.
-- - Pricing: computeRideFare, computeDeliveryFare, computeHomeServiceFare, applyPromoAndTax and
--   finish of apps/api/src/modules/pricing/domain/fare-calculator.ts. The lines of a fare and the
--   amount reached are one record, which `charge_if` and `reprice_if` change as the code does.
--   Pricing.Final: finalizeFare and parseRule of apps/api/src/modules/pricing/pricing.service.ts, over
--   the snapshot and the category that they read.
-- - Promotions: evaluatePromo of apps/api/src/modules/promotions/domain/promo.rules.ts; the checks
--   that reject, in their order, and then the discount.
-- - Ledger, Ledger.Settlement: apps/api/src/modules/ledger/domain/ledger.rules.ts, assertBalanced,
--   settlementEntries and refundEntries; a settlement is balanced by the check it ends with.
-- - Ledger.Posting: post of apps/api/src/modules/ledger/ledger.service.ts on the tables of wallets,
--   accounts and transactions, with tamam_ledger_balance of
--   apps/api/prisma/sql/001_postgis_triggers_and_integrity.sql.
-- - Chalet.Calendar, Chalet.Calendar.Suggest:
--   apps/api/src/modules/chalet/domain/availability.ts, from mergeIntervals to bookableWindows.
-- - Chalet.Bookings: CHALET_TRANSITIONS, refundPercentFor and overstayCharge of
--   apps/api/src/modules/chalet/domain/booking-state.ts.
-- - Disputes, Support: apps/api/src/modules/disputes/domain/dispute-decision.ts and
--   apps/api/src/modules/support/domain/ticket-state.ts.
-- - Chalet.SmartPricing: quoteSlot of apps/api/src/modules/chalet/domain/smart-pricing.ts. Rules,
--   Demand and SlotQuote hold its steps, in their order; Winner, Moves, Explained, Bounds and Quoted
--   the proofs.
-- - Chalet.Service: apps/api/src/modules/chalet/chalet-booking.service.ts on the tables of bookings
--   and events. Table holds the writes as the trigger and the constraint of
--   apps/api/prisma/sql/002_chalet.sql take them and the reads of
--   apps/api/src/modules/chalet/chalet-availability.service.ts, Create the calls hold and
--   createExternal with depositFor of apps/api/src/modules/chalet/chalet-pricing.service.ts, Stay
--   confirm and cancel, Visit the other calls; Apart, Kept, Slots, Writes, Calls and Runs the proofs.
-- - Risk: apps/api/src/modules/risk/domain/risk.rules.ts.
-- - Chalet.Gaps: offersForGaps, offersForLastMinute, gapDiscountPercent and
--   offeredRate of apps/api/src/modules/chalet/domain/gap-filler.ts.
--
-- How the parts meet: the service of a job and its quotes change the row of a job through
-- transitionInTx, which asks the state machine, and asks finalizeFare for the fare that a job ends
-- with; a fare is computed from a pricing rule with the money helpers, the booking service of a
-- chalet asks the calendar whether a slot is free and the table of booking states whether a change
-- is allowed, a promo is evaluated and applied to a fare, and its total, commission and promo become
-- the input of a settlement, whose entries the ledger checks and posts.
--
-- State. A transaction of the database is one step from the rows that it reads to the rows that it
-- leaves; one that throws leaves them as they were. A call that writes outside a transaction returns
-- the rows that it leaves together with what it returns or throws. What other services answer, a
-- hash, a random code and the clock are arguments.
--
-- Numbers. A `bigint` is an integer without bound. Instants are milliseconds since the epoch, as
-- natural numbers; a percentage, multiplier or measure that is not negative is a count of
-- millionths, so six decimals of a double, and its rounding is written out. Rounding errors of
-- doubles are not modelled.
--
-- Fuel. The loop of suggestStartTimes moves its candidate by a millisecond at least each round, and
-- ends after closing time, so it gets two rounds more than the closing time has milliseconds; it
-- never runs out. Every other loop is a recursion on the list that it reads.
--
-- Not modelled: labels, messages and details of exceptions; the span of a calendar day and the
-- local time of an instant, which a time zone library computes; races inside a transaction, which
-- the database resolves; queues, messages and notifications; the other services, the controllers,
-- the database and the sockets around this code; the admin console and the mobile applications.
pub mod Prelude
pub mod Shared
pub mod Jobs
pub mod Money
pub mod Pricing
pub mod Promotions
pub mod Ledger
pub mod Chalet
pub mod Quotes
pub mod Otp
pub mod Disputes
pub mod Support
pub mod Risk

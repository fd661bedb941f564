-- ===== src/Quotes.antt =====
-- The quotes of a job: apps/api/src/modules/quotes/quotes.service.ts.
mod Tests
pub mod Amounts
pub mod Rows
pub mod Store
pub mod Submit
pub mod Decide
pub mod Timeout
pub mod Pending
pub mod Totals
pub mod Submitted
pub mod Decided
pub mod Closed
pub mod Counts
pub mod Flow

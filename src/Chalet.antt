-- ===== src/Chalet.antt =====
-- The chalet vertical: the calendar of bookable time and the life of a booking.
mod Tests
pub mod Calendar
pub mod Bookings
pub mod Overstay
pub mod Gaps
pub mod SmartPricing
pub mod Service

-- ===== src/Jobs.antt =====
-- The universal job engine: the transition table, and the state machine over it.
mod Tests
pub mod Transitions
pub mod Cases
pub mod Machine
pub mod Reach
pub mod Policy
pub mod Service

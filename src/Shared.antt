-- ===== src/Shared.antt =====
-- The vocabulary of packages/shared-types and the exception type of the API.
pub mod Enums
pub mod Errors
pub mod Text

-- ===== src/Meta.antt =====
-- Field metadata and what is checked and filled in by it: src/stdiolink/protocol/meta_validator.cpp,
-- with the types of meta_types.h.
pub mod Types
pub mod Validator
pub mod Defaults
pub mod Verdicts
pub mod Values
pub mod OfType
pub mod Meeting
pub mod Conforms
pub mod Filled
pub mod Filling
pub mod Lookup
mod Tests

-- ===== src/Loader.antt =====
-- src/qualityci/loader.py: what `validate_case` requires of a case.
pub mod Checks
pub mod Event
pub mod Documents
pub mod Validate
pub mod Mutation

-- ===== src/Rules.antt =====
-- src/qualityci/rules.py: the seven deterministic rules.
pub mod Evidence
pub mod Index
pub mod Scope
pub mod ProcessCoverage
pub mod RevisionDates
pub mod HighRiskApproval
pub mod References
pub mod ValidationEvidence
pub mod SpecConsistency
pub mod SpecialControl

-- ===== src/Workflow.antt =====
-- src/qualityci/workflow.py: the approval gate of a resolution and its replay.
pub mod Approvals
pub mod Operations
pub mod Attest
pub mod Replay

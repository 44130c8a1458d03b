-- ===== src/Examples.antt =====
-- A small complete case, the contexts sealed over it, and the theorems applied to them.
pub mod Data
pub mod Payload
mod Rules
mod Workflow
mod Evaluation
mod Store
pub mod Database
mod Replay
mod Approval
mod Loader
mod Columns

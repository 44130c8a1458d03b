-- ===== src/Store.antt =====
-- src/qualityci/store.py: the audit log, the rows that it is about, and the calls that save them.
pub mod Audit
pub mod Rows
pub mod Tables
pub mod Save

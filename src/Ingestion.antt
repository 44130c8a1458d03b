-- ===== src/Ingestion.antt =====
-- src/qualityci/ingestion.py: the labels of spreadsheet columns.
pub mod Columns

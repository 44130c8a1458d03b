-- ===== src/Model.antt =====
-- src/qualityci/models.py: verdicts, evidence, findings and the impact plan. The titles, summaries,
-- remediation texts and excerpts for the reader are not modelled.
use qualityci.Case.{Link}
use qualityci.Prelude.{String, Bool, true, false, List, nat_eq, string_eq, pair_eq}

pub data CheckStatus : Type 0 where
  pass contradicted unverifiable : CheckStatus

-- `a == b`
unfoldable pub status_beq : CheckStatus → CheckStatus → Bool
status_beq pass pass = true
status_beq contradicted contradicted = true
status_beq unverifiable unverifiable = true
status_beq _ _ = false

pub record EvidenceRef : Type 0 where
  pub document_id : String
  pub revision : String
  pub locator : String
  pub source_hash : String

pub record Finding : Type 0 where
  pub rule_id : String
  pub status : CheckStatus
  pub severity : String
  pub evidence : List EvidenceRef

pub record ImpactPlan : Type 0 where
  pub event_id : String
  pub affected_process_steps : List String
  pub affected_characteristics : List String
  pub affected_links : List Link
  pub required_document_types : List String
  pub selected_rule_ids : List String

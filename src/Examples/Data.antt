-- ===== src/Examples/Data.antt =====
-- One step, one characteristic, the five documents, and the contexts of a run that passes.
use qualityci.Text.{TextOps}
use qualityci.Case.Numbers.{Number}
use qualityci.Case.{
  ValidationPlan, Case, Document, Fields, Item, Link, Characteristic, Specification, Risk, Identity,
  References, native, Requirement, ValidationPlan, Approval, Event,
}
use qualityci.Rules.References.{ReferenceContext, InspectionEvidence}
use qualityci.Rules.ValidationEvidence.{Report, ValidationContext}
use qualityci.Engine.{Hashes}
use qualityci.Prelude.{
  ℕ, String, true, false, Option, none, some, List, [], ◌∷◌, nat_eq, string_eq, pair_eq,
}

-- Texts that are normal already.
abbrev pub plain_text : TextOps
plain_text = record { nfkc = λ s. s; strip = λ s. s; split = λ s. s ∷ []; casefold = λ s. s }

abbrev pub sha : String
sha = "0123456789abcdef0123456789abcdef0123456789abcdef0123456789abcdef"

abbrev pub fixed_hashes : Hashes
fixed_hashes = record { canonical_hash = λ case. sha; run_hash = λ identity. "0123456789abcdef" }

abbrev pub whole : ℕ → Number
whole n = record { negative = false; mantissa = n; exponent = 0 }

abbrev pub row : Item
row = record { process_step_id = some "OP-10"; characteristic_id = "CH-1"; locator = some "row 2" }

abbrev pub limits : Specification
limits = record {
  target = some (whole 10);
  minimum = some (whole 9);
  maximum = some (whole 11);
  unit = some "mm";
}

abbrev pub control_row : Characteristic
control_row = record {
  item = row;
  control_id = some "C-1";
  specification = some limits;
  control_method = some "gauge";
  frequency = some "hourly";
  reaction_plan = some "stop";
}

abbrev pub risk_row : Risk
risk_row = record { item = row; failure_mode_id = "FM-1"; special_characteristic = true }

abbrev fields : List Characteristic → List Risk → Option References → Fields
fields rows risks references = record {
  process_steps = some ("OP-10" ∷ []);
  characteristics = rows;
  risks = risks;
  references = references;
}

abbrev pub document : String → Fields → Document
document kind contents = record {
  document_id = kind;
  document_type = kind;
  revision = "B";
  status = "APPROVED";
  owner = "quality";
  revision_date = some 20;
  source_hash = sha;
  reference_contract_version = none;
  revision_artifact = none;
  approved_waiver = none;
  fields = contents;
}

abbrev pub identity : String → Identity
identity kind = record {
  document_type = kind;
  document_id = kind;
  revision = "B";
  source_hash = sha;
}

abbrev pub identities : List (String × Identity)
identities = ("SOP", identity "SOP") ∷ ("CONTROL_PLAN", identity "CONTROL_PLAN") ∷ []

abbrev pub process_flow : Document
process_flow = document "PROCESS_FLOW" (fields [] [] none)

abbrev pub pfmea : Document
pfmea = document "PFMEA" (fields [] (risk_row ∷ []) none)

abbrev pub control_plan : Document
control_plan = document "CONTROL_PLAN" (fields (control_row ∷ []) [] none)

abbrev pub sop : Document
sop = document "SOP" (fields (control_row ∷ []) [] none)

abbrev pub inspection : Document
inspection =
    let base =
      document "INSPECTION_RECORD" (fields (control_row ∷ []) [] (some (native identities))) in
    record base { reference_contract_version = some "qualityci-controlled-reference-0.1" }

abbrev pub link : Link
link = record { process_step_id = "OP-10"; characteristic_id = "CH-1" }

abbrev pub requirement : Requirement
requirement = record {
  evidence_id = "EV-1";
  evidence_type = "MSA";
  claim = "capable";
  issuer_id = "lab";
  issuer_role = "QUALITY_LAB";
  valid_from = 100;
  valid_until = 200;
}

abbrev pub validation_plan : ValidationPlan
validation_plan = record {
  contract_version = "qualityci-validation-plan-0.1";
  required_evidence = requirement ∷ [];
}

abbrev pub approval : String → Approval
approval role = record { role = role; decision = "APPROVED"; event_revision = "2" }

abbrev pub event : Event
event = record {
  event_id = "ECN-1";
  event_type = "ENGINEERING_CHANGE";
  revision = "2";
  risk_level = some "HIGH";
  affected_process_steps = "OP-10" ∷ [];
  affected_characteristics = "CH-1" ∷ [];
  affected_links = some (link ∷ []);
  approved_at = some 15;
  validation_plan = some validation_plan;
  validation_evidence = none;
  approvals = some (approval "QUALITY_MANAGER" ∷ approval "PROCESS_OWNER" ∷ []);
}

abbrev pub sample : Case
sample = record {
  schema_version = "qualityci-case-0.4";
  case_id = "CASE-1";
  synthetic_for_competition = true;
  relationship_migration = none;
  reference_migration = none;
  validation_migration = none;
  event = event;
  documents = process_flow ∷ pfmea ∷ control_plan ∷ sop ∷ inspection ∷ [];
}

abbrev inspection_evidence : InspectionEvidence
inspection_evidence = record {
  document_id_locator = some "B2";
  revision_locator = some "B3";
  revision = some "B";
  source_hash = some sha;
}

abbrev pub references : ReferenceContext
references = record {
  sealed = true;
  references = identities;
  evidence = ("SOP", inspection_evidence) ∷ ("CONTROL_PLAN", inspection_evidence) ∷ [];
  inspection_document_id = "INSPECTION_RECORD";
  reference_set_hash = sha;
  contract_version = "qualityci-controlled-reference-0.1";
}

abbrev pub report : Report
report = record {
  source_id = "REPORT-1";
  source_hash = sha;
  locator = "$.result";
  evidence_id = "EV-1";
  result = "PASS";
  event_id = "ECN-1";
  event_revision = "2";
  scope_digest = "scope";
  case_subject_hash = "subject";
  evidence_type = "MSA";
  claim = "capable";
  issuer_id = "lab";
  issuer_role = "QUALITY_LAB";
  ruleset_version = "qci-rules-0.6.0";
  case_schema_version = "qualityci-case-0.4";
  performed_at = 120;
  issued_at = 130;
}

abbrev pub validation : ValidationContext
validation = record {
  sealed = true;
  phase = "SOURCE";
  reports = report ∷ [];
  scope_digest = "scope";
  case_subject_hash = "subject";
  evidence_set_hash = sha;
  contract_version = "qualityci-validation-evidence-0.1";
}

-- ===== src/Run/Same.antt =====
-- src/qualityci/models.py: `RunResult.to_dict`, for the comparison of two runs by their dicts. The texts for
-- a reader, which the runs of the model do not have, are not compared.
use qualityci.Case.{Link}
use qualityci.Model.{
  CheckStatus, pass, contradicted, unverifiable, status_beq, EvidenceRef, Finding, ImpactPlan,
}
use qualityci.Run.{SourceAssurance, RunIdentity, RunResult}
use qualityci.Prelude.Equality.{option_eq, list_eq, fields_eq}
use qualityci.Prelude.{
  same_iff, String, ◌≡◌, refl, Bool, true, Option, List, Eq, ◌==◌, nat_eq, string_eq, pair_eq,
}

status_beq_sound : (s t : CheckStatus) → status_beq s t ≡ true → s ≡ t
unfolding status_beq
status_beq_sound pass pass h = refl
status_beq_sound pass contradicted h = cc
status_beq_sound pass unverifiable h = cc
status_beq_sound contradicted pass h = cc
status_beq_sound contradicted contradicted h = refl
status_beq_sound contradicted unverifiable h = cc
status_beq_sound unverifiable pass h = cc
status_beq_sound unverifiable contradicted h = cc
status_beq_sound unverifiable unverifiable h = refl

status_beq_refl : (s : CheckStatus) → status_beq s s ≡ true
unfolding status_beq
status_beq_refl pass = refl
status_beq_refl contradicted = refl
status_beq_refl unverifiable = refl

instance abbrev status_eq : Eq CheckStatus
status_eq = record { beq = status_beq; beq_sound = status_beq_sound; beq_refl = status_beq_refl }

-- The items of the dict of each record, in the order of its fields.
abbrev LinkItems : Type 0
LinkItems = String × String

abbrev link_items : Link → LinkItems
link_items r = (r.process_step_id, r.characteristic_id)

abbrev link_of : LinkItems → Link
link_of x = record { process_step_id = x.0; characteristic_id = x.1 }

instance abbrev link_eq : Eq Link
link_eq = fields_eq {B = LinkItems} pair_eq link_items link_of (λ r. refl)

abbrev EvidenceRefItems : Type 0
EvidenceRefItems = String × (String × (String × String))

abbrev evidence_items : EvidenceRef → EvidenceRefItems
evidence_items r = (r.document_id, (r.revision, (r.locator, r.source_hash)))

abbrev evidence_of : EvidenceRefItems → EvidenceRef
evidence_of x = record {
  document_id = x.0;
  revision = x.1.0;
  locator = x.1.1.0;
  source_hash = x.1.1.1;
}

instance abbrev evidence_eq : Eq EvidenceRef
evidence_eq = fields_eq {B = EvidenceRefItems} pair_eq evidence_items evidence_of (λ r. refl)

abbrev FindingItems : Type 0
FindingItems = String × (CheckStatus × (String × (List EvidenceRef)))

abbrev finding_items : Finding → FindingItems
finding_items r = (r.rule_id, (r.status, (r.severity, r.evidence)))

abbrev finding_of : FindingItems → Finding
finding_of x = record { rule_id = x.0; status = x.1.0; severity = x.1.1.0; evidence = x.1.1.1 }

instance abbrev finding_eq : Eq Finding
finding_eq = fields_eq {B = FindingItems} pair_eq finding_items finding_of (λ r. refl)

abbrev ImpactPlanItems : Type 0
ImpactPlanItems =
    String × ((List String) × ((List String) × ((List Link) × ((List String) × (List String)))))

abbrev plan_items : ImpactPlan → ImpactPlanItems
plan_items r = (
  r.event_id,
  (
    r.affected_process_steps,
    (
      r.affected_characteristics,
      (r.affected_links, (r.required_document_types, r.selected_rule_ids)),
    ),
  ),
)

abbrev plan_of : ImpactPlanItems → ImpactPlan
plan_of x = record {
  event_id = x.0;
  affected_process_steps = x.1.0;
  affected_characteristics = x.1.1.0;
  affected_links = x.1.1.1.0;
  required_document_types = x.1.1.1.1.0;
  selected_rule_ids = x.1.1.1.1.1;
}

instance abbrev plan_eq : Eq ImpactPlan
plan_eq = fields_eq {B = ImpactPlanItems} pair_eq plan_items plan_of (λ r. refl)

abbrev SourceAssuranceItems : Type 0
SourceAssuranceItems =
    String
    × ((Option String)
        × ((Option String)
            × ((Option String) × ((Option String) × ((Option String) × (Option String))))))

abbrev source_items : SourceAssurance → SourceAssuranceItems
source_items r = (
  r.state,
  (
    r.pack_contract_version,
    (
      r.set_contract_version,
      (r.set_hash, (r.binding_hash, (r.lineage_contract_version, r.lineage_hash))),
    ),
  ),
)

abbrev source_of : SourceAssuranceItems → SourceAssurance
source_of x = record {
  state = x.0;
  pack_contract_version = x.1.0;
  set_contract_version = x.1.1.0;
  set_hash = x.1.1.1.0;
  binding_hash = x.1.1.1.1.0;
  lineage_contract_version = x.1.1.1.1.1.0;
  lineage_hash = x.1.1.1.1.1.1;
}

instance abbrev source_eq : Eq SourceAssurance
source_eq = fields_eq {B = SourceAssuranceItems} pair_eq source_items source_of (λ r. refl)

abbrev RunIdentityItems : Type 0
RunIdentityItems =
    String
    × (String
        × (String
            × (String
                × (SourceAssurance
                    × (String
                        × ((Option String)
                            × ((Option String)
                                × (String × ((Option String) × (Option String))))))))))

abbrev run_identity_items : RunIdentity → RunIdentityItems
run_identity_items r = (
  r.run_result_contract_version,
  (
    r.run_identity_version,
    (
      r.case_hash,
      (
        r.ruleset_version,
        (
          r.source,
          (
            r.reference_assurance_state,
            (
              r.reference_set_hash,
              (
                r.reference_contract_version,
                (
                  r.validation_assurance_state,
                  (r.validation_evidence_set_hash, r.validation_evidence_contract_version),
                ),
              ),
            ),
          ),
        ),
      ),
    ),
  ),
)

abbrev run_identity_of : RunIdentityItems → RunIdentity
run_identity_of x = record {
  run_result_contract_version = x.0;
  run_identity_version = x.1.0;
  case_hash = x.1.1.0;
  ruleset_version = x.1.1.1.0;
  source = x.1.1.1.1.0;
  reference_assurance_state = x.1.1.1.1.1.0;
  reference_set_hash = x.1.1.1.1.1.1.0;
  reference_contract_version = x.1.1.1.1.1.1.1.0;
  validation_assurance_state = x.1.1.1.1.1.1.1.1.0;
  validation_evidence_set_hash = x.1.1.1.1.1.1.1.1.1.0;
  validation_evidence_contract_version = x.1.1.1.1.1.1.1.1.1.1;
}

instance abbrev run_identity_eq : Eq RunIdentity
run_identity_eq =
    fields_eq {B = RunIdentityItems} pair_eq run_identity_items run_identity_of (λ r. refl)

abbrev pub RunResultItems : Type 0
RunResultItems = String × (String × (RunIdentity × (CheckStatus × (ImpactPlan × (List Finding)))))

-- `to_dict`
abbrev pub to_dict : RunResult → RunResultItems
to_dict r = (r.run_id, (r.case_id, (r.identity, (r.overall_status, (r.impact_plan, r.findings)))))

abbrev run_of : RunResultItems → RunResult
run_of x = record {
  run_id = x.0;
  case_id = x.1.0;
  identity = x.1.1.0;
  overall_status = x.1.1.1.0;
  impact_plan = x.1.1.1.1.0;
  findings = x.1.1.1.1.1;
}

instance abbrev run_eq : Eq RunResult
run_eq = fields_eq {B = RunResultItems} pair_eq to_dict run_of (λ r. refl)

-- `a.to_dict() == b.to_dict()`
unfoldable pub same_run : RunResult → RunResult → Bool
same_run a b = a == b

-- Runs with the same dict are the same run.
pub same_run_sound : (a b : RunResult) → same_run a b ≡ true → a ≡ b
unfolding same_run
same_run_sound a b h = (same_iff a b).0 h

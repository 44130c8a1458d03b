-- ===== src/Rules/ValidationEvidence.antt =====
-- src/qualityci/rules.py: `rule_validation_evidence`, QCI-R006, and what it reads of the sealed
-- context of src/qualityci/validation_evidence.py.
pub mod Sealed
pub mod Passes
use qualityci.Prelude.Dict.{lookup, insert}
use qualityci.Prelude.Sorting.{sorted_set}
use mathlib.Core.List.{foldl, flat_map}
use qualityci.Case.{Case, Event, Requirement, Migration}
use qualityci.Model.{pass, contradicted, unverifiable, EvidenceRef, Finding, ImpactPlan}
use qualityci.Rules.Evidence.{event_evidence, finding}
use qualityci.Prelude.{
  ℕ, zero, suc, ◌+◌, ◌-◌, ◌*◌, ◌/◌, ◌%◌, ◌^◌, ◌≤◌, ◌<◌, String, ◌≡◌, refl, sym, ap, ◌∙◌, ◌≢◌, ◌↔◌,
  ◌⊎◌, inl, inr, Bool, true, false, not, ◌&&◌, ◌||◌, Option, none, some, List, [], ◌∷◌, ◌++◌, map,
  arith, eq_iff, ltb, leb, eqb, if◌then◌else◌, Eq, ◌==◌, nat_eq, string_eq, pair_eq, Bool-cases,
  Option-cases, given, is_some_eq, length, is_empty, any, all, keep, All, Any, contains, Result, ok,
  err, ◌>>=◌, ◌>>◌, raise_if,
}

-- A validation report, rebuilt from its raw bytes. Times are in microseconds.
pub record Report : Type 0 where
  pub source_id : String
  pub source_hash : String
  pub locator : String
  pub evidence_id : String
  pub result : String
  pub event_id : String
  pub event_revision : String
  pub scope_digest : String
  pub case_subject_hash : String
  pub evidence_type : String
  pub claim : String
  pub issuer_id : String
  pub issuer_role : String
  pub ruleset_version : String
  pub case_schema_version : String
  pub performed_at : ℕ
  pub issued_at : ℕ

-- `sealed` is the outcome of `_is_sealed_validation_context`.
pub record ValidationContext : Type 0 where
  pub sealed : Bool
  pub phase : String
  pub reports : List Report
  pub scope_digest : String
  pub case_subject_hash : String
  pub evidence_set_hash : String
  pub contract_version : String

abbrev pub is_sealed_validation_context : Option ValidationContext → Bool
is_sealed_validation_context none = false
is_sealed_validation_context (some context) = context.sealed

abbrev pub ruleset_version : String
ruleset_version = "qci-rules-0.6.0"

abbrev pub requirement_entry :
    List (String × Requirement) → Requirement → List (String × Requirement)
requirement_entry index item = insert item.evidence_id item index

abbrev pub report_entry : List (String × Report) → Report → List (String × Report)
report_entry index item = insert item.evidence_id item index

-- `requirements` and `reports`: by evidence id, the last entry of an id.
unfoldable pub requirements_by_id : List Requirement → List (String × Requirement)
requirements_by_id items = foldl requirement_entry [] items

unfoldable pub reports_by_id : List Report → List (String × Report)
reports_by_id items = foldl report_entry [] items

-- `set(d)`
abbrev pub keys {ℓ} : {V : Type ℓ} → List (String × V) → List String
keys d = map (λ e. e.0) d

-- `sorted(set(d) - set(c))`
unfoldable pub keys_without {ℓ κ} :
    {V : Type ℓ} {W : Type κ} → List (String × V) → List (String × W) → List String
keys_without d c = sorted_set (keep (λ k. not (contains (keys c) k)) (keys d))

-- `sorted(set(d) & set(c))`
unfoldable pub shared_keys {ℓ κ} :
    {V : Type ℓ} {W : Type κ} → List (String × V) → List (String × W) → List String
shared_keys d c = sorted_set (keep (λ k. contains (keys c) k) (keys d))

-- The code of one comparison, if it fails.
abbrev pub code_unless : String → Bool → List String
code_unless code true = []
code_unless code false = code ∷ []

module _ (case : Case) (context : ValidationContext) where
  -- The mismatch codes of one report against its requirement.
  unfoldable pub report_mismatches : Requirement → Report → List String
  report_mismatches requirement report =
      code_unless "RESULT_NOT_PASS" (report.result == "PASS")
      ++ code_unless "EVENT_ID_MISMATCH" (report.event_id == case.event.event_id)
      ++ code_unless "EVENT_REVISION_MISMATCH" (report.event_revision == case.event.revision)
      ++ code_unless "SCOPE_DIGEST_MISMATCH" (report.scope_digest == context.scope_digest)
      ++ code_unless "CASE_SUBJECT_MISMATCH" (report.case_subject_hash == context.case_subject_hash)
      ++ code_unless "EVIDENCE_TYPE_MISMATCH" (report.evidence_type == requirement.evidence_type)
      ++ code_unless "CLAIM_MISMATCH" (report.claim == requirement.claim)
      ++ code_unless "ISSUER_ID_MISMATCH" (report.issuer_id == requirement.issuer_id)
      ++ code_unless "ISSUER_ROLE_MISMATCH" (report.issuer_role == requirement.issuer_role)
      ++ code_unless "RULESET_VERSION_MISMATCH" (report.ruleset_version == ruleset_version)
      ++ code_unless "CASE_SCHEMA_VERSION_MISMATCH"
          (report.case_schema_version == case.schema_version)
      ++ code_unless "VALIDATION_TIME_WINDOW_MISMATCH" (
          leb requirement.valid_from report.performed_at
          && leb report.performed_at report.issued_at
          && leb report.issued_at requirement.valid_until)

  abbrev report_evidence : Report → EvidenceRef
  report_evidence report = record {
    document_id = report.source_id;
    revision = case.event.revision;
    locator = report.locator;
    source_hash = report.source_hash;
  }

  -- One round of the loop over the shared ids: both dicts have the id, so the last clause of each
  -- is not met.
  abbrev compare_pair : Option Requirement → Option Report → List String × List EvidenceRef
  compare_pair (some requirement) (some report) =
      (report_mismatches requirement report, report_evidence report ∷ [])
  compare_pair _ _ = ([], [])

  unfoldable pub compare_reports : List (String × Requirement) → List (String × Report) → Finding
  unfolding flat_map
  compare_reports requirements reports =
      let extra = keys_without reports requirements in
      let shared = shared_keys requirements reports in
      let pairs = map (λ id. compare_pair (lookup id requirements) (lookup id reports)) shared in
      let mismatches = flat_map (λ (p : List String × List EvidenceRef). p.0) pairs in
      let refs = flat_map (λ (p : List String × List EvidenceRef). p.1) pairs in
      if is_empty extra && is_empty mismatches
      then finding "QCI-R006" pass "LOW" refs
      else finding "QCI-R006" contradicted "HIGH" refs

  unfoldable pub check_plan : List Requirement → Finding
  unfolding compare_reports
  check_plan required_evidence =
      let requirements = requirements_by_id required_evidence in
      let reports = reports_by_id context.reports in
      if not (is_empty (keys_without requirements reports))
      then finding "QCI-R006" unverifiable "HIGH"
          (event_evidence case.event "validation_plan.required_evidence" ∷ [])
      else compare_reports requirements reports

unfoldable pub check_sealed : Case → ValidationContext → Finding
check_sealed case context = elim case.event.validation_plan [
  | none ↦ finding "QCI-R006" unverifiable "HIGH" (event_evidence case.event "validation_plan" ∷ [])
  | some validation_plan ↦ check_plan case context validation_plan.required_evidence
]

unfoldable pub rule_validation_evidence : Case → ImpactPlan → Option ValidationContext → Finding
rule_validation_evidence case plan none =
    finding "QCI-R006" unverifiable "HIGH" (event_evidence case.event "validation_evidence" ∷ [])
rule_validation_evidence case plan (some context) =
    if not context.sealed
    then finding "QCI-R006" unverifiable "HIGH"
        (event_evidence case.event "validation_evidence" ∷ [])
    else check_sealed case context

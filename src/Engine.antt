-- ===== src/Engine.antt =====
-- src/qualityci/engine.py: the verdict of a run and `_evaluate_case`.
pub mod Verdict
pub mod Sealed
pub mod Nulls
pub mod Total
pub mod Sound
use qualityci.Text.{TextOps}
use qualityci.Case.{Case}
use qualityci.Model.{CheckStatus, pass, contradicted, unverifiable, status_beq, Finding, ImpactPlan}
use qualityci.Loader.Validate.{validate_case}
use qualityci.Impact.{reads_null_links, build_impact_plan}
use qualityci.Rules.ProcessCoverage.{reads_null_steps, rule_process_coverage}
use qualityci.Rules.SpecConsistency.{rule_spec_consistency}
use qualityci.Rules.SpecialControl.{rule_special_characteristic_control}
use qualityci.Rules.RevisionDates.{rule_revision_after_approval}
use qualityci.Rules.References.{
  ReferenceContext, is_sealed_reference_context, rule_inspection_current_references,
}
use qualityci.Rules.ValidationEvidence.{
  ValidationContext, is_sealed_validation_context, rule_validation_evidence, ruleset_version,
}
use qualityci.Rules.HighRiskApproval.{rule_high_risk_approval}
use qualityci.Run.{SourceAssurance, RunIdentity, RunResult, RunHash, post_init}
use qualityci.Prelude.{
  ℕ, zero, suc, ◌+◌, ◌-◌, ◌*◌, ◌/◌, ◌%◌, ◌^◌, ◌≤◌, ◌<◌, String, ◌≡◌, refl, sym, ap, ◌∙◌, ◌≢◌, ◌↔◌,
  ◌⊎◌, inl, inr, Bool, true, false, not, ◌&&◌, ◌||◌, Option, none, some, List, [], ◌∷◌, ◌++◌, map,
  arith, eq_iff, ltb, leb, eqb, if◌then◌else◌, Eq, ◌==◌, nat_eq, string_eq, pair_eq, Bool-cases,
  Option-cases, given, is_some_eq, length, is_empty, any, all, keep, All, Any, contains, Result, ok,
  err, ◌>>=◌, ◌>>◌, raise_if,
}

-- `status in statuses`
abbrev pub occurs : CheckStatus → List CheckStatus → Bool
occurs status statuses = any statuses (status_beq status)

-- `_overall_status`
unfoldable pub overall_status : List CheckStatus → CheckStatus
unfolding status_beq
overall_status statuses =
    if occurs contradicted statuses
    then contradicted
    else if occurs unverifiable statuses
    then unverifiable
    else pass

-- The findings of `RULES`, in order.
unfoldable pub findings_of :
    TextOps → Case → ImpactPlan → Option ReferenceContext → Option ValidationContext → List Finding
findings_of text case plan reference_context validation_context =
    rule_process_coverage text case plan
    ∷ rule_spec_consistency text case plan
    ∷ rule_special_characteristic_control text case plan
    ∷ rule_revision_after_approval text case plan
    ∷ rule_inspection_current_references case plan reference_context
    ∷ rule_validation_evidence case plan validation_context
    ∷ rule_high_risk_approval case plan
    ∷ []

-- `unbound_case_source_assurance()`
abbrev pub unbound : SourceAssurance
unbound = record {
  state = "UNBOUND_SERIALIZED_CASE";
  pack_contract_version = none;
  set_contract_version = none;
  set_hash = none;
  binding_hash = none;
  lineage_contract_version = none;
  lineage_hash = none;
}

-- The assurance state, the set hash and the contract version that a context gives.
abbrev Assurance : Type 0
Assurance = String × Option String × Option String

abbrev pub reference_assurance : Option ReferenceContext → Assurance
reference_assurance none = ("UNATTESTED_JSON", none, none)
reference_assurance (some context) =
    ("ATTESTED_REFERENCE_SET", some context.reference_set_hash, some context.contract_version)

abbrev pub validation_assurance : Option ValidationContext → Assurance
validation_assurance none = ("UNATTESTED_VALIDATION_JSON", none, none)
validation_assurance (some context) =
    if context.sealed
    then ("ATTESTED_VALIDATION_SET", some context.evidence_set_hash, some context.contract_version)
    else ("UNATTESTED_VALIDATION_JSON", none, none)

abbrev pub run_identity :
    String → Option ReferenceContext → Option ValidationContext → SourceAssurance → RunIdentity
run_identity case_hash reference_context validation_context source =
    let references = reference_assurance reference_context in
    let validation = validation_assurance validation_context in
    record {
      run_result_contract_version = "qualityci-run-result-0.2";
      run_identity_version = "qualityci-run-identity-v4";
      case_hash = case_hash;
      ruleset_version = ruleset_version;
      source = source;
      reference_assurance_state = references.0;
      reference_set_hash = references.1;
      reference_contract_version = references.2;
      validation_assurance_state = validation.0;
      validation_evidence_set_hash = validation.1;
      validation_evidence_contract_version = validation.2;
    }

-- SHA-256 is not under the source: the hash of a case, and of a run identity.
pub record Hashes : Type 0 where
  pub canonical_hash : Case → String
  pub run_hash : RunHash

module _ (text : TextOps) (hashes : Hashes) where
  open hashes use {canonical_hash, run_hash}

  -- The values handed to the constructor of `RunResult`.
  unfoldable pub run_of : Case → Option ReferenceContext → Option ValidationContext → RunResult
  run_of case reference_context validation_context =
      let plan = build_impact_plan text case in
      let findings = findings_of text case plan reference_context validation_context in
      let identity =
        run_identity (canonical_hash case) reference_context validation_context unbound in
      record {
        run_id = run_hash identity;
        case_id = case.case_id;
        identity = identity;
        overall_status = overall_status (map (λ (f : Finding). f.status) findings);
        impact_plan = plan;
        findings = findings;
      }

  -- The explicit nulls that `build_impact_plan` and `rule_process_coverage` fail on.
  abbrev pub reads_null : Case → Bool
  reads_null case =
      reads_null_links case.event.affected_links
      || reads_null_steps text case (build_impact_plan text case)

  -- `_evaluate_case`
  unfoldable pub evaluate_case :
      Case → Option ReferenceContext → Option ValidationContext → Result String RunResult
  evaluate_case case reference_context validation_context = do
    validate_case text case
    raise_if (reads_null case) "TypeError"
    let run = run_of case reference_context validation_context
    raise_if (not (post_init text run_hash run)) "RunResult is inconsistent"
    ok run

  -- `run_case`
  unfoldable pub run_case : Case → Result String RunResult
  run_case case = evaluate_case case none none

  -- `_run_case_with_reference_context`
  unfoldable pub run_case_with_reference_context :
      Case → ReferenceContext → Option ValidationContext → Result String RunResult
  run_case_with_reference_context case reference_context validation_context = do
    raise_if (not reference_context.sealed)
        "actual controlled-reference run requires an internal sealed context"
    raise_if (given validation_context && not (is_sealed_validation_context validation_context))
        "actual validation run requires an internal sealed context"
    evaluate_case case (some reference_context) validation_context

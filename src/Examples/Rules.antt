-- ===== src/Examples/Rules.antt =====
-- The theorems about the rules and the engine at the small case.
use qualityci.Case.{Case, document_by_type, is_approved}
use qualityci.Model.{pass, contradicted, unverifiable}
use qualityci.Prelude.Dict.{lookup, insert}
use qualityci.Prelude.Sorting.{sort, sorted_set}
use qualityci.Loader.Checks.{for_each, has_duplicates, is_lower_sha256}
use qualityci.Loader.Validate.{validate_case}
use qualityci.Impact.Scope.{build_impact_plan-scope}
use qualityci.Impact.{build_impact_plan}
use qualityci.Run.{RunResult, post_init}
use qualityci.Rules.Evidence.{finding, evidence, event_evidence}
use qualityci.Text.{normalized_identity, relationship_key, is_blank}
use mathlib.Core.List.{flat_map}
use qualityci.Rules.Scope.{scope_relationships_complete, legacy_unbound_evidence}
use qualityci.Rules.Index.{link_key, characteristics, risks, relationship_candidate_indexes}
use qualityci.Rules.ProcessCoverage.{
  rule_process_coverage, missing_steps, relation_gaps, risk_side, control_side,
}
use qualityci.Rules.SpecConsistency.{
  rule_spec_consistency, spec_consistency, readings, read_row, spec_tuple, pair_conflicts,
}
use qualityci.Rules.SpecialControl.{
  rule_special_characteristic_control, special_control, missing_risk, is_gap, is_complete_control,
}
use qualityci.Rules.RevisionDates.{rule_revision_after_approval, check_documents}
use qualityci.Rules.References.{rule_inspection_current_references, check_references, check_context}
use qualityci.Rules.ValidationEvidence.{
  rule_validation_evidence, check_sealed, check_plan, compare_reports, requirements_by_id,
  reports_by_id, keys_without, shared_keys, report_mismatches,
}
use qualityci.Rules.HighRiskApproval.{rule_high_risk_approval, check_approvals, current_approvals}
use qualityci.Rules.ProcessCoverage.Passes.{IsCovered, rule_process_coverage-pass_iff}
use qualityci.Rules.RevisionDates.Passes.{IsCurrent, rule_revision_after_approval-pass_iff}
use qualityci.Engine.{overall_status, findings_of, run_of, evaluate_case, run_case}
use qualityci.Engine.Verdict.{overall_status_iff}
use qualityci.Engine.Sealed.{evaluate_case-pass_sealed, run_case-not_pass}
use qualityci.Engine.Sound.{IsReleasable, evaluate_case-IsReleasable}
use qualityci.Rules.SpecConsistency.Passes.{IsConsistent, rule_spec_consistency-pass_iff}
use qualityci.Loader.Validate.Approved.{IsValid, validate_case-IsValid}
use qualityci.Rules.References.Passes.{
  IsCurrentlyCited, rule_inspection_current_references-pass_iff,
}
use qualityci.Rules.SpecialControl.Passes.{
  IsControlled, rule_special_characteristic_control-pass_iff,
}
use qualityci.Rules.ValidationEvidence.Passes.{IsAttested, rule_validation_evidence-pass_iff}
use qualityci.Rules.HighRiskApproval.Passes.{IsReleased, rule_high_risk_approval-pass_iff}
use qualityci.Rules.Index.Laws.{last_with_key, lookup-characteristics}
use qualityci.Rules.Index as Index
use qualityci.Rules.Index.{list_or_nil}
use qualityci.Rules.References.{is_sealed_reference_context}
use qualityci.Rules.ValidationEvidence.{is_sealed_validation_context}
use qualityci.Rules.Scope.Links.{BindsAll, scope_relationships_complete_iff}
use qualityci.Examples.Data.{
  plain_text, fixed_hashes, sample, references, validation, process_flow, pfmea, control_plan,
  control_row, validation_plan, sop, inspection, identity, identities,
}
use qualityci.Prelude.{
  ◌≡◌, refl, ◌≢◌, ◌⊎◌, inl, inr, true, none, some, [], ◌∷◌, nat_eq, string_eq, pair_eq, All, ok,
  err,
}

-- All that a run computes with.
unfoldable pub program : Unit {0}
unfolding run_of findings_of overall_status build_impact_plan rule_process_coverage
    rule_spec_consistency rule_special_characteristic_control rule_revision_after_approval
    rule_inspection_current_references rule_validation_evidence rule_high_risk_approval
    document_by_type lookup insert sort sorted_set finding scope_relationships_complete
    legacy_unbound_evidence link_key characteristics risks normalized_identity relationship_key
    missing_steps relation_gaps risk_side control_side flat_map spec_consistency readings read_row
    spec_tuple pair_conflicts is_blank special_control missing_risk is_gap is_complete_control
    check_documents check_references check_context check_sealed check_plan compare_reports
    requirements_by_id reports_by_id keys_without shared_keys report_mismatches check_approvals
    current_approvals validate_case for_each has_duplicates is_lower_sha256 post_init evaluate_case
    evidence event_evidence relationship_candidate_indexes
program = tt

validates : validate_case plain_text sample ≡ ok tt
unfolding program
validates = refl

abbrev sample_run : RunResult
sample_run = run_of plain_text fixed_hashes sample (some references) (some validation)

sample_passes : sample_run.overall_status ≡ pass
unfolding program
sample_passes = refl

sample_runs :
    evaluate_case plain_text fixed_hashes sample (some references) (some validation) ≡ ok sample_run
unfolding program
sample_runs = refl

evaluate_case-pass_sealed_example :
    (is_sealed_reference_context (some references) ≡ true)
    × (is_sealed_validation_context (some validation) ≡ true)
evaluate_case-pass_sealed_example =
    evaluate_case-pass_sealed plain_text fixed_hashes sample (some references) (some validation)
      sample_run sample_runs sample_passes

overall_status_iff_example : overall_status (pass ∷ unverifiable ∷ contradicted ∷ []) ≡ contradicted
overall_status_iff_example =
    (overall_status_iff (pass ∷ unverifiable ∷ contradicted ∷ [])).1.1 (inr (inr (inl refl)))

rule_process_coverage-pass_iff_example :
    IsCovered plain_text sample sample_run.impact_plan process_flow pfmea control_plan
unfolding program
rule_process_coverage-pass_iff_example =
    (rule_process_coverage-pass_iff plain_text sample sample_run.impact_plan process_flow pfmea
        control_plan refl refl refl).0
      refl

rule_revision_after_approval-pass_iff_example :
    All (λ doc. is_approved doc ≡ true → IsCurrent plain_text doc sample.event 15) sample.documents
unfolding program
rule_revision_after_approval-pass_iff_example =
    (rule_revision_after_approval-pass_iff plain_text sample sample_run.impact_plan 15 refl).0 refl

rule_validation_evidence-pass_iff_example :
    IsAttested sample validation
      (requirements_by_id validation_plan.required_evidence)
      (reports_by_id validation.reports)
unfolding program
rule_validation_evidence-pass_iff_example =
    (rule_validation_evidence-pass_iff sample sample_run.impact_plan validation validation_plan refl
        refl).0
      refl

rule_high_risk_approval-pass_iff_example :
    ((sample.event.risk_level ≡ some "LOW") ⊎ (sample.event.risk_level ≡ some "MEDIUM"))
    ⊎ ((sample.event.risk_level ≡ some "HIGH") × IsReleased sample.event)
unfolding program
rule_high_risk_approval-pass_iff_example =
    (rule_high_risk_approval-pass_iff sample sample_run.impact_plan).0 refl

lookup-characteristics_example :
    lookup ("OP-10", "CH-1") (Index.characteristics plain_text (some control_plan))
    ≡ some control_row
unfolding program last_with_key
lookup-characteristics_example = lookup-characteristics plain_text ("OP-10", "CH-1") control_plan

scope_relationships_complete_iff_example : BindsAll plain_text sample_run.impact_plan
unfolding program
scope_relationships_complete_iff_example =
    (scope_relationships_complete_iff plain_text sample_run.impact_plan).0 refl

rule_special_characteristic_control-pass_iff_example :
    IsControlled plain_text sample sample_run.impact_plan pfmea control_plan
unfolding program
rule_special_characteristic_control-pass_iff_example =
    (rule_special_characteristic_control-pass_iff plain_text sample sample_run.impact_plan pfmea
        control_plan refl refl).0
      refl

rule_inspection_current_references-pass_iff_example :
    IsCurrentlyCited inspection references identities
      (some (identity "SOP"))
      (some (identity "CONTROL_PLAN"))
      sop
      control_plan
unfolding program
rule_inspection_current_references-pass_iff_example =
    (rule_inspection_current_references-pass_iff sample sample_run.impact_plan references inspection
        sop control_plan identities refl refl refl refl refl).0
      refl

-- The sample with an explicit null for the links of the event: validation lets it through.
abbrev null_links : Case
null_links = record {
  schema_version = sample.schema_version;
  case_id = sample.case_id;
  synthetic_for_competition = sample.synthetic_for_competition;
  relationship_migration = sample.relationship_migration;
  reference_migration = sample.reference_migration;
  validation_migration = sample.validation_migration;
  event = record {
    event_id = sample.event.event_id;
    event_type = sample.event.event_type;
    revision = sample.event.revision;
    risk_level = sample.event.risk_level;
    affected_process_steps = sample.event.affected_process_steps;
    affected_characteristics = sample.event.affected_characteristics;
    affected_links = none;
    approved_at = sample.event.approved_at;
    validation_plan = sample.event.validation_plan;
    validation_evidence = sample.event.validation_evidence;
    approvals = sample.event.approvals;
  };
  documents = sample.documents;
}

null_links_validate : validate_case plain_text null_links ≡ ok tt
unfolding program
null_links_validate = refl

null_links_raise :
    evaluate_case plain_text fixed_hashes null_links (some references) (some validation)
    ≡ err "TypeError"
unfolding program
null_links_raise = refl

validate_case-IsValid_example : IsValid plain_text sample
validate_case-IsValid_example = validate_case-IsValid plain_text sample validates

rule_spec_consistency-pass_iff_example :
    IsConsistent plain_text sample sample_run.impact_plan control_plan sop inspection
unfolding program
rule_spec_consistency-pass_iff_example =
    (rule_spec_consistency-pass_iff plain_text sample sample_run.impact_plan control_plan sop
        inspection refl refl refl).0
      refl

evaluate_case-IsReleasable_example :
    IsReleasable plain_text sample (build_impact_plan plain_text sample)
evaluate_case-IsReleasable_example =
    evaluate_case-IsReleasable plain_text fixed_hashes sample (some references) (some validation)
      sample_run sample_runs sample_passes

build_impact_plan-scope_example :
    All (λ s. s ≡ "OP-10") (build_impact_plan plain_text sample).affected_process_steps
build_impact_plan-scope_example =
    ((build_impact_plan-scope plain_text sample (λ s. s ≡ "OP-10") (λ link. link ≡ link)).0).1
      (refl, tt)

abbrev serialized_run : RunResult
serialized_run = run_of plain_text fixed_hashes sample none none

serialized_runs : run_case plain_text fixed_hashes sample ≡ ok serialized_run
unfolding program run_case
serialized_runs = refl

run_case-not_pass_example : serialized_run.overall_status ≢ pass
run_case-not_pass_example =
    run_case-not_pass plain_text fixed_hashes sample serialized_run serialized_runs

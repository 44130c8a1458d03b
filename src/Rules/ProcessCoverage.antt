-- ===== src/Rules/ProcessCoverage.antt =====
-- src/qualityci/rules.py: `rule_process_coverage`, QCI-R001.
pub mod Passes
use qualityci.Prelude.Dict.{lookup}
use qualityci.Text.{TextOps, concat, normalized_identity}
use qualityci.Case.{steps_of, Case, Document, Characteristic, Risk, Item, Link, document_by_type}
use qualityci.Model.{
  CheckStatus, pass, contradicted, unverifiable, EvidenceRef, Finding, ImpactPlan,
}
use qualityci.Rules.Evidence.{
  evidence, event_evidence, case_evidence, finding, pair_label, relationship_evidence,
  missing_relationship_evidence, event_relationship_evidence,
}
use qualityci.Rules.Index as Index
use qualityci.Rules.Index.{
  CandidateIndexes, link_key, list_or_nil, relationship_candidate_indexes, relationship_candidates,
}
use qualityci.Rules.Scope.{Collection, scope_relationships_complete, legacy_unbound_evidence}
use mathlib.Core.List.{flat_map}
use qualityci.Prelude.{
  ℕ, zero, suc, ◌+◌, ◌-◌, ◌*◌, ◌/◌, ◌%◌, ◌^◌, ◌≤◌, ◌<◌, String, ◌≡◌, refl, sym, ap, ◌∙◌, ◌≢◌, ◌↔◌,
  ◌⊎◌, inl, inr, Bool, true, false, not, ◌&&◌, ◌||◌, Option, none, some, List, [], ◌∷◌, ◌++◌, map,
  arith, eq_iff, ltb, leb, eqb, if◌then◌else◌, Eq, ◌==◌, nat_eq, string_eq, pair_eq, Bool-cases,
  Option-cases, given, is_some_eq, length, is_empty, any, all, keep, All, Any, contains, Result, ok,
  err, ◌>>=◌, ◌>>◌, raise_if,
}

module _ (text : TextOps) (case : Case) (plan : ImpactPlan) where
  missing_documents : Finding
  missing_documents = finding "QCI-R001" unverifiable "MEDIUM" (
      event_evidence case.event "affected_process_steps"
      ∷ case_evidence case "documents[*].document_type"
      ∷ [])

  module _ (process_flow pfmea control : Document) where
    -- The steps that one of the three documents does not list.
    unfoldable pub missing_steps : List String
    missing_steps =
        let normalized_step_sets =
          map
            (λ (doc : Document). map (normalized_identity text) (steps_of doc.fields.process_steps))
            (process_flow ∷ pfmea ∷ control ∷ []) in
        keep
          (λ step.
            any normalized_step_sets
              (λ values. not (contains values (normalized_identity text step))))
          plan.affected_process_steps

    step_evidence : List EvidenceRef
    step_evidence =
        map (λ doc. evidence doc "fields.process_steps") (process_flow ∷ pfmea ∷ control ∷ [])

    abbrev risk_candidates : CandidateIndexes
    risk_candidates =
        relationship_candidate_indexes text (map (λ (row : Risk). row.item) pfmea.fields.risks)

    abbrev control_candidates : CandidateIndexes
    control_candidates =
        relationship_candidate_indexes text
          (map (λ (row : Characteristic). row.item) control.fields.characteristics)

    -- What one link adds to `relation_gaps` and to `relation_evidence` from the risk rows.
    unfoldable pub risk_side : Link → List String × List EvidenceRef
    unfolding concat
    risk_side pair =
        let matching_risks =
          list_or_nil (lookup (link_key text pair) (Index.risks text (some pfmea))) in
        if is_empty matching_risks
        then (
          concat ("PFMEA:" ∷ pair_label pair ∷ []) ∷ [],
          missing_relationship_evidence pfmea "risks" pair
              ∷ map (relationship_evidence pfmea)
                  (relationship_candidates text risk_candidates pair),
        )
        else ([], map (λ (row : Risk). relationship_evidence pfmea row.item) matching_risks)

    -- The same from the control rows.
    unfoldable pub control_side : Link → List String × List EvidenceRef
    unfolding concat
    control_side pair =
        elim (lookup (link_key text pair) (Index.characteristics text (some control))) [
          | some row ↦ ([], relationship_evidence control row.item ∷ [])
          | none ↦ (
            concat ("CONTROL_PLAN:" ∷ pair_label pair ∷ []) ∷ [],
            missing_relationship_evidence control "characteristics" pair
                ∷ map (relationship_evidence control)
                    (relationship_candidates text control_candidates pair),
          )
        ]

    unfoldable pub relation_gaps : List String
    unfolding flat_map
    relation_gaps =
        flat_map (λ pair. (risk_side pair).0 ++ (control_side pair).0) plan.affected_links

    relation_evidence : List EvidenceRef
    unfolding flat_map
    relation_evidence =
        flat_map
          (λ pair.
            event_relationship_evidence case.event pair
            ∷ ((risk_side pair).1 ++ (control_side pair).1))
          plan.affected_links

    -- The rule once the three documents are there.
    process_coverage : Finding
    process_coverage =
        let legacy_unbound =
          legacy_unbound_evidence case
            ((pfmea, Collection.risks) ∷ (control, Collection.characteristics) ∷ []) in
        if is_empty plan.affected_process_steps
        then missing_documents
        else if not (is_empty missing_steps)
        then finding "QCI-R001" contradicted "HIGH" step_evidence
        else if not (scope_relationships_complete text plan)
        then finding "QCI-R001" unverifiable "HIGH"
            (event_evidence case.event "affected_links" ∷ [])
        else if not (is_empty legacy_unbound)
        then finding "QCI-R001" unverifiable "HIGH" legacy_unbound
        else if not (is_empty relation_gaps)
        then finding "QCI-R001" contradicted "HIGH" (step_evidence ++ relation_evidence)
        else finding "QCI-R001" pass "LOW" (step_evidence ++ relation_evidence)

  -- `set(None)` raises a TypeError: one of the three documents has an explicit null for its steps.
  abbrev pub gives_null : Option Document → Option Document → Option Document → Bool
  gives_null (some process_flow) (some pfmea) (some control) =
      not (is_empty plan.affected_process_steps)
      && any (process_flow ∷ pfmea ∷ control ∷ [])
          (λ (doc : Document). not (given doc.fields.process_steps))
  gives_null _ _ _ = false

  abbrev pub reads_null_steps : Bool
  reads_null_steps =
      gives_null (document_by_type case "PROCESS_FLOW") (document_by_type case "PFMEA")
        (document_by_type case "CONTROL_PLAN")

  with_documents : Option Document → Option Document → Option Document → Finding
  with_documents (some process_flow) (some pfmea) (some control) =
      process_coverage process_flow pfmea control
  with_documents _ _ _ = missing_documents

  unfoldable pub rule_process_coverage : Finding
  unfolding with_documents process_coverage missing_documents step_evidence relation_evidence
  rule_process_coverage =
      with_documents (document_by_type case "PROCESS_FLOW") (document_by_type case "PFMEA")
        (document_by_type case "CONTROL_PLAN")

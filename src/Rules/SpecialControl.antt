-- ===== src/Rules/SpecialControl.antt =====
-- src/qualityci/rules.py: `rule_special_characteristic_control`, QCI-R003.
pub mod Passes
use qualityci.Prelude.Dict.{lookup}
use qualityci.Text.{TextOps}
use qualityci.Case.{Case, Document, Characteristic, Risk, Item, Link, document_by_type}
use qualityci.Model.{pass, contradicted, unverifiable, EvidenceRef, Finding, ImpactPlan}
use qualityci.Rules.Evidence.{
  evidence, event_evidence, case_evidence, finding, pair_label, get_or, relationship_evidence,
  missing_relationship_evidence, event_relationship_evidence,
}
use qualityci.Rules.Index as Index
use qualityci.Rules.Index.{
  CandidateIndexes, link_key, list_or_nil, relationship_candidate_indexes, relationship_candidates,
}
use qualityci.Rules.RevisionDates.{nonblank}
use qualityci.Rules.Scope.{Collection, scope_relationships_complete, legacy_unbound_evidence}
use mathlib.Core.List.{flat_map}
use qualityci.Prelude.{
  ℕ, zero, suc, ◌+◌, ◌-◌, ◌*◌, ◌/◌, ◌%◌, ◌^◌, ◌≤◌, ◌<◌, String, ◌≡◌, refl, sym, ap, ◌∙◌, ◌≢◌, ◌↔◌,
  ◌⊎◌, inl, inr, Bool, true, false, not, ◌&&◌, ◌||◌, Option, none, some, List, [], ◌∷◌, ◌++◌, map,
  arith, eq_iff, ltb, leb, eqb, if◌then◌else◌, Eq, ◌==◌, nat_eq, string_eq, pair_eq, Bool-cases,
  Option-cases, given, is_some_eq, length, is_empty, any, all, keep, All, Any, contains, Result, ok,
  err, ◌>>=◌, ◌>>◌, raise_if,
}

-- The control method, the frequency and the reaction plan are all given.
unfoldable pub is_complete_control : TextOps → Characteristic → Bool
is_complete_control text row =
    nonblank text row.control_method
    && nonblank text row.frequency
    && nonblank text row.reaction_plan

module _ (text : TextOps) (case : Case) (plan : ImpactPlan) (pfmea control : Document) where
  abbrev risk_candidates : Link → List Item
  risk_candidates =
      relationship_candidates text
        (relationship_candidate_indexes text (map (λ (row : Risk). row.item) pfmea.fields.risks))

  abbrev control_candidates : Link → List Item
  control_candidates = relationship_candidates text (
      relationship_candidate_indexes text
        (map (λ (row : Characteristic). row.item) control.fields.characteristics))

  -- `risk_index.get(key)` at the key of a pair.
  abbrev pub risks_at : Link → Option (List Risk)
  risks_at pair = lookup (link_key text pair) (Index.risks text (some pfmea))

  abbrev pub control_at : Link → Option Characteristic
  control_at pair = lookup (link_key text pair) (Index.characteristics text (some control))

  unfoldable pub missing_risk : List Link
  missing_risk = keep (λ pair. not (given (risks_at pair))) plan.affected_links

  missing_risk_evidence : Link → List EvidenceRef
  missing_risk_evidence pair =
      event_relationship_evidence case.event pair
      ∷ missing_relationship_evidence pfmea "risks" pair
      ∷ map (relationship_evidence pfmea) (risk_candidates pair)

  -- `if not item or not all(...)`: the control row that a special characteristic lacks.
  abbrev pub control_gap : Option Characteristic → Bool
  control_gap none = true
  control_gap (some row) = not (is_complete_control text row)

  -- The pair has a special characteristic and no complete control.
  unfoldable pub is_gap : Link → Bool
  is_gap pair =
      any (list_or_nil (risks_at pair)) (λ (row : Risk). row.special_characteristic)
      && control_gap (control_at pair)

  control_refs : Link → Option Characteristic → List EvidenceRef
  control_refs pair none =
      missing_relationship_evidence control "characteristics" pair
      ∷ map (relationship_evidence control) (control_candidates pair)
  control_refs pair (some row) =
      if is_complete_control text row
      then evidence control (get_or row.item.locator "fields.characteristics") ∷ []
      else relationship_evidence control row.item ∷ []

  -- What one round of the loop adds to the evidence.
  pair_evidence : Link → List EvidenceRef
  unfolding control_refs
  pair_evidence pair =
      let pair_risks = list_or_nil (risks_at pair) in
      map (λ (row : Risk). relationship_evidence pfmea row.item) pair_risks
      ++ (if any pair_risks (λ (row : Risk). row.special_characteristic)
          then control_refs pair (control_at pair)
          else [])

  -- The rule once the two documents are there.
  unfoldable pub special_control : Finding
  unfolding missing_risk missing_risk_evidence is_gap pair_evidence flat_map
  special_control =
      let legacy_unbound =
        legacy_unbound_evidence case
          ((pfmea, Collection.risks) ∷ (control, Collection.characteristics) ∷ []) in
      let explicit_misbindings = any missing_risk (λ pair. not (is_empty (risk_candidates pair))) in
      let refs = flat_map pair_evidence plan.affected_links in
      if not (scope_relationships_complete text plan)
      then finding "QCI-R003" unverifiable "HIGH" (event_evidence case.event "affected_links" ∷ [])
      else if not (is_empty legacy_unbound)
      then finding "QCI-R003" unverifiable "HIGH" legacy_unbound
      else if not (is_empty missing_risk)
      then finding "QCI-R003" (if explicit_misbindings then contradicted else unverifiable) "HIGH"
          (flat_map missing_risk_evidence missing_risk)
      else if any plan.affected_links is_gap
      then finding "QCI-R003" contradicted "HIGH" refs
      else finding "QCI-R003" pass "LOW" refs

module _ (text : TextOps) (case : Case) (plan : ImpactPlan) where
  with_documents : Option Document → Option Document → Finding
  with_documents (some pfmea) (some control) = special_control text case plan pfmea control
  with_documents _ _ =
      finding "QCI-R003" unverifiable "MEDIUM"
        (case_evidence case "documents[*].document_type" ∷ [])

  unfoldable pub rule_special_characteristic_control : Finding
  unfolding with_documents special_control
  rule_special_characteristic_control =
      with_documents (document_by_type case "PFMEA") (document_by_type case "CONTROL_PLAN")

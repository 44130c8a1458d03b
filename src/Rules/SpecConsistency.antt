-- ===== src/Rules/SpecConsistency.antt =====
-- src/qualityci/rules.py: `_spec_tuple` and `rule_spec_consistency`, QCI-R002.
pub mod Passes
use qualityci.Prelude.Dict.{lookup}
use qualityci.Text.{TextOps, concat, is_blank}
use qualityci.Case.Numbers.{Number, number_leb, number_eqb}
use qualityci.Case.{Case, Document, Characteristic, Link, document_by_type}
use qualityci.Model.{pass, contradicted, unverifiable, EvidenceRef, Finding, ImpactPlan}
use qualityci.Rules.Evidence.{
  evidence, event_evidence, case_evidence, finding, pair_label, get_or, relationship_evidence,
  missing_relationship_evidence,
}
use qualityci.Rules.Index as Index
use qualityci.Rules.Index.{
  CandidateIndexes, link_key, relationship_candidate_indexes, relationship_candidates,
}
use qualityci.Rules.Scope.{Collection, scope_relationships_complete, legacy_unbound_evidence}
use mathlib.Core.List.{flat_map}
use qualityci.Prelude.{
  String, Bool, false, not, ◌&&◌, ◌||◌, Option, none, some, List, [], ◌∷◌, map, if◌then◌else◌, ◌==◌,
  nat_eq, string_eq, pair_eq, is_empty, any,
}

pub record Spec : Type 0 where
  pub target : Number
  pub minimum : Number
  pub maximum : Number
  pub unit : String

-- Two equal tuples.
abbrev pub spec_eqb : Spec → Spec → Bool
spec_eqb a b =
    number_eqb a.target b.target
    && number_eqb a.minimum b.minimum
    && number_eqb a.maximum b.maximum
    && a.unit == b.unit

abbrev spec_of :
    TextOps → Option Number → Option Number → Option Number → Option String → Option Spec
spec_of text (some target) (some minimum) (some maximum) (some unit) =
    if is_blank text unit || not (number_leb minimum target && number_leb target maximum)
    then none
    else some (record { target = target; minimum = minimum; maximum = maximum; unit = unit })
spec_of text _ _ _ _ = none

-- `_spec_tuple`
unfoldable pub spec_tuple : TextOps → Characteristic → Option Spec
spec_tuple text row = elim row.specification [
  | none ↦ none
  | some spec ↦ spec_of text spec.target spec.minimum spec.maximum spec.unit
]

-- `len(set(values)) > 1`
abbrev pub conflicting : List Spec → Bool
conflicting [] = false
conflicting (s ∷ rest) = any rest (λ t. not (spec_eqb s t))

-- What one round of the loops adds to `missing`, `misbound`, `evidence` and `values`.
pub record Reading : Type 0 where
  pub missing : List String
  pub misbound : List String
  pub refs : List EvidenceRef
  pub values : List Spec

module _ (text : TextOps) where
  abbrev candidate_indexes : Document → CandidateIndexes
  candidate_indexes doc =
      relationship_candidate_indexes text
        (map (λ (row : Characteristic). row.item) doc.fields.characteristics)

  pub label : Document → Link → String
  unfolding concat
  label doc pair = concat (doc.document_type ∷ ":" ∷ pair_label pair ∷ [])

  -- No row of the pair: the rows that share the step or the characteristic are cited.
  abbrev pub absent_row : Document → Link → Reading
  absent_row doc pair =
      let candidates = relationship_candidates text (candidate_indexes doc) pair in
      record {
        missing = label doc pair ∷ [];
        misbound = if is_empty candidates then [] else label doc pair ∷ [];
        refs =
            missing_relationship_evidence doc "characteristics" pair
            ∷ map (relationship_evidence doc) candidates;
        values = [];
      }

  abbrev pub present_row : Document → Link → Characteristic → Option Spec → Reading
  present_row doc pair row none = record {
    missing = label doc pair ∷ [];
    misbound = [];
    refs = evidence doc (get_or row.item.locator "fields.characteristics") ∷ [];
    values = [];
  }
  present_row doc pair row (some spec) = record {
    missing = [];
    misbound = [];
    refs = evidence doc (get_or row.item.locator "fields.characteristics") ∷ [];
    values = spec ∷ [];
  }

  unfoldable pub read_row : Link → Document → Reading
  unfolding label
  read_row pair doc = elim (lookup (link_key text pair) (Index.characteristics text (some doc))) [
    | none ↦ absent_row doc pair
    | some row ↦ present_row doc pair row (spec_tuple text row)
  ]

  -- The specifications of one pair in the three documents disagree.
  unfoldable pub pair_conflicts : List Document → Link → Bool
  unfolding flat_map
  pair_conflicts docs pair = conflicting (flat_map (λ doc. (read_row pair doc).values) docs)

  -- All rounds of the loops, in order.
  unfoldable pub readings : List Document → List Link → List Reading
  unfolding flat_map
  readings docs links = flat_map (λ pair. map (read_row pair) docs) links

module _ (text : TextOps) (case : Case) (plan : ImpactPlan) where
  missing_documents : Finding
  missing_documents = finding "QCI-R002" unverifiable "MEDIUM" (
      event_evidence case.event "affected_characteristics"
      ∷ case_evidence case "documents[*].document_type"
      ∷ [])

  abbrev pub some_missing : List Reading → Bool
  some_missing rounds = any rounds (λ (r : Reading). not (is_empty r.missing))

  abbrev pub some_misbound : List Reading → Bool
  some_misbound rounds = any rounds (λ (r : Reading). not (is_empty r.misbound))

  -- The rule once the three documents are there.
  unfoldable pub spec_consistency : List Document → Finding
  unfolding missing_documents flat_map
  spec_consistency docs =
      let legacy_unbound =
        legacy_unbound_evidence case (map (λ doc. (doc, Collection.characteristics)) docs) in
      let rounds = readings text docs plan.affected_links in
      let refs = flat_map (λ (r : Reading). r.refs) rounds in
      if is_empty plan.affected_characteristics
      then missing_documents
      else if not (scope_relationships_complete text plan)
      then finding "QCI-R002" unverifiable "HIGH" (event_evidence case.event "affected_links" ∷ [])
      else if not (is_empty legacy_unbound)
      then finding "QCI-R002" unverifiable "HIGH" legacy_unbound
      else if any plan.affected_links (pair_conflicts text docs)
      then finding "QCI-R002" contradicted "HIGH" refs
      else if some_misbound rounds
      then finding "QCI-R002" contradicted "HIGH" refs
      else if some_missing rounds
      then finding "QCI-R002" unverifiable "HIGH" refs
      else finding "QCI-R002" pass "LOW" refs

  with_documents : Option Document → Option Document → Option Document → Finding
  with_documents (some control) (some sop) (some inspection) =
      spec_consistency (control ∷ sop ∷ inspection ∷ [])
  with_documents _ _ _ = missing_documents

  unfoldable pub rule_spec_consistency : Finding
  unfolding with_documents spec_consistency missing_documents
  rule_spec_consistency =
      with_documents (document_by_type case "CONTROL_PLAN") (document_by_type case "SOP")
        (document_by_type case "INSPECTION_RECORD")

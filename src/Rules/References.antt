-- ===== src/Rules/References.antt =====
-- src/qualityci/rules.py: `rule_inspection_current_references`, QCI-R005, and what it reads of the
-- sealed context of src/qualityci/controlled_references.py.
pub mod Sealed
pub mod Passes
use qualityci.Prelude.Dict.{lookup}
use qualityci.Text.{concat}
use qualityci.Case.{
  Case, Document, Identity, identity_eq, References, legacy, native, document_by_type,
}
use qualityci.Model.{pass, contradicted, unverifiable, EvidenceRef, Finding, ImpactPlan}
use qualityci.Rules.Evidence.{evidence, case_evidence, finding, get_or}
use qualityci.Prelude.{
  ℕ, zero, suc, ◌+◌, ◌-◌, ◌*◌, ◌/◌, ◌%◌, ◌^◌, ◌≤◌, ◌<◌, String, ◌≡◌, refl, sym, ap, ◌∙◌, ◌≢◌, ◌↔◌,
  ◌⊎◌, inl, inr, Bool, true, false, not, ◌&&◌, ◌||◌, Option, none, some, List, [], ◌∷◌, ◌++◌, map,
  arith, eq_iff, ltb, leb, eqb, if◌then◌else◌, Eq, ◌==◌, nat_eq, string_eq, pair_eq, Bool-cases,
  Option-cases, given, is_some_eq, length, is_empty, any, all, keep, All, Any, contains, Result, ok,
  err, ◌>>=◌, ◌>>◌, raise_if,
}

-- The `inspection` object of a role's evidence.
pub record InspectionEvidence : Type 0 where
  pub document_id_locator : Option String
  pub revision_locator : Option String
  pub revision : Option String
  pub source_hash : Option String

-- `sealed` is the outcome of `_is_sealed_reference_context`.
pub record ReferenceContext : Type 0 where
  pub sealed : Bool
  pub references : List (String × Identity)
  pub evidence : List (String × InspectionEvidence)
  pub inspection_document_id : String
  pub reference_set_hash : String
  pub contract_version : String

abbrev pub is_sealed_reference_context : Option ReferenceContext → Bool
is_sealed_reference_context none = false
is_sealed_reference_context (some context) = context.sealed

abbrev no_inspection : InspectionEvidence
no_inspection = record {
  document_id_locator = none;
  revision_locator = none;
  revision = none;
  source_hash = none;
}

abbrev first_inspection : List (String × InspectionEvidence) → InspectionEvidence
first_inspection [] = no_inspection
first_inspection ((role, inspection) ∷ rest) = inspection

abbrev inspection_of : Option InspectionEvidence → InspectionEvidence
inspection_of none = no_inspection
inspection_of (some inspection) = inspection

-- The identity that the document in hand has.
abbrev pub identity_of : Document → Identity
identity_of doc = record {
  document_type = doc.document_type;
  document_id = doc.document_id;
  revision = doc.revision;
  source_hash = doc.source_hash;
}

-- `revision_artifact is None`, or its `artifact_id` is the hash of the document.
unfoldable pub artifact_consistent : Document → Bool
unfolding concat
artifact_consistent target = elim target.revision_artifact [
  | none ↦ true
  | some artifact_id ↦ is_some_eq artifact_id (concat ("sha256:" ∷ target.source_hash ∷ []))
]

-- `set(references)` has the role.
abbrev pub has_role : List (String × Identity) → String → Bool
has_role references role = given (lookup role references)

abbrev pub is_extra : String × Identity → Bool
is_extra entry = not (entry.0 == "SOP" || entry.0 == "CONTROL_PLAN")

module _ (inspection : Document) (context : ReferenceContext) where
  -- The inspection record is not the one that the context was sealed over.
  unfoldable pub inspection_differs : Bool
  inspection_differs =
      let sealed_inspection = first_inspection context.evidence in
      not (context.inspection_document_id == inspection.document_id)
      || not (is_some_eq sealed_inspection.revision inspection.revision)
      || not (is_some_eq sealed_inspection.source_hash inspection.source_hash)

  -- One role of the loop: whether it is a mismatch.
  unfoldable pub role_differs : String → Identity → Document → Bool
  unfolding artifact_consistent
  role_differs role identity target =
      not (is_some_eq (lookup role context.references) identity)
      || not (identity == identity_of target)
      || not (artifact_consistent target)

  role_evidence : String → Document → List EvidenceRef
  unfolding concat
  role_evidence role target =
      let cited = inspection_of (lookup role context.evidence) in
      evidence inspection (
        get_or cited.document_id_locator
          (concat ("fields.references." ∷ role ∷ ".document_id" ∷ [])))
      ∷ evidence inspection
          (get_or cited.revision_locator (concat ("fields.references." ∷ role ∷ ".revision" ∷ [])))
      ∷ evidence inspection (concat ("fields.references." ∷ role ∷ ".source_hash" ∷ []))
      ∷ evidence target "document_id"
      ∷ evidence target "revision"
      ∷ evidence target "source_hash"
      ∷ []

  -- The comparison, once both roles are referenced.
  unfoldable pub compare_references :
      List (String × Identity) → Identity → Identity → Document → Document → Finding
  unfolding inspection_differs role_differs role_evidence
  compare_references references sop_identity control_identity sop control =
      let refs = role_evidence "SOP" sop ++ role_evidence "CONTROL_PLAN" control in
      if inspection_differs
        || any references is_extra
        || role_differs "SOP" sop_identity sop
        || role_differs "CONTROL_PLAN" control_identity control
      then finding "QCI-R005" contradicted "HIGH" refs
      else finding "QCI-R005" pass "LOW" refs

-- `_is_sealed_reference_context`, and what follows it.
unfoldable pub check_context :
    Document
    → List (String × Identity)
    → Identity
    → Identity
    → Document
    → Document
    → Option ReferenceContext
    → Finding
unfolding compare_references
check_context inspection references sop_identity control_identity sop control none =
    finding "QCI-R005" unverifiable "HIGH" (evidence inspection "fields.references" ∷ [])
check_context inspection references sop_identity control_identity sop control (some context) =
    if not context.sealed
    then finding "QCI-R005" unverifiable "HIGH" (evidence inspection "fields.references" ∷ [])
    else compare_references inspection context references sop_identity control_identity sop control

module _ (context : Option ReferenceContext) (inspection sop control : Document) where
  check_roles : List (String × Identity) → Option Identity → Option Identity → Finding
  check_roles references (some sop_identity) (some control_identity) =
      check_context inspection references sop_identity control_identity sop control context
  check_roles references _ _ =
      finding "QCI-R005" unverifiable "HIGH" (evidence inspection "fields.references" ∷ [])

  unfoldable pub check_references : Option References → Finding
  unfolding check_roles check_context
  check_references none =
      finding "QCI-R005" unverifiable "HIGH" (evidence inspection "fields.references" ∷ [])
  check_references (some (legacy revisions)) =
      finding "QCI-R005" unverifiable "HIGH"
        (evidence inspection "fields.references.LEGACY_UNATTESTED" ∷ [])
  check_references (some (native references)) =
      check_roles references (lookup "SOP" references) (lookup "CONTROL_PLAN" references)

module _ (case : Case) (plan : ImpactPlan) (context : Option ReferenceContext) where
  with_documents : Option Document → Option Document → Option Document → Finding
  with_documents (some inspection) (some sop) (some control) =
      check_references context inspection sop control inspection.fields.references
  with_documents _ _ _ =
      finding "QCI-R005" unverifiable "MEDIUM"
        (case_evidence case "documents[*].document_type" ∷ [])

  unfoldable pub rule_inspection_current_references : Finding
  unfolding with_documents check_references
  rule_inspection_current_references =
      with_documents (document_by_type case "INSPECTION_RECORD") (document_by_type case "SOP")
        (document_by_type case "CONTROL_PLAN")

-- ===== src/Rules/References/Sealed.antt =====
-- QCI-R005 without a sealed context.
use qualityci.Case.{Case, Document, Identity, References, legacy, native, document_by_type}
use qualityci.Model.{unverifiable, ImpactPlan}
use qualityci.Rules.Evidence.{finding}
use qualityci.Rules.References.{
  ReferenceContext, is_sealed_reference_context, check_context, check_roles, check_references,
  with_documents, rule_inspection_current_references,
}
use qualityci.Prelude.{
  String, ◌≡◌, refl, false, Option, none, some, List, arith, nat_eq, string_eq, pair_eq,
}

module _ (context : Option ReferenceContext)
    (unsealed : is_sealed_reference_context context ≡ false) where
  check_context-unverifiable :
      (inspection : Document) (references : List (String × Identity)) (s c : Identity)
      (sop control : Document)
      → (check_context inspection references s c sop control context).status ≡ unverifiable
  unfolding check_context finding
  check_context-unverifiable inspection references s c sop control = ground arith

  check_roles-unverifiable :
      (inspection sop control : Document) (references : List (String × Identity))
      (s c : Option Identity)
      → (check_roles context inspection sop control references s c).status ≡ unverifiable
  unfolding check_roles finding
  check_roles-unverifiable inspection sop control references (some s) (some c) =
      check_context-unverifiable inspection references s c sop control
  check_roles-unverifiable inspection sop control references _ _ = refl

  check_references-unverifiable :
      (inspection sop control : Document) (references : Option References)
      → (check_references context inspection sop control references).status ≡ unverifiable
  unfolding check_references finding
  check_references-unverifiable inspection sop control none = refl
  check_references-unverifiable inspection sop control (some (legacy revisions)) = refl
  check_references-unverifiable inspection sop control (some (native references)) =
      check_roles-unverifiable inspection sop control references _ _

  with_documents-unverifiable :
      (case : Case) (plan : ImpactPlan) (i s c : Option Document)
      → (with_documents case plan context i s c).status ≡ unverifiable
  unfolding with_documents finding
  with_documents-unverifiable case plan (some i) (some s) (some c) =
      check_references-unverifiable i s c i.fields.references
  with_documents-unverifiable case plan _ _ _ = refl

  -- Whatever the documents say, QCI-R005 is unverifiable without a sealed context.
  pub rule_inspection_current_references-unverifiable :
      (case : Case) (plan : ImpactPlan)
      → (rule_inspection_current_references case plan context).status ≡ unverifiable
  unfolding rule_inspection_current_references
  rule_inspection_current_references-unverifiable case plan =
      with_documents-unverifiable case plan (document_by_type case "INSPECTION_RECORD")
        (document_by_type case "SOP") (document_by_type case "CONTROL_PLAN")

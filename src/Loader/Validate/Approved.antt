-- ===== src/Loader/Validate/Approved.antt =====
-- src/qualityci/loader.py: what a case that `validate_case` lets through is known to have.
use qualityci.Text.{TextOps, is_blank}
use qualityci.Case.{Case, Document, only, document_by_type}
use qualityci.Loader.Checks.{
  Check, for_each, when_given, require_bounded_list, require_nonempty_string,
  reject_normalized_duplicates,
}
use qualityci.Loader.Event.{
  validate_relationship_migration, validate_reference_migration, validate_validation_migration,
  validate_event,
}
use qualityci.Loader.Documents.{
  required_document_types, approved_of, approved_counts_wrong, validate_document,
  validate_documents,
}
use qualityci.Loader.Validate.{validate_case}
use qualityci.Prelude.{
  String, ◌≡◌, refl, Bool, true, false, not, some, List, [], ◌∷◌, map, arith, eq_iff, eqb, ◌==◌,
  nat_eq, string_eq, pair_eq, length, All, All-map, any-false_iff, not-false, ok, err, ◌>>◌,
  raise_if,
}

-- Of two checks in a row that raise nothing, neither raises.
both : (first second : Check) → (first >> second) ≡ ok tt → (first ≡ ok tt) × (second ≡ ok tt)
both (ok tt) second h = (refl, h)
both (err e) second h = cc

raised : (test : Bool) (message : String) → raise_if test message ≡ ok tt → test ≡ false
raised true message h = cc
raised false message h = refl

-- The approved document of the type is found.
abbrev pub HasOne : Case → String → Type 0
HasOne case type = (doc : Document) × (document_by_type case type ≡ some doc)

only-one :
    (docs : List Document) → eqb (length docs) 1 ≡ true → (doc : Document) × (only docs ≡ some doc)
only-one [] h = cc
only-one (doc ∷ []) h = (doc, refl)
only-one (doc ∷ other ∷ docs) h = absurd (ground arith)

has_one :
    (case : Case) (type : String)
    → not (eqb (length (approved_of case type)) 1) ≡ false
    → HasOne case type
unfolding document_by_type
has_one case type h = only-one (approved_of case type) (ground arith)

approved_counts-right :
    (case : Case) → approved_counts_wrong case ≡ false → All (HasOne case) required_document_types
unfolding approved_counts_wrong
approved_counts-right case h = All-map (has_one case) required_document_types (
    (any-false_iff (λ type. not (eqb (length (approved_of case type)) 1)) required_document_types).0
      h)

validate_documents-one :
    (text : TextOps) (case : Case)
    → validate_documents text case ≡ ok tt
    → All (HasOne case) required_document_types
unfolding validate_documents
validate_documents-one text case h =
    let docs = case.documents in
    let name = λ (doc : Document). doc.document_id in
    let bounded = (both (require_bounded_list 1024 docs) _ h).1 in
    let named =
      (both (for_each (λ doc. require_nonempty_string text (name doc)) docs) _ bounded).1 in
    let distinct = (both (reject_normalized_duplicates text (map name docs)) _ named).1 in
    let checked = (both (for_each (validate_document text case) docs) _ distinct).1 in
    approved_counts-right case
      (raised _ "every required document_type must have exactly one APPROVED document" checked)

-- What the later parts rely on.
pub record IsValid (text : TextOps) (case : Case) : Type 0 where
  pub current_schema : case.schema_version ≡ "qualityci-case-0.4"
  pub marked_synthetic : case.synthetic_for_competition ≡ true
  pub named : is_blank text case.case_id ≡ false
  pub approved : All (HasOne case) required_document_types

-- A case that validation lets through has the current schema version, is marked synthetic, has an id
-- that is not blank, and has for every required type exactly one approved document, which
-- `document_by_type` finds.
pub validate_case-IsValid :
    (text : TextOps) (case : Case) → validate_case text case ≡ ok tt → IsValid text case
unfolding validate_case
validate_case-IsValid text case h =
    let schema =
      both
        (raise_if (not (case.schema_version == "qualityci-case-0.4"))
          "case schema_version must be qualityci-case-0.4")
        _ h in
    let synthetic =
      both
        (raise_if (not case.synthetic_for_competition)
          "v0.2 only accepts cases explicitly marked synthetic_for_competition=true")
        _ schema.1 in
    let id = both (require_nonempty_string text case.case_id) _ synthetic.1 in
    let m1 = both (when_given case.relationship_migration validate_relationship_migration) _ id.1 in
    let m2 =
      both (when_given case.reference_migration (validate_reference_migration text)) _ m1.1 in
    let m3 =
      both (when_given case.validation_migration (validate_validation_migration text)) _ m2.1 in
    let event = both (validate_event text case.validation_migration case.event) _ m3.1 in
    record {
      current_schema =
          (eq_iff _ _).0
            ((not-false _).0 (raised _ "case schema_version must be qualityci-case-0.4" schema.0));
      marked_synthetic = (not-false _).0 (
          raised _ "v0.2 only accepts cases explicitly marked synthetic_for_competition=true"
            synthetic.0);
      named = raised _ "must be a non-empty string" id.0;
      approved = validate_documents-one text case event.1;
    }

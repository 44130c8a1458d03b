-- ===== src/Loader/Documents.antt =====
-- src/qualityci/loader.py: `validate_case`, the documents.
use qualityci.Text.{TextOps, Key, normalized_identity, relationship_key}
use qualityci.Case.{
  steps_of, Case, Document, Characteristic, Risk, Identity, References, legacy, native, Migration,
  is_approved, has_type,
}
use qualityci.Loader.Checks.{
  Check, for_each, when_given, require_given, require_enum, require_bounded_list,
  require_nonempty_string, require_string_list, reject_normalized_duplicates, codes,
  is_lower_sha256,
}
use qualityci.Prelude.{
  String, Bool, not, ◌||◌, Option, none, some, List, [], ◌∷◌, map, ltb, eqb, if◌then◌else◌, ◌==◌,
  nat_eq, string_eq, pair_eq, given, is_some_eq, length, any, keep, contains, ok, err, ◌>>◌,
  raise_if,
}

abbrev pub required_document_types : List String
required_document_types =
    "PROCESS_FLOW" ∷ "PFMEA" ∷ "CONTROL_PLAN" ∷ "SOP" ∷ "INSPECTION_RECORD" ∷ []

module _ (text : TextOps) (doc : Document) (legacy_rows : Bool) where
  abbrev step_keys : List String
  step_keys = map (normalized_identity text) (steps_of doc.fields.process_steps)

  -- The loop over the characteristics; `seen` and `controls` are the keys so far.
  unfoldable pub validate_characteristics : List Key → List String → List Characteristic → Check
  validate_characteristics seen controls [] = ok tt
  validate_characteristics seen controls (row ∷ rows) =
      let skip = validate_characteristics seen controls rows in
      let next = λ (key : Key) (control_keys : List String).
        validate_characteristics (key ∷ seen) control_keys rows in
      do
        require_nonempty_string text row.item.characteristic_id
        elim row.item.process_step_id [
          | none ↦ if legacy_rows then skip else err "process_step_id must be a non-empty string"
          | some step ↦
              let key = relationship_key text step row.item.characteristic_id in
              do
                require_nonempty_string text step
                raise_if (contains seen key) "duplicate characteristic_id relationship pairs"
                raise_if (not (contains step_keys key.0))
                    "characteristic relationship references an absent process_step_id"
                if doc.document_type == "CONTROL_PLAN"
                    then require_given row.control_id "control_id must be a non-empty string" (λ id.
                      do
                        require_nonempty_string text id
                        raise_if (contains controls (normalized_identity text id))
                            "contains duplicate normalized control_id values"
                        next key (normalized_identity text id ∷ controls))
                    else next key controls
        ]

  abbrev validate_locator : Characteristic → Check
  validate_locator row =
      require_given row.item.locator "locator must be a non-empty string"
        (require_nonempty_string text)

  -- The loop over the risks; `seen` is `failure_mode_ids`.
  unfoldable pub validate_risks : List String → List Risk → Check
  validate_risks seen [] = ok tt
  validate_risks seen (row ∷ rows) =
      let failure_mode_key = normalized_identity text row.failure_mode_id in
      do
        require_nonempty_string text row.failure_mode_id
        require_nonempty_string text row.item.characteristic_id
        require_given row.item.locator "risks missing required keys" (require_nonempty_string text)
        raise_if (contains seen failure_mode_key)
            "contains duplicate normalized failure_mode_id values"
        elim row.item.process_step_id [
          | none ↦ raise_if (not legacy_rows) "process_step_id must be a non-empty string"
          | some step ↦ do
            require_nonempty_string text step
            raise_if (not (contains step_keys (normalized_identity text step)))
                "risk relationship references an absent process_step_id"
        ]
        validate_risks (failure_mode_key ∷ seen) rows

module _ (text : TextOps) where
  abbrev validate_identity : String × Identity → Check
  validate_identity (role, identity) = do
    require_nonempty_string text identity.document_type
    require_nonempty_string text identity.document_id
    require_nonempty_string text identity.revision
    require_nonempty_string text identity.source_hash
    raise_if (not (is_lower_sha256 identity.source_hash)) "source_hash must be a lowercase SHA-256"

  abbrev validate_revision_only : String × String → Check
  validate_revision_only (role, revision) =
      raise_if (text.strip role == "" || text.strip revision == "")
        "LEGACY_UNATTESTED references must map roles to non-empty revision strings"

  abbrev check_role_names : List String → Check
  check_role_names names = do
    raise_if (any names (λ role. text.strip role == "")) "reference roles must be non-empty strings"
    reject_normalized_duplicates text names

  unfoldable pub validate_references : Option Migration → References → Check
  unfolding for_each
  validate_references reference_migration (legacy revisions) = do
    raise_if (not (given reference_migration))
        "LEGACY_UNATTESTED references require an explicit reference_migration marker"
    for_each validate_revision_only revisions
    reject_normalized_duplicates text (map (λ (e : String × String). e.0) revisions)
  validate_references reference_migration (native references) = do
    check_role_names (map (λ (e : String × Identity). e.0) references)
    raise_if (contains (map (λ (e : String × Identity). e.0) references) "LEGACY_UNATTESTED")
        "references cannot mix legacy and native identities"
    for_each validate_identity references

  abbrev contract_check : Document → Check
  contract_check doc =
      if doc.document_type == "INSPECTION_RECORD"
      then raise_if
          (not (is_some_eq doc.reference_contract_version "qualityci-controlled-reference-0.1"))
          "reference_contract_version is unsupported"
      else raise_if (given doc.reference_contract_version)
          "reference_contract_version is only valid for INSPECTION_RECORD"

  unfoldable pub validate_document : Case → Document → Check
  unfolding validate_characteristics validate_risks validate_references for_each
  validate_document case doc =
      let legacy_rows = given case.relationship_migration in
      do
        require_nonempty_string text doc.document_id
        require_nonempty_string text doc.revision
        require_nonempty_string text doc.owner
        require_nonempty_string text doc.source_hash
        raise_if (ltb 256 (length (codes doc.source_hash))) "source_hash exceeds maximum characters"
        raise_if (not (given doc.revision_date)) "revision_date must be an ISO calendar date"
        require_enum required_document_types doc.document_type
        require_enum ("DRAFT" ∷ "APPROVED" ∷ "SUPERSEDED" ∷ []) doc.status
        require_string_list text 10000 (steps_of doc.fields.process_steps)
        reject_normalized_duplicates text (steps_of doc.fields.process_steps)
        require_bounded_list 10000 doc.fields.characteristics
        validate_characteristics text doc legacy_rows [] [] doc.fields.characteristics
        for_each (validate_locator text doc legacy_rows) doc.fields.characteristics
        require_bounded_list 20000 doc.fields.risks
        validate_risks text doc legacy_rows [] doc.fields.risks
        contract_check doc
        when_given doc.fields.references (validate_references case.reference_migration)

-- `approved_counts[document_type] != 1`
abbrev pub approved_of : Case → String → List Document
approved_of case document_type = keep is_approved (keep (has_type document_type) case.documents)

unfoldable pub approved_counts_wrong : Case → Bool
approved_counts_wrong case =
    any required_document_types (λ type. not (eqb (length (approved_of case type)) 1))

-- All documents.
unfoldable pub validate_documents : TextOps → Case → Check
unfolding validate_document approved_counts_wrong for_each
validate_documents text case = do
  require_bounded_list 1024 case.documents
  for_each (λ (doc : Document). require_nonempty_string text doc.document_id) case.documents
  reject_normalized_duplicates text (map (λ (doc : Document). doc.document_id) case.documents)
  for_each (validate_document text case) case.documents
  raise_if (approved_counts_wrong case)
      "every required document_type must have exactly one APPROVED document"

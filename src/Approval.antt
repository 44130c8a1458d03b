-- ===== src/Approval.antt =====
-- src/qualityci/approval_subject.py: the assertions of an approval.
pub mod Subject
pub mod Joined
pub mod Authorized
pub mod Built
use qualityci.Json.{Json}
use qualityci.Text.{TextOps, normalized_identity, is_blank}
use qualityci.Prelude.Dict.{lookup, insert}
use qualityci.Prelude.Sorting.{text_leb, key_leb, sort}
use qualityci.Prelude.{
  ℕ, String, Bool, not, ◌&&◌, ◌||◌, Option, none, some, List, ◌∷◌, ◌++◌, ltb, leb, ◌==◌, nat_eq,
  string_eq, pair_eq, given, is_empty, any, all, keep, contains, Result, ok, err, raise_if, [],
  ◌>>=◌, ◌>>◌,
}
use qualityci.Approval.Subject.{
  ApprovalSubject, ApprovalAssertion, Codes, AuthorizationRecordClaim, AuthorizationRecordContext,
  StatelessApprovalValidation, required_role_claims, Seen, same_texts, are_unique, char_count,
  is_lower_sha, is_bound_source, check_keys, check_source, subject_hashes, subject_texts,
  canonical_roles, validate_approval_subject, approval_subject_hash,
}

module _ (text : TextOps) (codes : Codes) where
  open codes use {
    sha_subject, sha_assertion, sha_text, parse_rfc3339_utc, lower, is_base_16, source_state,
  }

  abbrev pub assertion_texts : ApprovalAssertion → List String
  assertion_texts a =
      a.assertion_contract_version ∷ a.approval_id ∷ a.approval_subject_hash ∷ a.decision
      ∷ a.approver_id_claim ∷ a.role_claim ∷ a.authorization_record_id ∷ a.authorization_record_hash
      ∷ a.issued_at ∷ a.effective_from ∷ a.expires_at ∷ []

  abbrev pub time_or_error : Option ℕ → Result String ℕ
  time_or_error none = err "must be RFC3339 UTC with Z suffix"
  time_or_error (some time) = ok time

  -- `validate_approval_assertion_shape`
  unfoldable pub validate_approval_assertion_shape : ApprovalAssertion → Result String (Unit {0})
  unfolding is_lower_sha
  validate_approval_assertion_shape a = do
    raise_if (any (assertion_texts a) (is_blank text))
        "approval assertion must be exact non-empty strings"
    raise_if (not (a.assertion_contract_version == "qualityci-approval-assertion-0.1"))
        "unsupported approval assertion contract_version"
    raise_if (not (a.decision == "APPROVED")) "approval assertion decision must be APPROVED"
    raise_if (not (contains required_role_claims a.role_claim))
        "approval assertion role_claim is unsupported"
    raise_if
        (not (
          is_lower_sha text codes a.approval_subject_hash
          && is_lower_sha text codes a.authorization_record_hash))
        "approval assertion must be a lowercase SHA-256"
    effective ← time_or_error (parse_rfc3339_utc a.effective_from)
    issued ← time_or_error (parse_rfc3339_utc a.issued_at)
    expires ← time_or_error (parse_rfc3339_utc a.expires_at)
    raise_if (not (leb effective issued && leb issued expires))
        "approval assertion static time window mismatch"

  -- `approval_assertion_hash`
  unfoldable pub approval_assertion_hash : ApprovalAssertion → Result String String
  unfolding validate_approval_assertion_shape
  approval_assertion_hash a = do validate_approval_assertion_shape a; ok (sha_assertion a)

  -- The records by their normalized ids.
  unfoldable pub index_records :
      List AuthorizationRecordClaim
      → List (String × AuthorizationRecordClaim)
      → Result String (List (String × AuthorizationRecordClaim))
  unfolding lookup insert
  index_records [] found = ok found
  index_records (r ∷ records) found = do
    raise_if (given (lookup (normalized_identity text r.record_id) found))
        "authorization records contain normalized duplicate IDs"
    index_records records (insert (normalized_identity text r.record_id) r found)

  abbrev pub claim_or_error :
      Option AuthorizationRecordClaim → Result String AuthorizationRecordClaim
  claim_or_error none = err "approval assertion authorization record is missing"
  claim_or_error (some r) = ok r

  -- The join of an assertion with its record.
  unfoldable pub is_joined : ApprovalSubject → ApprovalAssertion → AuthorizationRecordClaim → Bool
  is_joined s a r =
      a.authorization_record_id == r.record_id
      && a.authorization_record_hash == r.content_hash
      && a.approver_id_claim == r.approver_id_claim
      && a.role_claim == r.role_claim
      && r.purpose_code == s.purpose_code
      && r.scope_code == s.scope_code
      && a.effective_from == r.effective_from
      && a.expires_at == r.expires_at

  -- One round of the loop over the assertions.
  unfoldable pub check_assertion :
      ApprovalSubject
      → String
      → List (String × AuthorizationRecordClaim)
      → Seen
      → ApprovalAssertion
      → Result String Seen
  unfolding is_joined lookup approval_assertion_hash
  check_assertion s subject_hash records seen a = do
    validate_approval_assertion_shape a
    raise_if (contains seen.approval_ids (normalized_identity text a.approval_id))
        "approval assertions contain normalized duplicate approval_id"
    raise_if (not (a.approval_subject_hash == subject_hash))
        "approval assertion is bound to a different subject"
    raise_if (not (contains s.required_role_claims a.role_claim))
        "approval assertion role is not required by the subject"
    raise_if (contains seen.roles a.role_claim) "approval assertions contain duplicate role claims"
    r ← claim_or_error (lookup (normalized_identity text a.authorization_record_id) records)
    raise_if (not (is_joined s a r)) "approval assertion authorization record join mismatch"
    hash ← approval_assertion_hash a
    ok (record {
      approval_ids = normalized_identity text a.approval_id ∷ seen.approval_ids;
      roles = a.role_claim ∷ seen.roles;
      hashes = seen.hashes ++ (hash ∷ []);
    })

  unfoldable pub check_assertions :
      ApprovalSubject
      → String
      → List (String × AuthorizationRecordClaim)
      → Seen
      → List ApprovalAssertion
      → Result String Seen
  unfolding check_assertion
  check_assertions s subject_hash records seen [] = ok seen
  check_assertions s subject_hash records seen (a ∷ assertions) = do
    next ← check_assertion s subject_hash records seen a
    check_assertions s subject_hash records next assertions

  -- `validate_approval_assertions`
  unfoldable pub validate_approval_assertions :
      ApprovalSubject
      → List ApprovalAssertion
      → AuthorizationRecordContext
      → Result String StatelessApprovalValidation
  unfolding approval_subject_hash index_records check_assertions sort
  validate_approval_assertions s assertions context = do
    validate_approval_subject text codes s
    subject_hash ← approval_subject_hash text codes s
    raise_if (is_empty assertions) "native approval requires explicit assertions"
    raise_if (not context.is_sealed)
        "native approval requires an exact sealed authorization context"
    records ← index_records context.records []
    seen ←
        check_assertions s subject_hash records
          (record { approval_ids = []; roles = []; hashes = [] }) assertions
    raise_if
        (not (
          all s.required_role_claims (contains seen.roles)
          && all seen.roles (contains s.required_role_claims)))
        "native approval is missing required role assertions"
    raise_if (not (are_unique seen.hashes)) "approval assertions contain duplicate hashes"
    ok (record {
      subject_hash = subject_hash;
      assertion_hashes = sort text_leb seen.hashes;
      approved_roles = sort text_leb seen.roles;
      authorization_record_set_hash = context.record_set_hash;
      authorization_record_set_contract_version = context.contract_version;
    })

  abbrev pub only_record : List AuthorizationRecordClaim → Result String AuthorizationRecordClaim
  only_record (r ∷ []) = ok r
  only_record _ = err "authorization record binding is missing or ambiguous"

  -- `_authorization_record_binding`, with `AuthorizationRecordContext.record`
  unfoldable pub authorization_record_binding :
      AuthorizationRecordContext → String → String → Result String AuthorizationRecordClaim
  unfolding is_lower_sha
  authorization_record_binding context record_id content_hash = do
    raise_if (not context.is_sealed) "authorization record context is not exact and sealed"
    raise_if (is_blank text record_id || not (is_lower_sha text codes content_hash))
        "authorization lookup must be exact"
    r ←
        only_record
          (keep (λ r. r.record_id == record_id && r.content_hash == content_hash) context.records)
    raise_if
        (not (r.purpose_code == "APPLY_APPROVED_RESOLUTION" && r.scope_code == "EXACT_SUBJECT"))
        "authorization purpose/scope claim is unsupported"
    effective ← time_or_error (parse_rfc3339_utc r.effective_from)
    expires ← time_or_error (parse_rfc3339_utc r.expires_at)
    raise_if (ltb expires effective) "authorization expires_at precedes effective_from"
    ok r

  -- The assertion that a record gives for a subject.
  abbrev pub assertion_of :
      String → String → String → String → AuthorizationRecordClaim → ApprovalAssertion
  assertion_of subject_hash id issued decision r = record {
    assertion_contract_version = "qualityci-approval-assertion-0.1";
    approval_id = id;
    approval_subject_hash = subject_hash;
    decision = decision;
    approver_id_claim = r.approver_id_claim;
    role_claim = r.role_claim;
    authorization_record_id = r.record_id;
    authorization_record_hash = r.content_hash;
    issued_at = issued;
    effective_from = r.effective_from;
    expires_at = r.expires_at;
  }

  -- `build_approval_assertion`
  unfoldable pub build_approval_assertion :
      ApprovalSubject
      → String
      → AuthorizationRecordContext
      → String
      → String
      → String
      → String
      → Result String ApprovalAssertion
  unfolding approval_subject_hash authorization_record_binding validate_approval_assertion_shape
  build_approval_assertion s id context record_id record_hash issued decision = do
    subject_hash ← approval_subject_hash text codes s
    r ← authorization_record_binding context record_id record_hash
    raise_if (is_blank text id) "approval_id must be an exact non-empty string"
    validate_approval_assertion_shape (assertion_of subject_hash id issued decision r)
    ok (assertion_of subject_hash id issued decision r)

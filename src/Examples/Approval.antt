-- ===== src/Examples/Approval.antt =====
-- A subject with an assertion of each role, and the theorems on approvals applied to them.
use qualityci.Text.{is_blank, normalized_identity, concat, join}
use qualityci.Prelude.Dict.{lookup, insert}
use qualityci.Prelude.Sorting.{sort, insert_sorted}
use qualityci.Approval.Subject.{
  ApprovalSubject, char_count, ApprovalAssertion, Codes, AuthorizationRecordClaim,
  AuthorizationRecordContext, StatelessApprovalValidation, required_role_claims, is_lower_sha,
  validate_approval_subject, approval_subject_hash,
}
use qualityci.Approval.{
  validate_approval_assertion_shape, approval_assertion_hash, index_records, is_joined,
  check_assertion, check_assertions, validate_approval_assertions, authorization_record_binding,
  build_approval_assertion, assertion_of,
}
use qualityci.Approval.Joined.{IsAuthorized}
use qualityci.Approval.Authorized.{AreAuthorized, validate_approval_assertions-AreAuthorized}
use qualityci.Approval.Built.{build_approval_assertion-IsAuthorized}
use qualityci.Examples.Data.{plain_text, sha}
use qualityci.Prelude.{
  String, ◌≡◌, refl, true, none, some, List, [], ◌∷◌, ◌==◌, nat_eq, string_eq, pair_eq, keep, ok,
  err,
}

-- Every text has one digest but for the assertions, whose digests are their ids.
abbrev codes : Codes
codes = record {
  sha_subject = λ legacy s. sha;
  sha_assertion = λ a. a.approval_id;
  sha_text = λ s. sha;
  parse_rfc3339_utc = λ s. some 1;
  lower = λ s. s;
  is_base_16 = λ s. true;
  source_state = λ source. none;
}

abbrev subject : ApprovalSubject
subject = record {
  contract_version = "qualityci-approval-subject-0.1";
  purpose_code = "APPLY_APPROVED_RESOLUTION";
  scope_code = "EXACT_SUBJECT";
  purpose_text = "tighten the limit";
  purpose_text_hash = sha;
  resolution_id = "RES-1";
  resolution_description_hash = sha;
  operations_hash = sha;
  case_id = "CASE-1";
  event_id = "EV-1";
  event_revision = "A";
  pre_case_subject_hash = sha;
  artifact_subject_hash = sha;
  controlled_reference_policy_hash = sha;
  validation_approval_policy_hash = sha;
  approval_policy_version = "qualityci-approval-policy-0.1";
  required_role_claims = required_role_claims;
  use_policy = "SINGLE_REPLAY";
  execution_nonce = "nonce";
  pre_case_source = none;
}

abbrev claim : String → String → AuthorizationRecordClaim
claim id role = record {
  record_id = id;
  content_hash = sha;
  approver_id_claim = "person";
  role_claim = role;
  purpose_code = "APPLY_APPROVED_RESOLUTION";
  scope_code = "EXACT_SUBJECT";
  effective_from = "2026-01-01T00:00:00Z";
  expires_at = "2026-01-01T00:00:00Z";
}

abbrev context : AuthorizationRecordContext
context = record {
  contract_version = "1";
  record_set_hash = sha;
  records = claim "REC-1" "PROCESS_OWNER" ∷ claim "REC-2" "QUALITY_MANAGER" ∷ [];
  is_sealed = true;
}

abbrev assertions : List ApprovalAssertion
assertions =
    assertion_of plain_text codes sha "APP-1" "2026-01-01T00:00:00Z" "APPROVED"
      (claim "REC-1" "PROCESS_OWNER")
    ∷ assertion_of plain_text codes sha "APP-2" "2026-01-01T00:00:00Z" "APPROVED"
        (claim "REC-2" "QUALITY_MANAGER")
    ∷ []

abbrev validation : StatelessApprovalValidation
validation = record {
  subject_hash = sha;
  assertion_hashes = "APP-1" ∷ "APP-2" ∷ [];
  approved_roles = required_role_claims;
  authorization_record_set_hash = sha;
  authorization_record_set_contract_version = "1";
}

validated : validate_approval_assertions plain_text codes subject assertions context ≡ ok validation
unfolding validate_approval_assertions validate_approval_subject approval_subject_hash index_records
    check_assertions check_assertion approval_assertion_hash validate_approval_assertion_shape
    is_joined is_lower_sha char_count is_blank normalized_identity concat join sort insert_sorted
    lookup insert
validated = refl

-- Without the second assertion a role is missing.
missing_role :
    validate_approval_assertions plain_text codes subject
      (keep (λ a. a.role_claim == "PROCESS_OWNER") assertions)
      context
    ≡ err "native approval is missing required role assertions"
unfolding validate_approval_assertions validate_approval_subject approval_subject_hash index_records
    check_assertions check_assertion approval_assertion_hash validate_approval_assertion_shape
    is_joined is_lower_sha char_count is_blank normalized_identity concat join sort insert_sorted
    lookup insert
missing_role = refl

validate_approval_assertions-AreAuthorized_example :
    AreAuthorized plain_text codes subject assertions context sha
validate_approval_assertions-AreAuthorized_example =
    validate_approval_assertions-AreAuthorized plain_text codes subject assertions context
      validation validated

abbrev built : ApprovalAssertion
built =
    assertion_of plain_text codes sha "APP-1" "2026-01-01T00:00:00Z" "APPROVED"
      (claim "REC-1" "PROCESS_OWNER")

builds :
    build_approval_assertion plain_text codes subject "APP-1" context "REC-1" sha
      "2026-01-01T00:00:00Z" "APPROVED"
    ≡ ok built
unfolding build_approval_assertion authorization_record_binding validate_approval_subject
    approval_subject_hash validate_approval_assertion_shape is_lower_sha char_count is_blank
    normalized_identity concat join sort insert_sorted
builds = refl

build_approval_assertion-IsAuthorized_example :
    (approval_subject_hash plain_text codes subject ≡ ok sha)
    × (context.is_sealed ≡ true)
    × IsAuthorized plain_text codes subject sha context.records built
build_approval_assertion-IsAuthorized_example =
    build_approval_assertion-IsAuthorized plain_text codes subject "APP-1" context "REC-1" sha
      "2026-01-01T00:00:00Z" "APPROVED" built builds

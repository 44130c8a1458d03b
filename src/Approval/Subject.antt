-- ===== src/Approval/Subject.antt =====
-- src/qualityci/approval_subject.py: the records of an approval, and the validation of its subject.
use qualityci.Json.{Json}
use qualityci.Text.{TextOps, normalized_identity, is_blank}
use qualityci.Prelude.Sorting.{key_leb, sort}
use qualityci.Prelude.{
  ℕ, suc, String, Bool, true, false, not, ◌&&◌, ◌||◌, Option, none, some, List, [], ◌∷◌, ◌++◌, map,
  eqb, if◌then◌else◌, ◌==◌, nat_eq, string_eq, pair_eq, given, any, all, contains, Result, ok, err,
  ◌>>◌, raise_if,
}

pub record ApprovalSubject : Type 0 where
  pub contract_version : String
  pub purpose_code : String
  pub scope_code : String
  pub purpose_text : String
  pub purpose_text_hash : String
  pub resolution_id : String
  pub resolution_description_hash : String
  pub operations_hash : String
  pub case_id : String
  pub event_id : String
  pub event_revision : String
  pub pre_case_subject_hash : String
  pub artifact_subject_hash : String
  pub controlled_reference_policy_hash : String
  pub validation_approval_policy_hash : String
  pub approval_policy_version : String
  pub required_role_claims : List String
  pub use_policy : String
  pub execution_nonce : String
  pub pre_case_source : Option Json

pub record ApprovalAssertion : Type 0 where
  pub assertion_contract_version : String
  pub approval_id : String
  pub approval_subject_hash : String
  pub decision : String
  pub approver_id_claim : String
  pub role_claim : String
  pub authorization_record_id : String
  pub authorization_record_hash : String
  pub issued_at : String
  pub effective_from : String
  pub expires_at : String

-- The libraries: SHA-256 with a domain over canonical JSON, RFC 3339, `str.lower`, `int(_, 16)`, and the
-- state of a case source (case_source_assurance.py).
pub record Codes : Type 0 where
  pub sha_subject : Bool → ApprovalSubject → String
  pub sha_assertion : ApprovalAssertion → String
  pub sha_text : String → String
  pub parse_rfc3339_utc : String → Option ℕ
  pub lower : String → String
  pub is_base_16 : String → Bool
  pub source_state : Json → Option String

-- `AuthorizationRecordClaim` and the context of them (authorization_records.py).
pub record AuthorizationRecordClaim : Type 0 where
  pub record_id : String
  pub content_hash : String
  pub approver_id_claim : String
  pub role_claim : String
  pub purpose_code : String
  pub scope_code : String
  pub effective_from : String
  pub expires_at : String

pub record AuthorizationRecordContext : Type 0 where
  pub contract_version : String
  pub record_set_hash : String
  pub records : List AuthorizationRecordClaim
  pub is_sealed : Bool

pub record StatelessApprovalValidation : Type 0 where
  pub subject_hash : String
  pub assertion_hashes : List String
  pub approved_roles : List String
  pub authorization_record_set_hash : String
  pub authorization_record_set_contract_version : String

-- `sorted(APPROVAL_REQUIRED_ROLE_CLAIMS)`
abbrev pub required_role_claims : List String
required_role_claims = "PROCESS_OWNER" ∷ "QUALITY_MANAGER" ∷ []

-- What the source keeps of a loop over the assertions.
pub record Seen : Type 0 where
  pub approval_ids : List String
  pub roles : List String
  pub hashes : List String

abbrev pub same_texts : List String → List String → Bool
same_texts [] [] = true
same_texts (s ∷ ss) (t ∷ ts) = s == t && same_texts ss ts
same_texts _ _ = false

-- `len(set(xs)) == len(xs)`
abbrev pub are_unique : List String → Bool
are_unique [] = true
are_unique (s ∷ ss) = not (contains ss s) && are_unique ss

unfoldable pub char_count : String → ℕ
char_count String.[] = 0
char_count (String.◌∷◌ c s) = suc (char_count s)

module _ (text : TextOps) (codes : Codes) where
  open codes use {
    sha_subject, sha_assertion, sha_text, parse_rfc3339_utc, lower, is_base_16, source_state,
  }

  -- `_lower_sha`
  unfoldable pub is_lower_sha : String → Bool
  unfolding char_count
  is_lower_sha s = not (is_blank text s) && eqb (char_count s) 64 && s == lower s && is_base_16 s

  abbrev pub is_bound_source : Option String → Bool
  is_bound_source none = false
  is_bound_source (some state) =
      state == "BOUND_RAW_SOURCE_CASE" || state == "SOURCE_ROOTED_DERIVATION"

  -- A subject has a source in the version with one, and none in the legacy version.
  abbrev pub check_keys : ApprovalSubject → Result String (Unit {0})
  check_keys s =
      if s.contract_version == "qualityci-approval-subject-0.1"
      then raise_if (given s.pre_case_source)
          "approval subject must contain the exact versioned key set"
      else if s.contract_version == "qualityci-approval-subject-0.2"
      then raise_if (not (given s.pre_case_source))
          "approval subject must contain the exact versioned key set"
      else err "unsupported approval subject contract_version"

  abbrev pub check_source : Option Json → Result String (Unit {0})
  check_source none = ok tt
  check_source (some source) =
      raise_if (not (is_bound_source (source_state source)))
        "approval subject pre_case_source must be BOUND or SOURCE_ROOTED"

  -- The hashes of a subject, and its other texts.
  abbrev pub subject_hashes : ApprovalSubject → List String
  subject_hashes s =
      s.purpose_text_hash ∷ s.resolution_description_hash ∷ s.operations_hash
      ∷ s.pre_case_subject_hash ∷ s.artifact_subject_hash ∷ s.controlled_reference_policy_hash
      ∷ s.validation_approval_policy_hash ∷ []

  abbrev pub subject_texts : ApprovalSubject → List String
  subject_texts s =
      s.contract_version ∷ s.purpose_code ∷ s.scope_code ∷ s.purpose_text ∷ s.resolution_id
      ∷ s.case_id ∷ s.event_id ∷ s.event_revision ∷ s.approval_policy_version ∷ s.use_policy
      ∷ s.execution_nonce ∷ []

  abbrev pub canonical_roles : List String → List String
  canonical_roles roles =
      sort (λ a b. key_leb (normalized_identity text a, a) (normalized_identity text b, b)) roles

  -- `validate_approval_subject`, without an expected subject
  unfoldable pub validate_approval_subject : ApprovalSubject → Result String (Unit {0})
  unfolding is_lower_sha sort
  validate_approval_subject s = do
    check_keys s
    raise_if (any (subject_texts s ++ subject_hashes s) (is_blank text))
        "approval subject must be exact non-empty strings"
    raise_if (not (all (subject_hashes s) is_lower_sha))
        "approval subject must be a lowercase SHA-256"
    check_source s.pre_case_source
    raise_if (not (s.purpose_code == "APPLY_APPROVED_RESOLUTION"))
        "unsupported approval purpose_code"
    raise_if (not (s.scope_code == "EXACT_SUBJECT")) "unsupported approval scope_code"
    raise_if (not (s.approval_policy_version == "qualityci-approval-policy-0.1"))
        "unsupported approval_policy_version"
    raise_if (not (s.use_policy == "SINGLE_REPLAY")) "unsupported approval use_policy"
    raise_if (any s.required_role_claims (is_blank text))
        "required_role_claims must be an exact string array"
    raise_if
        (not (
          same_texts s.required_role_claims (canonical_roles s.required_role_claims)
          && are_unique (map (normalized_identity text) s.required_role_claims)))
        "required_role_claims must be canonical and unique"
    raise_if (not (same_texts s.required_role_claims required_role_claims))
        "required_role_claims must exactly match the approval policy roles"
    raise_if
        (not (
          s.purpose_text_hash == sha_text s.purpose_text
          && s.resolution_description_hash == sha_text s.purpose_text))
        "approval subject captured purpose text hash mismatch"

  -- `approval_subject_hash`
  unfoldable pub approval_subject_hash : ApprovalSubject → Result String String
  unfolding validate_approval_subject
  approval_subject_hash s = do
    validate_approval_subject s
    ok (sha_subject (s.contract_version == "qualityci-approval-subject-0.1") s)

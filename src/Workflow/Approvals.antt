-- ===== src/Workflow/Approvals.antt =====
-- src/qualityci/workflow.py: `_approved_roles` and `_validate_resolution_approvals`.
pub mod Bound
use qualityci.Rules.Evidence.{get_or}
use qualityci.Prelude.{
  String, Bool, not, ◌&&◌, ◌||◌, Option, none, some, List, ◌∷◌, map, nat_eq, string_eq, pair_eq,
  given, is_some_eq, is_empty, keep, contains, Result, ok, err, ◌>>◌, raise_if, [], ◌>>=◌,
}

-- The errors of the workflow: `ApprovalGateError`, its subclass `ArtifactGateError`, and what the
-- functions that it calls raise and it does not catch.
pub data GateError : Type 0 where
  approval_gate : String → GateError
  artifact_gate : String → GateError
  uncaught : String → GateError

-- A record of `approvals`. A key that is absent is `none`.
pub record Approval : Type 0 where
  pub role : Option String
  pub decision : Option String
  pub case_id : Option String
  pub event_id : Option String
  pub event_revision : Option String
  pub approved_case_hash : Option String
  pub approved_patch_hash : Option String

-- The fields of the approval subject that an approval has to repeat.
pub record Binding : Type 0 where
  pub case_id : String
  pub event_id : String
  pub event_revision : String
  pub approved_case_hash : String

abbrev pub required_roles : List String
required_roles = "QUALITY_MANAGER" ∷ "PROCESS_OWNER" ∷ []

abbrev pub role_of : Approval → String
role_of item = get_or item.role ""

module _ (subject : Binding) (patch_hash : String) where
  -- The condition of the set comprehension of `_approved_roles`.
  unfoldable pub counts : Approval → Bool
  counts item =
      given item.role
      && contains required_roles (role_of item)
      && is_some_eq item.decision "APPROVED"
      && is_some_eq item.case_id subject.case_id
      && is_some_eq item.event_id subject.event_id
      && is_some_eq item.event_revision subject.event_revision
      && is_some_eq item.approved_case_hash subject.approved_case_hash
      && is_some_eq item.approved_patch_hash patch_hash

  -- `_approved_roles`: a set, as the list of the roles of the records that count.
  unfoldable pub approved_roles : List Approval → List String
  unfolding counts
  approved_roles approvals = map role_of (keep counts approvals)

  abbrev pub lacks_field : Approval → Bool
  lacks_field item = not (
      given item.role
      && given item.decision
      && given item.case_id
      && given item.event_id
      && given item.event_revision
      && given item.approved_case_hash
      && given item.approved_patch_hash)

  -- One round of the loop of `_validate_resolution_approvals`.
  unfoldable pub check_approval : List String → Approval → Result GateError (Unit {0})
  check_approval seen_roles item = do
    raise_if (lacks_field item) (approval_gate "missing fields")
    raise_if (not (contains required_roles (role_of item))) (approval_gate "unauthorized-role")
    raise_if (contains seen_roles (role_of item)) (approval_gate "duplicate approval role")
    raise_if (not (is_some_eq item.decision "APPROVED")) (approval_gate "decision is not APPROVED")
    raise_if
        (not (is_some_eq item.case_id subject.case_id)
          || not (is_some_eq item.event_id subject.event_id))
        (approval_gate "approval is bound to a different case/event subject")
    raise_if (not (is_some_eq item.event_revision subject.event_revision))
        (approval_gate "approval is bound to a different event revision")
    raise_if (not (is_some_eq item.approved_case_hash subject.approved_case_hash))
        (approval_gate "approval is bound to a different exact case snapshot")
    raise_if (not (is_some_eq item.approved_patch_hash patch_hash))
        (approval_gate "approval patch hash does not bind the supplied operations")

  -- The loop.
  unfoldable pub check_approvals : List String → List Approval → Result GateError (Unit {0})
  unfolding check_approval
  check_approvals seen_roles [] = ok tt
  check_approvals seen_roles (item ∷ items) =
      check_approval seen_roles item >> check_approvals (role_of item ∷ seen_roles) items

  -- `_validate_resolution_approvals`
  unfoldable pub validate_resolution_approvals :
      Option (List Approval) → Result GateError (List String)
  unfolding check_approvals approved_roles
  validate_resolution_approvals none = err (approval_gate "approvals must be a non-empty list")
  validate_resolution_approvals (some approvals) = do
    raise_if (is_empty approvals) (approval_gate "approvals must be a non-empty list")
    check_approvals [] approvals
    ok (approved_roles approvals)

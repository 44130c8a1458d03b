-- ===== src/Workflow/Attest.antt =====
-- src/qualityci/workflow.py: `_attest_approved_resolution`, with `_resolved_case_from_context` and
-- `_subject_from_context`.
pub mod Authorized
use qualityci.Json.{Json}
use qualityci.Text.{TextOps}
use qualityci.Case.{Case}
use qualityci.Prelude.Sorting.{sorted_set}
use qualityci.Loader.Validate.{validate_case}
use qualityci.Rules.References.{ReferenceContext}
use qualityci.Rules.HighRiskApproval.{is_risk_level}
use qualityci.Rules.RevisionDates.{nonblank, has_required_roles}
use qualityci.Engine.{Hashes}
use qualityci.Workflow.Approvals.{
  GateError, approval_gate, artifact_gate, uncaught, Approval, Binding,
  validate_resolution_approvals,
}
use qualityci.Workflow.Operations.{
  Operation, validate_resolution_operations, validate_resolution_operation_paths,
}
use qualityci.Prelude.{
  String, Bool, not, ◌&&◌, Option, none, some, List, nat_eq, string_eq, pair_eq, is_some_eq,
  is_empty, all, contains, Result, ok, err, ◌>>◌, raise_if, on_error, ◌>>=◌,
}

-- The part of an artifact context that the workflow reads; `indexed` are the document ids of its
-- index.
pub record ArtifactContext : Type 0 where
  pub replacement_set_id : String
  pub artifact_set_hash : String
  pub indexed : List String
  pub reference_context : Option ReferenceContext
  pub artifact_contract_version : String
  pub case_schema_version : String
  pub parser_contract_version : String
  pub mapping_contract_version : String
  pub security_root_policy_version : String

-- A resolution. A key that is absent is `none`.
pub record Resolution : Type 0 where
  pub resolution_id : Option String
  pub description : Option String
  pub replacement_set_id : Option String
  pub operations : Option (List Operation)
  pub approvals : Option (List Approval)

-- The approval subject; its binding is what an approval repeats.
pub record Subject : Type 0 where
  pub resolution_id : Option String
  pub binding : Binding
  pub operations : List Operation
  pub context : ArtifactContext
  pub validation_policy : Json

-- How the rebuilding of the resolved case fails: a blocked resolution, another fault of the
-- artifacts, or an error of Python.
pub data ResolveError : Type 0 where
  blocked : String → ResolveError
  artifact_fault : String → ResolveError
  python_error : String → ResolveError

-- The code of the other modules that the gate calls: the preparation of the contexts, the rebuilding
-- of the resolved case, the validation policy and the hash of a subject.
pub record Services : Type 0 where
  pub prepare_reference_context : Result String ReferenceContext
  pub prepare_artifact_context : Case → List Operation → Result String ArtifactContext
  pub resolve_case : Case → String → List Operation → ArtifactContext → Result ResolveError Case
  pub validation_policy : Case → Case → Json
  pub subject_hash : Subject → String

pub record Attested : Type 0 where
  pub resolved_case : Case
  pub roles : List String
  pub context : ArtifactContext
  pub before_reference_context : ReferenceContext
  pub subject : Subject
  pub patch_hash : String

-- A string that is there and is not blank.
abbrev pub require_text : TextOps → Option String → String → Result GateError String
require_text text none message = err (approval_gate message)
require_text text (some value) message =
    raise_if (not (nonblank text (some value))) (approval_gate message) >> ok value

-- `set(xs) != set(ys)`
abbrev pub sets_differ : List String → List String → Bool
sets_differ xs ys = not (all xs (contains ys) && all ys (contains xs))

-- `_resolved_case_from_context` and the two handlers round it.
abbrev pub resolve_error : ResolveError → GateError
resolve_error (blocked message) = approval_gate message
resolve_error (artifact_fault message) = artifact_gate message
resolve_error (python_error message) = approval_gate message

-- A context given from outside, with whether it matches the artifact bundle.
abbrev pub GivenContext : Type 0
GivenContext = Option (ArtifactContext × Bool)

module _ (text : TextOps) (hashes : Hashes) (services : Services) where
  -- The context: prepared, or the one given, if it matches the bundle and covers the operations.
  unfoldable pub artifact_context :
      Case → List Operation → GivenContext → Result String ArtifactContext
  artifact_context case operations none = services.prepare_artifact_context case operations
  artifact_context case operations (some (context, matches)) = do
    raise_if (not matches) "internal artifact context has an invalid type"
    touched ← validate_resolution_operation_paths text operations
    raise_if (sets_differ touched context.indexed)
        "internal artifact context does not cover the exact operations"
    ok context

  -- The first `try` block.
  unfoldable pub checked_context :
      Case → Resolution → List Operation → GivenContext → Result String ArtifactContext
  unfolding artifact_context
  checked_context case resolution operations given_context = do
    _ ← validate_resolution_operation_paths text operations
    context ← artifact_context case operations given_context
    raise_if (not (is_some_eq resolution.replacement_set_id context.replacement_set_id))
        "resolution replacement_set_id does not match captured artifact bundle"
    ok context

  -- `_subject_from_context`
  abbrev pub subject_from_context :
      Resolution → Case → Case → List Operation → ArtifactContext → Subject
  subject_from_context resolution case resolved operations context = record {
    resolution_id = resolution.resolution_id;
    binding = record {
      case_id = case.case_id;
      event_id = case.event.event_id;
      event_revision = case.event.revision;
      approved_case_hash = hashes.canonical_hash case;
    };
    operations = operations;
    context = context;
    validation_policy = services.validation_policy case resolved;
  }

  -- The gate itself: the approvals, and both roles for a high risk.
  unfoldable pub approved :
      Option String → Option (List Approval) → Subject → Result GateError (List String)
  approved risk_level approvals subject = do
    roles ← validate_resolution_approvals subject.binding (services.subject_hash subject) approvals
    raise_if (is_empty roles) (approval_gate "no authorized-role approval is bound")
    raise_if (is_some_eq risk_level "HIGH" && not (has_required_roles roles))
        (approval_gate "missing current-event, patch-bound approvals")
    ok (sorted_set roles)

  -- `_attest_approved_resolution`
  unfoldable pub attest_approved_resolution :
      Case → Resolution → GivenContext → Result GateError Attested
  unfolding checked_context approved
  attest_approved_resolution case resolution given_context = do
    on_error uncaught (validate_case text case)
    before ← on_error uncaught services.prepare_reference_context
    raise_if (not (is_risk_level case.event.risk_level))
        (approval_gate "event risk_level is missing or unsupported")
    resolution_id ← require_text text resolution.resolution_id "resolution_id is missing"
    _ ← require_text text resolution.description "description must be a non-empty string"
    operations ← validate_resolution_operations text resolution.operations
    context ← on_error artifact_gate (checked_context case resolution operations given_context)
    resolved ← on_error resolve_error (services.resolve_case case resolution_id operations context)
    let subject = subject_from_context resolution case resolved operations context
    roles ← approved case.event.risk_level resolution.approvals subject
    ok (record {
      resolved_case = resolved;
      roles = roles;
      context = context;
      before_reference_context = before;
      subject = subject;
      patch_hash = services.subject_hash subject;
    })

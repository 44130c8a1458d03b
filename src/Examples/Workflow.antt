-- ===== src/Examples/Workflow.antt =====
-- A resolution of the small case with two approvals, and the theorems on the workflow applied to it.
use qualityci.Text.{normalized_identity, is_blank}
use qualityci.Prelude.Dict.{lookup, insert}
use qualityci.Prelude.Sorting.{sorted_set}
use qualityci.Json.{null}
use qualityci.Case.{Case}
use qualityci.Rules.ValidationEvidence.{ValidationContext}
use qualityci.Engine.{run_of, evaluate_case, run_case_with_reference_context}
use qualityci.Workflow.Approvals.{
  Approval, Binding, role_of, counts, approved_roles, check_approval, check_approvals,
  validate_resolution_approvals,
}
use qualityci.Workflow.Approvals.Bound.{IsBound, AllNew, validate_resolution_approvals_iff}
use qualityci.Workflow.Operations.{
  Operation, check_operation, validate_resolution_operations, check_native_operation,
  validate_native_resolution_operations, split_path, is_path_segment, is_unsafe_segment, check_path,
  touch, touch_all, validate_resolution_operation_paths,
}
use qualityci.Workflow.Operations.Native.{IsNativeSet, validate_native_resolution_operations_iff}
use qualityci.Workflow.Operations.Paths.{
  TouchesFact, Names, validate_resolution_operation_paths-TouchesFact,
}
use qualityci.Workflow.Attest.{
  ArtifactContext, Resolution, Services, Attested, artifact_context, checked_context, approved,
  attest_approved_resolution, subject_from_context,
}
use qualityci.Workflow.Attest.Authorized.{
  AreBound, EnoughRoles, IsAbout, attest_approved_resolution-AreBound,
}
use qualityci.Run.{RunResult}
use qualityci.Workflow.Replay.{
  BaselineRecord, ReplayResult, ReplayHashes, ReplayInput, run_after, baseline_of,
  replay_attested_resolution, replay_with_validated_native_approval,
}
use qualityci.Workflow.Replay.Baseline.{
  IsBaselineOf, replay_attested_resolution-IsBaselineOf,
  replay_attested_resolution-needs_references,
}
use qualityci.Workflow.Replay.Admitted.{
  IsAdmitted, replay_with_validated_native_approval-IsAdmitted,
}
use qualityci.Examples.Rules.{program}
use qualityci.Examples.Data.{plain_text, fixed_hashes, sha, sample, event, references, validation}
use qualityci.Prelude.{
  String, ◌≡◌, refl, true, false, none, some, List, [], ◌∷◌, map, nat_eq, string_eq, pair_eq, given,
  is_empty, All, Result, ok, each,
}

abbrev subject : Binding
subject = record {
  case_id = sample.case_id;
  event_id = event.event_id;
  event_revision = event.revision;
  approved_case_hash = sha;
}

abbrev approval_by : String → Approval
approval_by role = record {
  role = some role;
  decision = some "APPROVED";
  case_id = some sample.case_id;
  event_id = some event.event_id;
  event_revision = some event.revision;
  approved_case_hash = some sha;
  approved_patch_hash = some "patch";
}

abbrev approvals : List Approval
approvals = approval_by "QUALITY_MANAGER" ∷ approval_by "PROCESS_OWNER" ∷ []

abbrev operations : List Operation
operations =
    record {
      op = some "set";
      target = none;
      document_id = some "SOP";
      path = some "fields.limits";
      value = some null;
      other_keys = [];
    }
    ∷ []

abbrev context : ArtifactContext
context = record {
  replacement_set_id = "SET-1";
  artifact_set_hash = sha;
  indexed = "SOP" ∷ [];
  reference_context = some references;
  artifact_contract_version = "1";
  case_schema_version = "1";
  parser_contract_version = "1";
  mapping_contract_version = "1";
  security_root_policy_version = "1";
}

abbrev resolution : Resolution
resolution = record {
  resolution_id = some "RES-1";
  description = some "limits aligned";
  replacement_set_id = some "SET-1";
  operations = some operations;
  approvals = some approvals;
}

abbrev services : Services
services = record {
  prepare_reference_context = ok references;
  prepare_artifact_context = λ case operations. ok context;
  resolve_case = λ case name operations context. ok case;
  validation_policy = λ before after. null;
  subject_hash = λ subject. "patch";
}

abbrev attested : Attested
attested = record {
  resolved_case = sample;
  roles = "PROCESS_OWNER" ∷ "QUALITY_MANAGER" ∷ [];
  context = context;
  before_reference_context = references;
  subject =
      subject_from_context plain_text fixed_hashes services resolution sample sample operations
        context;
  patch_hash = "patch";
}

-- All that the workflow computes with.
gate : Unit {0}
unfolding program counts approved_roles check_approval check_approvals validate_resolution_approvals
    check_operation validate_resolution_operations check_native_operation
    validate_native_resolution_operations split_path is_path_segment is_unsafe_segment check_path
    touch touch_all validate_resolution_operation_paths artifact_context checked_context approved
    attest_approved_resolution run_after baseline_of replay_attested_resolution each lookup insert
    replay_with_validated_native_approval run_case_with_reference_context sorted_set
    normalized_identity is_blank run_of evaluate_case
gate = tt

attests :
    attest_approved_resolution plain_text fixed_hashes services sample resolution none ≡ ok attested
unfolding gate
attests = refl

attest_approved_resolution-AreBound_example :
    (approvals : List Approval) × (resolution.approvals ≡ some approvals)
    × AreBound attested.subject.binding attested.patch_hash approvals attested.roles
    × EnoughRoles sample.event.risk_level approvals
    × IsAbout plain_text fixed_hashes services sample resolution attested
attest_approved_resolution-AreBound_example =
    attest_approved_resolution-AreBound plain_text fixed_hashes services sample resolution none
      attested attests

validate_resolution_approvals_iff_example :
    (is_empty approvals ≡ false)
    × AllNew [] ("QUALITY_MANAGER" ∷ "PROCESS_OWNER" ∷ [])
    × All (IsBound subject "patch") approvals
    × (map role_of approvals ≡ "QUALITY_MANAGER" ∷ "PROCESS_OWNER" ∷ [])
unfolding gate
validate_resolution_approvals_iff_example =
    (validate_resolution_approvals_iff subject "patch" approvals
        ("QUALITY_MANAGER" ∷ "PROCESS_OWNER" ∷ [])).0
      refl

validate_native_resolution_operations_iff_example :
    (is_empty operations ≡ false)
    × All (IsNativeSet plain_text) operations
    × (operations ≡ operations)
unfolding gate
validate_native_resolution_operations_iff_example =
    (validate_native_resolution_operations_iff plain_text operations operations).0 refl

validate_resolution_operation_paths-TouchesFact_example :
    All (TouchesFact plain_text) operations × All (Names plain_text operations) ("SOP" ∷ [])
unfolding gate
validate_resolution_operation_paths-TouchesFact_example =
    validate_resolution_operation_paths-TouchesFact plain_text operations ("SOP" ∷ []) refl

abbrev replay_hashes : ReplayHashes
replay_hashes = record {
  short_digest = λ seed. "0123456789abcdef";
  hash_of_roles = λ roles. sha;
  pair_hash = λ source resolved. sha;
}

abbrev passing_run : RunResult
passing_run = run_of plain_text fixed_hashes sample (some references) (some validation)

abbrev sample_baseline : BaselineRecord
sample_baseline =
    baseline_of plain_text fixed_hashes replay_hashes passing_run "RES-1" attested references
      validation validation

abbrev replayed : ReplayResult
replayed = record {
  before = passing_run;
  after = passing_run;
  baseline = some sample_baseline;
  resolution_id = "RES-1";
  artifact_set_hash = sha;
  controlled_reference_set_hash = sha;
  source_validation_evidence_set_hash = sha;
  resolved_validation_evidence_set_hash = sha;
  validation_evidence_pair_hash = sha;
  assurance_state = "ATTESTED_REPLACEMENT";
}

replays :
    replay_attested_resolution plain_text fixed_hashes replay_hashes sample resolution attested
      validation validation
    ≡ ok replayed
unfolding gate
replays = refl

replay_attested_resolution-IsBaselineOf_example :
    IsBaselineOf plain_text fixed_hashes replay_hashes attested resolution validation replayed
      sample_baseline
replay_attested_resolution-IsBaselineOf_example =
    replay_attested_resolution-IsBaselineOf plain_text fixed_hashes replay_hashes sample resolution
      attested validation validation replayed replays sample_baseline refl

replay_attested_resolution-needs_references_example :
    given attested.context.reference_context ≡ true
replay_attested_resolution-needs_references_example =
    replay_attested_resolution-needs_references plain_text fixed_hashes replay_hashes sample
      resolution attested validation validation replayed replays

abbrev input : ReplayInput
input = record {
  sealed = true;
  has_artifact_bundle = true;
  has_reference_bundle = true;
  artifact_context = context;
  context_matches = true;
  has_source_bundle = true;
  has_resolved_bundle = true;
}

abbrev prepare_validation : String → Case → Result String ValidationContext
prepare_validation phase case = ok validation

native_replays :
    replay_with_validated_native_approval plain_text fixed_hashes services replay_hashes
      prepare_validation sample resolution input
    ≡ ok replayed
unfolding gate
native_replays = refl

replay_with_validated_native_approval-IsAdmitted_example :
    IsAdmitted plain_text fixed_hashes services replay_hashes prepare_validation sample resolution
      input replayed sample_baseline
replay_with_validated_native_approval-IsAdmitted_example =
    replay_with_validated_native_approval-IsAdmitted plain_text fixed_hashes services replay_hashes
      prepare_validation sample resolution input replayed sample_baseline native_replays refl

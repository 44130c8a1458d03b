-- ===== src/Workflow/Replay.antt =====
-- src/qualityci/workflow.py: `_replay_attested_resolution` and
-- `_replay_with_validated_native_approval`, with `BaselineRecord` and `ReplayResult`.
pub mod Baseline
pub mod Admitted
use qualityci.Text.{TextOps, join}
use qualityci.Case.{Case}
use qualityci.Model.{pass, status_beq}
use qualityci.Loader.Validate.{validate_case}
use qualityci.Rules.References.{ReferenceContext}
use qualityci.Rules.ValidationEvidence.{ValidationContext}
use qualityci.Engine.{Hashes, run_case, run_case_with_reference_context}
use qualityci.Run.{RunResult}
use qualityci.Workflow.Approvals.{GateError, approval_gate, artifact_gate, uncaught}
use qualityci.Workflow.Attest.{
  ArtifactContext, Resolution, Services, Attested, attest_approved_resolution,
}
use qualityci.Prelude.{
  String, Bool, not, ◌||◌, Option, none, some, List, ◌∷◌, if◌then◌else◌, nat_eq, string_eq, pair_eq,
  Result, ok, err, raise_if, on_error, [], ◌>>=◌, ◌>>◌,
}

-- `BaselineRecord`. Of the artifacts, `touched_documents` has the document ids.
pub record BaselineRecord : Type 0 where
  pub baseline_id : String
  pub case_id : String
  pub source_run_id : String
  pub case_hash : String
  pub ruleset_version : String
  pub resolution_id : String
  pub approved_case_hash : String
  pub approved_event_id : String
  pub approved_event_revision : String
  pub approved_patch_hash : String
  pub approved_roles : List String
  pub artifact_set_hash : String
  pub controlled_reference_set_hash : String
  pub reference_contract_version : String
  pub source_validation_evidence_set_hash : String
  pub resolved_validation_evidence_set_hash : String
  pub validation_evidence_pair_hash : String
  pub validation_evidence_contract_version : String
  pub artifact_contract_version : String
  pub case_schema_version : String
  pub parser_contract_version : String
  pub mapping_contract_version : String
  pub security_root_policy_version : String
  pub touched_documents : List String
  pub status : String

pub record ReplayResult : Type 0 where
  pub before : RunResult
  pub after : RunResult
  pub baseline : Option BaselineRecord
  pub resolution_id : String
  pub artifact_set_hash : String
  pub controlled_reference_set_hash : String
  pub source_validation_evidence_set_hash : String
  pub resolved_validation_evidence_set_hash : String
  pub validation_evidence_pair_hash : String
  pub assurance_state : String

-- The hashes: the first 16 digits of the SHA-256 of a text, `canonical_hash` of the roles, and the
-- hash of a pair of validation contexts.
pub record ReplayHashes : Type 0 where
  pub short_digest : String → String
  pub hash_of_roles : List String → String
  pub pair_hash : ValidationContext → ValidationContext → String

abbrev pub validation_evidence_contract : String
validation_evidence_contract = "qualityci-validation-evidence-0.1"

-- What is read as a key or an attribute: absent, it raises.
abbrev pub present {ℓ} : {A : Type ℓ} → Option A → String → Result GateError A
present none error = err (uncaught error)
present (some value) error = ok value

module _ (text : TextOps) (hashes : Hashes) (replay_hashes : ReplayHashes) where
  open replay_hashes use {short_digest, hash_of_roles, pair_hash}

  -- The run over the resolved case.
  unfoldable pub run_after : Attested → ValidationContext → Result String RunResult
  run_after attested resolved_validation = elim attested.context.reference_context [
    | none ↦ run_case text hashes attested.resolved_case
    | some reference_context ↦
        run_case_with_reference_context text hashes attested.resolved_case reference_context
          (some resolved_validation)
  ]

  -- The record of a baseline.
  unfoldable pub baseline_of :
      RunResult
      → String
      → Attested
      → ReferenceContext
      → ValidationContext
      → ValidationContext
      → BaselineRecord
  baseline_of after resolution_id attested references source_validation resolved_validation =
      let context = attested.context in
      let subject = attested.subject in
      let seed =
        join ":" (
          after.run_id ∷ resolution_id ∷ attested.patch_hash ∷ hash_of_roles attested.roles ∷ []) in
      record {
        baseline_id = short_digest seed;
        case_id = after.case_id;
        source_run_id = after.run_id;
        case_hash = after.identity.case_hash;
        ruleset_version = after.identity.ruleset_version;
        resolution_id = resolution_id;
        approved_case_hash = subject.binding.approved_case_hash;
        approved_event_id = subject.binding.event_id;
        approved_event_revision = subject.binding.event_revision;
        approved_patch_hash = attested.patch_hash;
        approved_roles = attested.roles;
        artifact_set_hash = context.artifact_set_hash;
        controlled_reference_set_hash = references.reference_set_hash;
        reference_contract_version = references.contract_version;
        source_validation_evidence_set_hash = source_validation.evidence_set_hash;
        resolved_validation_evidence_set_hash = resolved_validation.evidence_set_hash;
        validation_evidence_pair_hash = pair_hash source_validation resolved_validation;
        validation_evidence_contract_version = validation_evidence_contract;
        artifact_contract_version = context.artifact_contract_version;
        case_schema_version = context.case_schema_version;
        parser_contract_version = context.parser_contract_version;
        mapping_contract_version = context.mapping_contract_version;
        security_root_policy_version = context.security_root_policy_version;
        touched_documents = context.indexed;
        status = "BASELINED";
      }

  -- `_replay_attested_resolution`
  unfoldable pub replay_attested_resolution :
      Case
      → Resolution
      → Attested
      → ValidationContext
      → ValidationContext
      → Result GateError ReplayResult
  unfolding run_after baseline_of
  replay_attested_resolution case resolution attested source_validation resolved_validation = do
    on_error uncaught (validate_case text case)
    before ← on_error uncaught (
        run_case_with_reference_context text hashes case attested.before_reference_context
          (some source_validation))
    after ← on_error uncaught (run_after attested resolved_validation)
    resolution_id ← present resolution.resolution_id "KeyError"
    references ← present attested.context.reference_context "AttributeError"
    ok (record {
      before = before;
      after = after;
      baseline =
          if status_beq after.overall_status pass
          then some (
              baseline_of after resolution_id attested references source_validation
                resolved_validation)
          else none;
      resolution_id = resolution_id;
      artifact_set_hash = attested.context.artifact_set_hash;
      controlled_reference_set_hash = references.reference_set_hash;
      source_validation_evidence_set_hash = source_validation.evidence_set_hash;
      resolved_validation_evidence_set_hash = resolved_validation.evidence_set_hash;
      validation_evidence_pair_hash = pair_hash source_validation resolved_validation;
      assurance_state = "ATTESTED_REPLACEMENT";
    })

-- What a call of the native replay is given: the seal of the native approval, the raw bundles, and
-- the artifact context with whether it matches the artifact bundle.
pub record ReplayInput : Type 0 where
  pub sealed : Bool
  pub has_artifact_bundle : Bool
  pub has_reference_bundle : Bool
  pub artifact_context : ArtifactContext
  pub context_matches : Bool
  pub has_source_bundle : Bool
  pub has_resolved_bundle : Bool

module _ (text : TextOps) (hashes : Hashes) (services : Services) (replay_hashes : ReplayHashes)
    -- `_prepare_validation_evidence_context` on the bundle of a phase.
    (prepare_validation : String → Case → Result String ValidationContext) where
  -- `_replay_with_validated_native_approval`
  unfoldable pub replay_with_validated_native_approval :
      Case → Resolution → ReplayInput → Result GateError ReplayResult
  replay_with_validated_native_approval case resolution input = do
    raise_if (not input.sealed)
        (approval_gate "native replay core requires prior exact ApprovalSubject validation")
    raise_if (not input.has_artifact_bundle)
        (artifact_gate "actual replay requires an internal replacement artifact bundle")
    raise_if (not input.has_reference_bundle)
        (artifact_gate "actual replay requires controlled-reference raw bytes")
    raise_if (not input.context_matches)
        (artifact_gate "internal artifact context differs from raw bundle")
    on_error uncaught (validate_case text case)
    attested ←
        attest_approved_resolution text hashes services case resolution
          (some (input.artifact_context, input.context_matches))
    raise_if (not input.has_source_bundle || not input.has_resolved_bundle)
        (artifact_gate "actual replay requires exact SOURCE and RESOLVED validation raw bundles")
    source_validation ← on_error artifact_gate (prepare_validation "SOURCE" case)
    resolved_validation ←
        on_error artifact_gate (prepare_validation "RESOLVED" attested.resolved_case)
    replay_attested_resolution text hashes replay_hashes case resolution attested source_validation
        resolved_validation

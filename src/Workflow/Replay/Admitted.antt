-- ===== src/Workflow/Replay/Admitted.antt =====
-- The replay from end to end: what a baseline of the native replay rests on.
use qualityci.Text.{TextOps}
use qualityci.Case.{Case}
use qualityci.Loader.Validate.{validate_case}
use qualityci.Rules.ValidationEvidence.{ValidationContext}
use qualityci.Engine.{Hashes}
use qualityci.Workflow.Approvals.{Approval, artifact_gate, uncaught}
use qualityci.Workflow.Attest.{Resolution, Services, Attested, attest_approved_resolution}
use qualityci.Workflow.Attest.Authorized.{
  AreBound, EnoughRoles, IsAbout, attest_approved_resolution-AreBound,
}
use qualityci.Workflow.Replay.{
  BaselineRecord, ReplayResult, ReplayHashes, ReplayInput, replay_with_validated_native_approval,
}
use qualityci.Workflow.Replay.Baseline.{IsBaselineOf, replay_attested_resolution-IsBaselineOf}
use qualityci.Prelude.{
  String, ◌≡◌, true, not, ◌||◌, some, List, nat_eq, string_eq, pair_eq, not-false, Result, ok,
  >>-eq-ok, raise_if-eq-ok, >>=-eq-ok, on_error, on_error-eq-ok,
}

module _ (text : TextOps) (hashes : Hashes) (services : Services) (replay_hashes : ReplayHashes)
    (prepare_validation : String → Case → Result String ValidationContext) where
  -- An admitted baseline: the attested resolution with the approvals bound to it, over contexts that
  -- match the bundles, and a passing run over the case that its operations give.
  pub record IsAdmitted (case : Case) (resolution : Resolution) (input : ReplayInput)
      (result : ReplayResult) (baseline : BaselineRecord) : Type 0 where
    pub sealed : input.sealed ≡ true
    pub matches : input.context_matches ≡ true
    pub attested : Attested
    pub attests :
        attest_approved_resolution text hashes services case resolution
          (some (input.artifact_context, input.context_matches))
        ≡ ok attested
    pub approvals : List Approval
    pub given_approvals : resolution.approvals ≡ some approvals
    pub bound : AreBound attested.subject.binding attested.patch_hash approvals attested.roles
    pub enough : EnoughRoles case.event.risk_level approvals
    pub about : IsAbout text hashes services case resolution attested
    pub resolved_validation : ValidationContext
    pub prepared : prepare_validation "RESOLVED" attested.resolved_case ≡ ok resolved_validation
    pub of_run :
        IsBaselineOf text hashes replay_hashes attested resolution resolved_validation result
          baseline

  -- A baseline of the native replay is admitted: the call carried the seal and a context that matches
  -- the bundle; the resolution is attested over that context; its approvals are bound to the attested
  -- subject and are enough for the risk of the event; the resolved case is the one that the operations
  -- of the resolution give for the case; the validation evidence was prepared for the resolved case;
  -- and the run over the resolved case passed, so that this case may be released.
  pub replay_with_validated_native_approval-IsAdmitted :
      (case : Case) (resolution : Resolution) (input : ReplayInput) (result : ReplayResult)
      (baseline : BaselineRecord)
      → replay_with_validated_native_approval text hashes services replay_hashes prepare_validation
          case resolution input
        ≡ ok result
      → result.baseline ≡ some baseline
      → IsAdmitted case resolution input result baseline
  unfolding replay_with_validated_native_approval
  replay_with_validated_native_approval-IsAdmitted case resolution input result baseline h e =
      let (seal, h1) = (raise_if-eq-ok (not input.sealed) _ _).0 h in
      let (_, h2) = (raise_if-eq-ok (not input.has_artifact_bundle) _ _).0 h1 in
      let (_, h3) = (raise_if-eq-ok (not input.has_reference_bundle) _ _).0 h2 in
      let (match, h4) = (raise_if-eq-ok (not input.context_matches) _ _).0 h3 in
      let (_, h5) = (>>-eq-ok (on_error uncaught (validate_case text case)) _).0 h4 in
      let (attested, signed, h6) =
        >>=-eq-ok
          (attest_approved_resolution text hashes services case resolution
            (some (input.artifact_context, input.context_matches)))
          _ h5 in
      let (_, h7) =
        (raise_if-eq-ok (not input.has_source_bundle || not input.has_resolved_bundle) _ _).0 h6 in
      let (source_validation, _, h8) =
        >>=-eq-ok (on_error artifact_gate (prepare_validation "SOURCE" case)) _ h7 in
      let (resolved_validation, prepared, h9) =
        >>=-eq-ok (on_error artifact_gate (prepare_validation "RESOLVED" attested.resolved_case)) _
          h8 in
      let (approvals, given_approvals, bound, enough, about) =
        attest_approved_resolution-AreBound text hashes services case resolution _ attested
          signed in
      record {
        sealed = (not-false _).0 seal;
        matches = (not-false _).0 match;
        attested = attested;
        attests = signed;
        approvals = approvals;
        given_approvals = given_approvals;
        bound = bound;
        enough = enough;
        about = about;
        resolved_validation = resolved_validation;
        prepared = on_error-eq-ok artifact_gate _ prepared;
        of_run =
            replay_attested_resolution-IsBaselineOf text hashes replay_hashes case resolution
              attested source_validation resolved_validation result h9 baseline e;
      }

-- ===== src/Workflow/Replay/Baseline.antt =====
-- When a replay yields a baseline, and what the baseline then says.
use mathlib.Core.Path.{subst}
use qualityci.Text.{TextOps}
use qualityci.Case.{Case}
use qualityci.Model.{pass, status_beq}
use qualityci.Model.{CheckStatus, contradicted, unverifiable}
use qualityci.Impact.{build_impact_plan}
use qualityci.Loader.Validate.{validate_case}
use qualityci.Rules.References.{ReferenceContext}
use qualityci.Rules.ValidationEvidence.{ValidationContext}
use qualityci.Engine.{Hashes, evaluate_case, run_case, run_case_with_reference_context}
use qualityci.Engine.Sound.{IsReleasable, evaluate_case-IsReleasable}
use qualityci.Run.{RunResult}
use qualityci.Workflow.Approvals.{uncaught}
use qualityci.Workflow.Attest.{Resolution, Attested}
use qualityci.Workflow.Replay.{
  BaselineRecord, ReplayResult, ReplayHashes, present, run_after, baseline_of,
  replay_attested_resolution,
}
use qualityci.Prelude.{
  String, ◌≡◌, refl, sym, ap, ◌∙◌, ◌↔◌, Bool, true, false, not, ◌&&◌, Option, none, some,
  if◌then◌else◌, nat_eq, string_eq, pair_eq, given, not-false, ok, >>-eq-ok, raise_if-eq-ok,
  >>=-eq-ok, on_error, on_error-eq-ok, ok_inj,
}

status_iff : (s : CheckStatus) → (status_beq s pass ≡ true) ↔ (s ≡ pass)
unfolding status_beq
status_iff pass = (λ h. refl, λ h. refl)
status_iff contradicted = (λ h. cc, λ h. cc)
status_iff unverifiable = (λ h. cc, λ h. cc)

present-eq_ok :
    {A : Type 0} (o : Option A) (error : String) {a : A} → present o error ≡ ok a → o ≡ some a
present-eq_ok none error h = cc
present-eq_ok (some b) error h = ap some (ok_inj h)

-- A value under a test.
guarded :
    {A : Type 0} (test : Bool) (a : A) {b : A}
    → (if test then some a else none) ≡ some b
    → (test ≡ true) × (b ≡ a)
guarded true a h = (refl, cc)
guarded false a h = cc

module _ (text : TextOps) (hashes : Hashes) (replay_hashes : ReplayHashes) where
  -- The runs and the reading behind a replay that returns.
  record Steps (case : Case) (resolution : Resolution) (attested : Attested)
      (source_validation resolved_validation : ValidationContext) (result : ReplayResult)
      : Type 0 where
    before : RunResult
    after : RunResult
    resolution_id : String
    references : ReferenceContext
    ran_before :
        run_case_with_reference_context text hashes case attested.before_reference_context
          (some source_validation)
        ≡ ok before
    ran_after : run_after text hashes replay_hashes attested resolved_validation ≡ ok after
    named : resolution.resolution_id ≡ some resolution_id
    referenced : attested.context.reference_context ≡ some references
    before_is : result.before ≡ before
    after_is : result.after ≡ after
    baseline_is : result.baseline ≡ (
        if status_beq after.overall_status pass
        then some (
            baseline_of text hashes replay_hashes after resolution_id attested references
              source_validation resolved_validation)
        else none)

  replay_attested_resolution-Steps :
      (case : Case) (resolution : Resolution) (attested : Attested)
      (source_validation resolved_validation : ValidationContext) (result : ReplayResult)
      → replay_attested_resolution text hashes replay_hashes case resolution attested
          source_validation resolved_validation
        ≡ ok result
      → Steps case resolution attested source_validation resolved_validation result
  unfolding replay_attested_resolution
  replay_attested_resolution-Steps case resolution attested source_validation resolved_validation
        result h =
      let (valid, h1) = (>>-eq-ok (on_error uncaught (validate_case text case)) _).0 h in
      let (before, ran_before, h2) =
        >>=-eq-ok
          (on_error uncaught (
            run_case_with_reference_context text hashes case attested.before_reference_context
              (some source_validation)))
          _ h1 in
      let (after, ran_after, h3) =
        >>=-eq-ok
          (on_error uncaught (run_after text hashes replay_hashes attested resolved_validation)) _
          h2 in
      let (resolution_id, named, h4) =
        >>=-eq-ok (present resolution.resolution_id "KeyError") _ h3 in
      let (references, referenced, h5) =
        >>=-eq-ok (present attested.context.reference_context "AttributeError") _ h4 in
      record {
        before = before;
        after = after;
        resolution_id = resolution_id;
        references = references;
        ran_before = on_error-eq-ok uncaught _ ran_before;
        ran_after = on_error-eq-ok uncaught _ ran_after;
        named = present-eq_ok _ _ named;
        referenced = present-eq_ok _ _ referenced;
        before_is = ap (λ (r : ReplayResult). r.before) (sym (ok_inj h5));
        after_is = ap (λ (r : ReplayResult). r.after) (sym (ok_inj h5));
        baseline_is = ap (λ (r : ReplayResult). r.baseline) (sym (ok_inj h5));
      }

  returned :
      (attested : Attested) (references : ReferenceContext) (validation : ValidationContext)
      (run : RunResult)
      → attested.context.reference_context ≡ some references
      → run_after text hashes replay_hashes attested validation ≡ ok run
      → (evaluate_case text hashes attested.resolved_case (some references) (some validation)
          ≡ ok run)
        × (references.sealed ≡ true)
        × (validation.sealed ≡ true)
  unfolding run_after run_case_with_reference_context
  returned attested references validation run referenced h =
      let h1 =
        subst
          (λ o.
            (elim o [
              | none ↦ run_case text hashes attested.resolved_case
              | some r ↦
                  run_case_with_reference_context text hashes attested.resolved_case r
                    (some validation)
            ])
            ≡ ok run)
          referenced h in
      let (s, h2) = (raise_if-eq-ok (not references.sealed) _ _).0 h1 in
      let (v, h3) = (raise_if-eq-ok (true && not validation.sealed) _ _).0 h2 in
      (h3, (not-false _).0 s, (not-false _).0 v)

  -- What a baseline says of the replay that made it.
  pub record IsBaselineOf (attested : Attested) (resolution : Resolution)
      (resolved_validation : ValidationContext) (result : ReplayResult) (baseline : BaselineRecord)
      : Type 0 where
    pub passed : result.after.overall_status ≡ pass
    pub ran :
        evaluate_case text hashes attested.resolved_case attested.context.reference_context
          (some resolved_validation)
        ≡ ok result.after
    pub of_run : baseline.source_run_id ≡ result.after.run_id
    pub of_case : baseline.case_id ≡ result.after.case_id
    pub of_case_hash : baseline.case_hash ≡ result.after.identity.case_hash
    pub of_resolution : resolution.resolution_id ≡ some baseline.resolution_id
    pub of_snapshot : baseline.approved_case_hash ≡ attested.subject.binding.approved_case_hash
    pub of_patch : baseline.approved_patch_hash ≡ attested.patch_hash
    pub of_roles : baseline.approved_roles ≡ attested.roles
    pub references : ReferenceContext
    pub referenced : attested.context.reference_context ≡ some references
    pub sealed_references : references.sealed ≡ true
    pub sealed_validation : resolved_validation.sealed ≡ true
    pub releasable :
        IsReleasable text attested.resolved_case (build_impact_plan text attested.resolved_case)

  module _ (case : Case) (resolution : Resolution) (attested : Attested)
      (source_validation resolved_validation : ValidationContext) (result : ReplayResult)
      (h : replay_attested_resolution text hashes replay_hashes case resolution attested
          source_validation resolved_validation
        ≡ ok result) where
    -- The baseline of a replay that returns names the run over the resolved case, which passed, and
    -- the resolution, the case snapshot, the patch and the roles that were approved; that run was over
    -- a sealed reference context and a sealed validation context, and the resolved case is one that
    -- may be released.
    pub replay_attested_resolution-IsBaselineOf :
        (baseline : BaselineRecord)
        → result.baseline ≡ some baseline
        → IsBaselineOf attested resolution resolved_validation result baseline
    unfolding baseline_of
    replay_attested_resolution-IsBaselineOf baseline e =
        let steps =
          replay_attested_resolution-Steps case resolution attested source_validation
            resolved_validation result h in
        let (tested, same) =
          guarded (status_beq steps.after.overall_status pass) _ (sym steps.baseline_is ∙ e) in
        let (ran, references_sealed, validation_sealed) =
          returned attested steps.references resolved_validation steps.after steps.referenced
            steps.ran_after in
        let passed = (status_iff steps.after.overall_status).0 tested in
        record {
          ran =
              subst
                (λ o.
                  evaluate_case text hashes attested.resolved_case o (some resolved_validation)
                  ≡ ok result.after)
                (sym steps.referenced) (ran ∙ ap ok (sym steps.after_is));
          passed = subst (λ (r : RunResult). r.overall_status ≡ pass) (sym steps.after_is) passed;
          of_run =
              ap (λ (b : BaselineRecord). b.source_run_id) same
              ∙ ap (λ (r : RunResult). r.run_id) (sym steps.after_is);
          of_case =
              ap (λ (b : BaselineRecord). b.case_id) same
              ∙ ap (λ (r : RunResult). r.case_id) (sym steps.after_is);
          of_case_hash =
              ap (λ (b : BaselineRecord). b.case_hash) same
              ∙ ap (λ (r : RunResult). r.identity.case_hash) (sym steps.after_is);
          of_resolution =
              steps.named ∙ ap (λ (b : BaselineRecord). some b.resolution_id) (sym same);
          of_snapshot = ap (λ (b : BaselineRecord). b.approved_case_hash) same;
          of_patch = ap (λ (b : BaselineRecord). b.approved_patch_hash) same;
          of_roles = ap (λ (b : BaselineRecord). b.approved_roles) same;
          references = steps.references;
          referenced = steps.referenced;
          sealed_references = references_sealed;
          sealed_validation = validation_sealed;
          releasable =
              evaluate_case-IsReleasable text hashes attested.resolved_case (some steps.references)
                (some resolved_validation) steps.after ran passed;
        }

    -- A replay that returns has a context with controlled references: for a context without them, the
    -- branch that runs the resolved case alone ends in an error.
    pub replay_attested_resolution-needs_references :
        given attested.context.reference_context ≡ true
    replay_attested_resolution-needs_references =
        let steps =
          replay_attested_resolution-Steps case resolution attested source_validation
            resolved_validation result h in
        ap given steps.referenced

-- ===== src/Engine/Sealed.antt =====
-- Which runs can pass: those over sealed contexts.
use mathlib.Core.Path.{subst}
use mathlib.Core.Bool.{false≢true}
use qualityci.Text.{TextOps}
use qualityci.Case.{Case}
use qualityci.Model.{pass}
use qualityci.Impact.{build_impact_plan}
use qualityci.Loader.Checks.{Check}
use qualityci.Loader.Validate.{validate_case}
use qualityci.Run.{RunResult, post_init}
use qualityci.Rules.References.{ReferenceContext, is_sealed_reference_context}
use qualityci.Rules.References.Sealed.{rule_inspection_current_references-unverifiable}
use qualityci.Rules.ValidationEvidence.{ValidationContext, is_sealed_validation_context}
use qualityci.Rules.ValidationEvidence.Sealed.{rule_validation_evidence-unverifiable}
use qualityci.Engine.{Hashes, findings_of, run_of, evaluate_case, run_case}
use qualityci.Engine.Verdict.{overall_status_iff}
use qualityci.Prelude.{
  String, ◌≡◌, refl, ◌≢◌, inl, inr, Bool, true, false, not, Option, none, nat_eq, string_eq,
  pair_eq, Bool-cases, ok, err, ◌>>◌, raise_if,
}

guarded :
    {A : Type 0} (check : Check) (null test : Bool) (error message : String) (a : A) {b : A}
    → (check >> (raise_if null error >> (raise_if (not test) message >> ok a))) ≡ ok b
    → (check ≡ ok tt) × (test ≡ true) × (b ≡ a)
guarded (ok tt) true test error message a h = cc
guarded (ok tt) false true error message a h = (refl, refl, cc)
guarded (ok tt) false false error message a h = cc
guarded (err e) null test error message a h = cc

module _ (text : TextOps) (hashes : Hashes) (case : Case) where
  module _ (references : Option ReferenceContext) (validation : Option ValidationContext) where
    -- A run that is returned is the run over the case.
    pub evaluate_case-eq_ok :
        {run : RunResult}
        → evaluate_case text hashes case references validation ≡ ok run
        → (validate_case text case ≡ ok tt)
          × (post_init text hashes.run_hash (run_of text hashes case references validation) ≡ true)
          × (run ≡ run_of text hashes case references validation)
    unfolding evaluate_case
    evaluate_case-eq_ok h =
        guarded (validate_case text case) _ _ _ _ (run_of text hashes case references validation) h

    run_of-pass :
        (run_of text hashes case references validation).overall_status ≡ pass
        → (is_sealed_reference_context references ≡ true)
          × (is_sealed_validation_context validation ≡ true)
    unfolding run_of findings_of
    run_of-pass h =
        let all = ((overall_status_iff _).0).0 h in
        let plan = build_impact_plan text case in
        (
          elim (Bool-cases (is_sealed_reference_context references)) [
            | inl e ↦ e
            | inr e ↦ cc (
              all.1.1.1.1.0,
              rule_inspection_current_references-unverifiable references e case plan,
            )
          ],
          elim (Bool-cases (is_sealed_validation_context validation)) [
            | inl e ↦ e
            | inr e ↦
                cc (all.1.1.1.1.1.0, rule_validation_evidence-unverifiable case plan validation e)
          ],
        )

  -- A run over a case passes only if the reference context and the validation context are both
  -- sealed.
  pub evaluate_case-pass_sealed :
      (references : Option ReferenceContext) (validation : Option ValidationContext)
      (run : RunResult)
      → evaluate_case text hashes case references validation ≡ ok run
      → run.overall_status ≡ pass
      → (is_sealed_reference_context references ≡ true)
        × (is_sealed_validation_context validation ≡ true)
  evaluate_case-pass_sealed references validation run h p =
      let same = (evaluate_case-eq_ok references validation h).2 in
      run_of-pass references validation (subst (λ (r : RunResult). r.overall_status ≡ pass) same p)

  -- A run over a serialized case alone, without contexts, never passes.
  pub run_case-not_pass :
      (run : RunResult) → run_case text hashes case ≡ ok run → run.overall_status ≢ pass
  unfolding run_case
  run_case-not_pass run h p = false≢true (evaluate_case-pass_sealed none none run h p).0

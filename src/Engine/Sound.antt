-- ===== src/Engine/Sound.antt =====
-- src/qualityci/engine.py: what a passing run says of the case, the rules taken together.
use mathlib.Core.Path.{subst}
use qualityci.Text.{TextOps}
use qualityci.Case.{Case, Document, document_by_type}
use qualityci.Model.{pass, ImpactPlan}
use qualityci.Impact.{build_impact_plan}
use qualityci.Run.{RunResult}
use qualityci.Loader.Validate.Approved.{IsValid, validate_case-IsValid}
use qualityci.Rules.References.{ReferenceContext}
use qualityci.Rules.ValidationEvidence.{ValidationContext}
use qualityci.Rules.ProcessCoverage.Passes.{IsCovered, rule_process_coverage-pass_iff}
use qualityci.Rules.SpecConsistency.Passes.{IsConsistent, rule_spec_consistency-pass_iff}
use qualityci.Rules.SpecialControl.Passes.{
  IsControlled, rule_special_characteristic_control-pass_iff,
}
use qualityci.Rules.HighRiskApproval.Passes.{IsReleased, rule_high_risk_approval-pass_iff}
use qualityci.Engine.{Hashes, findings_of, run_of, evaluate_case}
use qualityci.Engine.Verdict.{overall_status_iff}
use qualityci.Engine.Sealed.{evaluate_case-eq_ok}
use qualityci.Prelude.{◌≡◌, ◌⊎◌, Option, some, nat_eq, string_eq, pair_eq, ok}

-- A change that may be released: the five controlled documents, and what holds between them.
pub record IsReleasable (text : TextOps) (case : Case) (plan : ImpactPlan) : Type 0 where
  pub process_flow : Document
  pub pfmea : Document
  pub control : Document
  pub sop : Document
  pub inspection : Document
  pub the_process_flow : document_by_type case "PROCESS_FLOW" ≡ some process_flow
  pub the_pfmea : document_by_type case "PFMEA" ≡ some pfmea
  pub the_control : document_by_type case "CONTROL_PLAN" ≡ some control
  pub the_sop : document_by_type case "SOP" ≡ some sop
  pub the_inspection : document_by_type case "INSPECTION_RECORD" ≡ some inspection
  pub covered : IsCovered text case plan process_flow pfmea control
  pub consistent : IsConsistent text case plan control sop inspection
  pub controlled : IsControlled text case plan pfmea control
  pub approved :
      ((case.event.risk_level ≡ some "LOW") ⊎ (case.event.risk_level ≡ some "MEDIUM"))
      ⊎ ((case.event.risk_level ≡ some "HIGH") × IsReleased case.event)

module _ (text : TextOps) (hashes : Hashes) (case : Case) where
  run_of-IsReleasable :
      (references : Option ReferenceContext) (validation : Option ValidationContext)
      → IsValid text case
      → (run_of text hashes case references validation).overall_status ≡ pass
      → IsReleasable text case (build_impact_plan text case)
  unfolding run_of findings_of
  run_of-IsReleasable references validation valid h =
      let plan = build_impact_plan text case in
      let all = ((overall_status_iff _).0).0 h in
      let ((f, f_is), ((p, p_is), ((c, c_is), ((s, s_is), ((i, i_is), _))))) = valid.approved in
      record {
        process_flow = f;
        pfmea = p;
        control = c;
        sop = s;
        inspection = i;
        the_process_flow = f_is;
        the_pfmea = p_is;
        the_control = c_is;
        the_sop = s_is;
        the_inspection = i_is;
        covered = (rule_process_coverage-pass_iff text case plan f p c f_is p_is c_is).0 all.0;
        consistent = (rule_spec_consistency-pass_iff text case plan c s i c_is s_is i_is).0 all.1.0;
        controlled =
            (rule_special_characteristic_control-pass_iff text case plan p c p_is c_is).0 all.1.1.0;
        approved = (rule_high_risk_approval-pass_iff case plan).0 all.1.1.1.1.1.1.0;
      }

  -- If a run over a case is returned and passes, then the case has exactly one approved document of
  -- each required type and the three rules on coverage, specifications and special characteristics
  -- hold between them for the impact plan of the event, and the event has risk LOW or MEDIUM, or it
  -- has risk HIGH and the approvals of both roles on its current revision, with no refusal.
  pub evaluate_case-IsReleasable :
      (references : Option ReferenceContext) (validation : Option ValidationContext)
      (run : RunResult)
      → evaluate_case text hashes case references validation ≡ ok run
      → run.overall_status ≡ pass
      → IsReleasable text case (build_impact_plan text case)
  evaluate_case-IsReleasable references validation run h p =
      let returned = evaluate_case-eq_ok text hashes case references validation h in
      run_of-IsReleasable references validation (validate_case-IsValid text case returned.0)
        (subst (λ (r : RunResult). r.overall_status ≡ pass) returned.2 p)

-- ===== src/Rules/ValidationEvidence/Sealed.antt =====
-- QCI-R006 without a sealed context.
use qualityci.Case.{Case}
use qualityci.Model.{unverifiable, ImpactPlan}
use qualityci.Rules.Evidence.{finding}
use qualityci.Rules.ValidationEvidence.{
  ValidationContext, is_sealed_validation_context, rule_validation_evidence,
}
use qualityci.Prelude.{◌≡◌, refl, false, Option, none, some, nat_eq, string_eq, pair_eq}

-- Whatever the event says, QCI-R006 is unverifiable without a sealed context.
pub rule_validation_evidence-unverifiable :
    (case : Case) (plan : ImpactPlan) (context : Option ValidationContext)
    → is_sealed_validation_context context ≡ false
    → (rule_validation_evidence case plan context).status ≡ unverifiable
unfolding rule_validation_evidence finding
rule_validation_evidence-unverifiable case plan none h = refl
rule_validation_evidence-unverifiable case plan (some context) h = rw h

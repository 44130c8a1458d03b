-- ===== src/Rules/HighRiskApproval.antt =====
-- src/qualityci/rules.py: `rule_high_risk_approval`, QCI-R007.
pub mod Passes
use qualityci.Case.{Case, Event, Approval}
use qualityci.Model.{pass, contradicted, unverifiable, EvidenceRef, Finding, ImpactPlan}
use qualityci.Rules.Evidence.{event_evidence, finding}
use qualityci.Rules.RevisionDates.{has_required_roles}
use qualityci.Prelude.{
  ℕ, zero, suc, ◌+◌, ◌-◌, ◌*◌, ◌/◌, ◌%◌, ◌^◌, ◌≤◌, ◌<◌, String, ◌≡◌, refl, sym, ap, ◌∙◌, ◌≢◌, ◌↔◌,
  ◌⊎◌, inl, inr, Bool, true, false, not, ◌&&◌, ◌||◌, Option, none, some, List, [], ◌∷◌, ◌++◌, map,
  arith, eq_iff, ltb, leb, eqb, if◌then◌else◌, Eq, ◌==◌, nat_eq, string_eq, pair_eq, Bool-cases,
  Option-cases, given, is_some_eq, length, is_empty, any, all, keep, All, Any, contains, Result, ok,
  err, ◌>>=◌, ◌>>◌, raise_if,
}

abbrev pub is_refusal : Approval → Bool
is_refusal item = item.decision == "REJECTED" || item.decision == "CHANGES_REQUESTED"

abbrev pub is_approval : Approval → Bool
is_approval item = item.decision == "APPROVED"

-- The records that name the revision of the event.
unfoldable pub current_approvals : Event → List Approval → List Approval
current_approvals event approvals =
    keep (λ (item : Approval). item.event_revision == event.revision) approvals

-- A high-risk event with a non-empty list of records.
unfoldable pub check_approvals : Event → List Approval → Finding
unfolding current_approvals
check_approvals event approvals =
    let current = current_approvals event approvals in
    let refs = event_evidence event "approvals" ∷ [] in
    let roles = map (λ (item : Approval). item.role) (keep is_approval current) in
    if not (is_empty (keep is_refusal current))
    then finding "QCI-R007" contradicted "CRITICAL" refs
    else if not (has_required_roles roles)
    then finding "QCI-R007" contradicted "CRITICAL" refs
    else finding "QCI-R007" pass "LOW" refs

abbrev pub approvals_of : Option (List Approval) → List Approval
approvals_of none = []
approvals_of (some approvals) = approvals

abbrev pub is_risk_level : Option String → Bool
is_risk_level none = false
is_risk_level (some level) = level == "LOW" || level == "MEDIUM" || level == "HIGH"

-- The branches on the risk level.
unfoldable pub risk_gate : Event → Option String → Finding
risk_gate event risk_level =
    let approvals = approvals_of event.approvals in
    if not (is_risk_level risk_level)
    then finding "QCI-R007" unverifiable "CRITICAL" (event_evidence event "risk_level" ∷ [])
    else if not (is_some_eq risk_level "HIGH")
    then finding "QCI-R007" pass "LOW" (event_evidence event "risk_level" ∷ [])
    else if is_empty approvals
    then finding "QCI-R007" contradicted "CRITICAL" (event_evidence event "approvals" ∷ [])
    else check_approvals event approvals

unfoldable pub rule_high_risk_approval : Case → ImpactPlan → Finding
unfolding risk_gate
rule_high_risk_approval case plan = risk_gate case.event case.event.risk_level

-- ===== src/Rules/HighRiskApproval/Passes.antt =====
-- When QCI-R007 passes, in terms of the approval records.
use qualityci.Case.{Case, Event, Approval}
use qualityci.Model.{pass, contradicted, EvidenceRef, ImpactPlan}
use mathlib.Core.Bool.{false≢true}
use qualityci.Rules.Evidence.{finding, event_evidence}
use qualityci.Rules.HighRiskApproval.{
  is_refusal, is_approval, approvals_of, current_approvals, check_approvals,
  rule_high_risk_approval, risk_gate,
}
use qualityci.Prelude.{
  String, ◌≡◌, refl, sym, ◌∙◌, ◌↔◌, ◌⊎◌, inl, inr, Bool, true, false, Option, none, some, List, [],
  ◌∷◌, map, arith, eq_iff, if◌then◌else◌, ◌==◌, nat_eq, string_eq, pair_eq, Bool-cases, is_empty,
  keep, All, Any, contains, All-keep_iff, keep_none_iff, iff_trans, iff_refl, Any-keep_iff,
  contains-map_iff, Any-iff,
}

module _ (event : Event) where
  abbrev is_current : Approval → Bool
  is_current item = item.event_revision == event.revision

  -- Some record of the role approves the current revision of the event.
  abbrev pub ApprovedBy : String → Type 0
  ApprovedBy role =
      Any
        (λ (item : Approval).
          (item.event_revision ≡ event.revision)
          × (item.decision ≡ "APPROVED")
          × (item.role ≡ role))
        (approvals_of event.approvals)

  -- What releases a high-risk event.
  pub record IsReleased : Type 0 where
    pub not_refused :
        All
          (λ (item : Approval).
            (item.event_revision == event.revision) ≡ true → is_refusal item ≡ false)
          (approvals_of event.approvals)
    pub by_quality_manager : ApprovedBy "QUALITY_MANAGER"
    pub by_process_owner : ApprovedBy "PROCESS_OWNER"

  role_iff :
      (role : String)
      → (contains
            (map
              (λ (item : Approval). item.role)
              (keep is_approval (current_approvals event (approvals_of event.approvals))))
            role
          ≡ true)
        ↔ ApprovedBy role
  unfolding current_approvals
  role_iff role =
      let approvals = approvals_of event.approvals in
      iff_trans (contains-map_iff _ (keep is_approval (keep is_current approvals)) role) (
        iff_trans (Any-keep_iff _ is_approval (keep is_current approvals)) (
          iff_trans (Any-keep_iff _ is_current approvals) (
            Any-iff
              (λ (item : Approval).
                let r = eq_iff item.event_revision event.revision in
                let d = eq_iff item.decision "APPROVED" in
                let o = eq_iff item.role role in
                (λ h. (r.0 h.0, d.0 h.1.0, o.0 h.1.1), λ h. (r.1 h.0, (d.1 h.1, o.1 h.2))))
              approvals)))

  refusal_iff :
      (is_empty (keep is_refusal (current_approvals event (approvals_of event.approvals))) ≡ true)
      ↔ All
          (λ (item : Approval). is_current item ≡ true → is_refusal item ≡ false)
          (approvals_of event.approvals)
  unfolding current_approvals
  refusal_iff =
      let approvals = approvals_of event.approvals in
      iff_trans (keep_none_iff is_refusal (keep is_current approvals))
        (All-keep_iff _ is_current approvals)

  check_approvals-pass_iff :
      ((check_approvals event (approvals_of event.approvals)).status ≡ pass) ↔ IsReleased
  unfolding check_approvals finding
  check_approvals-pass_iff =
      let current = current_approvals event (approvals_of event.approvals) in
      let roles = map (λ (item : Approval). item.role) (keep is_approval current) in
      let tests : ((check_approvals event (approvals_of event.approvals)).status ≡ pass) ↔ (
          (is_empty (keep is_refusal current) ≡ true)
          × (contains roles "QUALITY_MANAGER" ≡ true)
          × (contains roles "PROCESS_OWNER" ≡ true)) =
        ground arith in
      (
        λ h.
            let t = tests.0 h in
            record {
              not_refused = refusal_iff.0 t.0;
              by_quality_manager = (role_iff "QUALITY_MANAGER").0 t.1;
              by_process_owner = (role_iff "PROCESS_OWNER").0 t.2;
            },
        λ r. tests.1 (
          refusal_iff.1 r.not_refused,
          (role_iff "QUALITY_MANAGER").1 r.by_quality_manager,
          (role_iff "PROCESS_OWNER").1 r.by_process_owner,
        ),
      )

  abbrev NeedsNoApproval : Option String → Type 0
  NeedsNoApproval level = (level ≡ some "LOW") ⊎ (level ≡ some "MEDIUM")

  no_records :
      (approvals : List Approval) (refs : List EvidenceRef)
      → ((if is_empty approvals
            then finding "QCI-R007" contradicted "CRITICAL" refs
            else check_approvals event approvals).status
          ≡ pass)
        ↔ ((check_approvals event approvals).status ≡ pass)
  unfolding check_approvals current_approvals finding
  no_records [] refs = (λ h. cc, λ h. cc)
  no_records (item ∷ items) refs = iff_refl

  not_high :
      (level : String)
      → (level == "HIGH") ≡ false
      → ((risk_gate event (some level)).status ≡ pass) ↔ NeedsNoApproval (some level)
  unfolding risk_gate finding
  not_high level e = (
    λ h. ground (arith, eq_iff level "LOW", eq_iff level "MEDIUM"),
    λ h. ground (arith, eq_iff level "LOW", eq_iff level "MEDIUM"),
  )

  high_alone : NeedsNoApproval (some "HIGH") → ⊥
  high_alone h = ground (arith, eq_iff "HIGH" "LOW", eq_iff "HIGH" "MEDIUM")

  risk_gate-pass_iff :
      (level : Option String)
      → ((risk_gate event level).status ≡ pass)
        ↔ (NeedsNoApproval level ⊎ ((level ≡ some "HIGH") × IsReleased))
  unfolding risk_gate finding
  risk_gate-pass_iff none = (λ h. cc, λ h. ground arith)
  risk_gate-pass_iff (some level) = elim (Bool-cases (level == "HIGH")) [
    | inl e ↦ rw ((eq_iff level "HIGH").0 e) (
        let last =
          iff_trans
            (no_records (approvals_of event.approvals) (event_evidence event "approvals" ∷ []))
            check_approvals-pass_iff in
        (
          λ h. inr (refl, last.0 h),
          λ h. elim h [ inl low ↦ absurd (high_alone low) | inr r ↦ last.1 r.1 ],
        ))
    | inr e ↦ (
      λ h. inl ((not_high level e).0 h),
      λ h. elim h [
        | inl low ↦ (not_high level e).1 low
        | inr r ↦ absurd (false≢true (sym e ∙ (eq_iff level "HIGH").1 (some_inj r.0)))
      ],
    )
  ]
    where
      some_inj : {a b : String} → some a ≡ some b → a ≡ b
      some_inj p = cc

-- QCI-R007 passes exactly when the risk level is LOW or MEDIUM, or it is HIGH, no record of the
-- current event revision rejects or asks for changes, and a quality manager and a process owner have
-- both approved that revision.
pub rule_high_risk_approval-pass_iff :
    (case : Case) (plan : ImpactPlan)
    → ((rule_high_risk_approval case plan).status ≡ pass) ↔ (
        ((case.event.risk_level ≡ some "LOW") ⊎ (case.event.risk_level ≡ some "MEDIUM"))
        ⊎ ((case.event.risk_level ≡ some "HIGH") × IsReleased case.event))
unfolding rule_high_risk_approval
rule_high_risk_approval-pass_iff case plan = risk_gate-pass_iff case.event case.event.risk_level

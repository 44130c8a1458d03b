-- ===== src/Rules/ValidationEvidence/Passes.antt =====
-- When QCI-R006 passes over a sealed context.
use qualityci.Prelude.Dict.{lookup}
use qualityci.Prelude.Sorting.{sorted_set, All-sorted_set}
use mathlib.Core.List.{flat_map}
use qualityci.Case.{Case, Requirement, ValidationPlan}
use qualityci.Model.{pass, unverifiable, EvidenceRef, Finding, ImpactPlan}
use qualityci.Rules.Evidence.{finding, event_evidence}
use qualityci.Rules.ValidationEvidence.{
  Report, ValidationContext, ruleset_version, requirements_by_id, reports_by_id, keys, keys_without,
  shared_keys, code_unless, report_mismatches, compare_pair, compare_reports, check_plan,
  check_sealed, rule_validation_evidence,
}
use qualityci.Prelude.{
  ℕ, ◌≤◌, String, ◌≡◌, refl, ◌∙◌, ◌↔◌, Bool, true, not, ◌&&◌, Option, none, some, List, ◌∷◌, ◌++◌,
  map, arith, eq_iff, leb, if◌then◌else◌, ◌==◌, nat_eq, string_eq, pair_eq, given, is_empty, keep,
  All, contains, All-map, All-zip, All-keep_iff, keep_none_iff, iff_trans, iff_sym, iff_refl,
  not-false, All-image, is_empty-append, is_empty-flat_map, All-iff, ×_iff, [],
}

-- A report that agrees with its requirement, with the event and with the context.
pub record Agrees (case : Case) (context : ValidationContext) (requirement : Requirement)
    (report : Report) : Type 0 where
  pub passed : report.result ≡ "PASS"
  pub of_event : report.event_id ≡ case.event.event_id
  pub of_revision : report.event_revision ≡ case.event.revision
  pub of_scope : report.scope_digest ≡ context.scope_digest
  pub of_subject : report.case_subject_hash ≡ context.case_subject_hash
  pub of_type : report.evidence_type ≡ requirement.evidence_type
  pub of_claim : report.claim ≡ requirement.claim
  pub by_issuer : report.issuer_id ≡ requirement.issuer_id
  pub by_role : report.issuer_role ≡ requirement.issuer_role
  pub of_ruleset : report.ruleset_version ≡ ruleset_version
  pub of_schema : report.case_schema_version ≡ case.schema_version
  pub not_early : requirement.valid_from ≤ report.performed_at
  pub performed_first : report.performed_at ≤ report.issued_at
  pub not_late : report.issued_at ≤ requirement.valid_until

text_code : (code s t : String) → (is_empty (code_unless code (s == t)) ≡ true) ↔ (s ≡ t)
text_code code s t = (λ h. ground (arith, eq_iff s t), λ h. ground (arith, eq_iff s t))

window_code :
    (code : String) (a b c d : ℕ)
    → (is_empty (code_unless code (leb a b && leb b c && leb c d)) ≡ true)
      ↔ ((a ≤ b) × (b ≤ c) × (c ≤ d))
window_code code a b c d = (λ h. (ground arith, ground arith, ground arith), λ h. ground arith)

-- One more code in the list of mismatches.
then_code {ℓ κ} :
    {A : Type ℓ} {B : Type κ} (xs ys : List String)
    → (is_empty xs ≡ true) ↔ A
    → (is_empty ys ≡ true) ↔ B
    → (is_empty (xs ++ ys) ≡ true) ↔ (A × B)
then_code xs ys f g = iff_trans (is_empty-append xs ys) (×_iff f g)

module _ (case : Case) (context : ValidationContext) where
  report_mismatches_iff :
      (requirement : Requirement) (report : Report)
      → (is_empty (report_mismatches case context requirement report) ≡ true)
        ↔ Agrees case context requirement report
  unfolding report_mismatches
  report_mismatches_iff requirement report =
      let c1 =
        then_code _ _ (text_code "RESULT_NOT_PASS" report.result "PASS")
          (text_code "EVENT_ID_MISMATCH" report.event_id case.event.event_id) in
      let c2 =
        then_code _ _ c1
          (text_code "EVENT_REVISION_MISMATCH" report.event_revision case.event.revision) in
      let c3 =
        then_code _ _ c2
          (text_code "SCOPE_DIGEST_MISMATCH" report.scope_digest context.scope_digest) in
      let c4 =
        then_code _ _ c3
          (text_code "CASE_SUBJECT_MISMATCH" report.case_subject_hash context.case_subject_hash) in
      let c5 =
        then_code _ _ c4
          (text_code "EVIDENCE_TYPE_MISMATCH" report.evidence_type requirement.evidence_type) in
      let c6 = then_code _ _ c5 (text_code "CLAIM_MISMATCH" report.claim requirement.claim) in
      let c7 =
        then_code _ _ c6 (text_code "ISSUER_ID_MISMATCH" report.issuer_id requirement.issuer_id) in
      let c8 =
        then_code _ _ c7
          (text_code "ISSUER_ROLE_MISMATCH" report.issuer_role requirement.issuer_role) in
      let c9 =
        then_code _ _ c8
          (text_code "RULESET_VERSION_MISMATCH" report.ruleset_version ruleset_version) in
      let c10 =
        then_code _ _ c9 (
          text_code "CASE_SCHEMA_VERSION_MISMATCH" report.case_schema_version
            case.schema_version) in
      let c11 = then_code _ _ c10 (
        window_code "VALIDATION_TIME_WINDOW_MISMATCH" requirement.valid_from report.performed_at
          report.issued_at requirement.valid_until) in
      iff_trans c11 (
        λ h. record {
          passed = h.0.0.0.0.0.0.0.0.0.0.0;
          of_event = h.0.0.0.0.0.0.0.0.0.0.1;
          of_revision = h.0.0.0.0.0.0.0.0.0.1;
          of_scope = h.0.0.0.0.0.0.0.0.1;
          of_subject = h.0.0.0.0.0.0.0.1;
          of_type = h.0.0.0.0.0.0.1;
          of_claim = h.0.0.0.0.0.1;
          by_issuer = h.0.0.0.0.1;
          by_role = h.0.0.0.1;
          of_ruleset = h.0.0.1;
          of_schema = h.0.1;
          not_early = h.1.0;
          performed_first = h.1.1;
          not_late = h.1.2;
        },
        λ a. (
          (
            (
              (
                (
                  (
                    (
                      ((((a.passed, a.of_event), a.of_revision), a.of_scope), a.of_subject),
                      a.of_type,
                    ),
                    a.of_claim,
                  ),
                  a.by_issuer,
                ),
                a.by_role,
              ),
              a.of_ruleset,
            ),
            a.of_schema,
          ),
          (a.not_early, a.performed_first, a.not_late),
        ),
      )

  All-keys {ℓ} :
      {V : Type ℓ} (d : List (String × V)) (k : String) → contains (keys d) k ≡ given (lookup k d)
  unfolding lookup
  All-keys [] k = refl
  All-keys ((j, v) ∷ d) k = ground (arith, All-keys d k)

  no_member : (xs : List String) → (is_empty xs ≡ true) ↔ All (λ _. ⊥) xs
  no_member [] = (λ h. tt, λ h. refl)
  no_member (x ∷ xs) = (λ h. cc, λ h. absurd h.0)

  -- What QCI-R006 asks of the entry of one id.
  abbrev pub PairAgrees : Option Requirement → Option Report → Type 0
  PairAgrees (some requirement) (some report) = Agrees case context requirement report
  PairAgrees _ _ = Unit

  compare_pair_iff :
      (requirement : Option Requirement) (report : Option Report)
      → (is_empty (compare_pair case context requirement report).0 ≡ true)
        ↔ PairAgrees requirement report
  compare_pair_iff (some requirement) (some report) = report_mismatches_iff requirement report
  compare_pair_iff none report = (λ h. tt, λ h. refl)
  compare_pair_iff (some requirement) none = (λ h. tt, λ h. refl)

  keys_without_iff {ℓ κ} :
      {V : Type ℓ} {W : Type κ} (d : List (String × V)) (c : List (String × W))
      → (is_empty (keys_without d c) ≡ true) ↔ All (λ k. given (lookup k c) ≡ true) (keys d)
  unfolding keys_without
  keys_without_iff d c =
      let missing = λ (k : String). not (contains (keys c) k) in
      iff_trans (no_member (sorted_set (keep missing (keys d)))) (
        iff_trans (All-sorted_set (λ _. ⊥) (keep missing (keys d))) (
          iff_trans (iff_sym (no_member (keep missing (keys d)))) (
            iff_trans (keep_none_iff missing (keys d)) (
              All-iff
                (λ k. iff_trans (not-false (contains (keys c) k)) (rw (All-keys c k) iff_refl))
                (keys d)))))

  module _ (requirements : List (String × Requirement)) (reports : List (String × Report)) where
    -- What QCI-R006 asks for: the ids agree, and each report agrees with its requirement.
    pub record IsAttested : Type 0 where
      pub none_missing : All (λ k. given (lookup k reports) ≡ true) (keys requirements)
      pub none_extra : All (λ k. given (lookup k requirements) ≡ true) (keys reports)
      pub all_agree :
          All (λ k. PairAgrees (lookup k requirements) (lookup k reports)) (keys requirements)

    abbrev pair_at : String → List String × List EvidenceRef
    pair_at id = compare_pair case context (lookup id requirements) (lookup id reports)

    mismatches_iff :
        (is_empty (
            flat_map
              (λ (p : List String × List EvidenceRef). p.0)
              (map pair_at (shared_keys requirements reports)))
          ≡ true)
        ↔ All
            (λ k.
              contains (keys reports) k ≡ true
              → PairAgrees (lookup k requirements) (lookup k reports))
            (keys requirements)
    unfolding shared_keys
    mismatches_iff =
        let shared = keep (λ k. contains (keys reports) k) (keys requirements) in
        iff_trans (is_empty-flat_map _ (map pair_at (sorted_set shared))) (
          iff_trans (All-image _ pair_at (sorted_set shared)) (
            iff_trans (All-sorted_set _ shared) (
              iff_trans
                (All-iff (λ k. compare_pair_iff (lookup k requirements) (lookup k reports)) shared)
                (All-keep_iff _ (λ k. contains (keys reports) k) (keys requirements)))))

    compare_reports_tests : ((compare_reports case context requirements reports).status ≡ pass) ↔ (
        (is_empty (keys_without reports requirements) ≡ true)
        × (is_empty (
              flat_map
                (λ (p : List String × List EvidenceRef). p.0)
                (map pair_at (shared_keys requirements reports)))
            ≡ true))
    unfolding compare_reports finding
    compare_reports_tests = ground arith

    compare_reports-pass_iff :
        (is_empty (keys_without requirements reports) ≡ true)
          × ((compare_reports case context requirements reports).status ≡ pass)
        ↔ IsAttested
    compare_reports-pass_iff = (
      λ h.
          let t = compare_reports_tests.0 h.1 in
          let required = (keys_without_iff requirements reports).0 h.0 in
          record {
            none_missing = required;
            none_extra = (keys_without_iff reports requirements).0 t.0;
            all_agree =
                All-zip (λ k here agree. agree (All-keys reports k ∙ here)) (keys requirements)
                  required (mismatches_iff.0 t.1);
          },
      λ a. (
        (keys_without_iff requirements reports).1 a.none_missing,
        compare_reports_tests.1 (
          (keys_without_iff reports requirements).1 a.none_extra,
          mismatches_iff.1 (All-map (λ k agree _. agree) (keys requirements) a.all_agree),
        ),
      ),
    )

  check_plan-pass_iff :
      (required : List Requirement)
      → ((check_plan case context required).status ≡ pass)
        ↔ IsAttested (requirements_by_id required) (reports_by_id context.reports)
  unfolding check_plan finding
  check_plan-pass_iff required =
      let requirements = requirements_by_id required in
      let reports = reports_by_id context.reports in
      iff_trans
        (test (is_empty (keys_without requirements reports))
          (compare_reports case context requirements reports))
        (compare_reports-pass_iff requirements reports)
    where
      test :
          (b : Bool) (f : Finding)
          → ((if not b
                then finding "QCI-R006" unverifiable "HIGH"
                    (event_evidence case.event "validation_plan.required_evidence" ∷ [])
                else f).status
              ≡ pass)
            ↔ ((b ≡ true) × (f.status ≡ pass))
      test b f = ground arith

-- Over a sealed context and a plan the rule compares the reports with the plan.
planned_check :
    (case : Case) (plan : ImpactPlan) (context : ValidationContext)
    (validation_plan : ValidationPlan)
    → context.sealed ≡ true
    → case.event.validation_plan ≡ some validation_plan
    → rule_validation_evidence case plan (some context)
      ≡ check_plan case context validation_plan.required_evidence
unfolding rule_validation_evidence check_sealed
planned_check case plan context validation_plan sealed planned = ground arith

-- Over a sealed context and an event with a validation plan, QCI-R006 passes exactly when the
-- required ids and the reported ids are the same and every report agrees with its requirement: it
-- passed, it names the event, its revision, the scope, the subject, the type, the claim, the issuer,
-- the role, the ruleset and the schema, it was not issued before it was performed, and both lie in
-- the window.
pub rule_validation_evidence-pass_iff :
    (case : Case) (plan : ImpactPlan) (context : ValidationContext)
    (validation_plan : ValidationPlan)
    → context.sealed ≡ true
    → case.event.validation_plan ≡ some validation_plan
    → ((rule_validation_evidence case plan (some context)).status ≡ pass)
      ↔ IsAttested case context
          (requirements_by_id validation_plan.required_evidence)
          (reports_by_id context.reports)
rule_validation_evidence-pass_iff case plan context validation_plan sealed planned =
    rw (planned_check case plan context validation_plan sealed planned)
      (check_plan-pass_iff case context validation_plan.required_evidence)

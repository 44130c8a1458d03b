-- ===== src/Engine/Nulls.antt =====
-- Which cases have an explicit null that an evaluation reads: `for ... in None` in
-- src/qualityci/impact.py, `set(None)` in src/qualityci/rules.py.
use mathlib.Core.Path.{subst}
use mathlib.Core.Bool.{false≢true}
use qualityci.Text.{TextOps}
use qualityci.Case.{Case, Document, document_by_type, Link}
use qualityci.Impact.{reads_null_links, build_impact_plan}
use qualityci.Rules.ProcessCoverage.{gives_null}
use qualityci.Engine.{Hashes, reads_null}
use qualityci.Prelude.{
  ◌≡◌, refl, ◌↔◌, ◌⊎◌, inl, inr, true, false, not, Option, none, some, List, [], ◌∷◌, nat_eq,
  string_eq, pair_eq, Bool-cases, given, is_empty, Any, any_iff, &&-true, ||-true, iff_trans,
  not-true, Any-iff,
}

-- There is an affected process step, the three documents are there, and the process steps of one of
-- them are null.
abbrev HasNullSteps : TextOps → Case → Option Document → Option Document → Option Document → Type 0
HasNullSteps text case o p q =
    (process_flow : Document) × (pfmea : Document) × (control_plan : Document) × (o
      ≡ some process_flow)
    × (p ≡ some pfmea)
    × (q ≡ some control_plan)
    × (is_empty (build_impact_plan text case).affected_process_steps ≡ false)
    × Any (λ (d : Document). d.fields.process_steps ≡ none)
        (process_flow ∷ pfmea ∷ control_plan ∷ [])

-- The links of the event are null, or the process steps of the process flow, the PFMEA or the control
-- plan are.
abbrev pub ReadsNull : TextOps → Case → Type 0
ReadsNull text case =
    (case.event.affected_links ≡ none)
    ⊎ HasNullSteps text case (document_by_type case "PROCESS_FLOW") (document_by_type case "PFMEA")
        (document_by_type case "CONTROL_PLAN")

given_null : {A : Type 0} (o : Option A) → (not (given o) ≡ true) ↔ (o ≡ none)
given_null none = (λ h. refl, λ h. refl)
given_null (some a) = (λ h. absurd (false≢true h), λ h. cc)

null_links : (o : Option (List Link)) → (reads_null_links o ≡ true) ↔ (o ≡ none)
null_links none = (λ h. refl, λ h. refl)
null_links (some links) = (λ h. absurd (false≢true h), λ h. cc)

module _ (text : TextOps) (hashes : Hashes) (case : Case) where
  null_steps :
      (o p q : Option Document)
      → (gives_null text case (build_impact_plan text case) o p q ≡ true)
        ↔ HasNullSteps text case o p q
  null_steps none p q = (λ h. absurd (false≢true h), λ (x, y, z, e, _, _, _, _). cc)
  null_steps (some x) none q = (λ h. absurd (false≢true h), λ (a, b, c, d, e, _, _, _). cc)
  null_steps (some x) (some y) none = (λ h. absurd (false≢true h), λ (a, b, c, d, e, f, _, _). cc)
  null_steps (some x) (some y) (some z) =
      let one =
        iff_trans (any_iff (λ (d : Document). not (given d.fields.process_steps)) (x ∷ y ∷ z ∷ []))
          (Any-iff (λ (d : Document). given_null d.fields.process_steps) (x ∷ y ∷ z ∷ [])) in
      (
        λ h.
            let (stepped, null) = (&&-true _ _).0 h in
            (x, y, z, refl, refl, refl, (not-true _).0 stepped, one.0 null),
        λ (a, b, c, d, e, f, stepped, null).
            let same : (a ∷ b ∷ c ∷ []) ≡ (x ∷ y ∷ z ∷ []) = cc in
            (&&-true _ _).1 (
              (not-true _).1 stepped,
              one.1 (subst (Any (λ (d : Document). d.fields.process_steps ≡ none)) same null),
            ),
      )

  pub reads_null_iff : (reads_null text hashes case ≡ true) ↔ ReadsNull text case
  reads_null_iff =
      let links = null_links case.event.affected_links in
      let steps =
        null_steps (document_by_type case "PROCESS_FLOW") (document_by_type case "PFMEA")
          (document_by_type case "CONTROL_PLAN") in
      (
        λ h. elim (Bool-cases (reads_null_links case.event.affected_links)) [
          | inl e ↦ inl (links.0 e)
          | inr e ↦ inr (steps.0 (rw e at h))
        ],
        λ h. elim h [
          | inl e ↦ rw (links.1 e) refl
          | inr r ↦ ||-true (reads_null_links case.event.affected_links) _ (steps.1 r)
        ],
      )

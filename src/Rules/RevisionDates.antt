-- ===== src/Rules/RevisionDates.antt =====
-- src/qualityci/rules.py: `rule_revision_after_approval`, QCI-R004, and the structured waivers.
pub mod Passes
use qualityci.Text.{TextOps, is_blank}
use qualityci.Case.{Case, Document, Event, Waiver, is_approved}
use qualityci.Model.{pass, contradicted, unverifiable, EvidenceRef, Finding, ImpactPlan}
use qualityci.Rules.Evidence.{evidence, event_evidence, finding, get_or}
use qualityci.Prelude.{
  ℕ, zero, suc, ◌+◌, ◌-◌, ◌*◌, ◌/◌, ◌%◌, ◌^◌, ◌≤◌, ◌<◌, String, ◌≡◌, refl, sym, ap, ◌∙◌, ◌≢◌, ◌↔◌,
  ◌⊎◌, inl, inr, Bool, true, false, not, ◌&&◌, ◌||◌, Option, none, some, List, [], ◌∷◌, ◌++◌, map,
  arith, eq_iff, ltb, leb, eqb, if◌then◌else◌, Eq, ◌==◌, nat_eq, string_eq, pair_eq, Bool-cases,
  Option-cases, given, is_some_eq, length, is_empty, any, all, keep, All, Any, contains, Result, ok,
  err, ◌>>=◌, ◌>>◌, raise_if,
}

-- `isinstance(value, str) and bool(value.strip())`
abbrev pub nonblank : TextOps → Option String → Bool
nonblank text none = false
nonblank text (some value) = not (is_blank text value)

abbrev pub roles_of : Option (List String) → List String
roles_of none = []
roles_of (some roles) = roles

-- `required.issubset(roles)`
abbrev pub has_required_roles : List String → Bool
has_required_roles roles = contains roles "QUALITY_MANAGER" && contains roles "PROCESS_OWNER"

-- `valid_from <= approval_date <= valid_until`; a missing date is a `KeyError`, caught.
abbrev pub in_window : Option ℕ → Option ℕ → ℕ → Bool
in_window (some valid_from) (some valid_until) day = leb valid_from day && leb day valid_until
in_window _ _ day = false

unfoldable pub waiver_holds : TextOps → Waiver → Document → Event → ℕ → Bool
unfolding is_blank
waiver_holds text waiver doc event approval_date =
    is_some_eq waiver.document_id doc.document_id
    && is_some_eq waiver.event_revision event.revision
    && is_some_eq waiver.scope "REVISION_DATE_EXCEPTION"
    && has_required_roles (roles_of waiver.approved_roles)
    && nonblank text waiver.waiver_id
    && nonblank text waiver.locator
    && in_window waiver.valid_from waiver.valid_until approval_date

-- `_valid_revision_date_waiver`
unfoldable pub valid_revision_date_waiver : TextOps → Document → Event → ℕ → Bool
unfolding waiver_holds
valid_revision_date_waiver text doc event approval_date = elim doc.approved_waiver [
  | none ↦ false
  | some waiver ↦ waiver_holds text waiver doc event approval_date
]

abbrev pub waiver_evidence : Document → List EvidenceRef
waiver_evidence doc = elim doc.approved_waiver [
  | none ↦ []
  | some waiver ↦ evidence doc (get_or waiver.locator "") ∷ []
]

module _ (text : TextOps) (event : Event) (approval_date : ℕ) where
  -- The loop over the approved documents; `stale` and `refs` are what it has gathered.
  unfoldable pub check_documents : List Document → List String → List EvidenceRef → Finding
  check_documents [] stale refs =
      if is_empty stale
      then finding "QCI-R004" pass "LOW" refs
      else finding "QCI-R004" contradicted "HIGH" refs
  check_documents (doc ∷ docs) stale refs = elim doc.revision_date [
    | none ↦ finding "QCI-R004" unverifiable "HIGH" (evidence doc "revision_date" ∷ [])
    | some revision_date ↦
        let early = ltb revision_date approval_date in
        let waived = valid_revision_date_waiver text doc event approval_date in
        check_documents docs (stale ++ (if early && not waived then doc.document_id ∷ [] else [])) (
          refs
          ++ evidence doc "revision_date" ∷ (if early && waived then waiver_evidence doc else []))
  ]

unfoldable pub rule_revision_after_approval : TextOps → Case → ImpactPlan → Finding
unfolding check_documents
rule_revision_after_approval text case plan = elim case.event.approved_at [
  | none ↦ finding "QCI-R004" unverifiable "HIGH" (event_evidence case.event "approved_at" ∷ [])
  | some approval_date ↦
      check_documents text case.event approval_date (keep is_approved case.documents) [] []
]

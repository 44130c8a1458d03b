-- ===== src/Rules/RevisionDates/Passes.antt =====
-- When QCI-R004 passes, and what a waiver has to say.
use qualityci.Text.{TextOps, is_blank}
use qualityci.Case.{Case, Document, Event, Waiver, is_approved}
use mathlib.Core.Path.{subst}
use qualityci.Model.{pass, unverifiable, EvidenceRef, Finding, ImpactPlan}
use qualityci.Rules.Evidence.{finding, evidence}
use qualityci.Rules.RevisionDates.{
  nonblank, roles_of, in_window, waiver_holds, valid_revision_date_waiver, check_documents,
  waiver_evidence, rule_revision_after_approval,
}
use qualityci.Prelude.{
  ℕ, ◌≤◌, String, ◌≡◌, refl, sym, ap, ◌∙◌, ◌↔◌, ◌⊎◌, inl, inr, Bool, true, false, not, ◌&&◌, Option,
  none, some, List, [], ◌∷◌, ◌++◌, arith, eq_iff, ltb, if◌then◌else◌, nat_eq, string_eq, pair_eq,
  Option-cases, is_some_eq, is_empty, keep, All, contains, All-keep_iff, iff_trans, not-true,
}

is_some_eq_iff : (o : Option String) (s : String) → (is_some_eq o s ≡ true) ↔ (o ≡ some s)
is_some_eq_iff none s = (λ h. cc, λ h. cc)
is_some_eq_iff (some t) s = (λ h. ap some ((eq_iff t s).0 h), λ h. (eq_iff t s).1 (some_inj h))
  where
    some_inj : some t ≡ some s → t ≡ s
    some_inj h = cc

-- The text is given and is not blank.
abbrev pub IsWritten : TextOps → Option String → Type 0
IsWritten text o = (s : String) × (o ≡ some s) × (is_blank text s ≡ false)

pub nonblank_iff :
    (text : TextOps) (o : Option String) → (nonblank text o ≡ true) ↔ IsWritten text o
nonblank_iff text none = (λ h. cc, λ h. cc (h.1))
nonblank_iff text (some s) = (λ h. (s, refl, (not-true _).0 h), λ h. (not-true _).1 (cc (h.1, h.2)))

-- The day lies between the two dates, which are both given.
abbrev pub InWindow : Option ℕ → Option ℕ → ℕ → Type 0
InWindow from until day =
    (a : ℕ) × (b : ℕ) × (from ≡ some a) × (until ≡ some b) × (a ≤ day) × (day ≤ b)

in_window_iff :
    (from until : Option ℕ) (day : ℕ) → (in_window from until day ≡ true) ↔ InWindow from until day
in_window_iff none until day = (λ h. cc, λ h. cc (h.2))
in_window_iff (some a) none day = (λ h. cc, λ h. cc (h.3))
in_window_iff (some a) (some b) day =
    (λ h. (a, b, refl, refl, ground arith, ground arith), λ h. back h)
  where
    back : InWindow (some a) (some b) day → in_window (some a) (some b) day ≡ true
    back (c, d, p, q, l, r) = ground arith

-- What a waiver of a stale revision date has to state.
pub record Waives (text : TextOps) (waiver : Waiver) (doc : Document) (event : Event) (day : ℕ)
    : Type 0 where
  pub of_document : waiver.document_id ≡ some doc.document_id
  pub of_revision : waiver.event_revision ≡ some event.revision
  pub of_scope : waiver.scope ≡ some "REVISION_DATE_EXCEPTION"
  pub by_quality_manager : contains (roles_of waiver.approved_roles) "QUALITY_MANAGER" ≡ true
  pub by_process_owner : contains (roles_of waiver.approved_roles) "PROCESS_OWNER" ≡ true
  pub identified : IsWritten text waiver.waiver_id
  pub located : IsWritten text waiver.locator
  pub in_force : InWindow waiver.valid_from waiver.valid_until day

seven :
    (a b c d e f g h : Bool)
    → ((a && b && c && (d && e) && f && g && h) ≡ true) ↔ (
        (a ≡ true)
        × (b ≡ true)
        × (c ≡ true)
        × (d ≡ true)
        × (e ≡ true)
        × (f ≡ true)
        × (g ≡ true)
        × (h ≡ true))
seven a b c d e f g h = ground arith

module _ (text : TextOps) (doc : Document) (event : Event) (day : ℕ) where
  waiver_holds_iff :
      (waiver : Waiver)
      → (waiver_holds text waiver doc event day ≡ true) ↔ Waives text waiver doc event day
  unfolding waiver_holds
  waiver_holds_iff waiver =
      let all_seven =
        seven (is_some_eq waiver.document_id doc.document_id)
          (is_some_eq waiver.event_revision event.revision)
          (is_some_eq waiver.scope "REVISION_DATE_EXCEPTION")
          (contains (roles_of waiver.approved_roles) "QUALITY_MANAGER")
          (contains (roles_of waiver.approved_roles) "PROCESS_OWNER")
          (nonblank text waiver.waiver_id) (nonblank text waiver.locator)
          (in_window waiver.valid_from waiver.valid_until day) in
      let d = is_some_eq_iff waiver.document_id doc.document_id in
      let r = is_some_eq_iff waiver.event_revision event.revision in
      let s = is_some_eq_iff waiver.scope "REVISION_DATE_EXCEPTION" in
      let i = nonblank_iff text waiver.waiver_id in
      let l = nonblank_iff text waiver.locator in
      let w = in_window_iff waiver.valid_from waiver.valid_until day in
      (
        λ h.
            let t = all_seven.0 h in
            record {
              of_document = d.0 t.0;
              of_revision = r.0 t.1;
              of_scope = s.0 t.2;
              by_quality_manager = t.3;
              by_process_owner = t.4;
              identified = i.0 t.5;
              located = l.0 t.6;
              in_force = w.0 t.7;
            },
        λ v. all_seven.1 (
          d.1 v.of_document,
          r.1 v.of_revision,
          s.1 v.of_scope,
          v.by_quality_manager,
          v.by_process_owner,
          i.1 v.identified,
          l.1 v.located,
          w.1 v.in_force,
        ),
      )

  abbrev pub IsWaived : Type 0
  IsWaived =
      (waiver : Waiver) × (doc.approved_waiver ≡ some waiver) × Waives text waiver doc event day

  valid_waiver_iff : (valid_revision_date_waiver text doc event day ≡ true) ↔ IsWaived
  unfolding valid_revision_date_waiver
  valid_waiver_iff = by_waiver doc.approved_waiver refl
    where
      by_waiver :
          (o : Option Waiver)
          → doc.approved_waiver ≡ o
          → (elim o as (λ _. Bool) [
            | none ↦ false
            | some waiver ↦ waiver_holds text waiver doc event day
          ]
              ≡ true)
            ↔ ((waiver : Waiver) × (o ≡ some waiver) × Waives text waiver doc event day)
      by_waiver none e = (λ h. cc, λ h. cc (h.1))
      by_waiver (some waiver) e = (
        λ h. (waiver, refl, (waiver_holds_iff waiver).0 h),
        λ h.
            (waiver_holds_iff waiver).1
              (subst (λ w. Waives text w doc event day) (some_inj h.0 h.1) h.2),
      )
        where
          some_inj : (other : Waiver) → some waiver ≡ some other → other ≡ waiver
          some_inj other p = cc

  -- Revised on or after the day of approval, or waived.
  abbrev pub IsCurrent : Type 0
  IsCurrent = (date : ℕ) × (doc.revision_date ≡ some date) × ((day ≤ date) ⊎ IsWaived)

is_empty-snoc_if {ℓ} :
    {A : Type ℓ} (xs : List A) (x : A) (b : Bool)
    → (is_empty (xs ++ (if b then x ∷ [] else [])) ≡ true) ↔ ((is_empty xs ≡ true) × (b ≡ false))
is_empty-snoc_if [] x b = ground arith
is_empty-snoc_if (y ∷ xs) x b = (λ h. cc, λ h. cc (h.0))

stale_iff :
    (date day : ℕ) (waived : Bool)
    → ((ltb date day && not waived) ≡ false) ↔ ((day ≤ date) ⊎ (waived ≡ true))
stale_iff date day waived = (λ h. ground arith, λ h. ground arith)

⊎_iff {ℓ κ μ} : {A : Type ℓ} {B : Type κ} {C : Type μ} → B ↔ C → (A ⊎ B) ↔ (A ⊎ C)
⊎_iff f = (
  λ h. elim h [ inl a ↦ inl a | inr b ↦ inr (f.0 b) ],
  λ h. elim h [ inl a ↦ inl a | inr c ↦ inr (f.1 c) ],
)

module _ (text : TextOps) (event : Event) (day : ℕ) where
  abbrev Passed : List Document → List String → List EvidenceRef → Type 0
  Passed docs stale refs = (check_documents text event day docs stale refs).status ≡ pass

  -- One round of the loop.
  check_document :
      (doc : Document) (docs : List Document) (stale : List String) (refs : List EvidenceRef)
      (date : ℕ)
      → doc.revision_date ≡ some date
      → check_documents text event day (doc ∷ docs) stale refs
        ≡ check_documents text event day docs
            (stale
              ++ (if ltb date day && not (valid_revision_date_waiver text doc event day)
                  then doc.document_id ∷ []
                  else []))
            (refs
              ++ evidence doc "revision_date"
                ∷ (if ltb date day && valid_revision_date_waiver text doc event day
                    then waiver_evidence doc
                    else []))
  unfolding check_documents
  check_document doc docs stale refs date e = simp e

  no_date :
      (doc : Document) (docs : List Document) (stale : List String) (refs : List EvidenceRef)
      → doc.revision_date ≡ none
      → (check_documents text event day (doc ∷ docs) stale refs).status ≡ unverifiable
  unfolding check_documents finding
  no_date doc docs stale refs e = simp e

  current_iff :
      (doc : Document) (date : ℕ)
      → doc.revision_date ≡ some date
      → ((day ≤ date) ⊎ IsWaived text doc event day) ↔ IsCurrent text doc event day
  current_iff doc date e = (
    λ h. (date, e, h),
    λ h. subst (λ d. (day ≤ d) ⊎ IsWaived text doc event day) (some_inj h.0 (sym e ∙ h.1)) h.2,
  )
    where
      some_inj : (other : ℕ) → some date ≡ some other → other ≡ date
      some_inj other p = cc

  check_documents-pass_iff :
      (docs : List Document) (stale : List String) (refs : List EvidenceRef)
      → Passed docs stale refs
        ↔ ((is_empty stale ≡ true) × All (λ doc. IsCurrent text doc event day) docs)
  unfolding check_documents finding
  check_documents-pass_iff [] stale refs = (λ h. (ground arith, tt), λ h. ground arith)
  check_documents-pass_iff (doc ∷ docs) stale refs = elim (Option-cases doc.revision_date) [
    | inl e ↦ (λ h. cc (h, no_date doc docs stale refs e), λ h. cc (e, h.1.0.1))
    | inr (date, e) ↦
        let waived = valid_revision_date_waiver text doc event day in
        let stale' = stale ++ (if ltb date day && not waived then doc.document_id ∷ [] else []) in
        let refs' =
          refs
          ++ evidence doc "revision_date"
            ∷ (if ltb date day && waived then waiver_evidence doc else []) in
        let ih = check_documents-pass_iff docs stale' refs' in
        let here =
          iff_trans (stale_iff date day waived)
            (iff_trans (⊎_iff (valid_waiver_iff text doc event day)) (current_iff doc date e)) in
        let snoc = is_empty-snoc_if stale doc.document_id (ltb date day && not waived) in
        let same = check_document doc docs stale refs date e in
        (
          λ h.
              let t = ih.0 (subst (λ (f : Finding). f.status ≡ pass) same h) in
              let u = snoc.0 t.0 in (u.0, (here.0 u.1, t.1)),
          λ h.
              subst (λ (f : Finding). f.status ≡ pass) (sym same)
                (ih.1 (snoc.1 (h.0, here.1 h.1.0), h.1.1)),
        )
  ]

-- The rule is the loop over the approved documents.
approved_loop :
    (text : TextOps) (case : Case) (plan : ImpactPlan) (day : ℕ)
    → case.event.approved_at ≡ some day
    → rule_revision_after_approval text case plan
      ≡ check_documents text case.event day (keep is_approved case.documents) [] []
unfolding rule_revision_after_approval
approved_loop text case plan day e = ground arith

-- For an event approved on a day, QCI-R004 passes exactly when every approved document has a
-- revision date, which is not before the day unless the document carries a waiver that names the
-- document, the event revision and the scope, has both roles, an id, a locator and a window that
-- holds the day.
pub rule_revision_after_approval-pass_iff :
    (text : TextOps) (case : Case) (plan : ImpactPlan) (day : ℕ)
    → case.event.approved_at ≡ some day
    → ((rule_revision_after_approval text case plan).status ≡ pass)
      ↔ All (λ doc. is_approved doc ≡ true → IsCurrent text doc case.event day) case.documents
rule_revision_after_approval-pass_iff text case plan day e =
    let approved = keep is_approved case.documents in
    let loop = check_documents-pass_iff text case.event day approved [] [] in
    let same = approved_loop text case plan day e in
    iff_trans
      (
        λ h. (loop.0 (subst (λ (f : Finding). f.status ≡ pass) same h)).1,
        λ h. subst (λ (f : Finding). f.status ≡ pass) (sym same) (loop.1 (refl, h)),
      )
      (All-keep_iff _ is_approved case.documents)

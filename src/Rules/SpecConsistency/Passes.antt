-- ===== src/Rules/SpecConsistency/Passes.antt =====
-- When QCI-R002 passes, in terms of the rows of the three documents.
use mathlib.Core.List.{flat_map}
use qualityci.Text.{TextOps}
use qualityci.Case.{Case, Document, Characteristic, Link, document_by_type}
use qualityci.Model.{pass, contradicted, unverifiable, EvidenceRef, ImpactPlan, Finding}
use qualityci.Rules.Evidence.{finding}
use qualityci.Rules.Index.{link_key}
use qualityci.Rules.Index.Laws.{last_with_key, lookup-characteristics}
use qualityci.Rules.Scope.{Collection, scope_relationships_complete, legacy_unbound_evidence}
use qualityci.Rules.Scope.Links.{BindsAll, scope_relationships_complete_iff}
use qualityci.Rules.SpecConsistency.{
  Spec, spec_eqb, spec_tuple, Reading, absent_row, present_row, read_row, pair_conflicts, readings,
  some_missing, some_misbound, missing_documents, spec_consistency, with_documents,
  rule_spec_consistency,
}
use qualityci.Prelude.{
  ◌≡◌, refl, sym, ap, ◌∙◌, ◌↔◌, inl, inr, Bool, true, false, not, ◌||◌, Option, none, some, List,
  [], ◌∷◌, map, arith, if◌then◌else◌, nat_eq, string_eq, pair_eq, Option-cases, is_empty, any, All,
  All-map, All-zip, any-false_iff, All-append, iff_trans, iff_refl, All-image, All-iff, ×_iff,
}

All-flat_map {ℓ κ} :
    {A : Type ℓ} {B : Type κ} (P : B → Type 0) (f : A → List B) (xs : List A)
    → All P (flat_map f xs) ↔ All (λ x. All P (f x)) xs
unfolding flat_map
All-flat_map P f [] = iff_refl
All-flat_map P f (x ∷ xs) =
    iff_trans (All-append P (f x) (flat_map f xs)) (×_iff iff_refl (All-flat_map P f xs))

module _ (text : TextOps) where
  -- The last row of the document at the key of the link has the specification.
  abbrev pub Specifies : Document → Link → Spec → Type 0
  Specifies doc link spec =
      (row : Characteristic) × (last_with_key text (link_key text link) doc.fields.characteristics
        ≡ some row)
      × (spec_tuple text row ≡ some spec)

  abbrev reading_of : Document → Link → Option Characteristic → Reading
  reading_of doc link none = absent_row text doc link
  reading_of doc link (some row) = present_row text doc link row (spec_tuple text row)

  reading_of_elim :
      (doc : Document) (link : Link) (o : Option Characteristic)
      → (elim o [
        | none ↦ absent_row text doc link
        | some row ↦ present_row text doc link row (spec_tuple text row)
      ])
        ≡ reading_of doc link o
  reading_of_elim doc link none = refl
  reading_of_elim doc link (some row) = refl

  read_row-reading :
      (doc : Document) (link : Link)
      → read_row text link doc
        ≡ reading_of doc link (last_with_key text (link_key text link) doc.fields.characteristics)
  unfolding read_row
  read_row-reading doc link =
      reading_of_elim doc link _
      ∙ ap (reading_of doc link) (lookup-characteristics text (link_key text link) doc)

  -- A round that misses nothing has read a specification.
  reading_of_complete :
      (doc : Document) (link : Link) (o : Option Characteristic)
      → not (is_empty (reading_of doc link o).missing) ≡ false
      → (spec : Spec) × ((row : Characteristic) × (o ≡ some row)
          × (spec_tuple text row ≡ some spec))
  reading_of_complete doc link none h = cc
  reading_of_complete doc link (some row) h = elim (Option-cases (spec_tuple text row)) [
    | inl e ↦ cc (rw e at h)
    | inr (spec, e) ↦ (spec, (row, refl, e))
  ]

  -- A round over a row with a specification.
  pub record HasRead (reading : Reading) (spec : Spec) : Type 0 where
    pub complete : not (is_empty reading.missing) ≡ false
    pub bound : not (is_empty reading.misbound) ≡ false
    pub value : reading.values ≡ spec ∷ []

  reading_of-HasRead :
      (doc : Document) (link : Link) (o : Option Characteristic) (spec : Spec)
      (row : Characteristic)
      → o ≡ some row
      → spec_tuple text row ≡ some spec
      → HasRead (reading_of doc link o) spec
  reading_of-HasRead doc link o spec row e s =
      rw (e, s) (record { complete = refl; bound = refl; value = refl })

  read_row-HasRead :
      (doc : Document) (link : Link) (spec : Spec)
      → Specifies doc link spec
      → HasRead (read_row text link doc) spec
  read_row-HasRead doc link spec (row, e, s) =
      rw (read_row-reading doc link) (reading_of-HasRead doc link _ spec row e s)

  read_row-Specifies :
      (doc : Document) (link : Link)
      → not (is_empty (read_row text link doc).missing) ≡ false
      → (spec : Spec) × Specifies doc link spec
  read_row-Specifies doc link h =
      reading_of_complete doc link _
        (ap (λ (r : Reading). not (is_empty r.missing)) (sym (read_row-reading doc link)) ∙ h)

  module _ (control sop inspection : Document) where
    -- The three documents give a specification at the link, and it is the same one.
    pub record IsAgreed (link : Link) : Type 0 where
      pub of_control : Spec
      pub of_sop : Spec
      pub of_inspection : Spec
      pub in_control : Specifies control link of_control
      pub in_sop : Specifies sop link of_sop
      pub in_inspection : Specifies inspection link of_inspection
      pub sop_same : spec_eqb of_control of_sop ≡ true
      pub inspection_same : spec_eqb of_control of_inspection ≡ true

    abbrev docs : List Document
    docs = control ∷ sop ∷ inspection ∷ []

    conflict :
        (link : Link) (a b c : Spec)
        → HasRead (read_row text link control) a
        → HasRead (read_row text link sop) b
        → HasRead (read_row text link inspection) c
        → pair_conflicts text docs link ≡ (not (spec_eqb a b) || (not (spec_eqb a c) || false))
    unfolding pair_conflicts flat_map
    conflict link a b c ra rb rc = rw (ra.value, rb.value, rc.value) refl

    or_false_iff : (a b : Bool) → ((not a || (not b || false)) ≡ false) ↔ ((a ≡ true) × (b ≡ true))
    or_false_iff a b = ground arith

    -- All three rounds over the link miss nothing.
    abbrev AllComplete : Link → Type 0
    AllComplete link = All (λ doc. not (is_empty (read_row text link doc).missing) ≡ false) docs

    IsAgreed-of :
        (link : Link) → AllComplete link → pair_conflicts text docs link ≡ false → IsAgreed link
    IsAgreed-of link (c, (s, (i, _))) no_conflict =
        let (a, in_a) = read_row-Specifies control link c in
        let (b, in_b) = read_row-Specifies sop link s in
        let (d, in_d) = read_row-Specifies inspection link i in
        let same = (or_false_iff (spec_eqb a b) (spec_eqb a d)).0 (
          sym (
            conflict link a b d (read_row-HasRead control link a in_a)
              (read_row-HasRead sop link b in_b) (read_row-HasRead inspection link d in_d))
          ∙ no_conflict) in
        record {
          of_control = a;
          of_sop = b;
          of_inspection = d;
          in_control = in_a;
          in_sop = in_b;
          in_inspection = in_d;
          sop_same = same.0;
          inspection_same = same.1;
        }

    -- What a link on which the documents agree adds to the lists of the loop: nothing.
    IsAgreed-silent :
        (link : Link)
        → IsAgreed link
        → AllComplete link
          × All (λ doc. not (is_empty (read_row text link doc).misbound) ≡ false) docs
          × (pair_conflicts text docs link ≡ false)
    IsAgreed-silent link g =
        let c = read_row-HasRead control link g.of_control g.in_control in
        let s = read_row-HasRead sop link g.of_sop g.in_sop in
        let i = read_row-HasRead inspection link g.of_inspection g.in_inspection in
        (
          (c.complete, (s.complete, (i.complete, tt))),
          (c.bound, (s.bound, (i.bound, tt))),
          conflict link g.of_control g.of_sop g.of_inspection c s i
              ∙ (or_false_iff _ _).1 (g.sop_same, g.inspection_same),
        )

    -- A test on all rounds of the loops, link by link.
    readings_iff :
        (test : Reading → Bool) (links : List Link)
        → (any (readings text docs links) test ≡ false)
          ↔ All (λ link. All (λ doc. test (read_row text link doc) ≡ false) docs) links
    unfolding readings
    readings_iff test links = iff_trans (any-false_iff test _) (
        iff_trans
          (All-flat_map (λ (r : Reading). test r ≡ false) (λ link. map (read_row text link) docs)
            links)
          (All-iff (λ link. All-image (λ (r : Reading). test r ≡ false) (read_row text link) docs)
            links))

module _ (text : TextOps) (case : Case) (plan : ImpactPlan)
    (control sop inspection : Document) where
  -- What QCI-R002 asks for.
  pub record IsConsistent : Type 0 where
    pub some_characteristic : is_empty plan.affected_characteristics ≡ false
    pub bound : BindsAll text plan
    pub no_legacy_row :
        is_empty (
          legacy_unbound_evidence case (
            (control, Collection.characteristics)
            ∷ (sop, Collection.characteristics)
            ∷ (inspection, Collection.characteristics)
            ∷ []))
        ≡ true
    pub agreed : All (IsAgreed text control sop inspection) plan.affected_links

  gate :
      (a b c d e f : Bool) (r0 : Finding) (r1 r2 r3 : List EvidenceRef)
      → r0.status ≡ unverifiable
      → ((if a
            then r0
            else if not b
            then finding "QCI-R002" unverifiable "HIGH" r1
            else if not c
            then finding "QCI-R002" unverifiable "HIGH" r2
            else if d
            then finding "QCI-R002" contradicted "HIGH" r3
            else if e
            then finding "QCI-R002" contradicted "HIGH" r3
            else if f
            then finding "QCI-R002" unverifiable "HIGH" r3
            else finding "QCI-R002" pass "LOW" r3).status
          ≡ pass)
        ↔ ((a ≡ false) × (b ≡ true) × (c ≡ true) × (d ≡ false) × (e ≡ false) × (f ≡ false))
  unfolding finding
  gate a b c d e f r0 r1 r2 r3 h = ground arith

  abbrev three : List Document
  three = control ∷ sop ∷ inspection ∷ []

  tests : ((spec_consistency text case plan three).status ≡ pass) ↔ (
      (is_empty plan.affected_characteristics ≡ false)
      × (scope_relationships_complete text plan ≡ true)
      × (is_empty (
            legacy_unbound_evidence case (
              (control, Collection.characteristics)
              ∷ (sop, Collection.characteristics)
              ∷ (inspection, Collection.characteristics)
              ∷ []))
          ≡ true)
      × (any plan.affected_links (pair_conflicts text three) ≡ false)
      × (some_misbound text case plan (readings text three plan.affected_links) ≡ false)
      × (some_missing text case plan (readings text three plan.affected_links) ≡ false))
  unfolding spec_consistency missing_documents finding
  tests = gate _ _ _ _ _ _ _ _ _ _ refl

  spec_consistency-pass_iff : ((spec_consistency text case plan three).status ≡ pass) ↔ IsConsistent
  spec_consistency-pass_iff =
      let links = plan.affected_links in
      let bound = scope_relationships_complete_iff text plan in
      let conflicts = any-false_iff (pair_conflicts text three) links in
      let missing =
        readings_iff text control sop inspection (λ r. not (is_empty r.missing)) links in
      let misbound =
        readings_iff text control sop inspection (λ r. not (is_empty r.misbound)) links in
      let silent = IsAgreed-silent text control sop inspection in
      (
        λ h.
            let t = tests.0 h in
            record {
              some_characteristic = t.0;
              bound = bound.0 t.1;
              no_legacy_row = t.2;
              agreed =
                  All-zip (IsAgreed-of text control sop inspection) links (missing.0 t.5)
                    (conflicts.0 t.3);
            },
        λ c. tests.1 (
          c.some_characteristic,
          bound.1 c.bound,
          c.no_legacy_row,
          conflicts.1 (All-map (λ l g. (silent l g).2) links c.agreed),
          misbound.1 (All-map (λ l g. (silent l g).1) links c.agreed),
          missing.1 (All-map (λ l g. (silent l g).0) links c.agreed),
        ),
      )

-- With exactly one approved control plan, SOP and inspection record, QCI-R002 passes exactly when
-- some characteristic is affected, the links bind every affected characteristic, no legacy row lacks
-- its relation, and at every link the last row of each of the three documents has a specification,
-- the three with the same target, limits and unit.
pub rule_spec_consistency-pass_iff :
    (text : TextOps) (case : Case) (plan : ImpactPlan) (control sop inspection : Document)
    → document_by_type case "CONTROL_PLAN" ≡ some control
    → document_by_type case "SOP" ≡ some sop
    → document_by_type case "INSPECTION_RECORD" ≡ some inspection
    → ((rule_spec_consistency text case plan).status ≡ pass)
      ↔ IsConsistent text case plan control sop inspection
unfolding rule_spec_consistency with_documents
rule_spec_consistency-pass_iff text case plan control sop inspection c s i =
    rw (c, s, i) (spec_consistency-pass_iff text case plan control sop inspection)

-- ===== src/Rules/SpecialControl/Passes.antt =====
-- When QCI-R003 passes, in terms of the rows of the two documents.
use qualityci.Text.{TextOps}
use qualityci.Case.{Case, Document, Characteristic, Risk, Link, document_by_type}
use qualityci.Model.{pass, contradicted, unverifiable, EvidenceRef, ImpactPlan}
use qualityci.Rules.Evidence.{finding}
use qualityci.Rules.Index.{link_key, list_or_nil}
use qualityci.Rules.Index.Laws.{
  has_key, rows_with_key, last_with_key, lookup-risks, lookup-characteristics, given-lookup_risks,
}
use qualityci.Rules.Scope.{Collection, scope_relationships_complete, legacy_unbound_evidence}
use qualityci.Rules.Scope.Links.{BindsAll, scope_relationships_complete_iff}
use qualityci.Rules.ProcessCoverage.Passes.{HasRisk}
use qualityci.Rules.RevisionDates.Passes.{IsWritten, nonblank_iff}
use qualityci.Rules.RevisionDates.{nonblank}
use qualityci.Rules.SpecialControl.{
  is_complete_control, risks_at, control_at, missing_risk, control_gap, is_gap, special_control,
  with_documents, rule_special_characteristic_control,
}
use qualityci.Prelude.{
  ◌≡◌, refl, sym, ap, ◌∙◌, ◌↔◌, Bool, true, false, not, ◌&&◌, Option, none, some, List, [], ◌∷◌,
  arith, if◌then◌else◌, nat_eq, string_eq, pair_eq, given, is_empty, any, All, Any, any_iff,
  any-false_iff, keep_none_iff, iff_trans, not-true, not-false, Any-keep_iff, keep_some_iff,
  All-iff,
}

module _ (text : TextOps) where
  -- A row with a method, a frequency and a reaction plan.
  pub record IsComplete (row : Characteristic) : Type 0 where
    pub method : IsWritten text row.control_method
    pub frequency : IsWritten text row.frequency
    pub reaction : IsWritten text row.reaction_plan

  and_three : (a b c : Bool) → ((a && b && c) ≡ true) ↔ ((a ≡ true) × (b ≡ true) × (c ≡ true))
  and_three a b c = ground arith

  is_complete_control_iff :
      (row : Characteristic) → (is_complete_control text row ≡ true) ↔ IsComplete row
  unfolding is_complete_control
  is_complete_control_iff row =
      let tests =
        and_three (nonblank text row.control_method) (nonblank text row.frequency)
          (nonblank text row.reaction_plan) in
      let method = nonblank_iff text row.control_method in
      let frequency = nonblank_iff text row.frequency in
      let reaction = nonblank_iff text row.reaction_plan in
      (
        λ h.
            let t = tests.0 h in
            record {
              method = method.0 t.0;
              frequency = frequency.0 t.1;
              reaction = reaction.0 t.2;
            },
        λ c. tests.1 (method.1 c.method, frequency.1 c.frequency, reaction.1 c.reaction),
      )

  -- Some risk row at the key of the link has the special characteristic.
  abbrev pub IsSpecial : Document → Link → Type 0
  IsSpecial pfmea link =
      Any
        (λ (row : Risk).
          (has_key text (link_key text link) row.item ≡ true) × (row.special_characteristic ≡ true))
        pfmea.fields.risks

  -- The last control row at the key of the link is complete.
  abbrev pub HasCompleteControl : Document → Link → Type 0
  HasCompleteControl control link =
      (row : Characteristic) × (last_with_key text (link_key text link)
          control.fields.characteristics
        ≡ some row)
      × IsComplete row

module _ (text : TextOps) (case : Case) (plan : ImpactPlan) (pfmea control : Document) where
  control_gap_iff :
      (o : Option Characteristic)
      → (control_gap text case plan pfmea control o ≡ false)
        ↔ ((row : Characteristic) × (o ≡ some row) × IsComplete text row)
  control_gap_iff none = (λ h. cc, λ h. cc (h.1))
  control_gap_iff (some row) =
      let complete = is_complete_control_iff text row in
      (
        λ h. (row, refl, complete.0 ((not-false _).0 h)),
        λ (r, e, c). (not-false _).1 (cc (some_inj e, (is_complete_control_iff text r).1 c)),
      )
    where
      some_inj : {a b : Characteristic} → some a ≡ some b → a ≡ b
      some_inj h = cc

  IsSpecial-iff :
      (link : Link)
      → (any
            (list_or_nil (risks_at text case plan pfmea control link))
            (λ (row : Risk). row.special_characteristic)
          ≡ true)
        ↔ IsSpecial text pfmea link
  IsSpecial-iff link = rw (lookup-risks text (link_key text link) pfmea) (
      iff_trans (any_iff _ (rows_with_key text (link_key text link) pfmea.fields.risks))
        (Any-keep_iff _ _ pfmea.fields.risks))

  and_false_iff : (a b : Bool) → ((a && b) ≡ false) ↔ (a ≡ true → b ≡ false)
  and_false_iff a b = ground arith

  is_gap_iff :
      (link : Link)
      → (is_gap text case plan pfmea control link ≡ false)
        ↔ (IsSpecial text pfmea link → HasCompleteControl text control link)
  unfolding is_gap
  is_gap_iff link =
      let special = IsSpecial-iff link in
      let complete =
        control_gap_iff (last_with_key text (link_key text link) control.fields.characteristics) in
      let at = lookup-characteristics text (link_key text link) control in
      let gap =
        and_false_iff
          (any (list_or_nil (risks_at text case plan pfmea control link))
            (λ (row : Risk). row.special_characteristic))
          (control_gap text case plan pfmea control
            (control_at text case plan pfmea control link)) in
      let same = ap (control_gap text case plan pfmea control) at in
      (
        λ h s. complete.0 (sym same ∙ gap.0 h (special.1 s)),
        λ f. gap.1 (λ t. same ∙ complete.1 (f (special.0 t))),
      )

  risk_there_iff :
      (link : Link)
      → (not (given (risks_at text case plan pfmea control link)) ≡ false) ↔ HasRisk text pfmea link
  risk_there_iff link = iff_trans (not-false _) (
      rw (given-lookup_risks text (link_key text link) pfmea)
        (iff_trans (not-true _) (keep_some_iff _ pfmea.fields.risks)))

  missing_risk_iff :
      (is_empty (missing_risk text case plan pfmea control) ≡ true)
      ↔ All (HasRisk text pfmea) plan.affected_links
  unfolding missing_risk
  missing_risk_iff =
      iff_trans (keep_none_iff _ plan.affected_links) (All-iff risk_there_iff plan.affected_links)

  -- What QCI-R003 asks for.
  pub record IsControlled : Type 0 where
    pub bound : BindsAll text plan
    pub no_legacy_row :
        is_empty (
          legacy_unbound_evidence case
            ((pfmea, Collection.risks) ∷ (control, Collection.characteristics) ∷ []))
        ≡ true
    pub risks_there : All (HasRisk text pfmea) plan.affected_links
    pub specials_controlled :
        All
          (λ link. IsSpecial text pfmea link → HasCompleteControl text control link)
          plan.affected_links

  gate :
      (a b c d e : Bool) (r1 r2 r3 r4 : List EvidenceRef)
      → ((if not a
            then finding "QCI-R003" unverifiable "HIGH" r1
            else if not b
            then finding "QCI-R003" unverifiable "HIGH" r2
            else if not c
            then finding "QCI-R003" (if e then contradicted else unverifiable) "HIGH" r3
            else if d
            then finding "QCI-R003" contradicted "HIGH" r4
            else finding "QCI-R003" pass "LOW" r4).status
          ≡ pass)
        ↔ ((a ≡ true) × (b ≡ true) × (c ≡ true) × (d ≡ false))
  unfolding finding
  gate a b c d e r1 r2 r3 r4 = ground arith

  special_control_tests : ((special_control text case plan pfmea control).status ≡ pass) ↔ (
      (scope_relationships_complete text plan ≡ true)
      × (is_empty (
            legacy_unbound_evidence case
              ((pfmea, Collection.risks) ∷ (control, Collection.characteristics) ∷ []))
          ≡ true)
      × (is_empty (missing_risk text case plan pfmea control) ≡ true)
      × (any plan.affected_links (is_gap text case plan pfmea control) ≡ false))
  unfolding special_control
  special_control_tests = gate _ _ _ _ _ _ _ _ _

  special_control-pass_iff :
      ((special_control text case plan pfmea control).status ≡ pass) ↔ IsControlled
  special_control-pass_iff =
      let bound = scope_relationships_complete_iff text plan in
      let gaps =
        iff_trans (any-false_iff _ plan.affected_links) (All-iff is_gap_iff plan.affected_links) in
      (
        λ h.
            let t = special_control_tests.0 h in
            record {
              bound = bound.0 t.0;
              no_legacy_row = t.1;
              risks_there = missing_risk_iff.0 t.2;
              specials_controlled = gaps.0 t.3;
            },
        λ c. special_control_tests.1 (
          bound.1 c.bound,
          c.no_legacy_row,
          missing_risk_iff.1 c.risks_there,
          gaps.1 c.specials_controlled,
        ),
      )

-- With exactly one approved PFMEA and control plan, QCI-R003 passes exactly when the links bind every
-- affected characteristic, no legacy row lacks its relation, every link has a risk row, and every
-- link with a special risk row has a control row, of which the last has a control method, a frequency
-- and a reaction plan that are not blank.
pub rule_special_characteristic_control-pass_iff :
    (text : TextOps) (case : Case) (plan : ImpactPlan) (pfmea control : Document)
    → document_by_type case "PFMEA" ≡ some pfmea
    → document_by_type case "CONTROL_PLAN" ≡ some control
    → ((rule_special_characteristic_control text case plan).status ≡ pass)
      ↔ IsControlled text case plan pfmea control
unfolding rule_special_characteristic_control with_documents
rule_special_characteristic_control-pass_iff text case plan pfmea control p c =
    rw (p, c) (special_control-pass_iff text case plan pfmea control)

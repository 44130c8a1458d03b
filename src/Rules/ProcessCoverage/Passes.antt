-- ===== src/Rules/ProcessCoverage/Passes.antt =====
-- When QCI-R001 passes, in terms of the rows of the three documents.
use qualityci.Prelude.Dict.{lookup}
use qualityci.Text.{TextOps, normalized_identity}
use qualityci.Case.{steps_of, Case, Document, Characteristic, Risk, Link, document_by_type}
use qualityci.Model.{pass, ImpactPlan}
use qualityci.Rules.Index as Index
use qualityci.Rules.Index.{link_key, list_or_nil}
use qualityci.Rules.Index.Laws.{has_key, lookup-risks, lookup-characteristics, given-last_with_key}
use qualityci.Rules.Scope.{Collection, scope_relationships_complete, legacy_unbound_evidence}
use qualityci.Rules.Scope.Links.{BindsAll, contains-texts_iff, scope_relationships_complete_iff}
use qualityci.Rules.Evidence.{finding}
use qualityci.Rules.ProcessCoverage.{
  missing_steps, risk_side, control_side, relation_gaps, process_coverage, missing_documents,
  rule_process_coverage, with_documents,
}
use qualityci.Prelude.{
  String, ◌≡◌, ◌↔◌, Bool, true, false, not, ◌||◌, some, ◌∷◌, map, arith, nat_eq, string_eq, pair_eq,
  given, is_empty, All, Any, contains, keep_none_iff, iff_trans, not-true, is_empty-append,
  keep_some_iff, is_empty-flat_map, All-iff, ×_iff, [],
}

module _ (text : TextOps) where
  -- The document lists the step, up to normalisation.
  abbrev pub Lists : String → Document → Type 0
  Lists step doc =
      Any (λ s. normalized_identity text s ≡ normalized_identity text step)
        (steps_of doc.fields.process_steps)

  -- A risk row, or a control row, stands at the key of the link.
  abbrev pub HasRisk : Document → Link → Type 0
  HasRisk pfmea link =
      Any (λ (row : Risk). has_key text (link_key text link) row.item ≡ true) pfmea.fields.risks

  abbrev pub HasControl : Document → Link → Type 0
  HasControl control link =
      Any (λ (row : Characteristic). has_key text (link_key text link) row.item ≡ true)
        control.fields.characteristics

module _ (text : TextOps) (case : Case) (plan : ImpactPlan)
    (process_flow pfmea control : Document) where
  risk_side_test :
      (link : Link)
      → is_empty (risk_side text case plan process_flow pfmea control link).0
        ≡ not (is_empty (list_or_nil (lookup (link_key text link) (Index.risks text (some pfmea)))))
  unfolding risk_side
  risk_side_test link = ground arith

  control_side_test :
      (link : Link)
      → is_empty (control_side text case plan process_flow pfmea control link).0
        ≡ given (lookup (link_key text link) (Index.characteristics text (some control)))
  unfolding control_side
  control_side_test link = ground arith

  risk_side_iff :
      (link : Link)
      → (is_empty (risk_side text case plan process_flow pfmea control link).0 ≡ true)
        ↔ HasRisk text pfmea link
  risk_side_iff link =
      rw (risk_side_test link, lookup-risks text (link_key text link) pfmea)
        (iff_trans (not-true _) (keep_some_iff _ pfmea.fields.risks))

  control_side_iff :
      (link : Link)
      → (is_empty (control_side text case plan process_flow pfmea control link).0 ≡ true)
        ↔ HasControl text control link
  control_side_iff link =
      rw (control_side_test link, lookup-characteristics text (link_key text link) control)
        (given-last_with_key text (link_key text link) control.fields.characteristics)

  relation_gaps_iff :
      (is_empty (relation_gaps text case plan process_flow pfmea control) ≡ true)
      ↔ All (λ link. HasRisk text pfmea link × HasControl text control link) plan.affected_links
  unfolding relation_gaps
  relation_gaps_iff = iff_trans (is_empty-flat_map _ plan.affected_links) (
      All-iff
        (λ link.
          iff_trans (is_empty-append _ _) (×_iff (risk_side_iff link) (control_side_iff link)))
        plan.affected_links)

  -- The step is in all three documents.
  abbrev pub ListedInAll : String → Type 0
  ListedInAll step = Lists text step process_flow × Lists text step pfmea × Lists text step control

  listed :
      (step : String) (doc : Document)
      → (contains
            (map (normalized_identity text) (steps_of doc.fields.process_steps))
            (normalized_identity text step)
          ≡ true)
        ↔ Lists text step doc
  listed step doc =
      contains-texts_iff text (normalized_identity text) (steps_of doc.fields.process_steps)
        (normalized_identity text step)

  missing_steps_iff :
      (is_empty (missing_steps text case plan process_flow pfmea control) ≡ true)
      ↔ All ListedInAll plan.affected_process_steps
  unfolding missing_steps
  missing_steps_iff =
      iff_trans (keep_none_iff _ plan.affected_process_steps)
        (All-iff (λ step. iff_trans (three _ _ _) (in_all step)) plan.affected_process_steps)
    where
      three :
          (a b c : Bool)
          → ((not a || (not b || (not c || false))) ≡ false)
            ↔ ((a ≡ true) × (b ≡ true) × (c ≡ true))
      three a b c = ground arith

      in_all :
          (step : String)
          → ((contains
                  (map (normalized_identity text) (steps_of process_flow.fields.process_steps))
                  (normalized_identity text step)
                ≡ true)
              × (contains
                    (map (normalized_identity text) (steps_of pfmea.fields.process_steps))
                    (normalized_identity text step)
                  ≡ true)
              × (contains
                    (map (normalized_identity text) (steps_of control.fields.process_steps))
                    (normalized_identity text step)
                  ≡ true))
            ↔ ListedInAll step
      in_all step =
          let f = listed step in
          (
            λ h. ((f process_flow).0 h.0, (f pfmea).0 h.1, (f control).0 h.2),
            λ h. ((f process_flow).1 h.0, (f pfmea).1 h.1, (f control).1 h.2),
          )

  -- What QCI-R001 asks for.
  pub record IsCovered : Type 0 where
    pub some_step : is_empty plan.affected_process_steps ≡ false
    pub steps_listed : All ListedInAll plan.affected_process_steps
    pub bound : BindsAll text plan
    pub no_legacy_row :
        is_empty (
          legacy_unbound_evidence case
            ((pfmea, Collection.risks) ∷ (control, Collection.characteristics) ∷ []))
        ≡ true
    pub links_carried :
        All (λ link. HasRisk text pfmea link × HasControl text control link) plan.affected_links

  -- The rule as a cascade of five tests.
  process_coverage_tests :
      ((process_coverage text case plan process_flow pfmea control).status ≡ pass) ↔ (
        (is_empty plan.affected_process_steps ≡ false)
        × (is_empty (missing_steps text case plan process_flow pfmea control) ≡ true)
        × (scope_relationships_complete text plan ≡ true)
        × (is_empty (
              legacy_unbound_evidence case
                ((pfmea, Collection.risks) ∷ (control, Collection.characteristics) ∷ []))
            ≡ true)
        × (is_empty (relation_gaps text case plan process_flow pfmea control) ≡ true))
  unfolding process_coverage missing_documents finding
  process_coverage_tests = ground arith

  process_coverage-pass_iff :
      ((process_coverage text case plan process_flow pfmea control).status ≡ pass) ↔ IsCovered
  process_coverage-pass_iff = (
    λ h.
        let t = process_coverage_tests.0 h in
        record {
          some_step = t.0;
          steps_listed = missing_steps_iff.0 t.1;
          bound = (scope_relationships_complete_iff text plan).0 t.2;
          no_legacy_row = t.3;
          links_carried = relation_gaps_iff.0 t.4;
        },
    λ c. process_coverage_tests.1 (
      c.some_step,
      missing_steps_iff.1 c.steps_listed,
      (scope_relationships_complete_iff text plan).1 c.bound,
      c.no_legacy_row,
      relation_gaps_iff.1 c.links_carried,
    ),
  )

-- With exactly one approved process flow, PFMEA and control plan, QCI-R001 passes exactly when some
-- step is affected, every affected step is listed in all three documents, the links bind every
-- affected characteristic, no legacy row lacks its relation, and every link has a risk row in the
-- PFMEA and a row in the control plan.
pub rule_process_coverage-pass_iff :
    (text : TextOps) (case : Case) (plan : ImpactPlan) (process_flow pfmea control : Document)
    → document_by_type case "PROCESS_FLOW" ≡ some process_flow
    → document_by_type case "PFMEA" ≡ some pfmea
    → document_by_type case "CONTROL_PLAN" ≡ some control
    → ((rule_process_coverage text case plan).status ≡ pass)
      ↔ IsCovered text case plan process_flow pfmea control
unfolding rule_process_coverage
rule_process_coverage-pass_iff text case plan process_flow pfmea control f p c =
    rw (f, p, c, with_documents)
      (process_coverage-pass_iff text case plan process_flow pfmea control)

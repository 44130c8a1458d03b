-- ===== src/Rules/Scope.antt =====
-- src/qualityci/rules.py: whether the event binds each characteristic to a step, and the rows that a
-- migration left without one.
pub mod Links
use qualityci.Text.{TextOps, concat, normalized_identity}
use qualityci.Case.{Case, Document, Characteristic, Risk, Item, Link}
use qualityci.Model.{EvidenceRef, ImpactPlan}
use qualityci.Rules.Evidence.{evidence, get_or}
use mathlib.Core.List.{flat_map}
use qualityci.Prelude.{
  ℕ, zero, suc, ◌+◌, ◌-◌, ◌*◌, ◌/◌, ◌%◌, ◌^◌, ◌≤◌, ◌<◌, String, ◌≡◌, refl, sym, ap, ◌∙◌, ◌≢◌, ◌↔◌,
  ◌⊎◌, inl, inr, Bool, true, false, not, ◌&&◌, ◌||◌, Option, none, some, List, [], ◌∷◌, ◌++◌, map,
  arith, eq_iff, ltb, leb, eqb, if◌then◌else◌, Eq, ◌==◌, nat_eq, string_eq, pair_eq, Bool-cases,
  Option-cases, given, is_some_eq, length, is_empty, any, all, keep, All, Any, contains, Result, ok,
  err, ◌>>=◌, ◌>>◌, raise_if,
}

module _ (text : TextOps) where
  -- `_scope_relationships_complete`
  unfoldable pub scope_relationships_complete : ImpactPlan → Bool
  scope_relationships_complete plan =
      let linked_characteristics =
        map (λ (pair : Link). normalized_identity text pair.characteristic_id)
          plan.affected_links in
      not (is_empty plan.affected_links)
      && all plan.affected_characteristics
          (λ id. contains linked_characteristics (normalized_identity text id))

-- `not item.get(key)`
abbrev pub is_missing : Option String → Bool
is_missing none = true
is_missing (some value) = value == ""

pub data Collection : Type 0 where
  risks characteristics : Collection

unfoldable pub legacy_risk : Document → Risk → List EvidenceRef
unfolding evidence
legacy_risk doc row =
    if is_missing row.item.process_step_id
    then evidence doc (get_or row.item.locator "fields.risks") ∷ []
    else []

unfoldable pub legacy_characteristic : Document → Characteristic → List EvidenceRef
unfolding evidence
legacy_characteristic doc row =
    if is_missing row.item.process_step_id
      || (doc.document_type == "CONTROL_PLAN" && is_missing row.control_id)
    then evidence doc (get_or row.item.locator "fields.characteristics") ∷ []
    else []

unfoldable pub legacy_rows : Document × Collection → List EvidenceRef
unfolding legacy_risk legacy_characteristic flat_map
legacy_rows (doc, risks) = flat_map (legacy_risk doc) doc.fields.risks
legacy_rows (doc, characteristics) = flat_map (legacy_characteristic doc) doc.fields.characteristics

-- `_legacy_unbound_evidence`
unfoldable pub legacy_unbound_evidence : Case → List (Document × Collection) → List EvidenceRef
unfolding legacy_rows flat_map
legacy_unbound_evidence case documents =
    if given case.relationship_migration then flat_map legacy_rows documents else []

-- ===== src/Rules/Scope/Links.antt =====
-- When the links of a plan bind every affected characteristic.
use qualityci.Text.{TextOps, normalized_identity}
use qualityci.Case.{Link}
use qualityci.Model.{ImpactPlan}
use qualityci.Rules.Scope.{scope_relationships_complete}
use qualityci.Prelude.{
  String, ◌≡◌, ◌↔◌, true, false, not, List, map, arith, eq_iff, nat_eq, string_eq, pair_eq,
  is_empty, All, Any, contains, all_iff, &&-true, iff_trans, contains-map_iff, All-iff, Any-iff,
  ×_iff,
}

module _ (text : TextOps) where
  abbrev SameIdentity : String → String → Type 0
  SameIdentity s t = normalized_identity text s ≡ normalized_identity text t

  -- Some affected link, and a link for each affected characteristic.
  abbrev pub BindsAll : ImpactPlan → Type 0
  BindsAll plan =
      (is_empty plan.affected_links ≡ false)
      × All
          (λ id. Any (λ (link : Link). SameIdentity link.characteristic_id id) plan.affected_links)
          plan.affected_characteristics

  -- The list of texts holds the text.
  pub contains-texts_iff :
      {A : Type 0} (f : A → String) (xs : List A) (s : String)
      → (contains (map f xs) s ≡ true) ↔ Any (λ x. f x ≡ s) xs
  contains-texts_iff f xs s = iff_trans (contains-map_iff f xs s) (Any-iff (λ x. eq_iff (f x) s) xs)

  -- The scope of a plan is complete exactly when it has some link and for every affected
  -- characteristic a link whose characteristic is the same up to normalisation.
  pub scope_relationships_complete_iff :
      (plan : ImpactPlan) → (scope_relationships_complete text plan ≡ true) ↔ BindsAll plan
  unfolding scope_relationships_complete
  scope_relationships_complete_iff plan = iff_trans (&&-true _ _) (
      ×_iff not_iff (
        iff_trans (all_iff _ plan.affected_characteristics) (
          All-iff (λ id. contains-texts_iff _ plan.affected_links _)
            plan.affected_characteristics)))
    where
      not_iff : (not (is_empty plan.affected_links) ≡ true) ↔ (is_empty plan.affected_links ≡ false)
      not_iff = ground arith

-- ===== src/Impact.antt =====
-- src/qualityci/impact.py: the impact plan of a change event. `reasoning_path`, a text for the
-- reader, is not modelled.
pub mod Scope
use qualityci.Prelude.Sorting.{sort, sorted_set, key_leb}
use qualityci.Text.{TextOps}
use qualityci.Case.{Case, Link}
use qualityci.Model.{ImpactPlan}
use qualityci.Rules.Index.{link_key}
use qualityci.Prelude.{
  Bool, true, false, String, Option, none, some, List, [], ◌∷◌, nat_eq, string_eq, pair_eq,
}

abbrev pub rule_ids : List String
rule_ids =
    "QCI-R001" ∷ "QCI-R002" ∷ "QCI-R003" ∷ "QCI-R004" ∷ "QCI-R005" ∷ "QCI-R006" ∷ "QCI-R007" ∷ []

abbrev pub required_types : List String
required_types = "PROCESS_FLOW" ∷ "PFMEA" ∷ "CONTROL_PLAN" ∷ "SOP" ∷ "INSPECTION_RECORD" ∷ []

-- `event.get("affected_links", [])`; an explicit null raises a TypeError in the loop over it.
abbrev pub links_of : Option (List Link) → List Link
links_of none = []
links_of (some links) = links

abbrev pub reads_null_links : Option (List Link) → Bool
reads_null_links none = true
reads_null_links (some links) = false

unfoldable pub build_impact_plan : TextOps → Case → ImpactPlan
unfolding link_key
build_impact_plan text case = record {
  event_id = case.event.event_id;
  affected_process_steps = sorted_set case.event.affected_process_steps;
  affected_characteristics = sorted_set case.event.affected_characteristics;
  affected_links =
      sort (λ a b. key_leb (link_key text a) (link_key text b))
        (links_of case.event.affected_links);
  required_document_types = required_types;
  selected_rule_ids = rule_ids;
}

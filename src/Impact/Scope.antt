-- ===== src/Impact/Scope.antt =====
-- The scope of a plan is the scope of its event.
use qualityci.Prelude.Sorting.{All-sort, All-sorted_set}
use qualityci.Text.{TextOps}
use qualityci.Case.{Case, Link}
use qualityci.Impact.{links_of, build_impact_plan}
use qualityci.Prelude.{String, ◌↔◌, nat_eq, string_eq, pair_eq, All}

-- The plan of a case has the steps, the characteristics and the links of its event, none added and
-- none lost: whatever holds of all of the one holds of all of the other. Links that are null, which the
-- evaluation raises on, count as none.
pub build_impact_plan-scope :
    (text : TextOps) (case : Case) (P : String → Type 0) (Q : Link → Type 0)
    → (All P (build_impact_plan text case).affected_process_steps
        ↔ All P case.event.affected_process_steps)
      × (All P (build_impact_plan text case).affected_characteristics
          ↔ All P case.event.affected_characteristics)
      × (All Q (build_impact_plan text case).affected_links
          ↔ All Q (links_of case.event.affected_links))
unfolding build_impact_plan
build_impact_plan-scope text case P Q = (
  All-sorted_set P case.event.affected_process_steps,
  All-sorted_set P case.event.affected_characteristics,
  All-sort Q _ (links_of case.event.affected_links),
)

-- ===== src/Loader/Event.antt =====
-- src/qualityci/loader.py: `validate_case`, the migration markers and the event.
use qualityci.Text.{TextOps, Key, normalized_identity, relationship_key}
use qualityci.Case.{Event, Link, Migration, Requirement, ValidationPlan, ValidationItem, Approval}
use qualityci.Loader.Checks.{
  Check, for_each, when_given, require_given, require_enum, require_bounded_list,
  require_nonempty_string, require_string_list, reject_normalized_duplicates,
}
use qualityci.Prelude.{
  String, not, ◌&&◌, ◌||◌, Option, none, some, List, [], ◌∷◌, map, ltb, ◌==◌, nat_eq, string_eq,
  pair_eq, is_some_eq, is_empty, contains, ok, err, ◌>>◌, raise_if,
}

unfoldable pub validate_relationship_migration : Migration → Check
validate_relationship_migration migration = do
  raise_if (not (migration.source_schema_version == "qualityci-case-0.1"))
      "relationship_migration has unsupported source_schema_version"
  raise_if (not (migration.target_schema_version == "qualityci-case-0.2"))
      "relationship_migration target_schema_version is not v0.2"
  require_enum ("DETERMINISTIC_1X1" ∷ "AMBIGUOUS" ∷ []) migration.status
  raise_if
      (migration.status == "DETERMINISTIC_1X1"
        && not (is_some_eq migration.inference_scope "EVENT_SCOPE_ONLY"))
      "deterministic legacy migration must be explicitly limited to EVENT_SCOPE_ONLY"

module _ (text : TextOps) where
  unfoldable pub validate_reference_migration : Migration → Check
  validate_reference_migration migration = do
    raise_if (not (migration.source_schema_version == "qualityci-case-0.2"))
        "reference_migration has unsupported source_schema_version"
    raise_if (not (migration.target_schema_version == "qualityci-case-0.3"))
        "reference_migration target_schema_version is not v0.3"
    require_enum ("LEGACY_UNATTESTED" ∷ []) migration.status
    raise_if (not (is_some_eq migration.inference_scope "NONE"))
        "legacy references must not infer identity"
    require_string_list text 1024 migration.ids

  unfoldable pub validate_validation_migration : Migration → Check
  validate_validation_migration migration = do
    raise_if
        (not (migration.source_schema_version == "qualityci-case-0.3")
          || not (migration.target_schema_version == "qualityci-case-0.4"))
        "validation_migration version chain must be v0.3 to v0.4"
    require_enum ("LEGACY_UNATTESTED" ∷ []) migration.status
    raise_if (not (is_some_eq migration.inference_scope "NONE"))
        "legacy validation evidence must not infer a subject"
    require_string_list text 10000 migration.ids

  -- The loop over `affected_links`; `seen` is `link_keys`.
  unfoldable pub validate_links : List String → List String → List Key → List Link → Check
  validate_links step_keys characteristic_keys seen [] = ok tt
  validate_links step_keys characteristic_keys seen (link ∷ links) =
      let key = relationship_key text link.process_step_id link.characteristic_id in
      do
        require_nonempty_string text link.process_step_id
        require_nonempty_string text link.characteristic_id
        raise_if (contains seen key) "event affected_links contains duplicate normalized pairs"
        raise_if (not (contains step_keys key.0) || not (contains characteristic_keys key.1))
            "event affected_links must reference declared identities"
        validate_links step_keys characteristic_keys (key ∷ seen) links

  unfoldable pub validate_requirement : Requirement → Check
  validate_requirement requirement = do
    require_nonempty_string text requirement.evidence_id
    require_nonempty_string text requirement.evidence_type
    require_nonempty_string text requirement.claim
    require_nonempty_string text requirement.issuer_id
    require_nonempty_string text requirement.issuer_role
    raise_if (ltb requirement.valid_until requirement.valid_from)
        "validation_plan valid_until precedes valid_from"

  unfoldable pub validate_validation_plan : ValidationPlan → Check
  unfolding validate_requirement for_each
  validate_validation_plan plan = do
    raise_if (not (plan.contract_version == "qualityci-validation-plan-0.1"))
        "event validation_plan contract version is unsupported"
    require_bounded_list 10000 plan.required_evidence
    raise_if (is_empty plan.required_evidence)
        "event validation_plan required_evidence must not be empty"
    for_each validate_requirement plan.required_evidence
    reject_normalized_duplicates text
        (map (λ (r : Requirement). r.evidence_id) plan.required_evidence)

  abbrev validate_item : ValidationItem → Check
  validate_item item = do
    require_nonempty_string text item.evidence_id
    require_enum ("PASS" ∷ "FAIL" ∷ "PENDING" ∷ []) item.result

  unfoldable pub validate_validation_evidence : List ValidationItem → Check
  unfolding for_each
  validate_validation_evidence items = do
    require_bounded_list 10000 items
    for_each validate_item items
    reject_normalized_duplicates text (map (λ (i : ValidationItem). i.evidence_id) items)

  -- The loop over `approvals`; `seen` is `approval_subjects`.
  unfoldable pub validate_approvals : List (String × String) → List Approval → Check
  validate_approvals seen [] = ok tt
  validate_approvals seen (item ∷ items) =
      let subject : String × String = (item.role, item.event_revision) in
      do
        require_nonempty_string text item.role
        require_enum ("APPROVED" ∷ "REJECTED" ∷ "CHANGES_REQUESTED" ∷ []) item.decision
        require_nonempty_string text item.event_revision
        raise_if (contains seen subject)
            "event approvals must have a unique role + event_revision subject"
        validate_approvals (subject ∷ seen) items

  abbrev plan_check : Option Migration → Option ValidationPlan → Check
  plan_check none none = err "native v0.4 event requires validation_plan"
  plan_check (some migration) none = ok tt
  plan_check migration (some plan) = validate_validation_plan plan

  abbrev pub affected_list_check : List String → Check
  affected_list_check values = do
    require_string_list text 10000 values
    reject_normalized_duplicates text values

  unfoldable pub validate_event : Option Migration → Event → Check
  unfolding validate_links validate_validation_plan validate_validation_evidence validate_approvals
  validate_event validation_migration event = do
    require_nonempty_string text event.event_id
    require_nonempty_string text event.revision
    require_enum ("ENGINEERING_CHANGE" ∷ "QUALITY_EVENT" ∷ []) event.event_type
    require_given event.risk_level "event missing required keys"
        (require_enum ("LOW" ∷ "MEDIUM" ∷ "HIGH" ∷ []))
    affected_list_check event.affected_process_steps
    affected_list_check event.affected_characteristics
    when_given event.affected_links λ links. do
      require_bounded_list 10000 links
      validate_links (map (normalized_identity text) event.affected_process_steps)
          (map (normalized_identity text) event.affected_characteristics) [] links
    plan_check validation_migration event.validation_plan
    when_given event.validation_evidence validate_validation_evidence
    when_given event.approvals
        λ approvals. do require_bounded_list 10000 approvals; validate_approvals [] approvals

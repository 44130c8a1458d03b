-- ===== src/Store/Tables.antt =====
-- src/qualityci/store.py: the fields that the `_save_*` calls insert, and the unique columns of the
-- tables, from `_create_schema`.
use qualityci.Store.Audit.{
  Table, cases, runs, baselines, run_validation_sets, run_case_source_sets, replay_admissions,
  replay_validation_bindings, replay_ledger, authorization_trust_snapshots,
  replay_authorization_authenticity_bindings, approval_subjects, approval_assertions,
  approval_consumptions, replay_approval_expectations, baseline_approval_bindings,
}
use qualityci.Prelude.{String, List, [], ◌∷◌, nat_eq, string_eq, pair_eq}

-- The fields of the `INSERT` statement of a table whose rows are saved here.
unfoldable pub fields_of : Table → List String
fields_of cases = "case_id" ∷ "case_hash" ∷ "synthetic" ∷ "payload_json" ∷ []
fields_of runs = "run_id" ∷ "case_id" ∷ "status" ∷ "ruleset_version" ∷ "payload_json" ∷ []
fields_of run_validation_sets = "run_id" ∷ "evidence_set_hash" ∷ []
fields_of run_case_source_sets =
    "run_id" ∷ "case_source_assurance_state" ∷ "source_set_hash" ∷ "root_binding_hash"
    ∷ "terminal_lineage_hash" ∷ "canonical_payload_json" ∷ []
fields_of baselines = "baseline_id" ∷ "case_id" ∷ "source_run_id" ∷ "payload_json" ∷ []
fields_of replay_admissions =
    "replay_admission_hash" ∷ "resolution_id" ∷ "artifact_set_hash" ∷ "approved_case_hash"
    ∷ "resolution_json" ∷ "payload_json" ∷ []
fields_of replay_ledger =
    "replay_ledger_hash" ∷ "replay_admission_hash" ∷ "consumption_hash" ∷ "resolution_id"
    ∷ "artifact_set_hash" ∷ "approved_case_hash" ∷ "after_run_id" ∷ "payload_json" ∷ []
fields_of replay_validation_bindings =
    "validation_binding_hash" ∷ "resolution_id" ∷ "source_case_hash" ∷ "after_case_hash"
    ∷ "after_run_id" ∷ "source_evidence_set_hash" ∷ "resolved_evidence_set_hash"
    ∷ "evidence_pair_hash" ∷ "replay_admission_hash" ∷ "payload_json" ∷ []
fields_of authorization_trust_snapshots =
    "trust_snapshot_hash" ∷ "contract_version" ∷ "trust_policy_hash" ∷ "trust_policy_version"
    ∷ "snapshot_bytes" ∷ []
fields_of replay_authorization_authenticity_bindings =
    "replay_authorization_authenticity_binding_hash" ∷ "replay_admission_hash"
    ∷ "approval_subject_hash" ∷ "approval_assertion_set_hash" ∷ "authorization_record_set_hash"
    ∷ "trust_snapshot_hash" ∷ "authorization_authenticity_context_hash"
    ∷ "stateless_authenticity_binding_hash" ∷ "after_case_hash" ∷ "after_run_id" ∷ "payload_json"
    ∷ []
fields_of approval_subjects =
    "approval_subject_hash" ∷ "contract_version" ∷ "resolution_id" ∷ "execution_nonce"
    ∷ "payload_json" ∷ []
fields_of approval_assertions =
    "assertion_hash" ∷ "approval_subject_hash" ∷ "approval_id" ∷ "normalized_approval_id"
    ∷ "role_claim" ∷ "authorization_record_set_hash" ∷ "authorization_record_id"
    ∷ "authorization_record_hash" ∷ "payload_json" ∷ []
fields_of approval_consumptions =
    "consumption_hash" ∷ "approval_subject_hash" ∷ "assertion_set_hash"
    ∷ "authorization_record_set_hash" ∷ "execution_nonce" ∷ "replay_admission_hash" ∷ "after_run_id"
    ∷ "payload_json" ∷ []
fields_of replay_approval_expectations =
    "expectation_hash" ∷ "resolution_id" ∷ "after_case_hash" ∷ "after_run_id" ∷ "artifact_set_hash"
    ∷ "approval_subject_hash" ∷ "assertion_set_hash" ∷ "authorization_record_set_hash"
    ∷ "consumption_hash" ∷ "replay_admission_hash" ∷ "baseline_id" ∷ "baseline_binding_hash"
    ∷ "payload_json" ∷ []
fields_of baseline_approval_bindings =
    "baseline_binding_hash" ∷ "baseline_id" ∷ "after_case_hash" ∷ "after_run_id" ∷ "resolution_id"
    ∷ "artifact_set_hash" ∷ "approval_subject_hash" ∷ "assertion_set_hash"
    ∷ "authorization_record_set_hash" ∷ "payload_json" ∷ []
fields_of _ = []

-- The columns, or groups of columns, that are unique besides the key.
unfoldable pub unique_columns : Table → List (List String)
unique_columns replay_admissions =
    ("resolution_id" ∷ "artifact_set_hash" ∷ "approved_case_hash" ∷ []) ∷ []
unique_columns replay_ledger =
    ("replay_admission_hash" ∷ []) ∷ ("consumption_hash" ∷ []) ∷ ("after_run_id" ∷ []) ∷ []
unique_columns replay_validation_bindings =
    ("after_case_hash" ∷ [])
    ∷ ("after_run_id" ∷ [])
    ∷ ("evidence_pair_hash" ∷ [])
    ∷ ("replay_admission_hash" ∷ [])
    ∷ []
unique_columns approval_subjects = ("execution_nonce" ∷ []) ∷ []
unique_columns approval_assertions =
    ("approval_id" ∷ [])
    ∷ ("normalized_approval_id" ∷ [])
    ∷ ("approval_subject_hash" ∷ "role_claim" ∷ [])
    ∷ []
unique_columns approval_consumptions =
    ("approval_subject_hash" ∷ [])
    ∷ ("assertion_set_hash" ∷ [])
    ∷ ("execution_nonce" ∷ [])
    ∷ ("replay_admission_hash" ∷ [])
    ∷ ("after_run_id" ∷ [])
    ∷ []
unique_columns replay_approval_expectations =
    ("after_case_hash" ∷ [])
    ∷ ("after_run_id" ∷ [])
    ∷ ("approval_subject_hash" ∷ [])
    ∷ ("assertion_set_hash" ∷ [])
    ∷ ("consumption_hash" ∷ [])
    ∷ ("replay_admission_hash" ∷ [])
    ∷ []
unique_columns baseline_approval_bindings =
    ("baseline_id" ∷ [])
    ∷ ("after_case_hash" ∷ [])
    ∷ ("after_run_id" ∷ [])
    ∷ ("approval_subject_hash" ∷ [])
    ∷ []
unique_columns replay_authorization_authenticity_bindings =
    ("replay_admission_hash" ∷ [])
    ∷ ("approval_subject_hash" ∷ [])
    ∷ ("approval_assertion_set_hash" ∷ [])
    ∷ ("stateless_authenticity_binding_hash" ∷ [])
    ∷ ("after_case_hash" ∷ [])
    ∷ ("after_run_id" ∷ [])
    ∷ []
unique_columns _ = []

-- How a call of a table goes on after the `INSERT`: it records the row if it was inserted and compares the
-- stored row otherwise, by its fingerprint or by its values; or it compares the stored row first.
pub data Order : Type 0 where
  record_or_compare_fingerprints record_or_compare compare_then_record : Order

unfoldable pub order_of : Table → Order
order_of cases = record_or_compare_fingerprints
order_of runs = record_or_compare_fingerprints
order_of baselines = record_or_compare_fingerprints
order_of run_validation_sets = record_or_compare
order_of run_case_source_sets = record_or_compare
order_of replay_admissions = record_or_compare
order_of replay_ledger = record_or_compare
order_of replay_validation_bindings = record_or_compare
order_of _ = compare_then_record

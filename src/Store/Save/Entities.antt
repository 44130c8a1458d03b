-- ===== src/Store/Save/Entities.antt =====
-- src/qualityci/store.py: the calls `_save_*_entity`, each for the table of its entity.
use qualityci.Store.Audit.{
  runs, baselines, replay_admissions, replay_ledger, replay_validation_bindings,
  replay_authorization_authenticity_bindings, authorization_trust_snapshots, approval_subjects,
  approval_assertions, approval_consumptions, replay_approval_expectations,
  baseline_approval_bindings,
}
use qualityci.Store.Rows.{Cell}
use qualityci.Store.Save.{Store, Database, save_entity}
use qualityci.Prelude.{String, Bool, List, nat_eq, string_eq, pair_eq, Result}

-- A call of the store: from the time of its event and the values of the entity, in the order of the
-- `INSERT` statement, to the store after it and whether a row was inserted.
module _ (database : Database) (now : String) (entity : List Cell) (store : Store) where
  -- `save_prevalidated_run` and the baseline of `_save_native_replay_transaction`
  abbrev pub save_prevalidated_run : Result String (Store × Bool)
  save_prevalidated_run = save_entity database now runs entity store

  abbrev pub save_baseline : Result String (Store × Bool)
  save_baseline = save_entity database now baselines entity store

  -- `_save_authorization_trust_snapshot_entity`
  abbrev pub save_authorization_trust_snapshot_entity : Result String (Store × Bool)
  save_authorization_trust_snapshot_entity =
      save_entity database now authorization_trust_snapshots entity store

  -- `_save_approval_subject_entity`
  abbrev pub save_approval_subject_entity : Result String (Store × Bool)
  save_approval_subject_entity = save_entity database now approval_subjects entity store

  -- `_save_approval_assertion_entity`
  abbrev pub save_approval_assertion_entity : Result String (Store × Bool)
  save_approval_assertion_entity = save_entity database now approval_assertions entity store

  -- `_save_replay_admission_entity`
  abbrev pub save_replay_admission_entity : Result String (Store × Bool)
  save_replay_admission_entity = save_entity database now replay_admissions entity store

  -- `_save_replay_authorization_authenticity_binding_entity`
  abbrev pub save_replay_authorization_authenticity_binding_entity : Result String (Store × Bool)
  save_replay_authorization_authenticity_binding_entity =
      save_entity database now replay_authorization_authenticity_bindings entity store

  -- `_save_replay_ledger_entity`
  abbrev pub save_replay_ledger_entity : Result String (Store × Bool)
  save_replay_ledger_entity = save_entity database now replay_ledger entity store

  -- `_save_replay_validation_binding_entity`
  abbrev pub save_replay_validation_binding_entity : Result String (Store × Bool)
  save_replay_validation_binding_entity =
      save_entity database now replay_validation_bindings entity store

  -- `_save_approval_consumption_entity`
  abbrev pub save_approval_consumption_entity : Result String (Store × Bool)
  save_approval_consumption_entity = save_entity database now approval_consumptions entity store

  -- `_save_baseline_approval_binding_entity`
  abbrev pub save_baseline_approval_binding_entity : Result String (Store × Bool)
  save_baseline_approval_binding_entity =
      save_entity database now baseline_approval_bindings entity store

  -- `_save_replay_approval_expectation_entity`
  abbrev pub save_replay_approval_expectation_entity : Result String (Store × Bool)
  save_replay_approval_expectation_entity =
      save_entity database now replay_approval_expectations entity store

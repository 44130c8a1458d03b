-- ===== src/Store/Save/Replay.antt =====
-- src/qualityci/store.py: the rows that `_save_native_replay_transaction` saves for a replay without a
-- source closure, from the trust snapshot and the resolved case to the last test before SQLite commits.
-- The sets of raw bytes that it stages, and the tests before the first write, are left out. The loop over
-- the approvals of a resolution has no round for a native approval.
pub mod Stored
pub mod Committed
pub mod Single
use qualityci.Json.{Json}
use qualityci.Store.Audit.{
  Table, cases, authorization_trust_snapshots, run_validation_sets, replay_admissions,
  replay_ledger, replay_validation_bindings, replay_authorization_authenticity_bindings,
  approval_subjects, approval_assertions, approval_consumptions, replay_approval_expectations,
  baseline_approval_bindings,
}
use qualityci.Store.Rows.{Cell, same_row}
use qualityci.Store.Tables.{fields_of}
use qualityci.Store.Save.{
  Store, Database, entity_of, stored_matches, save_entity, committed, verify_store,
}
use qualityci.Store.Save.Entities.{
  save_prevalidated_run, save_baseline, save_authorization_trust_snapshot_entity,
  save_approval_subject_entity, save_approval_assertion_entity, save_replay_admission_entity,
  save_replay_authorization_authenticity_binding_entity, save_replay_ledger_entity,
  save_replay_validation_binding_entity, save_approval_consumption_entity,
  save_baseline_approval_binding_entity, save_replay_approval_expectation_entity,
}
use qualityci.Prelude.{
  ℕ, suc, String, Bool, false, not, ◌&&◌, Option, none, some, List, ◌∷◌, ◌++◌, map, nat_eq,
  string_eq, pair_eq, all, Result, ok, raise_if, [], ◌>>=◌, ◌>>◌,
}

-- The values of the rows of a native replay. There is a baseline with its binding, or none.
pub record ReplayEntities : Type 0 where
  pub trust_snapshot : List Cell
  pub resolved_case : List Cell
  pub before_run : List Cell
  pub after_run : List Cell
  pub before_validation : List Cell
  pub after_validation : List Cell
  pub subject : List Cell
  pub assertions : List (List Cell)
  pub baseline : Option (List Cell)
  pub admission : List Cell
  pub authenticity_binding : List Cell
  pub ledger : List Cell
  pub validation_binding : List Cell
  pub consumption : List Cell
  pub baseline_binding : Option (List Cell)
  pub expectation : List Cell

-- A call in a transaction, and the call for an entity that may be absent.
abbrev pub Step : Type 0
Step = String → Store → Result String (Store × Bool)

abbrev pub when_given : (List Cell → Step) → Option (List Cell) → List Step
when_given step none = []
when_given step (some entity) = step entity ∷ []

abbrev pub given_bindings : Option (List Cell) → List (Table × List Cell)
given_bindings none = []
given_bindings (some cells) = (baseline_approval_bindings, cells) ∷ []

module _ (database : Database) where
  abbrev pub step : (String → List Cell → Store → Result String (Store × Bool)) → List Cell → Step
  step save entity now store = save now entity store

  abbrev pub first_steps : ReplayEntities → List Step
  first_steps e =
      step (save_authorization_trust_snapshot_entity database) e.trust_snapshot
      ∷ step (λ now. save_entity database now cases) e.resolved_case
      ∷ step (save_prevalidated_run database) e.before_run
      ∷ step (save_prevalidated_run database) e.after_run
      ∷ step (λ now. save_entity database now run_validation_sets) e.before_validation
      ∷ step (λ now. save_entity database now run_validation_sets) e.after_validation
      ∷ step (save_approval_subject_entity database) e.subject
      ∷ []

  abbrev pub middle_steps : ReplayEntities → List Step
  middle_steps e =
      step (save_replay_admission_entity database) e.admission
      ∷ step (save_replay_authorization_authenticity_binding_entity database) e.authenticity_binding
      ∷ step (save_replay_ledger_entity database) e.ledger
      ∷ step (save_replay_validation_binding_entity database) e.validation_binding
      ∷ step (save_approval_consumption_entity database) e.consumption
      ∷ []

  -- The calls of the transaction, in their order.
  abbrev pub replay_steps : ReplayEntities → List Step
  replay_steps e =
      first_steps e
      ++ (map (step (save_approval_assertion_entity database)) e.assertions
          ++ (when_given (step (save_baseline database)) e.baseline
              ++ (middle_steps e
                  ++ (when_given (step (save_baseline_approval_binding_entity database))
                        e.baseline_binding
                      ++ (step (save_replay_approval_expectation_entity database) e.expectation
                          ∷ [])))))

  -- One call after another, at the times of the clock.
  unfoldable pub run_steps : (ℕ → String) → List Step → Store → Result String Store
  run_steps now [] store = ok store
  run_steps now (s ∷ steps) store = do
    done ← s (now 0) store
    run_steps (λ n. now (suc n)) steps done.0

  -- A row of the table is stored with exactly these values.
  abbrev pub is_stored : Store → Table × List Cell → Bool
  is_stored store (t, cells) =
      stored_matches database same_row store.rows t (entity_of (fields_of t) cells)

  -- The rows that the last test reads back.
  abbrev pub compared_rows : ReplayEntities → List (Table × List Cell)
  compared_rows e =
      ((replay_admissions, e.admission)
        ∷ (replay_ledger, e.ledger)
        ∷ (replay_validation_bindings, e.validation_binding)
        ∷ (approval_subjects, e.subject)
        ∷ [])
      ++ (map (λ cells. (approval_assertions, cells)) e.assertions
          ++ ((approval_consumptions, e.consumption)
              ∷ (replay_approval_expectations, e.expectation)
              ∷ (replay_authorization_authenticity_bindings, e.authenticity_binding)
              ∷ (authorization_trust_snapshots, e.trust_snapshot)
              ∷ given_bindings e.baseline_binding))

  module _ (is_valid : Table → Json → Bool) (contexts_match : Store → Bool) where
    -- `replay final semantic preflight`; the comparisons with the contexts are a parameter.
    unfoldable pub final_preflight : ReplayEntities → Store → Bool
    unfolding stored_matches verify_store
    final_preflight e store =
        all (compared_rows e) (is_stored store)
        && contexts_match store
        && verify_store database false is_valid false store

    unfoldable pub save_replay : (ℕ → String) → ReplayEntities → Store → Result String Store
    unfolding run_steps final_preflight
    save_replay now e store = do
      after ← run_steps now (replay_steps e) store
      raise_if (not (final_preflight e after)) "replay final semantic preflight failed"
      ok after

    -- `_save_native_replay_transaction`, with what SQLite makes of it.
    unfoldable pub save_native_replay : (ℕ → String) → ReplayEntities → Store → Store
    unfolding save_replay
    save_native_replay now e store = committed database store (save_replay now e store)

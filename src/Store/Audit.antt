-- ===== src/Store/Audit.antt =====
-- src/qualityci/store.py: `_append_audit` and the loop of `_verify_audit_chain_impl`.
pub mod Linked
pub mod Sealed
pub mod Extended
pub mod Grown
use qualityci.Text.{join}
use qualityci.Json.{Json}
use qualityci.Prelude.{
  ℕ, zero, suc, String, Bool, true, false, not, ◌&&◌, ◌||◌, Option, none, some, List, ◌∷◌, ◌++◌,
  eqb, if◌then◌else◌, ◌==◌, nat_eq, string_eq, pair_eq, is_empty, any, all, [],
}

-- A row of `audit_events`.
pub record AuditEvent : Type 0 where
  pub sequence : ℕ
  pub created_at : String
  pub entity_type : String
  pub entity_id : String
  pub action : String
  pub payload_json : String
  pub previous_hash : String
  pub event_hash : String

-- The text whose hash an event carries.
unfoldable pub seed_of : AuditEvent → String
seed_of e =
    join "|" (
      e.previous_hash ∷ e.created_at ∷ e.entity_type ∷ e.entity_id ∷ e.action ∷ e.payload_json ∷ [])

-- The hash and the sequence number of the last row, the oldest first.
unfoldable pub last_hash : String → List AuditEvent → String
last_hash previous [] = previous
last_hash previous (e ∷ es) = last_hash e.event_hash es

unfoldable pub last_sequence : ℕ → List AuditEvent → ℕ
last_sequence previous [] = previous
last_sequence previous (e ∷ es) = last_sequence e.sequence es

-- The tables whose rows the log is about.
pub data Table : Type 0 where
  cases runs run_reference_sets run_validation_sets approvals baselines : Table
  artifact_sets controlled_reference_sets validation_evidence_sets : Table
  case_source_sets case_lineage_bindings run_case_source_sets : Table
  replay_admissions replay_validation_bindings replay_ledger : Table
  authorization_record_sets authorization_trust_snapshots : Table
  replay_authorization_authenticity_bindings : Table
  approval_subjects approval_assertions approval_consumptions : Table
  replay_approval_expectations baseline_approval_bindings : Table

abbrev pub entity_type_of : Table → String
entity_type_of cases = "case"
entity_type_of runs = "run"
entity_type_of run_reference_sets = "run_reference_set"
entity_type_of run_validation_sets = "run_validation_set"
entity_type_of approvals = "approval"
entity_type_of baselines = "baseline"
entity_type_of artifact_sets = "artifact_set"
entity_type_of controlled_reference_sets = "controlled_reference_set"
entity_type_of validation_evidence_sets = "validation_evidence_set"
entity_type_of case_source_sets = "case_source_set"
entity_type_of case_lineage_bindings = "case_lineage_binding"
entity_type_of run_case_source_sets = "run_case_source_set"
entity_type_of replay_admissions = "replay_admission"
entity_type_of replay_validation_bindings = "replay_validation_binding"
entity_type_of replay_ledger = "replay_ledger"
entity_type_of authorization_record_sets = "authorization_record_set"
entity_type_of authorization_trust_snapshots = "authorization_trust_snapshot"
entity_type_of replay_authorization_authenticity_bindings =
    "replay_authorization_authenticity_binding"
entity_type_of approval_subjects = "approval_subject"
entity_type_of approval_assertions = "approval_assertion"
entity_type_of approval_consumptions = "approval_consumption"
entity_type_of replay_approval_expectations = "replay_approval_expectation"
entity_type_of baseline_approval_bindings = "baseline_approval_binding"

-- The first parts of a key, as many as there are, joined by `@`.
abbrev pub first_parts : ℕ → List String → List String
first_parts zero key = []
first_parts (suc n) [] = []
first_parts (suc n) (part ∷ key) = part ∷ first_parts n key

abbrev pub entity_id_of : Table → List String → String
entity_id_of cases key = join "@" (first_parts 2 key)
entity_id_of approvals key = join "@" (first_parts 6 key)
entity_id_of _ key = join "@" (first_parts 1 key)

-- A row of a table: its key in the log, and its current content.
pub record Entity : Type 0 where
  pub table : Table
  pub key : List String
  pub current : Json

abbrev pub same_key : List String → List String → Bool
same_key [] [] = true
same_key (x ∷ xs) (y ∷ ys) = x == y && same_key xs ys
same_key _ _ = false

-- `key in audited_keys[table]`
abbrev pub is_audited : List (Table × List String) → Table → List String → Bool
is_audited audited table key =
    any audited (λ k. entity_type_of k.0 == entity_type_of table && same_key k.1 key)

-- `audited_keys == self._business_keys()`
abbrev pub same_keys : List (Table × List String) → List (Table × List String) → Bool
same_keys xs ys = all xs (λ k. is_audited ys k.0 k.1) && all ys (λ k. is_audited xs k.0 k.1)

-- What the log stands on: SHA-256, the reading of a payload with its primary key and fingerprint, the
-- row that an action and a primary key name, the fingerprint of a row, and the test of its content
-- that a semantic verification makes.
pub record Services : Type 0 where
  pub sha256 : String → String
  pub read_payload : String → Option (Json × String)
  pub entity_for_audit : String → Json → Option Entity
  pub fingerprint : Json → String
  pub is_semantically_valid : Table → Json → Bool

module _ (services : Services) where
  open services use {sha256, read_payload, entity_for_audit, fingerprint, is_semantically_valid}

  -- The row that `_append_audit` inserts, at the time that the clock gives.
  unfoldable pub next_event :
      List AuditEvent → String → String → String → String → String → AuditEvent
  unfolding last_hash last_sequence seed_of
  next_event events created_at entity_type entity_id action payload_json =
      let row : AuditEvent = record {
        sequence = suc (last_sequence 0 events);
        created_at = created_at;
        entity_type = entity_type;
        entity_id = entity_id;
        action = action;
        payload_json = payload_json;
        previous_hash = last_hash "GENESIS" events;
        event_hash = "";
      } in
      record row { event_hash = sha256 (seed_of row) }

  -- `_append_audit`
  unfoldable pub append_audit :
      List AuditEvent → String → String → String → String → String → List AuditEvent
  unfolding next_event
  append_audit events created_at entity_type entity_id action payload_json =
      events ++ (next_event events created_at entity_type entity_id action payload_json ∷ [])

  -- The tests of a round on the chain itself.
  unfoldable pub is_linked : ℕ → String → AuditEvent → Bool
  is_linked expected_sequence previous_hash e =
      eqb e.sequence expected_sequence
      && e.previous_hash == previous_hash
      && sha256 (seed_of e) == e.event_hash

  -- The tests of a round on the row that the event is about.
  abbrev pub describes : Bool → List (Table × List String) → AuditEvent → String → Entity → Bool
  describes semantic audited e expected_fingerprint entity =
      e.entity_type == entity_type_of entity.table
      && e.entity_id == entity_id_of entity.table entity.key
      && not (is_audited audited entity.table entity.key)
      && fingerprint entity.current == expected_fingerprint
      && (not semantic || is_semantically_valid entity.table entity.current)

  abbrev pub check_row :
      Bool
      → List (Table × List String)
      → AuditEvent
      → String
      → Option Entity
      → Option (Table × List String)
  check_row semantic audited e expected_fingerprint none = none
  check_row semantic audited e expected_fingerprint (some entity) =
      if describes semantic audited e expected_fingerprint entity
      then some (entity.table, entity.key)
      else none

  abbrev pub check_payload :
      Bool
      → List (Table × List String)
      → AuditEvent
      → Option (Json × String)
      → Option (Table × List String)
  check_payload semantic audited e none = none
  check_payload semantic audited e (some (primary_key, expected_fingerprint)) =
      check_row semantic audited e expected_fingerprint (entity_for_audit e.action primary_key)

  -- The key of the row, if the payload can be read, the row is there and the tests pass.
  unfoldable pub check_entity :
      Bool → List (Table × List String) → AuditEvent → Option (Table × List String)
  check_entity semantic audited e = check_payload semantic audited e (read_payload e.payload_json)

  -- The loop: the keys audited, if no round fails.
  unfoldable pub verify_rounds :
      Bool
      → ℕ
      → String
      → List (Table × List String)
      → List AuditEvent
      → Option (List (Table × List String))
  unfolding is_linked check_entity
  verify_rounds semantic expected_sequence previous_hash audited [] = some audited
  verify_rounds semantic expected_sequence previous_hash audited (e ∷ es) =
      elim (is_linked expected_sequence previous_hash e) [
        | false ↦ none
        | true ↦ elim (check_entity semantic audited e) [
          | none ↦ none
          | some key ↦
              verify_rounds semantic (suc expected_sequence) e.event_hash (key ∷ audited) es
        ]
      ]

  -- `_verify_audit_chain_impl`, with the business keys and the two coverage tests that end it.
  unfoldable pub verify_audit_chain :
      Bool → List (Table × List String) → Bool → List AuditEvent → Bool
  unfolding verify_rounds
  verify_audit_chain semantic business_keys coverage_complete events =
      not (is_empty events) && elim (verify_rounds semantic 1 "GENESIS" [] events) [
        | none ↦ false
        | some audited ↦ same_keys audited business_keys && (not semantic || coverage_complete)
      ]

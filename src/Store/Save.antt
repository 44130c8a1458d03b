-- ===== src/Store/Save.antt =====
-- src/qualityci/store.py: the calls that save a row and record it in the audit log.
pub mod Covered
pub mod Verified
pub mod Unique
pub mod Runs
pub mod Kept
pub mod Shared
pub mod Entities
pub mod Replay
use qualityci.Json.{Json, object}
use qualityci.Prelude.Dict.{lookup}
use qualityci.Store.Audit.{
  AuditEvent, Table, entity_type_of, entity_id_of, Services, append_audit, verify_audit_chain,
}
use qualityci.Store.Tables.{
  Order, record_or_compare_fingerprints, record_or_compare, compare_then_record, fields_of,
  unique_columns, order_of,
}
use qualityci.Store.Rows.{
  Cell, null_cell, same_cell, Row, Rows, same_row, row_json, key_of, primary_key, has_key, find_row,
  action_of, entity_for_audit, business_keys,
}
use qualityci.Prelude.{
  String, Bool, true, false, not, ◌&&◌, ◌||◌, Option, none, some, List, ◌∷◌, ◌++◌, if◌then◌else◌,
  ◌==◌, nat_eq, string_eq, pair_eq, any, all, Result, ok, err, raise_if, [], ◌>>=◌, ◌>>◌,
}

-- The database: its rows and its audit log.
pub record Store : Type 0 where
  pub rows : Rows
  pub events : List AuditEvent

abbrev pub empty_store : Store
empty_store = record { rows = []; events = [] }

-- The libraries: SHA-256, the JSON of a payload with its key and its fingerprint, the fingerprint of a
-- row, and the constraints of SQLite besides keys: NOT NULL and CHECK, for which OR IGNORE drops the row,
-- and the foreign keys, for which it raises.
pub record Database : Type 0 where
  pub sha256 : String → String
  pub print_payload : List (String × String) → String → String
  pub read_payload : String → Option (Json × String)
  pub fingerprint : Json → String
  pub meets_checks : Table → Row → Bool
  pub meets_references : Rows → Table → Row → Bool

abbrev services_of : Database → (Table → Json → Bool) → Rows → Services
services_of database is_valid rows = record {
  sha256 = database.sha256;
  read_payload = database.read_payload;
  entity_for_audit = entity_for_audit rows;
  fingerprint = database.fingerprint;
  is_semantically_valid = is_valid;
}

-- Two rows have the same values in the columns, none of them null.
abbrev pub agree : Option Cell → Option Cell → Bool
agree none d = false
agree (some null_cell) d = false
agree (some c) none = false
agree (some c) (some d) = same_cell c d

abbrev pub agrees : Row → Row → String → Bool
agrees r s column = agree (lookup column r) (lookup column s)

-- The row has the key of another row of its table, or the values of unique columns.
unfoldable pub conflicts : Table → Row → Table × Row → Bool
unfolding key_of unique_columns
conflicts table row e =
    has_key table (key_of table row) e
    || (entity_type_of e.0 == entity_type_of table
        && any (unique_columns table) (λ columns. all columns (agrees row e.1)))

abbrev pub entity_of : List String → List Cell → Row
entity_of (field ∷ fields) (cell ∷ cells) = (field, cell) ∷ entity_of fields cells
entity_of _ _ = []

abbrev pub holds : (Row → Row → Bool) → Row → Option Row → Bool
holds same row none = false
holds same row (some stored) = same stored row

module _ (database : Database) where
  -- `INSERT OR IGNORE`: the rows after it, and whether a row was inserted.
  unfoldable pub insert_or_ignore : Rows → Table → Row → Result String (Rows × Bool)
  unfolding conflicts
  insert_or_ignore rows table row =
      if any rows (conflicts table row) || not (database.meets_checks table row)
      then ok (rows, false)
      else if database.meets_references rows table row
      then ok (rows ++ ((table, row) ∷ []), true)
      else err "FOREIGN KEY constraint failed"

  abbrev pub same_fingerprint : Row → Row → Bool
  same_fingerprint r s =
      database.fingerprint (object (row_json r)) == database.fingerprint (object (row_json s))

  -- `row is None or row != entity`, not so.
  unfoldable pub stored_matches : (Row → Row → Bool) → Rows → Table → Row → Bool
  unfolding find_row key_of
  stored_matches same rows table row = holds same row (find_row rows table (key_of table row))

  -- `_append_audit`, for a row of a table.
  unfoldable pub append_row : String → List AuditEvent → Table → Row → List AuditEvent
  unfolding append_audit primary_key key_of action_of
  append_row now events table row =
      append_audit (services_of database (λ t r. true) []) events now (entity_type_of table)
        (entity_id_of table (key_of table row)) (action_of table)
        (database.print_payload (primary_key table row)
          (database.fingerprint (object (row_json row))))

  -- The rest of a call, after the `INSERT`.
  unfoldable pub record_row :
      String → Order → Store → Table → Row → Rows × Bool → Result String (Store × Bool)
  unfolding append_row stored_matches
  record_row now compare_then_record store table row (rows, inserted) = do
    raise_if (not (stored_matches same_row rows table row)) "identity conflicts with stored content"
    if inserted
        then ok (record { rows = rows; events = append_row now store.events table row }, true)
        else ok (store, false)
  record_row now record_or_compare store table row (rows, true) =
      ok (record { rows = rows; events = append_row now store.events table row }, true)
  record_row now record_or_compare store table row (rows, false) = do
    raise_if (not (stored_matches same_row rows table row)) "identity conflicts with stored content"
    ok (store, false)
  record_row now record_or_compare_fingerprints store table row (rows, true) =
      ok (record { rows = rows; events = append_row now store.events table row }, true)
  record_row now record_or_compare_fingerprints store table row (rows, false) = do
    raise_if (not (stored_matches same_fingerprint rows table row))
        "primary key conflicts with different stored content"
    ok (store, false)

  -- The call that saves a row of a table, from the values of its fields.
  unfoldable pub save_entity : String → Table → List Cell → Store → Result String (Store × Bool)
  unfolding insert_or_ignore record_row fields_of order_of
  save_entity now table cells store = do
    let row = entity_of (fields_of table) cells
    inserted ← insert_or_ignore store.rows table row
    record_row now (order_of table) store table row inserted

  -- `with self.connection:` round several calls, each with its time: an error takes all of them back.
  abbrev pub Call : Type 0
  Call = String × Table × List Cell

  unfoldable pub save_all : List Call → Store → Result String Store
  unfolding save_entity
  save_all [] store = ok store
  save_all (call ∷ calls) store = do
    saved ← save_entity call.0 call.1 call.2 store
    save_all calls saved.0

  abbrev pub committed : Store → Result String Store → Store
  committed store (ok after) = after
  committed store (err e) = store

  unfoldable pub transaction : List Call → Store → Store
  unfolding save_all
  transaction calls store = committed store (save_all calls store)

  -- `verify_audit_chain`, without and with the tests of the contents.
  unfoldable pub verify_store : Bool → (Table → Json → Bool) → Bool → Store → Bool
  unfolding verify_audit_chain entity_for_audit
  verify_store semantic is_valid coverage_complete store =
      verify_audit_chain (services_of database is_valid store.rows) semantic
        (business_keys store.rows) coverage_complete store.events

-- ===== src/Store/Rows.antt =====
-- src/qualityci/store.py: the rows of the tables, `_entity_for_audit` and `_business_keys`, with the keys
-- and the unique columns of `_create_schema`. SQLite is a library: what it does for `INSERT OR IGNORE`
-- and `SELECT` is written out.
pub mod Found
pub mod Named
use qualityci.Json.{Json, null, number, text, object, Members, end, member}
use qualityci.Case.Numbers.{Number}
use qualityci.Loader.Mutation.{get_member}
use qualityci.Prelude.Dict.{lookup}
use qualityci.Store.Audit.{
  Table, cases, runs, run_reference_sets, run_validation_sets, approvals, baselines, artifact_sets,
  controlled_reference_sets, validation_evidence_sets, case_source_sets, case_lineage_bindings,
  run_case_source_sets, replay_admissions, replay_validation_bindings, replay_ledger,
  authorization_record_sets, authorization_trust_snapshots,
  replay_authorization_authenticity_bindings, approval_subjects, approval_assertions,
  approval_consumptions, replay_approval_expectations, baseline_approval_bindings, entity_type_of,
  same_key, Entity,
}
use qualityci.Prelude.{
  ℕ, String, Bool, true, false, ◌&&◌, Option, none, some, List, ◌∷◌, map, eqb, if◌then◌else◌, ◌==◌,
  nat_eq, string_eq, pair_eq, any, all, [],
}

-- A value of a column. A column of bytes is a text here.
pub data Cell : Type 0 where
  null_cell : Cell
  integer_cell : ℕ → Cell
  text_cell : String → Cell

unfoldable pub same_cell : Cell → Cell → Bool
same_cell null_cell null_cell = true
same_cell (integer_cell m) (integer_cell n) = eqb m n
same_cell (text_cell s) (text_cell t) = s == t
same_cell _ _ = false

-- `dict(row)`: the columns with their values.
abbrev pub Row : Type 0
Row = List (String × Cell)

-- `dict(row) == entity`
abbrev pub is_in : Row → String × Cell → Bool
is_in row e = any row (λ f. f.0 == e.0 && same_cell f.1 e.1)

abbrev pub same_row : Row → Row → Bool
same_row r s = all r (is_in s) && all s (is_in r)

abbrev cell_json : Cell → Json
cell_json null_cell = null
cell_json (integer_cell n) = number (record { negative = false; mantissa = n; exponent = 0 })
cell_json (text_cell s) = text s

abbrev pub row_json : Row → Members
row_json [] = end
row_json ((column, cell) ∷ row) = member column (cell_json cell) (row_json row)

-- The columns that identify a row, in the order of the keys of `_business_keys`.
unfoldable pub key_columns : Table → List String
key_columns cases = "case_id" ∷ "case_hash" ∷ []
key_columns runs = "run_id" ∷ []
key_columns run_reference_sets = "run_id" ∷ []
key_columns run_validation_sets = "run_id" ∷ []
key_columns approvals =
    "resolution_id" ∷ "case_id" ∷ "event_id" ∷ "event_revision" ∷ "approved_case_hash" ∷ "role" ∷ []
key_columns baselines = "baseline_id" ∷ []
key_columns artifact_sets = "artifact_set_hash" ∷ []
key_columns controlled_reference_sets = "reference_set_hash" ∷ []
key_columns validation_evidence_sets = "evidence_set_hash" ∷ []
key_columns case_source_sets = "source_set_hash" ∷ []
key_columns case_lineage_bindings = "lineage_hash" ∷ []
key_columns run_case_source_sets = "run_id" ∷ []
key_columns replay_admissions = "replay_admission_hash" ∷ []
key_columns replay_validation_bindings = "validation_binding_hash" ∷ []
key_columns replay_ledger = "replay_ledger_hash" ∷ []
key_columns authorization_record_sets = "record_set_hash" ∷ []
key_columns authorization_trust_snapshots = "trust_snapshot_hash" ∷ []
key_columns replay_authorization_authenticity_bindings =
    "replay_authorization_authenticity_binding_hash" ∷ []
key_columns approval_subjects = "approval_subject_hash" ∷ []
key_columns approval_assertions = "assertion_hash" ∷ []
key_columns approval_consumptions = "consumption_hash" ∷ []
key_columns replay_approval_expectations = "expectation_hash" ∷ []
key_columns baseline_approval_bindings = "baseline_binding_hash" ∷ []

-- The action that records a row of the table.
unfoldable pub action_of : Table → String
action_of cases = "CASE_REGISTERED"
action_of runs = "CHECK_RUN_RECORDED"
action_of run_reference_sets = "RUN_REFERENCE_SET_RECORDED"
action_of run_validation_sets = "RUN_VALIDATION_SET_RECORDED"
action_of approvals = "APPROVAL_RECORDED"
action_of baselines = "BASELINE_CREATED"
action_of artifact_sets = "ARTIFACT_SET_RECORDED"
action_of controlled_reference_sets = "CONTROLLED_REFERENCE_SET_RECORDED"
action_of validation_evidence_sets = "VALIDATION_EVIDENCE_SET_RECORDED"
action_of case_source_sets = "CASE_SOURCE_SET_RECORDED"
action_of case_lineage_bindings = "CASE_LINEAGE_BINDING_RECORDED"
action_of run_case_source_sets = "RUN_CASE_SOURCE_SET_RECORDED"
action_of replay_admissions = "REPLAY_ADMISSION_RECORDED"
action_of replay_validation_bindings = "REPLAY_VALIDATION_BINDING_RECORDED"
action_of replay_ledger = "REPLAY_LEDGER_RECORDED"
action_of authorization_record_sets = "AUTHORIZATION_RECORD_SET_RECORDED"
action_of authorization_trust_snapshots = "AUTHORIZATION_TRUST_SNAPSHOT_RECORDED"
action_of replay_authorization_authenticity_bindings =
    "REPLAY_AUTHORIZATION_AUTHENTICITY_BINDING_RECORDED"
action_of approval_subjects = "APPROVAL_SUBJECT_RECORDED"
action_of approval_assertions = "APPROVAL_ASSERTION_RECORDED"
action_of approval_consumptions = "APPROVAL_CONSUMPTION_RECORDED"
action_of replay_approval_expectations = "REPLAY_APPROVAL_EXPECTATION_RECORDED"
action_of baseline_approval_bindings = "BASELINE_APPROVAL_BINDING_RECORDED"

-- The order in which `_entity_for_audit` tests the actions.
abbrev pub all_tables : List Table
all_tables =
    cases ∷ runs ∷ run_reference_sets ∷ run_validation_sets ∷ approvals ∷ baselines ∷ artifact_sets
    ∷ controlled_reference_sets ∷ validation_evidence_sets ∷ case_source_sets
    ∷ case_lineage_bindings ∷ run_case_source_sets ∷ replay_admissions ∷ replay_ledger
    ∷ replay_validation_bindings ∷ authorization_record_sets ∷ authorization_trust_snapshots
    ∷ replay_authorization_authenticity_bindings ∷ approval_subjects ∷ approval_assertions
    ∷ approval_consumptions ∷ replay_approval_expectations ∷ baseline_approval_bindings ∷ []

unfoldable pub table_of : String → List Table → Option Table
unfolding action_of
table_of action [] = none
table_of action (t ∷ ts) =
    let later = table_of action ts in if action == action_of t then some t else later

-- The rows of all tables, in the order of their insertion.
abbrev pub Rows : Type 0
Rows = List (Table × Row)

abbrev pub text_of : Option Cell → String
text_of (some (text_cell s)) = s
text_of _ = ""

-- The key of a row, and the dict of it that a payload carries.
unfoldable pub key_of : Table → Row → List String
unfolding key_columns
key_of table row = map (λ column. text_of (lookup column row)) (key_columns table)

unfoldable pub primary_key : Table → Row → List (String × String)
unfolding key_columns
primary_key table row = map (λ column. (column, text_of (lookup column row))) (key_columns table)

-- A row of the table with the key.
abbrev pub has_key : Table → List String → Table × Row → Bool
has_key table key e = entity_type_of e.0 == entity_type_of table && same_key (key_of e.0 e.1) key

-- `SELECT ... FROM table WHERE ...` on the key.
unfoldable pub find_row : Rows → Table → List String → Option Row
find_row [] table key = none
find_row (e ∷ rows) table key =
    let later = find_row rows table key in if has_key table key e then some e.1 else later

abbrev pub text_json : Option Json → String
text_json (some (text s)) = s
text_json _ = ""

abbrev pub object_members : Json → Members
object_members (object members) = members
object_members _ = end

-- The dict of a key as a JSON object.
abbrev pub key_members : List (String × String) → Members
key_members [] = end
key_members ((column, value) ∷ key) = member column (text value) (key_members key)

abbrev pub key_json : List (String × String) → Json
key_json key = object (key_members key)

-- The key that a payload gives for a table.
unfoldable pub read_key : Table → Json → List String
unfolding key_columns get_member
read_key table key =
    map (λ column. text_json (get_member column (object_members key))) (key_columns table)

abbrev pub entity_in : Table → List String → Option Row → Option Entity
entity_in table key none = none
entity_in table key (some row) =
    some (record { table = table; key = key; current = object (row_json row) })

abbrev pub entity_at : Rows → Json → Option Table → Option Entity
entity_at rows key none = none
entity_at rows key (some table) =
    entity_in table (read_key table key) (find_row rows table (read_key table key))

-- `_entity_for_audit`
unfoldable pub entity_for_audit : Rows → String → Json → Option Entity
unfolding table_of read_key find_row
entity_for_audit rows action key = entity_at rows key (table_of action all_tables)

-- `_business_keys`
abbrev pub business_keys : Rows → List (Table × List String)
business_keys rows = map (λ e. (e.0, key_of e.0 e.1)) rows

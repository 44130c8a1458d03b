-- ===== src/Store/Rows/Found.antt =====
-- What the log finds of the rows: the row of a key, before and after another row is inserted.
use qualityci.Json.{Json, object}
use qualityci.Loader.Mutation.{get_member}
use qualityci.Store.Audit.{
  Table, cases, runs, run_reference_sets, run_validation_sets, approvals, baselines, artifact_sets,
  controlled_reference_sets, validation_evidence_sets, case_source_sets, case_lineage_bindings,
  run_case_source_sets, replay_admissions, replay_validation_bindings, replay_ledger,
  authorization_record_sets, authorization_trust_snapshots,
  replay_authorization_authenticity_bindings, approval_subjects, approval_assertions,
  approval_consumptions, replay_approval_expectations, baseline_approval_bindings, entity_type_of,
  same_key, is_audited, Entity,
}
use qualityci.Store.Rows.{
  Row, Rows, row_json, key_columns, action_of, all_tables, table_of, key_of, primary_key, has_key,
  find_row, read_key, entity_in, entity_at, entity_for_audit, business_keys, key_json,
}
use qualityci.Prelude.{
  same_iff, String, ◌≡◌, refl, ap, ◌∙◌, Bool, true, false, ◌||◌, Option, none, some, List, [], ◌∷◌,
  ◌++◌, if◌then◌else◌, ◌==◌, nat_eq, string_eq, pair_eq, given, &&-true,
}

table_of-action_of : (t : Table) → table_of (action_of t) all_tables ≡ some t
unfolding table_of action_of
table_of-action_of cases = refl
table_of-action_of runs = refl
table_of-action_of run_reference_sets = refl
table_of-action_of run_validation_sets = refl
table_of-action_of approvals = refl
table_of-action_of baselines = refl
table_of-action_of artifact_sets = refl
table_of-action_of controlled_reference_sets = refl
table_of-action_of validation_evidence_sets = refl
table_of-action_of case_source_sets = refl
table_of-action_of case_lineage_bindings = refl
table_of-action_of run_case_source_sets = refl
table_of-action_of replay_admissions = refl
table_of-action_of replay_validation_bindings = refl
table_of-action_of replay_ledger = refl
table_of-action_of authorization_record_sets = refl
table_of-action_of authorization_trust_snapshots = refl
table_of-action_of replay_authorization_authenticity_bindings = refl
table_of-action_of approval_subjects = refl
table_of-action_of approval_assertions = refl
table_of-action_of approval_consumptions = refl
table_of-action_of replay_approval_expectations = refl
table_of-action_of baseline_approval_bindings = refl

-- A payload gives back the key of the row that it was written for.
read_key-primary_key :
    (t : Table) (row : Row) → read_key t (key_json (primary_key t row)) ≡ key_of t row
unfolding read_key primary_key key_of key_columns get_member
read_key-primary_key cases row = refl
read_key-primary_key runs row = refl
read_key-primary_key run_reference_sets row = refl
read_key-primary_key run_validation_sets row = refl
read_key-primary_key approvals row = refl
read_key-primary_key baselines row = refl
read_key-primary_key artifact_sets row = refl
read_key-primary_key controlled_reference_sets row = refl
read_key-primary_key validation_evidence_sets row = refl
read_key-primary_key case_source_sets row = refl
read_key-primary_key case_lineage_bindings row = refl
read_key-primary_key run_case_source_sets row = refl
read_key-primary_key replay_admissions row = refl
read_key-primary_key replay_validation_bindings row = refl
read_key-primary_key replay_ledger row = refl
read_key-primary_key authorization_record_sets row = refl
read_key-primary_key authorization_trust_snapshots row = refl
read_key-primary_key replay_authorization_authenticity_bindings row = refl
read_key-primary_key approval_subjects row = refl
read_key-primary_key approval_assertions row = refl
read_key-primary_key approval_consumptions row = refl
read_key-primary_key replay_approval_expectations row = refl
read_key-primary_key baseline_approval_bindings row = refl

-- A search that goes on behind an entry that may be the one.
found_kept :
    {A : Type 0} (b : Bool) (a : A) (o p : Option A) {r : A}
    → (o ≡ some r → p ≡ some r)
    → (if b then some a else o) ≡ some r
    → (if b then some a else p) ≡ some r
found_kept true a o p f h = h
found_kept false a o p f h = f h

found_new :
    {A : Type 0} (b : Bool) (a : A) (o p : Option A) {r : A}
    → (o ≡ none → p ≡ some r)
    → (if b then some a else o) ≡ none
    → (if b then some a else p) ≡ some r
found_new true a o p f h = cc
found_new false a o p f h = f h

found_given :
    {A : Type 0} (b c : Bool) (a : A) (o : Option A)
    → c ≡ given o
    → (b || c) ≡ given (if b then some a else o)
found_given true c a o h = refl
found_given false c a o h = h

pub same_key_refl : (key : List String) → same_key key key ≡ true
same_key_refl [] = refl
same_key_refl (s ∷ key) = (&&-true (s == s) _).1 ((same_iff s s).1 refl, same_key_refl key)

-- The row that is at hand has its own key.
pub has_key_self : (t : Table) (row : Row) → has_key t (key_of t row) (t, row) ≡ true
has_key_self t row =
    (&&-true (entity_type_of t == entity_type_of t) _).1
      ((same_iff (entity_type_of t) (entity_type_of t)).1 refl, same_key_refl (key_of t row))

-- A row that is found is found after another row is inserted behind it.
pub find_row_kept :
    (rows : Rows) (e : Table × Row) (t : Table) (key : List String) {row : Row}
    → find_row rows t key ≡ some row
    → find_row (rows ++ (e ∷ [])) t key ≡ some row
unfolding find_row
find_row_kept [] e t key h = cc
find_row_kept (f ∷ rows) e t key h =
    found_kept (has_key t key f) f.1 (find_row rows t key) (find_row (rows ++ (e ∷ [])) t key)
      (find_row_kept rows e t key) h

-- A row whose key was not there is found once it is inserted.
pub find_row_new :
    (rows : Rows) (t : Table) (row : Row)
    → find_row rows t (key_of t row) ≡ none
    → find_row (rows ++ ((t, row) ∷ [])) t (key_of t row) ≡ some row
unfolding find_row
find_row_new [] t row h = rw (has_key_self t row) refl
find_row_new (f ∷ rows) t row h =
    found_new (has_key t (key_of t row) f) f.1 (find_row rows t (key_of t row))
      (find_row (rows ++ ((t, row) ∷ [])) t (key_of t row)) (find_row_new rows t row) h

-- A key is among the business keys exactly when a row is found under it.
pub is_audited-business_keys :
    (rows : Rows) (t : Table) (key : List String)
    → is_audited (business_keys rows) t key ≡ given (find_row rows t key)
unfolding find_row
is_audited-business_keys [] t key = refl
is_audited-business_keys (f ∷ rows) t key =
    found_given (has_key t key f) (is_audited (business_keys rows) t key) f.1 (find_row rows t key)
      (is_audited-business_keys rows t key)

some_inj : {A : Type 0} {a b : A} → some a ≡ some b → a ≡ b
some_inj h = cc

-- What a table gives under a key, once a row is inserted.
pub entity_for_audit_kept :
    (rows : Rows) (x : Table × Row) (action : String) (key : Json) {e : Entity}
    → entity_for_audit rows action key ≡ some e
    → entity_for_audit (rows ++ (x ∷ [])) action key ≡ some e
unfolding entity_for_audit
entity_for_audit_kept rows x action key {e = e} h = at (table_of action all_tables) h
  where
    in_table :
        (t : Table) (k : List String) (o p : Option Row)
        → ((row : Row) → o ≡ some row → p ≡ some row)
        → entity_in t k o ≡ some e
        → entity_in t k p ≡ some e
    in_table t k none p f h = cc
    in_table t k (some row) p f h = ap (entity_in t k) (f row refl) ∙ h

    at :
        (o : Option Table)
        → entity_at rows key o ≡ some e
        → entity_at (rows ++ (x ∷ [])) key o ≡ some e
    at none h = h
    at (some t) h =
        in_table t (read_key t key) (find_row rows t (read_key t key))
          (find_row (rows ++ (x ∷ [])) t (read_key t key))
          (λ row found. find_row_kept rows x t (read_key t key) found) h

-- The entity of a row, for the action and the payload key that it is recorded with.
pub entity_for_audit-action_of :
    (rows : Rows) (t : Table) (row : Row) {found : Row}
    → find_row rows t (key_of t row) ≡ some found
    → entity_for_audit rows (action_of t) (key_json (primary_key t row))
      ≡ some (record { table = t; key = key_of t row; current = object (row_json found) })
unfolding entity_for_audit
entity_for_audit-action_of rows t row h =
    ap (entity_at rows (key_json (primary_key t row))) (table_of-action_of t)
    ∙ ap (λ key. entity_in t key (find_row rows t key)) (read_key-primary_key t row)
    ∙ ap (entity_in t (key_of t row)) h

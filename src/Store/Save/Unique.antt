-- ===== src/Store/Save/Unique.antt =====
-- What the unique columns of the tables mean for the rows of a filled store, table by table.
use mathlib.Core.Path.{subst}
use mathlib.Core.Bool.{false≢true}
use qualityci.Prelude.Dict.{lookup}
use qualityci.Prelude.{
  same_iff, String, ◌≡◌, refl, sym, ap, ◌∙◌, ◌≢◌, inl, inr, true, false, some, List, [], ◌∷◌, map,
  ◌==◌, nat_eq, string_eq, pair_eq, all, All, Any, All-map, all_iff, any_iff, &&-true, ||-true,
  Any-map,
}
use qualityci.Store.Audit.{
  Table, cases, runs, baselines, replay_admissions, replay_ledger, approval_subjects,
  approval_assertions, approval_consumptions, baseline_approval_bindings, entity_type_of, same_key,
}
use qualityci.Store.Rows.{
  Cell, null_cell, integer_cell, text_cell, same_cell, Row, Rows, text_of, key_columns, key_of,
  has_key,
}
use qualityci.Store.Tables.{unique_columns}
use qualityci.Store.Save.{Store, Database, agree, agrees, conflicts}
use qualityci.Store.Save.Verified.{IsFilled, NoConflict, IsFilled-NoConflict}

-- The rows have the same value, and not NULL, in each of the columns.
abbrev pub SameIn : Row → Row → List String → Type 0
SameIn r s columns =
    All
      (λ column.
        (c : Cell) × (lookup column r ≡ some c) × (lookup column s ≡ some c) × (c ≢ null_cell))
      columns

-- No row of the table has the same values in the columns as a later row of it.
abbrev pub Single : Table → List String → Rows → Type 0
Single t columns [] = Unit
Single t columns (e ∷ rows) =
    All (λ f. ¬ ((e.0 ≡ t) × (f.0 ≡ t) × SameIn f.1 e.1 columns)) rows × Single t columns rows

agree_refl : (c : Cell) → c ≢ null_cell → agree (some c) (some c) ≡ true
unfolding same_cell
agree_refl null_cell h = absurd (h refl)
agree_refl (integer_cell n) h = (same_iff n n).1 refl
agree_refl (text_cell s) h = (same_iff s s).1 refl

pub SameIn-agrees :
    (r s : Row) (columns : List String) → SameIn r s columns → all columns (agrees r s) ≡ true
SameIn-agrees r s columns h = (all_iff (agrees r s) columns).1 (
    All-map
      (λ column (c, here, there, present).
        ap (λ o. agree o (lookup column s)) here ∙ ap (agree (some c)) there ∙ agree_refl c present)
      columns h)

same_key_refl : (ks : List String) → same_key ks ks ≡ true
same_key_refl [] = refl
same_key_refl (k ∷ ks) = (&&-true (k == k) _).1 ((same_iff k k).1 refl, same_key_refl ks)

-- Rows that have the same values in a group of unique columns conflict.
unique-conflicts :
    (t : Table) (columns : List String) (r s : Row)
    → Any (λ cs. cs ≡ columns) (unique_columns t)
    → SameIn r s columns
    → conflicts t r (t, s) ≡ true
unfolding conflicts
unique-conflicts t columns r s listed h =
    let shared = (any_iff (λ cs. all cs (agrees r s)) (unique_columns t)).1 (
      Any-map (λ cs e. ap (λ c. all c (agrees r s)) e ∙ SameIn-agrees r s columns h)
        (unique_columns t) listed) in
    ||-true (has_key t (key_of t r) (t, s)) _ (
      (&&-true (entity_type_of t == entity_type_of t) _).1
        ((same_iff (entity_type_of t) (entity_type_of t)).1 refl, shared))

-- Rows that have the same values in the columns of the key have the same key.
SameIn-key :
    (r s : Row) (columns : List String)
    → SameIn r s columns
    → map (λ column. text_of (lookup column r)) columns
      ≡ map (λ column. text_of (lookup column s)) columns
SameIn-key r s [] h = refl
SameIn-key r s (column ∷ columns) ((c, here, there, _), later) =
    ap (λ o. text_of o ∷ map (λ k. text_of (lookup k r)) columns) (here ∙ sym there)
    ∙ ap (λ ks. text_of (lookup column s) ∷ ks) (SameIn-key r s columns later)

-- Rows that have the same key conflict.
key-conflicts : (t : Table) (r s : Row) → key_of t r ≡ key_of t s → conflicts t r (t, s) ≡ true
unfolding conflicts
key-conflicts t r s h =
    let same : has_key t (key_of t r) (t, s) ≡ true =
      (&&-true (entity_type_of t == entity_type_of t) _).1 (
        (same_iff (entity_type_of t) (entity_type_of t)).1 refl,
        subst (λ k. same_key (key_of t s) k ≡ true) (sym h) (same_key_refl (key_of t s)),
      ) in
    rw same refl

NoConflict-Single :
    (t : Table) (columns : List String) (rows : Rows)
    → ((r s : Row) → SameIn r s columns → conflicts t r (t, s) ≡ true)
    → NoConflict rows
    → Single t columns rows
NoConflict-Single t columns [] refuses h = tt
NoConflict-Single t columns (e ∷ rows) refuses h = (
  All-map
      (λ f free (first, second, same). false≢true (
        sym (
          subst (λ (u : Table). conflicts u f.1 (t, e.1) ≡ false) second
            (subst (λ (u : Table). conflicts f.0 f.1 (u, e.1) ≡ false) first free))
        ∙ refuses f.1 e.1 same))
      rows h.0,
  NoConflict-Single t columns rows refuses h.1,
)

-- A group of columns that the schema declares unique has no values twice.
unique-Single :
    (t : Table) (columns : List String) (rows : Rows)
    → Any (λ cs. cs ≡ columns) (unique_columns t)
    → NoConflict rows
    → Single t columns rows
unique-Single t columns rows listed =
    NoConflict-Single t columns rows (λ r s. unique-conflicts t columns r s listed)

key-Single : (t : Table) (rows : Rows) → NoConflict rows → Single t (key_columns t) rows
unfolding key_of
key-Single t rows =
    NoConflict-Single t (key_columns t) rows
      (λ r s same. key-conflicts t r s (SameIn-key r s (key_columns t) same))

-- What the tables promise of their rows, column by column.
pub record HasSingleRows (rows : Rows) : Type 0 where
  pub case_snapshots : Single cases ("case_id" ∷ "case_hash" ∷ []) rows
  pub run_ids : Single runs ("run_id" ∷ []) rows
  pub baseline_ids : Single baselines ("baseline_id" ∷ []) rows
  pub admissions : Single replay_admissions ("replay_admission_hash" ∷ []) rows
  pub admitted_resolutions :
      Single replay_admissions
        ("resolution_id" ∷ "artifact_set_hash" ∷ "approved_case_hash" ∷ [])
        rows
  pub ledger_admissions : Single replay_ledger ("replay_admission_hash" ∷ []) rows
  pub ledger_runs : Single replay_ledger ("after_run_id" ∷ []) rows
  pub subjects : Single approval_subjects ("approval_subject_hash" ∷ []) rows
  pub subject_nonces : Single approval_subjects ("execution_nonce" ∷ []) rows
  pub approval_ids : Single approval_assertions ("approval_id" ∷ []) rows
  pub roles : Single approval_assertions ("approval_subject_hash" ∷ "role_claim" ∷ []) rows
  pub consumed_subjects : Single approval_consumptions ("approval_subject_hash" ∷ []) rows
  pub consumed_assertions : Single approval_consumptions ("assertion_set_hash" ∷ []) rows
  pub consumed_nonces : Single approval_consumptions ("execution_nonce" ∷ []) rows
  pub consumed_admissions : Single approval_consumptions ("replay_admission_hash" ∷ []) rows
  pub consumed_runs : Single approval_consumptions ("after_run_id" ∷ []) rows
  pub baseline_subjects : Single baseline_approval_bindings ("approval_subject_hash" ∷ []) rows

NoConflict-HasSingleRows : (rows : Rows) → NoConflict rows → HasSingleRows rows
unfolding key_columns unique_columns
NoConflict-HasSingleRows rows h = record {
  case_snapshots = key-Single cases rows h;
  run_ids = key-Single runs rows h;
  baseline_ids = key-Single baselines rows h;
  admissions = key-Single replay_admissions rows h;
  admitted_resolutions = unique-Single replay_admissions _ rows (inl refl) h;
  ledger_admissions = unique-Single replay_ledger _ rows (inl refl) h;
  ledger_runs = unique-Single replay_ledger _ rows (inr (inr (inl refl))) h;
  subjects = key-Single approval_subjects rows h;
  subject_nonces = unique-Single approval_subjects _ rows (inl refl) h;
  approval_ids = unique-Single approval_assertions _ rows (inl refl) h;
  roles = unique-Single approval_assertions _ rows (inr (inr (inl refl))) h;
  consumed_subjects = unique-Single approval_consumptions _ rows (inl refl) h;
  consumed_assertions = unique-Single approval_consumptions _ rows (inr (inl refl)) h;
  consumed_nonces = unique-Single approval_consumptions _ rows (inr (inr (inl refl))) h;
  consumed_admissions = unique-Single approval_consumptions _ rows (inr (inr (inr (inl refl)))) h;
  consumed_runs = unique-Single approval_consumptions _ rows (inr (inr (inr (inr (inl refl))))) h;
  baseline_subjects =
      unique-Single baseline_approval_bindings _ rows (inr (inr (inr (inl refl)))) h;
}

-- In a store that the calls have filled no case snapshot, run or baseline is stored twice; no admission
-- is, and no resolution is admitted twice for an artifact set and a case snapshot; the ledger names an
-- admission and a run once; no execution nonce is bound to two approval subjects; no approval has an
-- approval id that is used, or the role of another approval of its subject; no approval subject, set of
-- assertions, execution nonce, admission or run is consumed twice; and no approval subject has two
-- baselines. A value that is NULL counts as different from every other.
pub IsFilled-HasSingleRows :
    (database : Database) (store : Store) → IsFilled database store → HasSingleRows store.rows
IsFilled-HasSingleRows database store filled =
    NoConflict-HasSingleRows store.rows (IsFilled-NoConflict database store filled)

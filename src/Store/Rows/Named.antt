-- ===== src/Store/Rows/Named.antt =====
-- Tables by the names of their entities, keys by their texts, and the row that is found under a key.
use mathlib.Core.Path.{subst}
use mathlib.Core.Bool.{false≢true}
use qualityci.Store.Audit.{
  Table, cases, runs, run_reference_sets, run_validation_sets, approvals, baselines, artifact_sets,
  controlled_reference_sets, validation_evidence_sets, case_source_sets, case_lineage_bindings,
  run_case_source_sets, replay_admissions, replay_validation_bindings, replay_ledger,
  authorization_record_sets, authorization_trust_snapshots,
  replay_authorization_authenticity_bindings, approval_subjects, approval_assertions,
  approval_consumptions, replay_approval_expectations, baseline_approval_bindings, entity_type_of,
  same_key,
}
use qualityci.Store.Rows.{
  Cell, null_cell, integer_cell, text_cell, same_cell, Row, Rows, all_tables, key_of, has_key,
  find_row,
}
use qualityci.Prelude.{
  eqb_iff, same_iff, String, ◌≡◌, refl, sym, ap, ◌∙◌, inl, inr, true, Option, none, some, List, [],
  ◌∷◌, if◌then◌else◌, ◌==◌, nat_eq, string_eq, pair_eq, Bool-cases, All, &&-true,
}

-- The table whose entities have the name.
table_named : String → List Table → Option Table
table_named name [] = none
table_named name (t ∷ ts) =
    let later = table_named name ts in if name == entity_type_of t then some t else later

table_named-entity_type_of : (t : Table) → table_named (entity_type_of t) all_tables ≡ some t
unfolding table_named
table_named-entity_type_of cases = refl
table_named-entity_type_of runs = refl
table_named-entity_type_of run_reference_sets = refl
table_named-entity_type_of run_validation_sets = refl
table_named-entity_type_of approvals = refl
table_named-entity_type_of baselines = refl
table_named-entity_type_of artifact_sets = refl
table_named-entity_type_of controlled_reference_sets = refl
table_named-entity_type_of validation_evidence_sets = refl
table_named-entity_type_of case_source_sets = refl
table_named-entity_type_of case_lineage_bindings = refl
table_named-entity_type_of run_case_source_sets = refl
table_named-entity_type_of replay_admissions = refl
table_named-entity_type_of replay_validation_bindings = refl
table_named-entity_type_of replay_ledger = refl
table_named-entity_type_of authorization_record_sets = refl
table_named-entity_type_of authorization_trust_snapshots = refl
table_named-entity_type_of replay_authorization_authenticity_bindings = refl
table_named-entity_type_of approval_subjects = refl
table_named-entity_type_of approval_assertions = refl
table_named-entity_type_of approval_consumptions = refl
table_named-entity_type_of replay_approval_expectations = refl
table_named-entity_type_of baseline_approval_bindings = refl

entity_type_of_inj : (t u : Table) → entity_type_of t ≡ entity_type_of u → t ≡ u
entity_type_of_inj t u h =
    let named : some t ≡ some u =
      sym (table_named-entity_type_of t)
      ∙ ap (λ name. table_named name all_tables) h
      ∙ table_named-entity_type_of u in
    cc

pub same_key_sound : (k l : List String) → same_key k l ≡ true → k ≡ l
same_key_sound [] [] h = refl
same_key_sound [] (y ∷ ys) h = absurd (false≢true h)
same_key_sound (x ∷ xs) [] h = absurd (false≢true h)
same_key_sound (x ∷ xs) (y ∷ ys) h =
    let (here, later) = (&&-true (x == y) _).0 h in
    ap (λ z. z ∷ xs) ((same_iff x y).0 here) ∙ ap (λ zs. y ∷ zs) (same_key_sound xs ys later)

pub same_cell_sound : (c d : Cell) → same_cell c d ≡ true → c ≡ d
unfolding same_cell
same_cell_sound null_cell null_cell h = refl
same_cell_sound null_cell (integer_cell n) h = absurd (false≢true h)
same_cell_sound null_cell (text_cell t) h = absurd (false≢true h)
same_cell_sound (integer_cell m) null_cell h = absurd (false≢true h)
same_cell_sound (integer_cell m) (integer_cell n) h = ap integer_cell ((eqb_iff m n).0 h)
same_cell_sound (integer_cell m) (text_cell t) h = absurd (false≢true h)
same_cell_sound (text_cell s) null_cell h = absurd (false≢true h)
same_cell_sound (text_cell s) (integer_cell n) h = absurd (false≢true h)
same_cell_sound (text_cell s) (text_cell t) h = ap text_cell ((same_iff s t).0 h)

-- A row that is found has the key, and what is true of every row.
pub find_row-All :
    (P : Table → Row → Type 0) (rows : Rows) (t : Table) (key : List String) {row : Row}
    → All (λ e. P e.0 e.1) rows
    → find_row rows t key ≡ some row
    → P t row × (key_of t row ≡ key)
unfolding find_row
find_row-All P [] t key h found = cc
find_row-All P (e ∷ rows) t key {row = row} h found = elim (Bool-cases (has_key t key e)) [
  | inl here ↦
      let (named, keyed) = (&&-true (entity_type_of e.0 == entity_type_of t) _).0 here in
      let first : some e.1 ≡ some row = rw here at found in
      let Q : Table → Row → Type 0 = λ u r. P u r × (key_of u r ≡ key) in
      let this : e.1 ≡ row = cc in
      subst (Q t) this (
        subst (λ u. Q u e.1) (entity_type_of_inj e.0 t ((same_iff _ _).0 named))
          (h.0, same_key_sound _ _ keyed))
  | inr later ↦ find_row-All P rows t key h.1 (rw later at found)
]

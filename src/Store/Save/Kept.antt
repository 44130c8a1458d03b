-- ===== src/Store/Save/Kept.antt =====
-- A call has its row stored, and what is stored stays stored under other calls.
use mathlib.Core.Bool.{false≢true}
use qualityci.Json.{object}
use qualityci.Store.Audit.{Table}
use qualityci.Store.Rows.{
  Cell, null_cell, integer_cell, text_cell, same_cell, Row, Rows, is_in, same_row, row_json, key_of,
  find_row,
}
use qualityci.Store.Rows.Found.{find_row_kept, find_row_new}
use qualityci.Store.Tables.{
  Order, record_or_compare_fingerprints, record_or_compare, compare_then_record, fields_of,
  order_of,
}
use qualityci.Store.Save.{
  Store, Database, entity_of, holds, same_fingerprint, stored_matches, insert_or_ignore, record_row,
  save_entity,
}
use qualityci.Store.Save.Covered.{no_row, or_right}
use qualityci.Store.Save.Verified.{
  after_of, insert_or_ignore-eq-ok, record_row-eq-ok, save_entity-eq-ok,
}
use qualityci.Prelude.{
  same_iff, String, ◌≡◌, refl, sym, ap, ◌∙◌, inl, inr, Bool, true, false, some, List, [], ◌∷◌, ◌++◌,
  arith, nat_eq, string_eq, pair_eq, Option-cases, All, All-map, all_iff, &&-true, not-false, ok,
  raise_if-eq-ok, >>=-eq-ok,
}

same_cell_refl : (c : Cell) → same_cell c c ≡ true
unfolding same_cell
same_cell_refl null_cell = refl
same_cell_refl (integer_cell n) = ground arith
same_cell_refl (text_cell s) = (same_iff s s).1 refl

is_in_self : (row : Row) → All (λ e. is_in row e ≡ true) row
is_in_self [] = tt
is_in_self (e ∷ row) = (
  rw ((same_iff e.0 e.0).1 refl) (rw (same_cell_refl e.1) refl),
  All-map (λ f h. or_right _ _ h) row (is_in_self row),
)

pub same_row_refl : (row : Row) → same_row row row ≡ true
same_row_refl row =
    let itself = (all_iff (is_in row) row).1 (is_in_self row) in (&&-true _ _).1 (itself, itself)

-- The comparison that a call makes with a row that is there.
abbrev pub same_by : Database → Order → Row → Row → Bool
same_by database record_or_compare_fingerprints = same_fingerprint database
same_by database record_or_compare = same_row
same_by database compare_then_record = same_row

same_by_refl :
    (database : Database) (order : Order) (row : Row) → same_by database order row row ≡ true
same_by_refl database record_or_compare_fingerprints row =
    let print = database.fingerprint (object (row_json row)) in (same_iff print print).1 refl
same_by_refl database record_or_compare row = same_row_refl row
same_by_refl database compare_then_record row = same_row_refl row

module _ (database : Database) where
  found-stored_matches :
      (same : Row → Row → Bool) (rows : Rows) (t : Table) (row : Row)
      → find_row rows t (key_of t row) ≡ some row
      → same row row ≡ true
      → stored_matches database same rows t row ≡ true
  unfolding stored_matches
  found-stored_matches same rows t row found h = rw found h

  stored_matches_kept :
      (same : Row → Row → Bool) (rows : Rows) (e : Table × Row) (t : Table) (row : Row)
      → stored_matches database same rows t row ≡ true
      → stored_matches database same (rows ++ (e ∷ [])) t row ≡ true
  unfolding stored_matches
  stored_matches_kept same rows e t row h = elim (Option-cases (find_row rows t (key_of t row))) [
    | inl missing ↦ absurd (false≢true (sym (ap (holds same row) missing) ∙ h))
    | inr (r, found) ↦
        ap (holds same row) (find_row_kept rows e t (key_of t row) found)
        ∙ sym (ap (holds same row) found)
        ∙ h
  ]

  -- What the rest of a call has compared the row with, or inserted.
  record_row-stored_matches :
      (now : String) (order : Order) (store : Store) (t : Table) (row : Row) (rows : Rows)
      (inserted : Bool) {after : Store × Bool}
      → (inserted ≡ true → find_row rows t (key_of t row) ≡ some row)
      → record_row database now order store t row (rows, inserted) ≡ ok after
      → stored_matches database (same_by database order) rows t row ≡ true
  unfolding record_row
  record_row-stored_matches now compare_then_record store t row rows inserted f h =
      (not-false _).0 ((raise_if-eq-ok _ _ _).0 h).0
  record_row-stored_matches now record_or_compare store t row rows true f h =
      found-stored_matches same_row rows t row (f refl) (same_row_refl row)
  record_row-stored_matches now record_or_compare store t row rows false f h =
      (not-false _).0 ((raise_if-eq-ok _ _ _).0 h).0
  record_row-stored_matches now record_or_compare_fingerprints store t row rows true f h =
      found-stored_matches (same_fingerprint database) rows t row (f refl)
        (same_by_refl database record_or_compare_fingerprints row)
  record_row-stored_matches now record_or_compare_fingerprints store t row rows false f h =
      (not-false _).0 ((raise_if-eq-ok _ _ _).0 h).0

  after_of-rows :
      (now : String) (store : Store) (t : Table) (row : Row) (rows : Rows) (inserted : Bool)
      → (inserted ≡ false → rows ≡ store.rows)
      → (after_of database now store t row rows inserted).rows ≡ rows
  unfolding after_of
  after_of-rows now store t row rows true same = refl
  after_of-rows now store t row rows false same = sym (same refl)

  -- A call that returns has its row stored, as its comparison sees it.
  pub save_entity-stored_matches :
      (now : String) (t : Table) (cells : List Cell) (store after : Store) (inserted : Bool)
      → save_entity database now t cells store ≡ ok (after, inserted)
      → stored_matches database
          (same_by database (order_of t))
          after.rows
          t
          (entity_of (fields_of t) cells)
        ≡ true
  unfolding save_entity
  save_entity-stored_matches now t cells store after inserted h =
      let row = entity_of (fields_of t) cells in
      let ((rows, done), put, rest) = >>=-eq-ok (insert_or_ignore database store.rows t row) _ h in
      let cases = insert_or_ignore-eq-ok database store.rows rows t row done put in
      let there : done ≡ true → find_row rows t (key_of t row) ≡ some row = λ e. elim cases [
        | inl (skipped, _) ↦ absurd (false≢true (sym skipped ∙ e))
        | inr (_, grew, fresh) ↦
            ap (λ rs. find_row rs t (key_of t row)) grew
            ∙ find_row_new store.rows t row (no_row store.rows t row fresh)
      ] in
      let kept : done ≡ false → rows ≡ store.rows = λ e. elim cases [
        | inl (_, same) ↦ same
        | inr (put_in, _, _) ↦ absurd (false≢true (sym e ∙ put_in))
      ] in
      ap (λ rs. stored_matches database (same_by database (order_of t)) rs t row)
        (ap (λ x. x.0.rows) (record_row-eq-ok database now (order_of t) store t row rows done rest)
          ∙ after_of-rows now store t row rows done kept)
      ∙ record_row-stored_matches now (order_of t) store t row rows done there rest

  -- What is stored stays stored under a call.
  pub save_entity_kept :
      (same : Row → Row → Bool) (now : String) (t : Table) (cells : List Cell) (store after : Store)
      (inserted : Bool) (u : Table) (row : Row)
      → save_entity database now t cells store ≡ ok (after, inserted)
      → stored_matches database same store.rows u row ≡ true
      → stored_matches database same after.rows u row ≡ true
  save_entity_kept same now t cells store after inserted u row h there =
      elim (save_entity-eq-ok database now t cells store after inserted h) [
        | inl (_, unchanged) ↦
            ap (λ (s : Store). stored_matches database same s.rows u row) unchanged ∙ there
        | inr (_, _, grew) ↦
            ap (λ (s : Store). stored_matches database same s.rows u row) grew
            ∙ stored_matches_kept same store.rows (t, entity_of (fields_of t) cells) u row there
      ]

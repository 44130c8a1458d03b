-- ===== src/Store/Save/Verified.antt =====
-- A database that is filled by the calls verifies: its audit log is linked, and it covers the rows.
use mathlib.Core.Path.{subst}
use qualityci.Json.{Json}
use qualityci.Store.Audit.{Table}
use qualityci.Store.Rows.{Cell, Row, Rows, key_json}
use qualityci.Store.Tables.{
  Order, record_or_compare_fingerprints, record_or_compare, compare_then_record, fields_of,
  order_of,
}
use qualityci.Store.Save.{
  Store, empty_store, Database, conflicts, entity_of, insert_or_ignore, append_row, record_row,
  save_entity, Call, save_all, committed, transaction, verify_store,
}
use qualityci.Store.Save.Covered.{
  IsCovered, empty-IsCovered, IsCovered-verifies, append_row-IsCovered,
}
use qualityci.Prelude.{
  String, ◌≡◌, refl, sym, ap, ◌∙◌, ◌⊎◌, inl, inr, Bool, true, false, not, ◌||◌, some, List, [], ◌∷◌,
  ◌++◌, if◌then◌else◌, nat_eq, string_eq, pair_eq, is_empty, any, All, All-append, ||-false, Result,
  ok, err, raise_if-eq-ok, >>=-eq-ok, ok_inj,
}

-- The store that a call leaves.
unfoldable pub after_of : Database → String → Store → Table → Row → Rows → Bool → Store
after_of database now store t row rows true = record {
  rows = rows;
  events = append_row database now store.events t row;
}
after_of database now store t row rows false = store

module _ (database : Database) where
  pub insert_or_ignore-eq-ok :
      (rows after : Rows) (t : Table) (row : Row) (inserted : Bool)
      → insert_or_ignore database rows t row ≡ ok (after, inserted)
      → ((inserted ≡ false) × (after ≡ rows))
        ⊎ ((inserted ≡ true)
            × (after ≡ rows ++ ((t, row) ∷ []))
            × (any rows (conflicts t row) ≡ false))
  unfolding insert_or_ignore
  insert_or_ignore-eq-ok rows after t row inserted h =
      go (any rows (conflicts t row)) (database.meets_checks t row)
        (database.meets_references rows t row) refl h
    where
      go :
          (conflict meets refers : Bool)
          → any rows (conflicts t row) ≡ conflict
          → ◌≡◌ {A = Result String (Rows × Bool)}
              (if conflict || not meets
                then ok (rows, false)
                else if refers
                then ok (rows ++ ((t, row) ∷ []), true)
                else err "FOREIGN KEY constraint failed")
              (ok (after, inserted))
          → ((inserted ≡ false) × (after ≡ rows))
            ⊎ ((inserted ≡ true)
                × (after ≡ rows ++ ((t, row) ∷ []))
                × (any rows (conflicts t row) ≡ false))
      go true meets refers e h =
          inl (ap (λ x. x.1) (sym (ok_inj h)), ap (λ x. x.0) (sym (ok_inj h)))
      go false false refers e h =
          inl (ap (λ x. x.1) (sym (ok_inj h)), ap (λ x. x.0) (sym (ok_inj h)))
      go false true true e h =
          inr (ap (λ x. x.1) (sym (ok_inj h)), ap (λ x. x.0) (sym (ok_inj h)), e)
      go false true false e h = cc

  pub record_row-eq-ok :
      (now : String) (order : Order) (store : Store) (t : Table) (row : Row) (rows : Rows)
      (inserted : Bool) {after : Store × Bool}
      → record_row database now order store t row (rows, inserted) ≡ ok after
      → after ≡ (after_of database now store t row rows inserted, inserted)
  unfolding record_row after_of
  record_row-eq-ok now compare_then_record store t row rows true h =
      sym (ok_inj ((raise_if-eq-ok _ _ _).0 h).1)
  record_row-eq-ok now compare_then_record store t row rows false h =
      sym (ok_inj ((raise_if-eq-ok _ _ _).0 h).1)
  record_row-eq-ok now record_or_compare store t row rows true h = sym (ok_inj h)
  record_row-eq-ok now record_or_compare store t row rows false h =
      sym (ok_inj ((raise_if-eq-ok _ _ _).0 h).1)
  record_row-eq-ok now record_or_compare_fingerprints store t row rows true h = sym (ok_inj h)
  record_row-eq-ok now record_or_compare_fingerprints store t row rows false h =
      sym (ok_inj ((raise_if-eq-ok _ _ _).0 h).1)

  -- What a call that returns has done: nothing, or it inserted a row that conflicts with no other and
  -- recorded it.
  pub save_entity-eq-ok :
      (now : String) (t : Table) (cells : List Cell) (store after : Store) (inserted : Bool)
      → save_entity database now t cells store ≡ ok (after, inserted)
      → let row = entity_of (fields_of t) cells in
        ((inserted ≡ false) × (after ≡ store))
        ⊎ ((inserted ≡ true)
            × (any store.rows (conflicts t row) ≡ false)
            × (after ≡ record {
              rows = store.rows ++ ((t, row) ∷ []);
              events = append_row database now store.events t row;
            }))
  unfolding save_entity after_of
  save_entity-eq-ok now t cells store after inserted h =
      let row = entity_of (fields_of t) cells in
      let ((rows, done), put, rest) = >>=-eq-ok (insert_or_ignore database store.rows t row) _ h in
      let same = record_row-eq-ok now (order_of t) store t row rows done rest in
      elim (insert_or_ignore-eq-ok store.rows rows t row done put) [
        | inl (skipped, kept) ↦ inl (
          ap (λ x. x.1) same ∙ skipped,
          ap (λ x. x.0) same ∙ ap (after_of database now store t row rows) skipped,
        )
        | inr (put_in, grew, fresh) ↦ inr (
          ap (λ x. x.1) same ∙ put_in,
          fresh,
          ap (λ x. x.0) same
              ∙ ap (after_of database now store t row rows) put_in
              ∙ ap (λ r. after_of database now store t row r true) grew,
        )
      ]

  -- A store that the calls have filled, one after another, from the empty one.
  pub data IsFilled : Store → Type 0 where
    started : IsFilled empty_store
    saved :
        (now : String) (t : Table) (cells : List Cell) (store after : Store) (inserted : Bool)
        → IsFilled store
        → save_entity database now t cells store ≡ ok (after, inserted)
        → IsFilled after

  module _ (is_valid : Table → Json → Bool)
      (reads : (key : List (String × String)) (print : String)
        → database.read_payload (database.print_payload key print)
          ≡ some (key_json key, print)) where
    IsFilled-IsCovered : (store : Store) → IsFilled store → IsCovered database is_valid store
    IsFilled-IsCovered _ started = empty-IsCovered database is_valid
    IsFilled-IsCovered _ (saved now t cells store after inserted filled h) =
        let before = IsFilled-IsCovered store filled in
        elim (save_entity-eq-ok now t cells store after inserted h) [
          | inl (_, same) ↦ subst (IsCovered database is_valid) (sym same) before
          | inr (_, fresh, same) ↦ subst (IsCovered database is_valid) (sym same) (
              append_row-IsCovered database is_valid reads now store t
                (entity_of (fields_of t) cells) fresh before)
        ]

    -- Every store that the calls have filled verifies without the tests of the contents, once it has a
    -- row, for a JSON library that reads a payload back: its log is linked, the row that each event
    -- names is there with the fingerprint recorded, no row is recorded twice, and the rows recorded are
    -- those of the tables.
    pub IsFilled-verifies :
        (complete : Bool) (store : Store)
        → IsFilled store
        → is_empty store.events ≡ false
        → verify_store database false is_valid complete store ≡ true
    IsFilled-verifies complete store filled there =
        IsCovered-verifies database is_valid complete store there (IsFilled-IsCovered store filled)

-- No row has the key of an earlier row of its table, or the values of its unique columns.
abbrev pub NoConflict : Rows → Type 0
NoConflict [] = Unit
NoConflict (e ∷ rows) = All (λ f. conflicts f.0 f.1 e ≡ false) rows × NoConflict rows

NoConflict-snoc :
    (rows : Rows) (t : Table) (row : Row)
    → any rows (conflicts t row) ≡ false
    → NoConflict rows
    → NoConflict (rows ++ ((t, row) ∷ []))
NoConflict-snoc [] t row h n = (tt, tt)
NoConflict-snoc (e ∷ rows) t row h n =
    let (here, later) = (||-false (conflicts t row e) _).0 h in
    (
      (All-append (λ f. conflicts f.0 f.1 e ≡ false) rows ((t, row) ∷ [])).1 (n.0, (here, tt)),
      NoConflict-snoc rows t row later n.1,
    )

module _ (database : Database) where
  -- In a store that the calls have filled no row has the key, or the values in unique columns, of an
  -- earlier row of its table: no case or run is stored twice, no execution nonce is bound to two
  -- approval subjects, and no approval subject, execution nonce or admission is consumed twice.
  pub IsFilled-NoConflict : (store : Store) → IsFilled database store → NoConflict store.rows
  IsFilled-NoConflict _ started = tt
  IsFilled-NoConflict _ (saved now t cells store after inserted filled h) =
      let before = IsFilled-NoConflict store filled in
      elim (save_entity-eq-ok database now t cells store after inserted h) [
        | inl (_, same) ↦ subst (λ (s : Store). NoConflict s.rows) (sym same) before
        | inr (_, fresh, same) ↦
            subst (λ (s : Store). NoConflict s.rows) (sym same)
              (NoConflict-snoc store.rows t (entity_of (fields_of t) cells) fresh before)
      ]

  pub save_all-IsFilled :
      (calls : List (Call database)) (store : Store) {after : Store}
      → IsFilled database store
      → save_all database calls store ≡ ok after
      → IsFilled database after
  unfolding save_all
  save_all-IsFilled [] store f h = subst (IsFilled database) (ok_inj h) f
  save_all-IsFilled (call ∷ calls) store f h =
      let ((next, inserted), first, rest) =
        >>=-eq-ok (save_entity database call.0 call.1 call.2 store) _ h in
      save_all-IsFilled calls next (saved call.0 call.1 call.2 store next inserted f first) rest

  -- A transaction leads from a filled store to a filled store, whether it is committed or taken back.
  pub transaction-IsFilled :
      (calls : List (Call database)) (store : Store)
      → IsFilled database store
      → IsFilled database (transaction database calls store)
  unfolding transaction
  transaction-IsFilled calls store f = go (save_all database calls store) refl
    where
      go :
          (r : Result String Store)
          → save_all database calls store ≡ r
          → IsFilled database (committed database store r)
      go (ok after) e = save_all-IsFilled calls store f e
      go (err e) _ = f

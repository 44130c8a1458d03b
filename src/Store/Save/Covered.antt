-- ===== src/Store/Save/Covered.antt =====
-- The audit log covers the rows, and goes on doing so when a row is inserted and recorded.
use qualityci.Json.{Json, object}
use qualityci.Store.Audit.{
  AuditEvent, Table, Entity, entity_type_of, entity_id_of, is_audited, same_keys, next_event,
  append_audit, check_row, check_payload, check_entity, verify_rounds, verify_audit_chain,
}
use qualityci.Store.Audit.Extended.{ends_with, verify_rounds-snoc, next_event-is_linked}
use qualityci.Store.Audit.Grown.{verify_rounds_kept}
use qualityci.Store.Rows.{
  Row, Rows, row_json, key_of, primary_key, key_json, has_key, find_row, action_of,
  entity_for_audit, business_keys,
}
use qualityci.Store.Rows.Found.{
  same_key_refl, find_row_new, is_audited-business_keys, entity_for_audit_kept,
  entity_for_audit-action_of,
}
use qualityci.Store.Save.{
  Store, empty_store, Database, services_of, conflicts, append_row, verify_store,
}
use qualityci.Prelude.{
  same_iff, String, ◌≡◌, refl, sym, ap, ◌∙◌, Bool, true, false, not, ◌&&◌, ◌||◌, none, some, List,
  [], ◌∷◌, ◌++◌, map, arith, if◌then◌else◌, ◌==◌, nat_eq, string_eq, pair_eq, given, is_empty, any,
  All, All-map, all_iff, &&-true, ||-false, not-true,
}

-- An inserted row has a key that no row had.
pub no_row :
    (rows : Rows) (t : Table) (row : Row)
    → any rows (conflicts t row) ≡ false
    → find_row rows t (key_of t row) ≡ none
unfolding find_row conflicts
no_row [] t row h = refl
no_row (e ∷ rows) t row h =
    let (here, later) = (||-false (conflicts t row e) _).0 h in
    let (other, _) = (||-false (has_key t (key_of t row) e) _).0 here in
    rw other (no_row rows t row later)

or_left : (a b : Bool) → a ≡ true → (a || b) ≡ true
or_left a b h = ground arith

pub or_right : (a b : Bool) → b ≡ true → (a || b) ≡ true
or_right a b h = ground arith

five_hold :
    (a b c d e : Bool)
    → a ≡ true
    → b ≡ true
    → c ≡ false
    → d ≡ true
    → e ≡ true
    → (a && b && not c && d && e) ≡ true
five_hold a b c d e p q r s t = ground arith

moved_last : (t a b : Bool) → a ≡ b → (t || a) ≡ (b || (t || false))
moved_last t a b h = ground arith

chosen : {A : Type 0} (b : Bool) (a : A) → b ≡ true → (if b then some a else none) ≡ some a
chosen b a h = rw h refl

any_append :
    {A : Type 0} (p : A → Bool) (xs ys : List A) → any (xs ++ ys) p ≡ (any xs p || any ys p)
any_append p [] ys = refl
any_append p (x ∷ xs) ys = ground (arith, any_append p xs ys)

map_append : {A B : Type 0} (f : A → B) (xs ys : List A) → map f (xs ++ ys) ≡ map f xs ++ map f ys
map_append f [] ys = refl
map_append f (x ∷ xs) ys = ap (λ zs. f x ∷ zs) (map_append f xs ys)

-- A key stands among the keys that it stands among.
audited_self : (keys : List (Table × List String)) → All (λ k. is_audited keys k.0 k.1 ≡ true) keys
audited_self [] = tt
audited_self (k ∷ keys) = (
  or_left _ (is_audited keys k.0 k.1) (
      (&&-true _ _).1
        ((same_iff (entity_type_of k.0) (entity_type_of k.0)).1 refl, same_key_refl k.1)),
  All-map (λ j h. or_right _ (is_audited keys j.0 j.1) h) keys (audited_self keys),
)

same_keys_of :
    (xs ys : List (Table × List String))
    → ((t : Table) (key : List String) → is_audited xs t key ≡ is_audited ys t key)
    → same_keys xs ys ≡ true
same_keys_of xs ys h = (&&-true _ _).1 (
  (all_iff _ xs).1 (All-map (λ k e. sym (h k.0 k.1) ∙ e) xs (audited_self xs)),
  (all_iff _ ys).1 (All-map (λ k e. h k.0 k.1 ∙ e) ys (audited_self ys)),
)

module _ (database : Database) (is_valid : Table → Json → Bool) where
  -- The rounds of the log pass, and they audit the keys of the rows.
  pub record IsCovered (store : Store) : Type 0 where
    audited : List (Table × List String)
    rounds :
        verify_rounds (services_of database is_valid store.rows) false 1 "GENESIS" [] store.events
        ≡ some audited
    covers :
        (t : Table) (key : List String)
        → is_audited audited t key ≡ is_audited (business_keys store.rows) t key

  pub empty-IsCovered : IsCovered empty_store
  unfolding verify_rounds
  empty-IsCovered = record { audited = []; rounds = refl; covers = λ t key. refl }

  pub IsCovered-verifies :
      (complete : Bool) (store : Store)
      → is_empty store.events ≡ false
      → IsCovered store
      → verify_store database false is_valid complete store ≡ true
  unfolding verify_store verify_audit_chain
  IsCovered-verifies complete store there c = (&&-true _ _).1 (
    (not-true _).1 there,
    ends_with
        (verify_rounds (services_of database is_valid store.rows) false 1 "GENESIS" [] store.events)
        (λ audited. same_keys audited (business_keys store.rows) && true) c.rounds
        ((&&-true _ _).1 (same_keys_of c.audited (business_keys store.rows) c.covers, refl)),
  )

  module _
      (reads : (key : List (String × String)) (print : String)
        → database.read_payload (database.print_payload key print)
          ≡ some (key_json key, print)) where
    -- The round of a row that was just inserted.
    check_entity_new :
        (rows : Rows) (t : Table) (row : Row) (audited : List (Table × List String))
        (e : AuditEvent)
        → find_row rows t (key_of t row) ≡ some row
        → is_audited audited t (key_of t row) ≡ false
        → e.entity_type ≡ entity_type_of t
        → e.entity_id ≡ entity_id_of t (key_of t row)
        → e.action ≡ action_of t
        → e.payload_json
          ≡ database.print_payload
              (primary_key t row)
              (database.fingerprint (object (row_json row)))
        → check_entity (services_of database is_valid rows) false audited e ≡ some (t, key_of t row)
    unfolding check_entity
    check_entity_new rows t row audited e found new kind id action payload =
        let print = database.fingerprint (object (row_json row)) in
        let key = key_json (primary_key t row) in
        let services = services_of database is_valid rows in
        let entity : Entity = record {
          table = t;
          key = key_of t row;
          current = object (row_json row);
        } in
        ap (check_payload services false audited e)
          (ap database.read_payload payload ∙ reads (primary_key t row) print)
        ∙ ap (check_row services false audited e print) (
            ap (λ a. entity_for_audit rows a key) action
            ∙ entity_for_audit-action_of rows t row found)
        ∙ chosen _ (t, key_of t row)
            (five_hold (e.entity_type == entity_type_of t)
              (e.entity_id == entity_id_of t (key_of t row)) (is_audited audited t (key_of t row))
              (print == print) true ((same_iff _ _).1 kind) ((same_iff _ _).1 id) new
              ((same_iff print print).1 refl) refl)

    -- An inserted row is covered, by the event that records it.
    pub append_row-IsCovered :
        (now : String) (store : Store) (t : Table) (row : Row)
        → any store.rows (conflicts t row) ≡ false
        → IsCovered store
        → IsCovered (record {
          rows = store.rows ++ ((t, row) ∷ []);
          events = append_row database now store.events t row;
        })
    unfolding append_row append_audit
    append_row-IsCovered now store t row fresh c =
        let key = key_of t row in
        let rows = store.rows ++ ((t, row) ∷ []) in
        let services = services_of database is_valid rows in
        let none_there = no_row store.rows t row fresh in
        let payload =
          database.print_payload (primary_key t row)
            (database.fingerprint (object (row_json row))) in
        let e =
          next_event services store.events now (entity_type_of t) (entity_id_of t key) (action_of t)
            payload in
        let before =
          verify_rounds_kept (services_of database is_valid store.rows) (entity_for_audit rows)
            (λ action k found h. entity_for_audit_kept store.rows (t, row) action k h) false 1
            "GENESIS" [] store.events c.rounds in
        let new =
          c.covers t key ∙ is_audited-business_keys store.rows t key ∙ ap given none_there in
        record {
          audited = (t, key) ∷ c.audited;
          rounds =
              verify_rounds-snoc services false 0 "GENESIS" [] c.audited store.events e (t, key)
                before
                (next_event-is_linked services false store.events now (entity_type_of t)
                  (entity_id_of t key) (action_of t) payload)
                (check_entity_new rows t row c.audited e (find_row_new store.rows t row none_there)
                  new refl refl refl refl);
          covers = λ u k.
              moved_last _ _ _ (c.covers u k)
              ∙ sym (
                  ap (λ keys. is_audited keys u k)
                    (map_append (λ (x : Table × Row). (x.0, key_of x.0 x.1)) store.rows
                      ((t, row) ∷ []))
                  ∙ any_append _ (business_keys store.rows) ((t, key) ∷ []));
        }

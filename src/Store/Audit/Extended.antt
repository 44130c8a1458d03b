-- ===== src/Store/Audit/Extended.antt =====
-- A log that verifies goes on verifying when a row is appended for an entity that is there.
use mathlib.Core.Path.{subst}
use qualityci.Store.Audit.{
  AuditEvent, seed_of, next_event, last_hash, last_sequence, Table, Services, same_keys,
  append_audit, is_linked, check_entity, verify_rounds, verify_audit_chain,
}
use qualityci.Store.Audit.Linked.{linked_iff}
use qualityci.Prelude.{
  ℕ, suc, String, ◌≡◌, refl, sym, ap, ◌∙◌, Bool, true, false, not, ◌&&◌, ◌||◌, Option, none, some,
  List, [], ◌∷◌, ◌++◌, arith, nat_eq, string_eq, pair_eq, is_empty, &&-true,
}

some_inj : {A : Type 0} {a b : A} → some a ≡ some b → a ≡ b
some_inj h = cc

-- A round that is passed, and what the rounds after it give.
pub passed_with :
    {K R : Type 0} (b : Bool) (o : Option K) (f : K → Option R) {r : R}
    → elim b as (λ _. Option R) [
      | false ↦ none
      | true ↦ elim o as (λ _. Option R) [ none ↦ none | some k ↦ f k ]
    ]
      ≡ some r
    → (k : K) × (b ≡ true) × (o ≡ some k) × (f k ≡ some r)
passed_with false o f h = cc
passed_with true none f h = cc
passed_with true (some k) f h = (k, refl, refl, h)

pub passes_with :
    {K R : Type 0} (b : Bool) (o : Option K) (f : K → Option R) {k : K} {r : R}
    → b ≡ true
    → o ≡ some k
    → f k ≡ some r
    → elim b as (λ _. Option R) [
      | false ↦ none
      | true ↦ elim o as (λ _. Option R) [ none ↦ none | some k ↦ f k ]
    ]
      ≡ some r
passes_with false o f h k e = cc
passes_with true none f h k e = cc
passes_with true (some j) f h k e = ap f (some_inj k) ∙ e

pub ends_with :
    {R : Type 0} (o : Option R) (f : R → Bool) {r : R}
    → o ≡ some r
    → f r ≡ true
    → elim o as (λ _. Bool) [ none ↦ false | some r ↦ f r ] ≡ true
ends_with none f h e = cc
ends_with (some j) f h e = ap f (some_inj h) ∙ e

pub not_empty : (xs : List AuditEvent) (x : AuditEvent) → not (is_empty (xs ++ (x ∷ []))) ≡ true
not_empty [] x = refl
not_empty (y ∷ ys) x = refl

module _ (services : Services) (semantic : Bool) where
  pub verify_rounds-snoc :
      (m : ℕ) (previous : String) (audited after : List (Table × List String))
      (events : List AuditEvent) (e : AuditEvent) (key : Table × List String)
      → verify_rounds services semantic (suc m) previous audited events ≡ some after
      → is_linked services (suc (last_sequence m events)) (last_hash previous events) e ≡ true
      → check_entity services semantic after e ≡ some key
      → verify_rounds services semantic (suc m) previous audited (events ++ (e ∷ []))
        ≡ some (key ∷ after)
  unfolding verify_rounds last_sequence last_hash
  verify_rounds-snoc m previous audited after [] e key h linked checked =
      let same = some_inj h in
      passes_with (is_linked services (suc m) previous e) (check_entity services semantic audited e)
        (λ key. some (key ∷ audited)) linked
        (subst (λ a. check_entity services semantic a e ≡ some key) (sym same) checked)
        (ap (λ a. some (key ∷ a)) same)
  verify_rounds-snoc m previous audited after (f ∷ events) e key h linked checked =
      let (k, here, row, rest) =
        passed_with (is_linked services (suc m) previous f)
          (check_entity services semantic audited f)
          (λ key. verify_rounds services semantic (suc (suc m)) f.event_hash (key ∷ audited) events)
          h in
      let number = ((linked_iff services (suc m) previous f).0 here).0 in
      let next =
        subst
          (λ n.
            is_linked services (suc (last_sequence n events)) (last_hash f.event_hash events) e
            ≡ true)
          number linked in
      passes_with (is_linked services (suc m) previous f) (check_entity services semantic audited f)
        (λ key.
          verify_rounds services semantic (suc (suc m)) f.event_hash (key ∷ audited)
            (events ++ (e ∷ [])))
        here row
        (verify_rounds-snoc (suc m) f.event_hash (k ∷ audited) after events e key rest next checked)

  pub next_event-is_linked :
      (events : List AuditEvent) (created_at entity_type entity_id action payload_json : String)
      → is_linked services
          (suc (last_sequence 0 events))
          (last_hash "GENESIS" events)
          (next_event services events created_at entity_type entity_id action payload_json)
        ≡ true
  unfolding next_event seed_of
  next_event-is_linked events created_at entity_type entity_id action payload_json =
      (linked_iff services _ _ _).1 (refl, refl, refl)

  -- A log whose rounds all pass goes on verifying when a row is appended, if the new row's payload can
  -- be read, the entity that it names is there and not yet audited, with the header, the fingerprint
  -- and the content that its round asks for, and the keys audited are then the business keys.
  pub append_audit-verifies :
      (events : List AuditEvent) (created_at entity_type entity_id action payload_json : String)
      (audited business_keys : List (Table × List String)) (key : Table × List String)
      → verify_rounds services semantic 1 "GENESIS" [] events ≡ some audited
      → check_entity services semantic audited
          (next_event services events created_at entity_type entity_id action payload_json)
        ≡ some key
      → same_keys (key ∷ audited) business_keys ≡ true
      → verify_audit_chain services semantic business_keys true
          (append_audit services events created_at entity_type entity_id action payload_json)
        ≡ true
  unfolding verify_audit_chain append_audit
  append_audit-verifies events created_at entity_type entity_id action payload_json audited
        business_keys key h checked same =
      let e = next_event services events created_at entity_type entity_id action payload_json in
      let rounds =
        verify_rounds-snoc 0 "GENESIS" [] audited events e key h
          (next_event-is_linked events created_at entity_type entity_id action payload_json)
          checked in
      (&&-true _ _).1 (
        not_empty events e,
        ends_with (verify_rounds services semantic 1 "GENESIS" [] (events ++ (e ∷ [])))
            (λ audited. same_keys audited business_keys && (not semantic || true)) rounds
            (with_coverage _ semantic same),
      )
    where
      with_coverage : (b s : Bool) → b ≡ true → (b && (not s || true)) ≡ true
      with_coverage b s h = ground arith

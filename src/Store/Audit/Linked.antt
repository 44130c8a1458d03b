-- ===== src/Store/Audit/Linked.antt =====
-- Every audit log that is written by appending is a chain, and only chains verify.
use mathlib.Core.Path.{subst}
use qualityci.Store.Audit.{
  AuditEvent, seed_of, next_event, last_hash, last_sequence, Table, Services, append_audit,
  is_linked, check_entity, verify_rounds, verify_audit_chain,
}
use qualityci.Prelude.{
  same_iff, ℕ, suc, String, ◌≡◌, refl, ◌↔◌, Bool, true, false, ◌&&◌, Option, none, some, List, [],
  ◌∷◌, ◌++◌, arith, eqb, ◌==◌, nat_eq, string_eq, pair_eq, given, is_empty, &&-true, not-true,
}

three_true : (a b c : Bool) → ((a && b && c) ≡ true) ↔ ((a ≡ true) × (b ≡ true) × (c ≡ true))
three_true a b c = ground arith

-- A round that is passed, and the rounds after it.
passed :
    {K R : Type 0} (b : Bool) (o : Option K) (f : K → Option R)
    → given (elim b [ false ↦ none | true ↦ elim o [ none ↦ none | some k ↦ f k ] ]) ≡ true
    → (k : K) × (b ≡ true) × (o ≡ some k) × (given (f k) ≡ true)
passed false o f h = cc
passed true none f h = cc
passed true (some k) f h = (k, refl, refl, h)

module _ (services : Services) where
  open services use {sha256}

  -- The rows are numbered from `n` on, each names the hash of the row before, and each carries its own
  -- hash.
  abbrev pub IsChain : ℕ → String → List AuditEvent → Type 0
  IsChain n previous [] = Unit
  IsChain n previous (e ∷ es) =
      (e.sequence ≡ n)
      × (e.previous_hash ≡ previous)
      × (sha256 (seed_of e) ≡ e.event_hash)
      × IsChain (suc n) e.event_hash es

  -- A log: what a sequence of calls of `_append_audit` has written.
  pub data IsLog : List AuditEvent → Type 0 where
    started : IsLog []
    appended :
        (events : List AuditEvent) (created_at entity_type entity_id action payload_json : String)
        → IsLog events
        → IsLog (append_audit services events created_at entity_type entity_id action payload_json)

  IsChain-snoc :
      (m : ℕ) (previous : String) (events : List AuditEvent) (e : AuditEvent)
      → IsChain (suc m) previous events
      → e.sequence ≡ suc (last_sequence m events)
      → e.previous_hash ≡ last_hash previous events
      → sha256 (seed_of e) ≡ e.event_hash
      → IsChain (suc m) previous (events ++ (e ∷ []))
  unfolding last_sequence last_hash
  IsChain-snoc m previous [] e c s p h = (s, p, h, tt)
  IsChain-snoc m previous (f ∷ events) e (a, b, d, rest) s p h = (
    a,
    b,
    d,
    IsChain-snoc (suc m) f.event_hash events e rest
        (subst (λ k. e.sequence ≡ suc (last_sequence k events)) a s) p h,
  )

  -- Appending keeps the chain.
  append_audit-IsChain :
      (events : List AuditEvent) (created_at entity_type entity_id action payload_json : String)
      → IsChain 1 "GENESIS" events
      → IsChain 1 "GENESIS"
          (append_audit services events created_at entity_type entity_id action payload_json)
  unfolding append_audit next_event seed_of
  append_audit-IsChain events created_at entity_type entity_id action payload_json c =
      IsChain-snoc 0 "GENESIS" events _ c refl refl refl

  -- Every log that `_append_audit` has written, call by call, is a chain from GENESIS: its rows are
  -- numbered from 1 on, each names the hash of the one before and carries the hash of its own seed.
  pub IsLog-IsChain : (events : List AuditEvent) → IsLog events → IsChain 1 "GENESIS" events
  IsLog-IsChain _ started = tt
  IsLog-IsChain _ (appended events created_at entity_type entity_id action payload_json log) =
      append_audit-IsChain events created_at entity_type entity_id action payload_json
        (IsLog-IsChain events log)

  pub linked_iff :
      (n : ℕ) (previous : String) (e : AuditEvent)
      → (is_linked services n previous e ≡ true)
        ↔ ((e.sequence ≡ n) × (e.previous_hash ≡ previous) × (sha256 (seed_of e) ≡ e.event_hash))
  unfolding is_linked
  linked_iff n previous e =
      let number = same_iff e.sequence n in
      let before = same_iff e.previous_hash previous in
      let own = same_iff (sha256 (seed_of e)) e.event_hash in
      let tests =
        three_true (eqb e.sequence n) (e.previous_hash == previous)
          (sha256 (seed_of e) == e.event_hash) in
      (
        λ h. let (a, b, c) = tests.0 h in (number.0 a, before.0 b, own.0 c),
        λ (a, b, c). tests.1 (number.1 a, before.1 b, own.1 c),
      )

  verify_rounds-IsChain :
      (semantic : Bool) (n : ℕ) (previous : String) (audited : List (Table × List String))
      (events : List AuditEvent)
      → given (verify_rounds services semantic n previous audited events) ≡ true
      → IsChain n previous events
  unfolding verify_rounds
  verify_rounds-IsChain semantic n previous audited [] h = tt
  verify_rounds-IsChain semantic n previous audited (e ∷ es) h =
      let (key, linked, checked, rest) =
        passed (is_linked services n previous e) (check_entity services semantic audited e)
          (λ key. verify_rounds services semantic (suc n) e.event_hash (key ∷ audited) es) h in
      let (number, before, own) = (linked_iff n previous e).0 linked in
      (
        number,
        before,
        own,
        verify_rounds-IsChain semantic (suc n) e.event_hash (key ∷ audited) es rest,
      )

  -- A log that verifies, with or without the tests of the contents, is not empty and is a chain from
  -- GENESIS.
  pub verify_audit_chain-IsChain :
      (semantic : Bool) (business_keys : List (Table × List String)) (coverage_complete : Bool)
      (events : List AuditEvent)
      → verify_audit_chain services semantic business_keys coverage_complete events ≡ true
      → (is_empty events ≡ false) × IsChain 1 "GENESIS" events
  unfolding verify_audit_chain
  verify_audit_chain-IsChain semantic business_keys coverage_complete events h =
      let (there, rest) = (&&-true _ _).0 h in
      ((not-true _).0 there, verify_rounds-IsChain semantic 1 "GENESIS" [] events (ended _ _ rest))
    where
      ended :
          {R : Type 0} (o : Option R) (f : R → Bool)
          → elim o as (λ _. Bool) [ none ↦ false | some r ↦ f r ] ≡ true
          → given o ≡ true
      ended none f h = h
      ended (some r) f h = refl

-- ===== src/Examples/Store.antt =====
-- Audit logs of one and two rows, and the theorems on the log applied to them.
use qualityci.Text.{join}
use qualityci.Json.{null}
use qualityci.Store.Audit.{
  AuditEvent, seed_of, last_hash, last_sequence, cases, runs, Entity, Services, append_audit,
  next_event, is_linked, check_entity, verify_rounds, verify_audit_chain,
}
use qualityci.Store.Audit.Linked.{
  IsChain, IsLog, started, appended, IsLog-IsChain, verify_audit_chain-IsChain,
}
use qualityci.Store.Audit.Extended.{append_audit-verifies}
use qualityci.Store.Audit.Sealed.{before_bar, HasNoBar, SameSeeds, IsChain-SameSeeds}
use qualityci.Examples.Data.{sha}
use qualityci.Prelude.{
  String, ◌≡◌, refl, inr, true, false, some, List, [], ◌∷◌, if◌then◌else◌, ◌==◌, nat_eq, string_eq,
  pair_eq, is_empty,
}

-- A case and a run, by the action that saved them.
abbrev saved_by : String → Entity
saved_by action =
    if action == "RUN_SAVED"
    then record { table = runs; key = "RUN-1" ∷ []; current = null }
    else record { table = cases; key = "CASE-1" ∷ "hash" ∷ []; current = null }

abbrev services : Services
services = record {
  sha256 = λ s. sha;
  read_payload = λ s. some (null, "print");
  entity_for_audit = λ action primary_key. some (saved_by action);
  fingerprint = λ row. "print";
  is_semantically_valid = λ table row. true;
}

abbrev one_row : List AuditEvent
one_row = append_audit services [] "2026-01-01" "case" "CASE-1@hash" "SAVED" "payload"

abbrev log : IsLog services one_row
log = appended [] "2026-01-01" "case" "CASE-1@hash" "SAVED" "payload" started

abbrev two_rows : List AuditEvent
two_rows = append_audit services one_row "2026-01-02" "run" "RUN-1" "RUN_SAVED" "payload"

IsLog-IsChain_example : IsChain services 1 "GENESIS" two_rows
IsLog-IsChain_example =
    IsLog-IsChain services two_rows
      (appended one_row "2026-01-02" "run" "RUN-1" "RUN_SAVED" "payload" log)

verifies :
    verify_audit_chain services true ((cases, "CASE-1" ∷ "hash" ∷ []) ∷ []) true one_row ≡ true
unfolding verify_audit_chain verify_rounds is_linked check_entity append_audit next_event last_hash
    last_sequence join
verifies = refl

verify_audit_chain-IsChain_example :
    (is_empty one_row ≡ false) × IsChain services 1 "GENESIS" one_row
verify_audit_chain-IsChain_example =
    verify_audit_chain-IsChain services true ((cases, "CASE-1" ∷ "hash" ∷ []) ∷ []) true one_row
      verifies

-- Two rows that share a bar in another place, with the same seed.
abbrev other_row : List AuditEvent
other_row = append_audit services [] "2026-01-01|case" "CASE-1@hash" "SAVED" "payload" ""

abbrev third_row : List AuditEvent
third_row = append_audit services [] "2026-01-01" "case" "CASE-1@hash" "SAVED|payload" ""

sha-HasNoBar : (s : String) → HasNoBar (services.sha256 s)
unfolding before_bar
sha-HasNoBar s = refl

other_row-IsChain : IsChain services 1 "GENESIS" other_row
other_row-IsChain =
    IsLog-IsChain services other_row
      (appended [] "2026-01-01|case" "CASE-1@hash" "SAVED" "payload" "" started)

third_row-IsChain : IsChain services 1 "GENESIS" third_row
third_row-IsChain =
    IsLog-IsChain services third_row
      (appended [] "2026-01-01" "case" "CASE-1@hash" "SAVED|payload" "" started)

IsChain-SameSeeds_example : SameSeeds other_row third_row
unfolding append_audit next_event seed_of join last_hash
IsChain-SameSeeds_example =
    IsChain-SameSeeds services sha-HasNoBar other_row third_row refl (inr refl, tt)
      other_row-IsChain third_row-IsChain refl

append_audit-verifies_example :
    verify_audit_chain services true
      ((runs, "RUN-1" ∷ []) ∷ (cases, "CASE-1" ∷ "hash" ∷ []) ∷ [])
      true
      two_rows
    ≡ true
unfolding verify_rounds is_linked check_entity append_audit next_event last_hash last_sequence join
append_audit-verifies_example =
    append_audit-verifies services true one_row "2026-01-02" "run" "RUN-1" "RUN_SAVED" "payload"
      ((cases, "CASE-1" ∷ "hash" ∷ []) ∷ [])
      ((runs, "RUN-1" ∷ []) ∷ (cases, "CASE-1" ∷ "hash" ∷ []) ∷ []) (runs, "RUN-1" ∷ []) refl refl
      refl

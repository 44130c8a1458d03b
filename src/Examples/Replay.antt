-- ===== src/Examples/Replay.antt =====
-- A replay that is saved, saved again, and refused when another wants to use its approval.
use qualityci.Store.Audit.{approval_consumptions}
use qualityci.Store.Rows.{Cell, integer_cell, text_cell, key_of}
use qualityci.Store.Save.{Store, empty_store, save_all}
use qualityci.Store.Save.Verified.{IsFilled, started}
use qualityci.Store.Save.Replay.{
  ReplayEntities, replay_steps, compared_rows, is_stored, run_steps, final_preflight, save_replay,
  save_native_replay,
}
use qualityci.Store.Save.Replay.Stored.{replay_steps-IsFilled}
use qualityci.Store.Save.Replay.Committed.{save_replay-IsCommitted}
use qualityci.Store.Save.Replay.Single.{consumption_of, save_replay-SingleUse}
use qualityci.Examples.Payload.{read_payload-write_payload}
use qualityci.Examples.Database.{database, calls}
use qualityci.Prelude.{
  ℕ, String, ◌≡◌, refl, true, some, List, [], ◌∷◌, map, nat_eq, string_eq, pair_eq, All, Result, ok,
  err, inl, inr,
}

abbrev texts : List String → List Cell
texts names = map text_cell names

abbrev entities : ReplayEntities
entities = record {
  trust_snapshot = texts ("SNAP" ∷ "1" ∷ "POLICY" ∷ "1" ∷ "bytes" ∷ []);
  resolved_case = text_cell "CASE" ∷ text_cell "AFTER" ∷ integer_cell 1 ∷ text_cell "case" ∷ [];
  before_run = texts ("RUN-1" ∷ "CASE" ∷ "CONTRADICTED" ∷ "1" ∷ "run" ∷ []);
  after_run = texts ("RUN-2" ∷ "CASE" ∷ "PASS" ∷ "1" ∷ "run" ∷ []);
  before_validation = texts ("RUN-1" ∷ "SET-1" ∷ []);
  after_validation = texts ("RUN-2" ∷ "SET-2" ∷ []);
  subject = texts ("SUBJECT" ∷ "1" ∷ "RES" ∷ "NONCE" ∷ "subject" ∷ []);
  assertions =
      texts (
        "ASSERT-1" ∷ "SUBJECT" ∷ "APP-1" ∷ "app-1" ∷ "PROCESS_OWNER" ∷ "RECORDS" ∷ "REC-1"
        ∷ "HASH-1" ∷ "one" ∷ [])
      ∷ texts (
          "ASSERT-2" ∷ "SUBJECT" ∷ "APP-2" ∷ "app-2" ∷ "QUALITY_MANAGER" ∷ "RECORDS" ∷ "REC-2"
          ∷ "HASH-2" ∷ "two" ∷ [])
      ∷ [];
  baseline = some (texts ("BASE" ∷ "CASE" ∷ "RUN-2" ∷ "baseline" ∷ []));
  admission = texts ("ADMIT" ∷ "RES" ∷ "ARTIFACTS" ∷ "BEFORE" ∷ "resolution" ∷ "admission" ∷ []);
  authenticity_binding = texts (
      "AUTH" ∷ "ADMIT" ∷ "SUBJECT" ∷ "ASSERTIONS" ∷ "RECORDS" ∷ "SNAP" ∷ "CONTEXT" ∷ "STATELESS"
      ∷ "AFTER" ∷ "RUN-2" ∷ "binding" ∷ []);
  ledger =
      texts (
        "LEDGER" ∷ "ADMIT" ∷ "CONSUMED" ∷ "RES" ∷ "ARTIFACTS" ∷ "BEFORE" ∷ "RUN-2" ∷ "ledger" ∷ []);
  validation_binding = texts (
      "VALID" ∷ "RES" ∷ "BEFORE" ∷ "AFTER" ∷ "RUN-2" ∷ "SET-1" ∷ "SET-2" ∷ "PAIR" ∷ "ADMIT"
      ∷ "binding" ∷ []);
  consumption = texts (
      "CONSUMED" ∷ "SUBJECT" ∷ "ASSERTIONS" ∷ "RECORDS" ∷ "NONCE" ∷ "ADMIT" ∷ "RUN-2"
      ∷ "consumption" ∷ []);
  baseline_binding = some (
      texts (
        "BIND" ∷ "BASE" ∷ "AFTER" ∷ "RUN-2" ∷ "RES" ∷ "ARTIFACTS" ∷ "SUBJECT" ∷ "ASSERTIONS"
        ∷ "RECORDS" ∷ "binding" ∷ []));
  expectation = texts (
      "EXPECT" ∷ "RES" ∷ "AFTER" ∷ "RUN-2" ∷ "ARTIFACTS" ∷ "SUBJECT" ∷ "ASSERTIONS" ∷ "RECORDS"
      ∷ "CONSUMED" ∷ "ADMIT" ∷ "BASE" ∷ "BIND" ∷ "expectation" ∷ []);
}

abbrev clock : ℕ → String
clock n = "2026-01-01"

abbrev or_empty : Result String Store → Store
or_empty (ok store) = store
or_empty (err e) = empty_store

abbrev after_replay : Store
after_replay = or_empty (run_steps database clock (replay_steps database entities) empty_store)

replay_ran : run_steps database clock (replay_steps database entities) empty_store ≡ ok after_replay
unfolding calls run_steps
replay_ran = refl

after_replay-IsFilled : IsFilled database after_replay
after_replay-IsFilled =
    replay_steps-IsFilled database clock entities empty_store after_replay started replay_ran

-- The replay is committed if the contexts match.
save_replay-IsCommitted_example :
    (save_replay database (λ table row. true) (λ store. true) clock entities empty_store
      ≡ ok after_replay)
    × All (λ r. is_stored database after_replay r ≡ true) (compared_rows database entities)
    × IsFilled database after_replay
save_replay-IsCommitted_example =
    save_replay-IsCommitted database (λ table row. true) (λ store. true) read_payload-write_payload
      clock entities empty_store after_replay started replay_ran

saved_replay :
    save_replay database (λ table row. true) (λ store. true) clock entities empty_store
    ≡ ok after_replay
saved_replay =
    (save_replay-IsCommitted database (λ table row. true) (λ store. true) read_payload-write_payload
      clock entities empty_store after_replay started replay_ran).0

-- The replay is saved again later, from another run before and under another trust snapshot: the
-- approval is the one that is used already.
abbrev rerun : ReplayEntities
rerun = record {
  trust_snapshot = texts ("SNAP-2" ∷ "1" ∷ "POLICY" ∷ "1" ∷ "bytes" ∷ []);
  resolved_case = entities.resolved_case;
  before_run = texts ("RUN-3" ∷ "CASE" ∷ "INCOMPLETE" ∷ "1" ∷ "run" ∷ []);
  after_run = entities.after_run;
  before_validation = texts ("RUN-3" ∷ "SET-1" ∷ []);
  after_validation = entities.after_validation;
  subject = entities.subject;
  assertions = entities.assertions;
  baseline = entities.baseline;
  admission = entities.admission;
  authenticity_binding = entities.authenticity_binding;
  ledger = entities.ledger;
  validation_binding = entities.validation_binding;
  consumption = entities.consumption;
  baseline_binding = entities.baseline_binding;
  expectation = entities.expectation;
}

abbrev after_rerun : Store
after_rerun = or_empty (run_steps database clock (replay_steps database rerun) after_replay)

rerun_ran : run_steps database clock (replay_steps database rerun) after_replay ≡ ok after_rerun
unfolding calls run_steps
rerun_ran = refl

saved_rerun :
    save_replay database (λ table row. true) (λ store. true) clock rerun after_replay
    ≡ ok after_rerun
saved_rerun =
    (save_replay-IsCommitted database (λ table row. true) (λ store. true) read_payload-write_payload
      clock rerun after_replay after_rerun after_replay-IsFilled rerun_ran).0

-- Both name the nonce, and that nonce has been used by one consumption.
save_replay-SingleUse_example :
    key_of approval_consumptions (consumption_of entities)
    ≡ key_of approval_consumptions (consumption_of rerun)
unfolding calls save_all
save_replay-SingleUse_example =
    save_replay-SingleUse database (λ table row. true) (λ store. true) clock clock entities rerun
      empty_store after_replay after_replay after_rerun [] started saved_replay refl saved_rerun
      (inr (inr (inl ((text_cell "NONCE", refl, refl, λ h. cc), tt))))

-- Another consumption of the same approval is refused, and the transaction taken back.
abbrev another : ReplayEntities
another = record {
  trust_snapshot = entities.trust_snapshot;
  resolved_case = entities.resolved_case;
  before_run = entities.before_run;
  after_run = entities.after_run;
  before_validation = entities.before_validation;
  after_validation = entities.after_validation;
  subject = entities.subject;
  assertions = entities.assertions;
  baseline = entities.baseline;
  admission = entities.admission;
  authenticity_binding = entities.authenticity_binding;
  ledger = entities.ledger;
  validation_binding = entities.validation_binding;
  consumption = texts (
      "AGAIN" ∷ "SUBJECT" ∷ "OTHERS" ∷ "RECORDS" ∷ "OTHER" ∷ "ADMIT-2" ∷ "RUN-3" ∷ "consumption"
      ∷ []);
  baseline_binding = entities.baseline_binding;
  expectation = entities.expectation;
}

refused_again :
    save_native_replay database (λ table row. true) (λ store. true) clock another after_replay
    ≡ after_replay
unfolding calls run_steps save_replay save_native_replay final_preflight
refused_again = refl

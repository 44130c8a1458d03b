-- ===== src/Examples/Database.antt =====
-- A store with a case and a run of it, and the theorems on the store applied to it.
use qualityci.Prelude.Dict.{lookup}
use qualityci.Engine.{run_of, run_case}
use qualityci.Run.{RunResult}
use qualityci.Store.Audit.{approval_subjects, next_event, append_audit, cases}
use qualityci.Store.Rows.{
  Cell, text_cell, integer_cell, same_cell, key_columns, key_of, primary_key, find_row, action_of,
}
use qualityci.Store.Tables.{fields_of, unique_columns, order_of}
use qualityci.Store.Save.{
  Store, empty_store, Database, conflicts, insert_or_ignore, stored_matches, append_row, record_row,
  save_entity, Call, save_all, transaction, verify_store,
}
use qualityci.Store.Save.Verified.{
  IsFilled, started, saved, IsFilled-verifies, transaction-IsFilled,
}
use qualityci.Store.Save.Unique.{HasSingleRows, IsFilled-HasSingleRows}
use qualityci.Store.Save.Runs.{Documents, save_case, save_run, registered_case, expected_run}
use qualityci.Store.Save.Runs.Recomputed.{IsRecomputed, save_run-IsRecomputed}
use qualityci.Examples.Rules.{program}
use qualityci.Examples.Payload.{write_payload, read_payload, read_payload-write_payload}
use qualityci.Examples.Data.{plain_text, fixed_hashes, sha, sample}
use qualityci.Prelude.{
  String, ◌≡◌, refl, Bool, true, false, none, some, List, [], ◌∷◌, nat_eq, string_eq, pair_eq,
  Result, ok, err,
}

abbrev pub database : Database
database = record {
  sha256 = λ s. sha;
  print_payload = write_payload;
  read_payload = read_payload;
  fingerprint = λ row. "print";
  meets_checks = λ table row. true;
  meets_references = λ rows table row. true;
}

abbrev documents : Documents
documents = record {
  print_case = λ case. "case";
  read_case = λ s. some sample;
  print_run = λ run. "run";
}

abbrev bare_run : RunResult
bare_run = run_of plain_text fixed_hashes sample none none

abbrev case_cells : List Cell
case_cells = text_cell "CASE-1" ∷ text_cell sha ∷ integer_cell 1 ∷ text_cell "case" ∷ []

abbrev result_store : Result String (Store × Bool) → Store
result_store (ok (store, inserted)) = store
result_store (err e) = empty_store

abbrev with_case : Store
with_case = result_store (save_entity database "2026-01-01" cases case_cells empty_store)

-- All that the calls compute with.
unfoldable pub calls : Unit {0}
unfolding save_entity save_case save_run registered_case expected_run insert_or_ignore conflicts
    record_row stored_matches append_row append_audit next_event find_row key_of key_columns
    primary_key action_of fields_of unique_columns order_of same_cell lookup run_case program
calls = tt

case_saved : save_entity database "2026-01-01" cases case_cells empty_store ≡ ok (with_case, true)
unfolding calls
case_saved = refl

with_case-IsFilled : IsFilled database with_case
with_case-IsFilled =
    saved "2026-01-01" cases case_cells empty_store with_case true started case_saved

IsFilled-verifies_example : verify_store database false (λ table row. true) true with_case ≡ true
unfolding calls
IsFilled-verifies_example =
    IsFilled-verifies database (λ table row. true) read_payload-write_payload true with_case
      with_case-IsFilled refl

abbrev subject_call : Call database
subject_call = (
  "2026-01-02",
  approval_subjects,
  text_cell "hash" ∷ text_cell "1" ∷ text_cell "RES-1" ∷ text_cell "nonce" ∷ text_cell "{}" ∷ [],
)

abbrev other_call : Call database
other_call = (
  "2026-01-02",
  approval_subjects,
  text_cell "other" ∷ text_cell "1" ∷ text_cell "RES-1" ∷ text_cell "nonce" ∷ text_cell "{}" ∷ [],
)

-- The second subject has the nonce of the first: the transaction is taken back.
taken_back : transaction database (subject_call ∷ other_call ∷ []) with_case ≡ with_case
unfolding calls transaction save_all
taken_back = refl

IsFilled-HasSingleRows_example :
    HasSingleRows (transaction database (subject_call ∷ []) with_case).rows
IsFilled-HasSingleRows_example =
    IsFilled-HasSingleRows database (transaction database (subject_call ∷ []) with_case)
      (transaction-IsFilled database (subject_call ∷ []) with_case with_case-IsFilled)

abbrev with_run : Store
with_run =
    result_store (
      save_run plain_text fixed_hashes database documents "2026-01-03" bare_run none none with_case)

run_saved :
    save_run plain_text fixed_hashes database documents "2026-01-03" bare_run none none with_case
    ≡ ok (with_run, true)
unfolding calls qualityci.Rules.Evidence.event_relationship_evidence
    qualityci.Rules.Evidence.relationship_evidence
run_saved = refl

save_run-IsRecomputed_example :
    IsRecomputed plain_text fixed_hashes database documents none none with_case bare_run with_run
save_run-IsRecomputed_example =
    save_run-IsRecomputed plain_text fixed_hashes database documents "2026-01-03" bare_run none none
      with_case with_run true with_case-IsFilled run_saved

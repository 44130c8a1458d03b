-- ===== src/Store/Save/Runs/Recomputed.antt =====
-- Which runs can be saved: those that the engine gives again for a registered case.
use mathlib.Core.Path.{subst}
use qualityci.Text.{TextOps}
use qualityci.Case.{Case}
use qualityci.Prelude.Dict.{lookup}
use qualityci.Loader.Validate.{validate_case}
use qualityci.Loader.Validate.Approved.{IsValid, validate_case-IsValid}
use qualityci.Rules.References.{ReferenceContext}
use qualityci.Rules.ValidationEvidence.{ValidationContext}
use qualityci.Engine.{Hashes}
use qualityci.Run.{RunResult}
use qualityci.Run.Same.{same_run, same_run_sound}
use qualityci.Store.Audit.{cases, runs}
use qualityci.Store.Rows.{
  Cell, null_cell, text_cell, integer_cell, same_cell, Row, Rows, text_of, find_row,
}
use qualityci.Store.Save.{Store, Database}
use qualityci.Store.Save.Verified.{IsFilled, saved}
use qualityci.Store.Save.Runs.{
  Documents, has_cell, describes_case, row_or_error, case_or_error, registered_case, expected_run,
  save_run,
}
use qualityci.Prelude.{
  same_iff, String, ◌≡◌, ap, Bool, true, false, not, Option, none, some, [], ◌∷◌, nat_eq, string_eq,
  pair_eq, &&-true, not-false, ok, >>-eq-ok, raise_if-eq-ok, >>=-eq-ok, ok_inj,
}

module _ (text : TextOps) (hashes : Hashes) (database : Database) (documents : Documents) where
  open documents use {read_case}

  -- The case is registered under the id and the hash that the run names.
  pub record IsRegistered (rows : Rows) (result : RunResult) (case : Case) : Type 0 where
    pub row : Row
    pub stored : find_row rows cases (result.case_id ∷ result.identity.case_hash ∷ []) ≡ some row
    pub reads : read_case (text_of (lookup "payload_json" row)) ≡ some case
    pub valid : IsValid text case
    pub of_id : lookup "case_id" row ≡ some (text_cell case.case_id)
    pub of_hash : lookup "case_hash" row ≡ some (text_cell (hashes.canonical_hash case))

  row_or_error-eq-ok :
      (o : Option Row) {row : Row}
      → row_or_error text hashes database documents o ≡ ok row
      → o ≡ some row
  row_or_error-eq-ok none h = cc
  row_or_error-eq-ok (some r) h = ap some (ok_inj h)

  case_or_error-eq-ok :
      (o : Option Case) {case : Case}
      → case_or_error text hashes database documents o ≡ ok case
      → o ≡ some case
  case_or_error-eq-ok none h = cc
  case_or_error-eq-ok (some c) h = ap some (ok_inj h)

  has_text :
      (row : Row) (column s : String)
      → has_cell row column (text_cell s) ≡ true
      → lookup column row ≡ some (text_cell s)
  unfolding same_cell
  has_text row column s h = go (lookup column row) h
    where
      go :
          (o : Option Cell)
          → elim o as (λ _. Bool) [ none ↦ false | some c ↦ same_cell c (text_cell s) ] ≡ true
          → o ≡ some (text_cell s)
      go none h = cc
      go (some null_cell) h = cc
      go (some (integer_cell n)) h = cc
      go (some (text_cell t)) h = ap (λ u. some (text_cell u)) ((same_iff t s).0 h)

  registered_case-IsRegistered :
      (rows : Rows) (result : RunResult) (case : Case)
      → registered_case text hashes database documents rows result ≡ ok case
      → IsRegistered rows result case
  unfolding registered_case
  registered_case-IsRegistered rows result case h =
      let id_hash = result.case_id ∷ result.identity.case_hash ∷ [] in
      let (row, stored, h1) =
        >>=-eq-ok (row_or_error text hashes database documents (find_row rows cases id_hash)) _ h in
      let (c, read, h2) =
        >>=-eq-ok
          (case_or_error text hashes database documents
            (read_case (text_of (lookup "payload_json" row))))
          _ h1 in
      let (valid, h3) = (>>-eq-ok (validate_case text c) _).0 h2 in
      let (matches, h4) =
        (raise_if-eq-ok (not (describes_case text hashes database documents row c)) _ _).0 h3 in
      let (two, _) = (&&-true _ _).0 ((not-false _).0 matches) in
      let (id, hash) = (&&-true _ _).0 two in
      subst (IsRegistered rows result) (ok_inj h4) (record {
        row = row;
        stored = row_or_error-eq-ok _ stored;
        reads = case_or_error-eq-ok _ read;
        valid = validate_case-IsValid text c valid;
        of_id = has_text row "case_id" c.case_id id;
        of_hash = has_text row "case_hash" (hashes.canonical_hash c) hash;
      })

  -- A run that is saved: the engine gives it again for the registered case, and the store that follows is
  -- one that the calls fill.
  pub record IsRecomputed (references : Option ReferenceContext)
      (validation : Option ValidationContext) (store : Store) (result : RunResult) (after : Store)
      : Type 0 where
    pub case : Case
    pub registered : IsRegistered store.rows result case
    pub ran : expected_run text hashes database documents case references validation ≡ ok result
    pub filled : IsFilled database after

  -- If a run is saved in a store that the calls have filled, then a valid case is registered there under
  -- the id and the hash that the run names, the engine returns exactly this run over that case and the
  -- same contexts, and the store after it is one that the calls fill.
  pub save_run-IsRecomputed :
      (now : String) (result : RunResult) (references : Option ReferenceContext)
      (validation : Option ValidationContext) (store after : Store) (inserted : Bool)
      → IsFilled database store
      → save_run text hashes database documents now result references validation store
        ≡ ok (after, inserted)
      → IsRecomputed references validation store result after
  unfolding save_run
  save_run-IsRecomputed now result references validation store after inserted filled h =
      let (case, registered, h1) =
        >>=-eq-ok (registered_case text hashes database documents store.rows result) _ h in
      let (expected, ran, h2) =
        >>=-eq-ok (expected_run text hashes database documents case references validation) _ h1 in
      let (same, h3) = (raise_if-eq-ok (not (same_run expected result)) _ _).0 h2 in
      record {
        case = case;
        registered = registered_case-IsRegistered store.rows result case registered;
        ran =
            subst
              (λ r. expected_run text hashes database documents case references validation ≡ ok r)
              (same_run_sound expected result ((not-false _).0 same)) ran;
        filled = saved now runs _ store after inserted filled h3;
      }

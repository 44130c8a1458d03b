-- ===== src/Store/Save/Runs.antt =====
-- src/qualityci/store.py: `_save_case`, `_save_run` and `_save_run_validation_link`, with
-- `_registered_case_for_run` and `_validate_run_against_registered_case`.
pub mod Recomputed
use qualityci.Text.{TextOps}
use qualityci.Case.{Case}
use qualityci.Model.{CheckStatus, pass, contradicted, unverifiable}
use qualityci.Loader.Validate.{validate_case}
use qualityci.Prelude.Dict.{lookup}
use qualityci.Rules.References.{ReferenceContext}
use qualityci.Rules.ValidationEvidence.{ValidationContext}
use qualityci.Engine.{Hashes, run_case, run_case_with_reference_context}
use qualityci.Run.{RunResult}
use qualityci.Run.Same.{same_run}
use qualityci.Store.Audit.{cases, runs, run_validation_sets}
use qualityci.Store.Rows.{Cell, integer_cell, text_cell, same_cell, Row, Rows, text_of, find_row}
use qualityci.Store.Save.{Store, Database, save_entity}
use qualityci.Prelude.{
  ℕ, String, Bool, false, not, ◌&&◌, Option, none, some, ◌∷◌, if◌then◌else◌, nat_eq, string_eq,
  pair_eq, Result, ok, err, raise_if, [], ◌>>=◌, ◌>>◌,
}

-- The JSON of a case and of a run.
pub record Documents : Type 0 where
  pub print_case : Case → String
  pub read_case : String → Option Case
  pub print_run : RunResult → String

-- `str(result.overall_status)`
abbrev pub status_text : CheckStatus → String
status_text pass = "PASS"
status_text contradicted = "CONTRADICTED"
status_text unverifiable = "UNVERIFIABLE"

-- `int(case.get("synthetic_for_competition") is True)`
abbrev pub synthetic_of : Case → ℕ
synthetic_of case = if case.synthetic_for_competition then 1 else 0

abbrev pub has_cell : Row → String → Cell → Bool
has_cell row column cell = elim (lookup column row) [ none ↦ false | some c ↦ same_cell c cell ]

module _ (text : TextOps) (hashes : Hashes) (database : Database) (documents : Documents) where
  open documents use {print_case, read_case, print_run}

  -- `_save_case`
  unfoldable pub save_case : String → Case → Store → Result String (Store × Bool)
  save_case now case store = do
    validate_case text case
    save_entity database now cases
        (text_cell case.case_id
          ∷ text_cell (hashes.canonical_hash case)
          ∷ integer_cell (synthetic_of case)
          ∷ text_cell (print_case case)
          ∷ [])
        store

  -- The metadata of a row agree with the case that its payload gives.
  abbrev pub describes_case : Row → Case → Bool
  describes_case row case =
      has_cell row "case_id" (text_cell case.case_id)
      && has_cell row "case_hash" (text_cell (hashes.canonical_hash case))
      && has_cell row "synthetic" (integer_cell (synthetic_of case))

  abbrev pub row_or_error : Option Row → Result String Row
  row_or_error none = err "exact run case must be registered before saving the run"
  row_or_error (some row) = ok row

  abbrev pub case_or_error : Option Case → Result String Case
  case_or_error none = err "registered run case payload is invalid"
  case_or_error (some case) = ok case

  -- `_registered_case_for_run`
  unfoldable pub registered_case : Rows → RunResult → Result String Case
  unfolding find_row
  registered_case rows result = do
    row ← row_or_error (find_row rows cases (result.case_id ∷ result.identity.case_hash ∷ []))
    case ← case_or_error (read_case (text_of (lookup "payload_json" row)))
    validate_case text case
    raise_if (not (describes_case row case))
        "registered run case metadata does not match its payload"
    ok case

  -- The run that is expected of the registered case.
  unfoldable pub expected_run :
      Case → Option ReferenceContext → Option ValidationContext → Result String RunResult
  expected_run case none validation_context = run_case text hashes case
  expected_run case (some reference_context) validation_context =
      run_case_with_reference_context text hashes case reference_context validation_context

  -- `_save_run`
  unfoldable pub save_run :
      String
      → RunResult
      → Option ReferenceContext
      → Option ValidationContext
      → Store
      → Result String (Store × Bool)
  unfolding registered_case expected_run same_run
  save_run now result reference_context validation_context store = do
    case ← registered_case store.rows result
    expected ← expected_run case reference_context validation_context
    raise_if (not (same_run expected result))
        "run result does not match the exact recomputed registered case"
    save_entity database now runs
        (text_cell result.run_id
          ∷ text_cell result.case_id
          ∷ text_cell (status_text result.overall_status)
          ∷ text_cell result.identity.ruleset_version
          ∷ text_cell (print_run result)
          ∷ [])
        store

  -- `_save_run_validation_link`
  unfoldable pub save_run_validation_link :
      String → String → ValidationContext → Store → Result String (Store × Bool)
  save_run_validation_link now run_id validation_context store =
      save_entity database now run_validation_sets
        (text_cell run_id ∷ text_cell validation_context.evidence_set_hash ∷ []) store

-- ===== src/Loader/Validate.antt =====
-- src/qualityci/loader.py: `validate_case`. The legacy migrations before it are not modelled: the
-- model starts from a case of the current schema.
pub mod Approved
use qualityci.Text.{TextOps}
use qualityci.Case.{Case}
use qualityci.Loader.Checks.{Check, when_given, require_nonempty_string}
use qualityci.Loader.Event.{
  validate_relationship_migration, validate_reference_migration, validate_validation_migration,
  validate_event,
}
use qualityci.Loader.Documents.{validate_documents}
use qualityci.Prelude.{
  ℕ, zero, suc, ◌+◌, ◌-◌, ◌*◌, ◌/◌, ◌%◌, ◌^◌, ◌≤◌, ◌<◌, String, ◌≡◌, refl, sym, ap, ◌∙◌, ◌≢◌, ◌↔◌,
  ◌⊎◌, inl, inr, Bool, true, false, not, ◌&&◌, ◌||◌, Option, none, some, List, [], ◌∷◌, ◌++◌, map,
  arith, eq_iff, ltb, leb, eqb, if◌then◌else◌, Eq, ◌==◌, nat_eq, string_eq, pair_eq, Bool-cases,
  Option-cases, given, is_some_eq, length, is_empty, any, all, keep, All, Any, contains, Result, ok,
  err, ◌>>=◌, ◌>>◌, raise_if,
}

unfoldable pub validate_case : TextOps → Case → Check
unfolding validate_event validate_documents validate_relationship_migration
    validate_reference_migration validate_validation_migration
validate_case text case = do
  raise_if (not (case.schema_version == "qualityci-case-0.4"))
      "case schema_version must be qualityci-case-0.4"
  raise_if (not case.synthetic_for_competition)
      "v0.2 only accepts cases explicitly marked synthetic_for_competition=true"
  require_nonempty_string text case.case_id
  when_given case.relationship_migration validate_relationship_migration
  when_given case.reference_migration (validate_reference_migration text)
  when_given case.validation_migration (validate_validation_migration text)
  validate_event text case.validation_migration case.event
  validate_documents text case

-- ===== src/Engine/Total.antt =====
-- When a run is returned at all.
use qualityci.Case.{Case}
use qualityci.Loader.Checks.{is_lower_sha256}
use qualityci.Rules.References.{ReferenceContext}
use qualityci.Rules.ValidationEvidence.{ValidationContext}
use qualityci.Prelude.{◌≡◌, Bool, true, Option, none, some, nat_eq, string_eq, pair_eq}

-- A context carries a SHA-256 value and the version of its contract.
abbrev pub IsReferenceShaped : Option ReferenceContext → Type 0
IsReferenceShaped none = Unit {0}
IsReferenceShaped (some context) =
    (is_lower_sha256 context.reference_set_hash ≡ true)
    × (context.contract_version ≡ "qualityci-controlled-reference-0.1")

abbrev pub IsValidationShaped : Option ValidationContext → Type 0
IsValidationShaped none = Unit {0}
IsValidationShaped (some context) =
    (is_lower_sha256 context.evidence_set_hash ≡ true)
    × (context.contract_version ≡ "qualityci-validation-evidence-0.1")

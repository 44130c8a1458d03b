-- ===== src/Run.antt =====
-- src/qualityci/models.py: `RunResult` and the consistency that its constructor demands. SHA-256 over
-- canonical JSON is a parameter.
pub mod Same
use qualityci.Text.{TextOps, is_blank}
use qualityci.Model.{CheckStatus, Finding, ImpactPlan}
use qualityci.Loader.Checks.{codes, is_lower_hex, is_lower_sha256}
use qualityci.Prelude.{
  String, Bool, false, not, ◌&&◌, Option, none, some, List, eqb, if◌then◌else◌, ◌==◌, nat_eq,
  string_eq, pair_eq, given, is_some_eq, length, all,
}

-- The seven values of `CaseSourceAssurance`.
pub record SourceAssurance : Type 0 where
  pub state : String
  pub pack_contract_version : Option String
  pub set_contract_version : Option String
  pub set_hash : Option String
  pub binding_hash : Option String
  pub lineage_contract_version : Option String
  pub lineage_hash : Option String

-- What the run id is the hash of.
pub record RunIdentity : Type 0 where
  pub run_result_contract_version : String
  pub run_identity_version : String
  pub case_hash : String
  pub ruleset_version : String
  pub source : SourceAssurance
  pub reference_assurance_state : String
  pub reference_set_hash : Option String
  pub reference_contract_version : Option String
  pub validation_assurance_state : String
  pub validation_evidence_set_hash : Option String
  pub validation_evidence_contract_version : Option String

pub record RunResult : Type 0 where
  pub run_id : String
  pub case_id : String
  pub identity : RunIdentity
  pub overall_status : CheckStatus
  pub impact_plan : ImpactPlan
  pub findings : List Finding

-- The first 16 digits of SHA-256 of the domain and the canonical JSON.
abbrev pub RunHash : Type 0
RunHash = RunIdentity → String

abbrev pub is_run_id : String → Bool
is_run_id value = eqb (length (codes value)) 16 && all (codes value) is_lower_hex

-- `_lower_hash`
abbrev is_hash : Option String → Bool
is_hash none = false
is_hash (some value) = is_lower_sha256 value

-- The six source values are null.
abbrev has_no_source : SourceAssurance → Bool
has_no_source source =
    not (given source.pack_contract_version)
    && not (given source.set_contract_version)
    && not (given source.set_hash)
    && not (given source.binding_hash)
    && not (given source.lineage_contract_version)
    && not (given source.lineage_hash)

abbrev has_source : SourceAssurance → Bool
has_source source =
    is_some_eq source.pack_contract_version "qualityci-case-source-pack-0.1"
    && is_some_eq source.set_contract_version "qualityci-case-source-set-0.1"
    && is_hash source.set_hash
    && is_hash source.binding_hash

abbrev has_no_lineage : SourceAssurance → Bool
has_no_lineage source =
    not (given source.lineage_contract_version) && not (given source.lineage_hash)

abbrev has_lineage : SourceAssurance → Bool
has_lineage source =
    is_some_eq source.lineage_contract_version "qualityci-case-source-lineage-0.1"
    && is_hash source.lineage_hash

-- The branches on `case_source_assurance_state`.
unfoldable pub source_is_consistent : SourceAssurance → Bool
source_is_consistent source =
    if source.state == "UNBOUND_SERIALIZED_CASE"
    then has_no_source source
    else if source.state == "BOUND_RAW_SOURCE_CASE"
    then has_source source && has_no_lineage source
    else if source.state == "SOURCE_ROOTED_DERIVATION"
    then has_source source && has_lineage source
    else false

-- A state with its hash and contract version: null unless attested.
unfoldable pub assurance_is_consistent :
    String → String → String → String → Option String → Option String → Bool
assurance_is_consistent unattested attested version state set_hash contract_version =
    if state == unattested
    then not (given set_hash) && not (given contract_version)
    else if state == attested
    then is_hash set_hash && is_some_eq contract_version version
    else false

-- `__post_init__`: whether it raises nothing.
unfoldable pub post_init : TextOps → RunHash → RunResult → Bool
unfolding source_is_consistent assurance_is_consistent is_blank
post_init text hash run =
    let id = run.identity in
    id.run_result_contract_version == "qualityci-run-result-0.2"
    && id.run_identity_version == "qualityci-run-identity-v4"
    && is_run_id run.run_id
    && not (is_blank text run.case_id)
    && is_lower_sha256 id.case_hash
    && source_is_consistent id.source
    && assurance_is_consistent "UNATTESTED_JSON" "ATTESTED_REFERENCE_SET"
        "qualityci-controlled-reference-0.1" id.reference_assurance_state id.reference_set_hash
        id.reference_contract_version
    && assurance_is_consistent "UNATTESTED_VALIDATION_JSON" "ATTESTED_VALIDATION_SET"
        "qualityci-validation-evidence-0.1" id.validation_assurance_state
        id.validation_evidence_set_hash id.validation_evidence_contract_version
    && run.run_id == hash id

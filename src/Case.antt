-- ===== src/Case.antt =====
-- The case of src/qualityci/loader.py once `validate_case` has checked its shape: JSON objects are
-- records, a key that may be absent is an `Option`, a calendar date is its ordinal and a timestamp a
-- number of microseconds.
pub mod Numbers
use qualityci.Case.Numbers.{Number}
use qualityci.Prelude.{
  ℕ, String, ◌≡◌, refl, ◌↔◌, Bool, true, ◌&&◌, Option, none, some, List, ◌∷◌, arith, eq_iff, Eq,
  ◌==◌, nat_eq, string_eq, pair_eq, keep, [],
}

pub record Link : Type 0 where
  pub process_step_id : String
  pub characteristic_id : String

pub record Specification : Type 0 where
  pub target : Option Number
  pub minimum : Option Number
  pub maximum : Option Number
  pub unit : Option String

-- What a row of `characteristics` and a row of `risks` have in common.
pub record Item : Type 0 where
  pub process_step_id : Option String
  pub characteristic_id : String
  pub locator : Option String

pub record Characteristic : Type 0 where
  pub item : Item
  pub control_id : Option String
  pub specification : Option Specification
  pub control_method : Option String
  pub frequency : Option String
  pub reaction_plan : Option String

pub record Risk : Type 0 where
  pub item : Item
  pub failure_mode_id : String
  pub special_characteristic : Bool

-- An identity object of a controlled reference.
pub record Identity : Type 0 where
  pub document_type : String
  pub document_id : String
  pub revision : String
  pub source_hash : String

-- The one-key object `LEGACY_UNATTESTED`, or identities by role.
pub data References : Type 0 where
  legacy : List (String × String) → References
  native : List (String × Identity) → References

pub record Waiver : Type 0 where
  pub waiver_id : Option String
  pub document_id : Option String
  pub event_revision : Option String
  pub scope : Option String
  pub locator : Option String
  pub approved_roles : Option (List String)
  pub valid_from : Option ℕ
  pub valid_until : Option ℕ

-- `process_steps` is `none` for an explicit null, and the empty list if the key is absent.
pub record Fields : Type 0 where
  pub process_steps : Option (List String)
  pub characteristics : List Characteristic
  pub risks : List Risk
  pub references : Option References

-- `process_steps or []`
abbrev pub steps_of : Option (List String) → List String
steps_of none = []
steps_of (some steps) = steps

-- `revision_artifact` is the `artifact_id` of that object; the inner `none` stands for any value
-- with no such key.
pub record Document : Type 0 where
  pub document_id : String
  pub document_type : String
  pub revision : String
  pub status : String
  pub owner : String
  pub revision_date : Option ℕ
  pub source_hash : String
  pub reference_contract_version : Option String
  pub revision_artifact : Option (Option String)
  pub approved_waiver : Option Waiver
  pub fields : Fields

-- An item of `validation_plan.required_evidence`.
pub record Requirement : Type 0 where
  pub evidence_id : String
  pub evidence_type : String
  pub claim : String
  pub issuer_id : String
  pub issuer_role : String
  pub valid_from : ℕ
  pub valid_until : ℕ

pub record Approval : Type 0 where
  pub role : String
  pub decision : String
  pub event_revision : String

-- An item of the legacy `validation_evidence`.
pub record ValidationItem : Type 0 where
  pub evidence_id : String
  pub result : String

pub record ValidationPlan : Type 0 where
  pub contract_version : String
  pub required_evidence : List Requirement

-- `affected_links` is `none` for an explicit null, and the empty list if the key is absent.
pub record Event : Type 0 where
  pub event_id : String
  pub event_type : String
  pub revision : String
  pub risk_level : Option String
  pub affected_process_steps : List String
  pub affected_characteristics : List String
  pub affected_links : Option (List Link)
  pub approved_at : Option ℕ
  pub validation_plan : Option ValidationPlan
  pub validation_evidence : Option (List ValidationItem)
  pub approvals : Option (List Approval)

-- One of the three migration markers; `ids` is `document_ids` or `evidence_ids`.
pub record Migration : Type 0 where
  pub source_schema_version : String
  pub target_schema_version : String
  pub status : String
  pub inference_scope : Option String
  pub ids : List String

pub record Case : Type 0 where
  pub schema_version : String
  pub case_id : String
  pub synthetic_for_competition : Bool
  pub relationship_migration : Option Migration
  pub reference_migration : Option Migration
  pub validation_migration : Option Migration
  pub event : Event
  pub documents : List Document

abbrev pub identity_beq : Identity → Identity → Bool
identity_beq a b =
    a.document_type == b.document_type
    && a.document_id == b.document_id
    && a.revision == b.revision
    && a.source_hash == b.source_hash

pub identity_beq_iff : (a b : Identity) → (identity_beq a b ≡ true) ↔ (a ≡ b)
identity_beq_iff a b = ground (
  arith,
  eq_iff a.document_type b.document_type,
  eq_iff a.document_id b.document_id,
  eq_iff a.revision b.revision,
  eq_iff a.source_hash b.source_hash,
)

instance abbrev pub identity_eq : Eq Identity
identity_eq = record {
  beq = identity_beq;
  beq_sound = λ a b. (identity_beq_iff a b).0;
  beq_refl = λ a. (identity_beq_iff a a).1 refl;
}

-- `approved[0]` if `len(approved) == 1`
abbrev pub only : List Document → Option Document
only (doc ∷ []) = some doc
only _ = none

abbrev pub has_type : String → Document → Bool
has_type document_type doc = doc.document_type == document_type

abbrev pub is_approved : Document → Bool
is_approved doc = doc.status == "APPROVED"

-- The document of a type that is approved, if there is exactly one.
unfoldable pub document_by_type : Case → String → Option Document
document_by_type case document_type =
    let matches = keep (has_type document_type) case.documents in
    let approved = keep is_approved matches in only approved

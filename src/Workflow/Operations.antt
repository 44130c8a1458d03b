-- ===== src/Workflow/Operations.antt =====
-- src/qualityci/workflow.py: the operations of a resolution, `_validate_resolution_operations` and
-- `_validate_native_resolution_operations`; src/qualityci/revision_artifacts.py:
-- `validate_resolution_operation_paths`.
pub mod Native
pub mod Paths
use Prim.Native.String as String
use Prim.Native.Char.{Char, code}
use qualityci.Json.{Json}
use qualityci.Text.{TextOps, normalized_identity, is_blank}
use qualityci.Prelude.Dict.{lookup, insert}
use qualityci.Prelude.Sorting.{sorted_set}
use qualityci.Loader.Checks.{codes}
use qualityci.Rules.Evidence.{get_or}
use qualityci.Rules.RevisionDates.{nonblank}
use qualityci.Workflow.Approvals.{GateError, approval_gate}
use qualityci.Prelude.{
  ℕ, String, Bool, false, not, ◌&&◌, ◌||◌, Option, none, some, List, ◌∷◌, map, leb, eqb,
  if◌then◌else◌, ◌==◌, nat_eq, string_eq, pair_eq, given, is_some_eq, is_empty, any, all, contains,
  Result, ok, err, ◌>>=◌, ◌>>◌, raise_if, each, [],
}

-- An operation. A key that is absent is `none`; the keys beside these five are `other_keys`.
pub record Operation : Type 0 where
  pub op : Option String
  pub target : Option String
  pub document_id : Option String
  pub path : Option String
  pub value : Option Json
  pub other_keys : List String

abbrev pub has_path : Option String → Bool
has_path none = false
has_path (some path) = not (path == "")

module _ (text : TextOps) where
  -- One round of the loop of `_validate_resolution_operations`.
  unfoldable pub check_operation : Operation → Result GateError (Unit {0})
  check_operation operation = do
    raise_if (not (get_or operation.target "document" == "document"))
        (approval_gate "resolutions may modify documents only")
    raise_if (not (nonblank text operation.document_id))
        (approval_gate "operation requires a document_id")
    raise_if (not (is_some_eq operation.op "set" || is_some_eq operation.op "delete"))
        (approval_gate "operation has unsupported op")
    raise_if (not (has_path operation.path)) (approval_gate "operation requires a non-empty path")
    raise_if (is_some_eq operation.op "set" && not (given operation.value))
        (approval_gate "set requires value")

  unfoldable pub validate_resolution_operations :
      Option (List Operation) → Result GateError (List Operation)
  unfolding check_operation
  validate_resolution_operations none = err (approval_gate "operations must be a list")
  validate_resolution_operations (some operations) = do
    raise_if (is_empty operations) (approval_gate "an approved resolution must contain operations")
    each check_operation operations
    ok operations

  -- `set(operation) == _NATIVE_SET_OPERATION_KEYS`
  abbrev pub has_native_keys : Operation → Bool
  has_native_keys operation =
      given operation.op
      && not (given operation.target)
      && given operation.document_id
      && given operation.path
      && given operation.value
      && is_empty operation.other_keys

  -- One round of the loop of `_validate_native_resolution_operations`.
  unfoldable pub check_native_operation : Operation → Result GateError (Unit {0})
  check_native_operation operation = do
    raise_if (not (has_native_keys operation))
        (approval_gate "operation must contain the exact set-operation key set")
    raise_if (not (is_some_eq operation.op "set")) (approval_gate "operation op must be set")

  unfoldable pub validate_native_resolution_operations :
      Option (List Operation) → Result GateError (List Operation)
  unfolding validate_resolution_operations check_native_operation
  validate_native_resolution_operations none =
      err (approval_gate "native resolution operations must be an exact list")
  validate_native_resolution_operations (some operations) = do
    _ ← validate_resolution_operations (some operations)
    each check_native_operation operations
    ok operations

-- `path.split(".")`
abbrev add_to_first : Char → List String → List String
add_to_first c [] = String.◌∷◌ c "" ∷ []
add_to_first c (word ∷ words) = String.◌∷◌ c word ∷ words

unfoldable pub split_path : String → List String
split_path String.[] = "" ∷ []
split_path (String.◌∷◌ c s) =
    let rest = split_path s in if eqb (code c) b'.' then "" ∷ rest else add_to_first c rest

abbrev is_letter : ℕ → Bool
is_letter c = (leb b'A' c && leb c b'Z') || (leb b'a' c && leb c b'z') || eqb c b'_'

-- `_PATH_SEGMENT.fullmatch(segment)`
unfoldable pub is_path_segment : List ℕ → Bool
is_path_segment [] = false
is_path_segment (c ∷ cs) = is_letter c && all cs (λ d. is_letter d || (leb b'0' d && leb d b'9'))

abbrev pub protected_roots : List String
protected_roots =
    "document_id" ∷ "source_hash" ∷ "source" ∷ "mapping_provenance" ∷ "revision_artifact" ∷ []

abbrev pub allowed_fact_roots : List String
allowed_fact_roots =
    "document_type" ∷ "revision" ∷ "status" ∷ "owner" ∷ "revision_date" ∷ "fields" ∷ []

-- `segments[0]`; a split has at least one part.
abbrev pub root_of : List String → String
root_of [] = ""
root_of (segment ∷ segments) = segment

module _ (text : TextOps) where
  -- The segment is empty, or it does not match the pattern, or normalisation changes it.
  unfoldable pub is_unsafe_segment : String → Bool
  unfolding is_path_segment
  is_unsafe_segment segment =
      segment == ""
      || not (is_path_segment (codes segment))
      || not (text.casefold (text.nfkc segment) == segment)

  -- `_require_string`
  abbrev pub require_string : Option String → Result String String
  require_string none = err "must be a non-empty string"
  require_string (some value) =
      raise_if (is_blank text value) "must be a non-empty string" >> ok value

  -- The path of an operation: its segments and its root.
  unfoldable pub check_path : String → Result String (Unit {0})
  unfolding is_unsafe_segment
  check_path path = do
    raise_if (any (split_path path) is_unsafe_segment)
        "resolution path contains unsafe or non-canonical segments"
    raise_if
        (contains protected_roots (root_of (split_path path))
          || not (contains allowed_fact_roots (root_of (split_path path))))
        "resolution path targets protected/generated field"

  abbrev pub Touched : Type 0
  Touched = List (String × String)

  -- `previous is not None and previous != document_id`
  abbrev pub clashes : Option String → String → Bool
  clashes none document_id = false
  clashes (some previous) document_id = not (previous == document_id)

  -- One round of the loop: the documents touched so far, under their normalised ids.
  unfoldable pub touch : Touched → Operation → Result String Touched
  unfolding check_path
  touch touched operation = do
    raise_if (not (get_or operation.target "document" == "document"))
        "revision artifacts can replace documents only"
    document_id ← require_string operation.document_id
    path ← require_string operation.path
    check_path path
    let key = normalized_identity text document_id
    raise_if (clashes (lookup key touched) document_id) "normalized duplicate touched document_id"
    ok (insert key document_id touched)

  unfoldable pub touch_all : Touched → List Operation → Result String Touched
  unfolding touch
  touch_all touched [] = ok touched
  touch_all touched (operation ∷ operations) =
      touch touched operation >>= λ after. touch_all after operations

  -- `tuple(touched[key] for key in sorted(touched))`
  abbrev pub in_key_order : Touched → List String
  in_key_order touched =
      map (λ key. get_or (lookup key touched) "")
        (sorted_set (map (λ (e : String × String). e.0) touched))

  unfoldable pub validate_resolution_operation_paths : List Operation → Result String (List String)
  unfolding touch_all
  validate_resolution_operation_paths operations = do
    raise_if (is_empty operations) "resolution operations must be a non-empty list"
    touched ← touch_all [] operations
    ok (in_key_order touched)

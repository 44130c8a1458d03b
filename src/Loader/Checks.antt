-- ===== src/Loader/Checks.antt =====
-- src/qualityci/loader.py: the `_require_...` helpers. A raised `ValueError` is its message, without
-- the parts that name the position. Tests of a value's JSON type are in the types of `Case`.
use Prim.Native.Char.{code}
use qualityci.Text.{TextOps, normalized_identity, is_blank}
use qualityci.Prelude.{
  ℕ, String, Bool, false, not, ◌&&◌, ◌||◌, Option, none, some, List, [], ◌∷◌, map, ltb, leb, eqb,
  nat_eq, string_eq, pair_eq, length, any, all, contains, Result, ok, err, ◌>>◌, raise_if,
}

abbrev pub Check : Type 0
Check = Result String (Unit {0})

-- `for x in xs: check(x)`
unfoldable pub for_each {ℓ} : {A : Type ℓ} → (A → Check) → List A → Check
for_each check [] = ok tt
for_each check (x ∷ xs) = check x >> for_each check xs

-- `if value is not None: check(value)`
abbrev pub when_given {ℓ} : {A : Type ℓ} → Option A → (A → Check) → Check
when_given none check = ok tt
when_given (some value) check = check value

-- A required key.
abbrev pub require_given {ℓ} : {A : Type ℓ} → Option A → String → (A → Check) → Check
require_given none message check = err message
require_given (some value) message check = check value

abbrev pub require_enum : List String → String → Check
require_enum allowed value = raise_if (not (contains allowed value)) "unsupported value"

abbrev pub require_bounded_list {ℓ} : {A : Type ℓ} → ℕ → List A → Check
require_bounded_list maximum value = raise_if (ltb maximum (length value)) "too many items"

-- `len(keys) != len(set(keys))`
unfoldable pub has_duplicates : List String → Bool
has_duplicates [] = false
has_duplicates (k ∷ ks) = contains ks k || has_duplicates ks

abbrev pub codes : String → List ℕ
codes String.[] = []
codes (String.◌∷◌ c s) = code c ∷ codes s

abbrev pub is_lower_hex : ℕ → Bool
is_lower_hex c = (leb b'0' c && leb c b'9') || (leb b'a' c && leb c b'f')

-- `LOWERCASE_SHA256.fullmatch(value)`
unfoldable pub is_lower_sha256 : String → Bool
is_lower_sha256 value = eqb (length (codes value)) 64 && all (codes value) is_lower_hex

module _ (text : TextOps) where
  abbrev pub require_nonempty_string : String → Check
  require_nonempty_string value = raise_if (is_blank text value) "must be a non-empty string"

  abbrev pub require_string_list : ℕ → List String → Check
  require_string_list maximum value = do
    require_bounded_list maximum value
    raise_if (any value (is_blank text)) "must be a list of non-empty strings"

  abbrev pub reject_normalized_duplicates : List String → Check
  reject_normalized_duplicates values =
      raise_if (has_duplicates (map (normalized_identity text) values))
        "contains duplicate normalized identities"

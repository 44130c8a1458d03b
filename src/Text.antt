-- ===== src/Text.antt =====
-- src/qualityci/loader.py: the comparison keys of process steps, characteristics and documents.
-- Unicode normalisation, case folding and white space are Python's; they are a parameter.
use Prim.Native.String.{◌++◌ as text_append}
use qualityci.Prelude.{String, Bool, List, [], ◌∷◌, ◌==◌, nat_eq, string_eq, pair_eq}

-- `unicodedata.normalize("NFKC", s)`, `s.strip()`, `s.split()` and `s.casefold()`.
pub record TextOps : Type 0 where
  pub nfkc : String → String
  pub strip : String → String
  pub split : String → List String
  pub casefold : String → String

-- `"".join(parts)`
unfoldable pub concat : List String → String
concat [] = ""
concat (s ∷ parts) = text_append s (concat parts)

-- `sep.join(parts)`
unfoldable pub join : String → List String → String
join sep [] = ""
join sep (s ∷ []) = s
join sep (s ∷ t ∷ parts) = text_append s (text_append sep (join sep (t ∷ parts)))

-- A pair of normalised identities: a process step and a characteristic.
abbrev pub Key : Type 0
Key = String × String

module _ (text : TextOps) where
  unfoldable pub normalized_identity : String → String
  unfolding join
  normalized_identity value = text.casefold (join " " (text.split (text.strip (text.nfkc value))))

  unfoldable pub relationship_key : String → String → Key
  unfolding normalized_identity
  relationship_key process_step_id characteristic_id =
      (normalized_identity process_step_id, normalized_identity characteristic_id)

  -- `not value.strip()`
  unfoldable pub is_blank : String → Bool
  is_blank value = text.strip value == ""

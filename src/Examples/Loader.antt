-- ===== src/Examples/Loader.antt =====
-- A JSON value, and the theorems on the operations of a mutation applied to it.
use qualityci.Json.{Json, null, text, object, end, member}
use qualityci.Loader.Mutation.{get_member, set_member, set_at}
use qualityci.Loader.Mutation.Nested.{get_at, get_at-set_at, get_at-set_at_other}
use qualityci.Prelude.{
  String, ◌≡◌, refl, ◌≢◌, inl, some, List, [], ◌∷◌, eq_iff, nat_eq, string_eq, pair_eq, ok,
}

abbrev before : Json
before =
    object (member "revision" (text "A") (member "fields" (object (member "limits" null end)) end))

abbrev path : List String
path = "fields" ∷ "limits" ∷ []

abbrev after : Json
after =
    object
      (member "revision" (text "A") (member "fields" (object (member "limits" (text "B") end)) end))

sets : set_at path (text "B") before ≡ ok after
unfolding set_at get_member set_member
sets = refl

get_at-set_at_example : get_at path after ≡ some (text "B")
get_at-set_at_example = get_at-set_at path (text "B") before after sets

fields-ne-revision : ◌≢◌ {A = String} "fields" "revision"
fields-ne-revision h = cc (h, (eq_iff "fields" "revision").1 h)

get_at-set_at_other_example : get_at ("revision" ∷ []) after ≡ get_at ("revision" ∷ []) before
get_at-set_at_other_example =
    get_at-set_at_other path ("revision" ∷ []) (text "B") before after (inl fields-ne-revision) sets

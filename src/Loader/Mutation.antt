-- ===== src/Loader/Mutation.antt =====
-- src/qualityci/loader.py: `_set_nested` and `_delete_nested`, on JSON values. An assignment in place is
-- the value that it leaves, since a case is a tree.
pub mod Nested
use qualityci.Json.{Json, null, boolean, number, text, array, object, Members, end, member}
use qualityci.Workflow.Operations.{split_path}
use qualityci.Prelude.{
  String, Option, none, some, List, ◌∷◌, if◌then◌else◌, ◌==◌, nat_eq, string_eq, pair_eq, Result,
  ok, err, [], ◌>>=◌, ◌>>◌,
}

-- `d[key]`
unfoldable pub get_member : String → Members → Option Json
get_member key end = none
get_member key (member k value rest) =
    let later = get_member key rest in if k == key then some value else later

-- `d[key] = value`
unfoldable pub set_member : String → Json → Members → Members
set_member key value end = member key value end
set_member key value (member k old rest) =
    let later = set_member key value rest in
    if k == key then member k value rest else member k old later

-- `d.pop(key, None)`
unfoldable pub pop_member : String → Members → Members
pop_member key end = end
pop_member key (member k value rest) =
    let later = pop_member key rest in if k == key then later else member k value later

-- The members of a dict; anything else cannot be indexed by a string.
abbrev pub members_of : Json → Result String Members
members_of (object members) = ok members
members_of _ = err "TypeError"

abbrev pub child_of : Option Json → Result String Json
child_of none = err "KeyError"
child_of (some child) = ok child

-- `_set_nested` on the parts of the path.
unfoldable pub set_at : List String → Json → Json → Result String Json
unfolding set_member get_member
set_at [] value target = err "IndexError"
set_at (part ∷ []) value target = do
  members ← members_of target
  ok (object (set_member part value members))
set_at (part ∷ next ∷ parts) value target = do
  members ← members_of target
  child ← child_of (get_member part members)
  changed ← set_at (next ∷ parts) value child
  ok (object (set_member part changed members))

-- `_delete_nested` on the parts of the path.
unfoldable pub delete_at : List String → Json → Result String Json
unfolding pop_member set_member get_member
delete_at [] target = err "IndexError"
delete_at (part ∷ []) target = do members ← members_of target; ok (object (pop_member part members))
delete_at (part ∷ next ∷ parts) target = do
  members ← members_of target
  child ← child_of (get_member part members)
  changed ← delete_at (next ∷ parts) child
  ok (object (set_member part changed members))

-- `path.split(".") if path else []`
abbrev pub parts_of : String → List String
parts_of path = if path == "" then [] else split_path path

unfoldable pub set_nested : Json → String → Json → Result String Json
unfolding set_at
set_nested target path value = set_at (parts_of path) value target

unfoldable pub delete_nested : Json → String → Result String Json
unfolding delete_at
delete_nested target path = delete_at (parts_of path) target

-- ===== src/Loader/Mutation/Nested.antt =====
-- What stands at a path after a value was set or deleted there.
use mathlib.Core.Path.{subst}
use qualityci.Json.{Json, null, boolean, number, text, array, object, Members, end, member}
use qualityci.Loader.Mutation.{
  get_member, set_member, pop_member, members_of, child_of, set_at, delete_at,
}
use qualityci.Prelude.{
  same_iff, String, ◌≡◌, refl, sym, ap, ◌∙◌, ◌≢◌, ◌⊎◌, inl, inr, true, false, Option, none, some,
  List, [], ◌∷◌, arith, if◌then◌else◌, ◌==◌, nat_eq, string_eq, pair_eq, Bool-cases, ok, >>=-eq-ok,
  ok_inj,
}

-- The value at a path of keys, if there is one.
get_below : Option Json → (Json → Option Json) → Option Json
get_below none f = none
get_below (some child) f = f child

members_or_end : Json → Members
members_or_end (object members) = members
members_or_end _ = end

pub get_at : List String → Json → Option Json
unfolding get_below members_or_end
get_at [] target = some target
get_at (part ∷ parts) target = get_below (get_member part (members_or_end target)) (get_at parts)

-- Two paths part at some key.
abbrev pub Diverge : List String → List String → Type 0
Diverge (x ∷ xs) (y ∷ ys) = (x ≢ y) ⊎ ((x ≡ y) × Diverge xs ys)
Diverge _ _ = ⊥

get_member-set_member :
    (key j : String) (value : Json) (members : Members)
    → get_member j (set_member key value members)
      ≡ (if key == j then some value else get_member j members)
unfolding get_member set_member
get_member-set_member key j value end = refl
get_member-set_member key j value (member k old rest) =
    ground
      (arith, get_member-set_member key j value rest, same_iff k key, same_iff k j, same_iff key j)

get_member-pop_member :
    (key j : String) (members : Members)
    → get_member j (pop_member key members) ≡ (if key == j then none else get_member j members)
unfolding get_member pop_member
get_member-pop_member key j end = ground arith
get_member-pop_member key j (member k old rest) =
    ground (arith, get_member-pop_member key j rest, same_iff k key, same_iff k j, same_iff key j)

child_of-eq-ok : (o : Option Json) {child : Json} → child_of o ≡ ok child → o ≡ some child
child_of-eq-ok none h = cc
child_of-eq-ok (some c) h = ap some (ok_inj h)

members_of-eq-ok : (t : Json) {members : Members} → members_of t ≡ ok members → t ≡ object members
members_of-eq-ok (object members) h = ap object (ok_inj h)
members_of-eq-ok null h = cc
members_of-eq-ok (boolean b) h = cc
members_of-eq-ok (number n) h = cc
members_of-eq-ok (text s) h = cc
members_of-eq-ok (array vs) h = cc

same_key : (k : String) → (k == k) ≡ true
same_key k = (same_iff k k).1 refl

other_key : (j k : String) → j ≢ k → (j == k) ≡ false
other_key j k n = elim (Bool-cases (j == k)) [ inl e ↦ absurd (n ((same_iff j k).0 e)) | inr e ↦ e ]

get_at-same :
    (part : String) (q : List String) (value : Json) (members : Members)
    → get_at (part ∷ q) (object (set_member part value members)) ≡ get_at q value
unfolding get_at get_below members_or_end
get_at-same part q value members =
    ap (λ o. get_below o (get_at q))
      (get_member-set_member part part value members
        ∙ ap (λ b. if b then some value else get_member part members) (same_key part))

get_at-other :
    (part j : String) (q : List String) (value : Json) (members : Members)
    → part ≢ j
    → get_at (j ∷ q) (object (set_member part value members)) ≡ get_at (j ∷ q) (object members)
unfolding get_at get_below members_or_end
get_at-other part j q value members n =
    ap (λ o. get_below o (get_at q))
      (get_member-set_member part j value members
        ∙ ap (λ b. if b then some value else get_member j members) (other_key part j n))

get_at-found :
    (part : String) (q : List String) (members : Members) {child : Json}
    → child_of (get_member part members) ≡ ok child
    → get_at (part ∷ q) (object members) ≡ get_at q child
unfolding get_at get_below members_or_end
get_at-found part q members h = ap (λ o. get_below o (get_at q)) (child_of-eq-ok _ h)

-- After a value is set at a path, it stands at that path.
pub get_at-set_at :
    (parts : List String) (value target changed : Json)
    → set_at parts value target ≡ ok changed
    → get_at parts changed ≡ some value
unfolding set_at get_at
get_at-set_at [] value target changed h = cc
get_at-set_at (part ∷ []) value target changed h =
    let (members, is_object, h1) = >>=-eq-ok (members_of target) _ h in
    subst (λ c. get_at (part ∷ []) c ≡ some value) (ok_inj h1) (get_at-same part [] value members)
get_at-set_at (part ∷ next ∷ parts) value target changed h =
    let (members, is_object, h1) = >>=-eq-ok (members_of target) _ h in
    let (child, found, h2) = >>=-eq-ok (child_of (get_member part members)) _ h1 in
    let (below, set, h3) = >>=-eq-ok (set_at (next ∷ parts) value child) _ h2 in
    subst (λ c. get_at (part ∷ next ∷ parts) c ≡ some value) (ok_inj h3)
      (get_at-same part (next ∷ parts) below members
        ∙ get_at-set_at (next ∷ parts) value child below set)

-- A value that is set at a path leaves what stands at a path that parts from it.
pub get_at-set_at_other :
    (parts q : List String) (value target changed : Json)
    → Diverge parts q
    → set_at parts value target ≡ ok changed
    → get_at q changed ≡ get_at q target
unfolding set_at
get_at-set_at_other [] q value target changed d h = cc
get_at-set_at_other (part ∷ parts) [] value target changed d h = absurd d
get_at-set_at_other (part ∷ []) (j ∷ q) value target changed d h =
    let (members, is_object, h1) = >>=-eq-ok (members_of target) _ h in
    elim d [
      | inl n ↦
          ap (get_at (j ∷ q)) (sym (ok_inj h1))
          ∙ get_at-other part j q value members n
          ∙ ap (get_at (j ∷ q)) (sym (members_of-eq-ok target is_object))
      | inr (e, rest) ↦ absurd rest
    ]
get_at-set_at_other (part ∷ next ∷ parts) (j ∷ q) value target changed d h =
    let (members, is_object, h1) = >>=-eq-ok (members_of target) _ h in
    let (child, found, h2) = >>=-eq-ok (child_of (get_member part members)) _ h1 in
    let (below, set, h3) = >>=-eq-ok (set_at (next ∷ parts) value child) _ h2 in
    let whole = ap (get_at (j ∷ q)) (sym (members_of-eq-ok target is_object)) in
    ap (get_at (j ∷ q)) (sym (ok_inj h3))
    ∙ elim d [
      | inl n ↦ get_at-other part j q below members n
      | inr (e, rest) ↦
          subst
            (λ k.
              get_at (k ∷ q) (object (set_member part below members))
              ≡ get_at (k ∷ q) (object members))
            e
            (get_at-same part q below members
              ∙ get_at-set_at_other (next ∷ parts) q value child below rest set
              ∙ sym (get_at-found part q members found))
    ]
    ∙ whole

-- After a path is deleted, nothing stands at it.
get_at-delete_at :
    (parts : List String) (target changed : Json)
    → delete_at parts target ≡ ok changed
    → get_at parts changed ≡ none
unfolding delete_at get_at get_below members_or_end
get_at-delete_at [] target changed h = cc
get_at-delete_at (part ∷ []) target changed h =
    let (members, is_object, h1) = >>=-eq-ok (members_of target) _ h in
    subst (λ c. get_at (part ∷ []) c ≡ none) (ok_inj h1)
      (ap (λ o. get_below o (get_at []))
        (get_member-pop_member part part members
          ∙ ap (λ b. if b then none else get_member part members) (same_key part)))
get_at-delete_at (part ∷ next ∷ parts) target changed h =
    let (members, is_object, h1) = >>=-eq-ok (members_of target) _ h in
    let (child, found, h2) = >>=-eq-ok (child_of (get_member part members)) _ h1 in
    let (below, gone, h3) = >>=-eq-ok (delete_at (next ∷ parts) child) _ h2 in
    subst (λ c. get_at (part ∷ next ∷ parts) c ≡ none) (ok_inj h3)
      (get_at-same part (next ∷ parts) below members
        ∙ get_at-delete_at (next ∷ parts) child below gone)

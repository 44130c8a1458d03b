-- ===== src/Evaluation/Sets.antt =====
-- Sets of rule ids as lists without repetition, and how many elements two of them share.
use mathlib.Core.Path.{subst}
use qualityci.Prelude.Dict.{insert}
use qualityci.Model.{Finding}
use qualityci.Evaluation.{keys, common, by_rule}
use qualityci.Prelude.{
  same_iff, ℕ, suc, ◌+◌, ◌≤◌, String, ◌≡◌, refl, sym, ap, ◌∙◌, inl, inr, Bool, true, false, not,
  ◌||◌, List, [], ◌∷◌, arith, ◌==◌, nat_eq, string_eq, pair_eq, Bool-cases, length, keep, contains,
}

-- No element occurs twice.
abbrev pub IsDistinct : List String → Type 0
IsDistinct [] = Unit
IsDistinct (x ∷ xs) = (contains xs x ≡ false) × IsDistinct xs

module _ {A : Type 0} where
  -- A list splits into what passes a test and what does not.
  pub length-keep-split :
      (p : A → Bool) (xs : List A)
      → length (keep p xs) + length (keep (λ x. not (p x)) xs) ≡ length xs
  length-keep-split p [] = refl
  length-keep-split p (x ∷ xs) = elim (Bool-cases (p x)) [
    | inl e ↦ rw e (omega (arith, length-keep-split p xs))
    | inr e ↦ rw e (omega (arith, length-keep-split p xs))
  ]

  pub length-keep_le : (p : A → Bool) (xs : List A) → length (keep p xs) ≤ length xs
  length-keep_le p xs = omega (arith, length-keep-split p xs)

abbrev one_if : Bool → ℕ
one_if true = 1
one_if false = 0

length-keep-none :
    (x : String) (ys : List String) → contains ys x ≡ false → length (keep (λ y. x == y) ys) ≡ 0
length-keep-none x [] h = refl
length-keep-none x (y ∷ ys) h = ground (arith, length-keep-none x ys, same_iff x y, same_iff y x)

length-keep-one :
    (x : String) (ys : List String)
    → IsDistinct ys
    → length (keep (λ y. x == y) ys) ≡ one_if (contains ys x)
length-keep-one x [] h = refl
length-keep-one x (y ∷ ys) h = elim (Bool-cases (x == y)) [
  | inl e ↦
      let same = (same_iff x y).0 e in
      let rest = length-keep-none x ys (subst (λ z. contains ys z ≡ false) (sym same) h.0) in
      rw e (rw ((same_iff y x).1 (sym same)) (ap suc rest))
  | inr e ↦ ground (arith, length-keep-one x ys h.1, same_iff x y, same_iff y x)
]

length-keep-cons :
    (x : String) (xs ys : List String)
    → contains xs x ≡ false
    → length (keep (contains (x ∷ xs)) ys)
      ≡ length (keep (λ y. x == y) ys) + length (keep (contains xs) ys)
length-keep-cons x xs [] h = refl
length-keep-cons x xs (y ∷ ys) h = elim (Bool-cases (x == y)) [
  | inl e ↦
      let same = (same_iff x y).0 e in
      rw e
        (rw (subst (λ z. contains xs z ≡ false) same h) (omega (arith, length-keep-cons x xs ys h)))
  | inr e ↦ rw e (elim (Bool-cases (contains xs y)) [
    | inl c ↦ rw c (omega (arith, length-keep-cons x xs ys h))
    | inr c ↦ rw c (length-keep-cons x xs ys h)
  ])
]

-- Two sets share as many elements counted in the one as in the other.
pub length-common_comm :
    (xs ys : List String)
    → IsDistinct xs
    → IsDistinct ys
    → length (common xs ys) ≡ length (common ys xs)
length-common_comm [] ys h k = sym (none_common ys)
  where
    none_common : (ys : List String) → length (common ys []) ≡ 0
    none_common [] = refl
    none_common (y ∷ ys) = none_common ys
length-common_comm (x ∷ xs) ys h k =
    let ih = length-common_comm xs ys h.1 k in
    let cons = length-keep-cons x xs ys h.0 in
    let one = length-keep-one x ys k in
    elim (Bool-cases (contains ys x)) [
      | inl e ↦ rw e (omega (arith, ih, cons, one ∙ ap one_if e))
      | inr e ↦ rw e (omega (arith, ih, cons, one ∙ ap one_if e))
    ]

-- An entry is set without repeating a key.
contains-keys-insert :
    {V : Type 0} (j k : String) (v : V) (d : List (String × V))
    → contains (keys (insert k v d)) j ≡ ((k == j) || contains (keys d) j)
unfolding insert
contains-keys-insert j k v [] = ground arith
contains-keys-insert j k v ((i, w) ∷ d) =
    ground (arith, contains-keys-insert j k v d, same_iff i k, same_iff i j, same_iff k j)

insert-IsDistinct :
    {V : Type 0} (k : String) (v : V) (d : List (String × V))
    → IsDistinct (keys d)
    → IsDistinct (keys (insert k v d))
unfolding insert
insert-IsDistinct k v [] h = (refl, tt)
insert-IsDistinct k v ((i, w) ∷ d) h = elim (Bool-cases (i == k)) [
  | inl e ↦ rw e h
  | inr e ↦ rw e (
    contains-keys-insert i k v d ∙ ground (arith, h.0, e, same_iff i k, same_iff k i),
    insert-IsDistinct k v d h.1,
  )
]

-- The findings by rule have each rule once.
pub by_rule-IsDistinct :
    (d : List (String × Finding)) (findings : List Finding)
    → IsDistinct (keys d)
    → IsDistinct (keys (by_rule d findings))
unfolding by_rule
by_rule-IsDistinct d [] h = h
by_rule-IsDistinct d (f ∷ fs) h =
    by_rule-IsDistinct (insert f.rule_id f d) fs (insert-IsDistinct f.rule_id f d h)

contains-keys-keep :
    {V : Type 0} (p : String × V → Bool) (k : String) (d : List (String × V))
    → contains (keys d) k ≡ false
    → contains (keys (keep p d)) k ≡ false
contains-keys-keep p k [] h = refl
contains-keys-keep p k (e ∷ d) h = elim (Bool-cases (p e)) [
  | inl c ↦ rw c (ground (arith, contains-keys-keep p k d))
  | inr c ↦ rw c (ground (arith, contains-keys-keep p k d))
]

-- A part of a dict has no repeated key either.
pub keep-IsDistinct :
    {V : Type 0} (p : String × V → Bool) (d : List (String × V))
    → IsDistinct (keys d)
    → IsDistinct (keys (keep p d))
keep-IsDistinct p [] h = tt
keep-IsDistinct p (e ∷ d) h = elim (Bool-cases (p e)) [
  | inl c ↦ rw c (contains-keys-keep p e.0 d h.0, keep-IsDistinct p d h.1)
  | inr c ↦ rw c (keep-IsDistinct p d h.1)
]

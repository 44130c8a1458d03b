-- ===== src/Prelude/Sorting.antt =====
-- `sorted` and `sorted(set(...))`, by insertion: the result is the same list.
use Prim.Native.String.{compare}
use Prim.Native.Nat.{Ordering}
use mathlib.Core.Path.{◌≡◌, refl, sym, subst}
use mathlib.Core.Logic.{◌↔◌, inl, inr}
use mathlib.Core.Bool.{Bool, true, false}
use mathlib.Core.List.{List, [], ◌∷◌}
use Prim.Native.String.{String}
use text.Mathlib.TextEquality.{path_by_compare}
use qualityci.Prelude.Tests.{if◌then◌else◌, Bool-cases}
use qualityci.Prelude.Lists.{All}

-- `s <= t` on texts.
abbrev pub text_leb : String → String → Bool
text_leb s t = elim (compare s t) [ Ordering.gt ↦ false | _ ↦ true ]

-- `a <= b` on pairs of texts.
abbrev pub key_leb : String × String → String × String → Bool
key_leb a b = elim (compare a.0 b.0) [
  | Ordering.lt ↦ true
  | Ordering.eq ↦ text_leb a.1 b.1
  | Ordering.gt ↦ false
]

module _ {ℓ} {A : Type ℓ} where
  unfoldable pub insert_sorted : (A → A → Bool) → A → List A → List A
  insert_sorted leb x [] = x ∷ []
  insert_sorted leb x (y ∷ ys) =
      let rest = insert_sorted leb x ys in if leb x y then x ∷ y ∷ ys else y ∷ rest

  -- `sorted(xs, key=...)`, for the order of the keys. Equal keys keep their order.
  unfoldable pub sort : (A → A → Bool) → List A → List A
  unfolding insert_sorted
  sort leb [] = []
  sort leb (x ∷ xs) = insert_sorted leb x (sort leb xs)

  All-insert_sorted :
      (P : A → Type 0) (leb : A → A → Bool) (x : A) (xs : List A)
      → All P (insert_sorted leb x xs) ↔ (P x × All P xs)
  unfolding insert_sorted
  All-insert_sorted P leb x [] = (λ h. h, λ h. h)
  All-insert_sorted P leb x (y ∷ ys) =
      let ih = All-insert_sorted P leb x ys in
      elim (Bool-cases (leb x y)) [
        | inl e ↦ rw e (λ h. h, λ h. h)
        | inr e ↦ rw e (λ h. ((ih.0 h.1).0, (h.0, (ih.0 h.1).1)), λ h. (h.1.0, ih.1 (h.0, h.1.1)))
      ]

  -- Sorting neither adds nor drops an element.
  pub All-sort :
      (P : A → Type 0) (leb : A → A → Bool) (xs : List A) → All P (sort leb xs) ↔ All P xs
  unfolding sort
  All-sort P leb [] = (λ h. h, λ h. h)
  All-sort P leb (x ∷ xs) =
      let here = All-insert_sorted P leb x (sort leb xs) in
      let ih = All-sort P leb xs in
      (λ h. ((here.0 h).0, ih.0 (here.0 h).1), λ h. here.1 (h.0, ih.1 h.1))

-- `sorted(set(xs))`
insert_once : String → List String → List String
insert_once x [] = x ∷ []
insert_once x (y ∷ ys) =
    let rest = insert_once x ys in
    elim (compare x y) [ Ordering.lt ↦ x ∷ y ∷ ys | Ordering.eq ↦ y ∷ ys | Ordering.gt ↦ y ∷ rest ]

unfoldable pub sorted_set : List String → List String
unfolding insert_once
sorted_set [] = []
sorted_set (x ∷ xs) = insert_once x (sorted_set xs)

All-insert_once :
    (P : String → Type 0) (x : String) (xs : List String)
    → All P (insert_once x xs) ↔ (P x × All P xs)
unfolding insert_once
All-insert_once P x [] = (λ h. h, λ h. h)
All-insert_once P x (y ∷ ys) = go (All-insert_once P x ys) (compare x y) refl
  where
    go :
        All P (insert_once x ys) ↔ (P x × All P ys)
        → (o : Ordering) → compare x y ≡ o
        → All P (elim o [
          | Ordering.lt ↦ x ∷ y ∷ ys
          | Ordering.eq ↦ y ∷ ys
          | Ordering.gt ↦ y ∷ insert_once x ys
        ])
          ↔ (P x × (P y × All P ys))
    go ih Ordering.lt e = (λ h. h, λ h. h)
    go ih Ordering.eq e = (λ h. (subst P (sym (path_by_compare x y e)) h.0, h), λ h. h.1)
    go ih Ordering.gt e =
        (λ h. ((ih.0 h.1).0, (h.0, (ih.0 h.1).1)), λ h. (h.1.0, ih.1 (h.0, h.1.1)))

-- The members are those of the list.
pub All-sorted_set : (P : String → Type 0) (xs : List String) → All P (sorted_set xs) ↔ All P xs
unfolding sorted_set
All-sorted_set P [] = (λ h. h, λ h. h)
All-sorted_set P (x ∷ xs) =
    let here = All-insert_once P x (sorted_set xs) in
    let ih = All-sorted_set P xs in
    (λ h. ((here.0 h).0, ih.0 (here.0 h).1), λ h. here.1 (h.0, ih.1 h.1))

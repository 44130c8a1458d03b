-- ===== src/Prelude/Lists.antt =====
-- Lists: measures by native numbers, the searches of Python's comprehensions, and predicates.
use Prim.Native.Nat.{ℕ, suc, ◌+◌}
use mathlib.Core.Path.{◌≡◌, refl}
use mathlib.Core.Logic.{◌⊎◌, ◌↔◌, inl, inr}
use mathlib.Core.Bool.{false≢true, Bool, true, false, ◌&&◌, ◌||◌}
use mathlib.Core.List.{List, [], ◌∷◌, ◌++◌, flat_map, map}
use native.Mathlib.Omega.{arith}
use qualityci.Prelude.Tests.{
  Eq, ◌==◌, if◌then◌else◌, Bool-cases, &&-true, ||-false, ||-true, iff_trans, ×_iff, iff_refl,
}

module _ {ℓ} {A : Type ℓ} where
  abbrev pub length : List A → ℕ
  length [] = 0
  length (x ∷ xs) = suc (length xs)

  abbrev pub is_empty : List A → Bool
  is_empty [] = true
  is_empty (x ∷ xs) = false

  -- `any(p(x) for x in xs)`
  abbrev pub any : List A → (A → Bool) → Bool
  any [] p = false
  any (x ∷ xs) p = p x || any xs p

  -- `all(p(x) for x in xs)`
  abbrev pub all : List A → (A → Bool) → Bool
  all [] p = true
  all (x ∷ xs) p = p x && all xs p

  -- `[x for x in xs if p(x)]`
  abbrev pub keep : (A → Bool) → List A → List A
  keep p [] = []
  keep p (x ∷ xs) = let rest = keep p xs in if p x then x ∷ rest else rest

  abbrev pub All : (A → Type 0) → List A → Type 0
  All P [] = Unit
  All P (x ∷ xs) = P x × All P xs

  abbrev pub Any : (A → Type 0) → List A → Type 0
  Any P [] = ⊥
  Any P (x ∷ xs) = P x ⊎ Any P xs

  pub length-append : (xs ys : List A) → length (xs ++ ys) ≡ length xs + length ys
  length-append [] ys = omega arith
  length-append (x ∷ xs) ys = omega (arith, length-append xs ys)

abbrev pub contains {ℓ} : {A : Type ℓ} ⦃e : Eq A⦄ → List A → A → Bool
contains xs a = any xs (λ x. x == a)

module _ {ℓ} {A : Type ℓ} where
  pub All-map : {P Q : A → Type 0} → ((x : A) → P x → Q x) → (xs : List A) → All P xs → All Q xs
  All-map f [] h = tt
  All-map f (x ∷ xs) h = (f x h.0, All-map f xs h.1)

  -- A weakening that may use where the element stands in.
  pub All-zip :
      {P Q R : A → Type 0}
      → ((x : A) → P x → Q x → R x)
      → (xs : List A) → All P xs
      → All Q xs
      → All R xs
  All-zip f [] h k = tt
  All-zip f (x ∷ xs) h k = (f x h.0 k.0, All-zip f xs h.1 k.1)

  pub All-of_forall : {P : A → Type 0} → ((x : A) → P x) → (xs : List A) → All P xs
  All-of_forall f [] = tt
  All-of_forall f (x ∷ xs) = (f x, All-of_forall f xs)

  pub all_iff : (p : A → Bool) (xs : List A) → (all xs p ≡ true) ↔ All (λ x. p x ≡ true) xs
  all_iff p [] = (λ h. tt, λ h. refl)
  all_iff p (x ∷ xs) = (
    λ h. let both = (&&-true (p x) (all xs p)).0 h in (both.0, (all_iff p xs).0 both.1),
    λ h. (&&-true (p x) (all xs p)).1 (h.0, (all_iff p xs).1 h.1),
  )

  pub any-false_iff : (p : A → Bool) (xs : List A) → (any xs p ≡ false) ↔ All (λ x. p x ≡ false) xs
  any-false_iff p [] = (λ h. tt, λ h. refl)
  any-false_iff p (x ∷ xs) = (
    λ h. let both = (||-false (p x) (any xs p)).0 h in (both.0, (any-false_iff p xs).0 both.1),
    λ h. (||-false (p x) (any xs p)).1 (h.0, (any-false_iff p xs).1 h.1),
  )

  pub any_iff : (p : A → Bool) (xs : List A) → (any xs p ≡ true) ↔ Any (λ x. p x ≡ true) xs
  any_iff p [] = (λ h. cc, λ h. absurd h)
  any_iff p (x ∷ xs) = (
    λ h. elim (Bool-cases (p x)) [ inl e ↦ inl e | inr e ↦ inr ((any_iff p xs).0 (rw e at h)) ],
    λ h. elim h [ inl e ↦ rw e refl | inr r ↦ (||-true (p x) (any xs p)) ((any_iff p xs).1 r) ],
  )

  pub All-append : (P : A → Type 0) (xs ys : List A) → All P (xs ++ ys) ↔ (All P xs × All P ys)
  All-append P [] ys = (λ h. (tt, h), λ h. h.1)
  All-append P (x ∷ xs) ys =
      let ih = All-append P xs ys in
      (λ h. ((h.0, (ih.0 h.1).0), (ih.0 h.1).1), λ h. (h.0.0, ih.1 (h.0.1, h.1)))

  pub All-keep : (P : A → Type 0) (p : A → Bool) (xs : List A) → All P xs → All P (keep p xs)
  All-keep P p [] h = tt
  All-keep P p (x ∷ xs) h = elim (Bool-cases (p x)) [
    | inl e ↦ rw e (h.0, All-keep P p xs h.1)
    | inr e ↦ rw e (All-keep P p xs h.1)
  ]

  -- What is true of the elements that pass the test.
  pub All-keep_iff :
      (P : A → Type 0) (p : A → Bool) (xs : List A)
      → All P (keep p xs) ↔ All (λ x. p x ≡ true → P x) xs
  All-keep_iff P p [] = (λ h. tt, λ h. tt)
  All-keep_iff P p (x ∷ xs) =
      let ih = All-keep_iff P p xs in
      elim (Bool-cases (p x)) [
        | inl e ↦ rw e (λ h. (λ _. h.0, ih.0 h.1), λ h. (h.0 refl, ih.1 h.1))
        | inr e ↦ rw e (λ h. (λ t. cc, ih.0 h), λ h. ih.1 h.1)
      ]

  pub keep_none_iff :
      (p : A → Bool) (xs : List A) → (is_empty (keep p xs) ≡ true) ↔ All (λ x. p x ≡ false) xs
  keep_none_iff p [] = (λ h. tt, λ h. refl)
  keep_none_iff p (x ∷ xs) =
      let ih = keep_none_iff p xs in
      elim (Bool-cases (p x)) [
        | inl e ↦ rw e (λ h. cc, λ h. cc)
        | inr e ↦ rw e (λ h. (refl, ih.0 h), λ h. ih.1 h.1)
      ]

pub contains_iff {ℓ} :
    {A : Type ℓ} ⦃e : Eq A⦄ (xs : List A) (a : A)
    → (contains xs a ≡ true) ↔ Any (λ x. (x == a) ≡ true) xs
contains_iff xs a = any_iff (λ x. x == a) xs

module _ {ℓ} {A : Type ℓ} where
  pub is_empty-append :
      (xs ys : List A)
      → (is_empty (xs ++ ys) ≡ true) ↔ ((is_empty xs ≡ true) × (is_empty ys ≡ true))
  is_empty-append [] ys = (λ h. (refl, h), λ h. h.1)
  is_empty-append (x ∷ xs) ys = (λ h. cc, λ h. cc)

  -- Some element passes the test exactly when the kept list is not empty.
  pub keep_some_iff :
      (p : A → Bool) (xs : List A) → (is_empty (keep p xs) ≡ false) ↔ Any (λ x. p x ≡ true) xs
  keep_some_iff p [] = (λ h. cc, λ h. absurd h)
  keep_some_iff p (x ∷ xs) =
      let ih = keep_some_iff p xs in
      elim (Bool-cases (p x)) [
        | inl e ↦ rw e (λ h. inl refl, λ h. refl)
        | inr e ↦ rw e (λ h. inr (ih.0 h), λ h. elim h [ inl f ↦ cc | inr r ↦ ih.1 r ])
      ]

  pub All-iff : {P Q : A → Type 0} → ((x : A) → P x ↔ Q x) → (xs : List A) → All P xs ↔ All Q xs
  All-iff f xs = (All-map (λ x. (f x).0) xs, All-map (λ x. (f x).1) xs)

  pub Any-map : {P Q : A → Type 0} → ((x : A) → P x → Q x) → (xs : List A) → Any P xs → Any Q xs
  Any-map f [] h = h
  Any-map f (x ∷ xs) h = elim h [ inl p ↦ inl (f x p) | inr r ↦ inr (Any-map f xs r) ]

  pub Any-iff : {P Q : A → Type 0} → ((x : A) → P x ↔ Q x) → (xs : List A) → Any P xs ↔ Any Q xs
  Any-iff f xs = (Any-map (λ x. (f x).0) xs, Any-map (λ x. (f x).1) xs)

  -- What holds of all and of some element holds of one together.
  pub Any-and : (P Q : A → Type 0) (xs : List A) → All P xs → Any Q xs → Any (λ x. P x × Q x) xs
  Any-and P Q [] h k = absurd k
  Any-and P Q (x ∷ xs) h k = elim k [ inl q ↦ inl (h.0, q) | inr r ↦ inr (Any-and P Q xs h.1 r) ]

pub is_empty-flat_map {ℓ κ} :
    {A : Type ℓ} {B : Type κ} (f : A → List B) (xs : List A)
    → (is_empty (flat_map f xs) ≡ true) ↔ All (λ x. is_empty (f x) ≡ true) xs
unfolding flat_map
is_empty-flat_map f [] = (λ h. tt, λ h. refl)
is_empty-flat_map f (x ∷ xs) =
    iff_trans (is_empty-append (f x) (flat_map f xs)) (×_iff iff_refl (is_empty-flat_map f xs))

-- Some element that passes the test has the property.
pub Any-keep_iff {ℓ} :
    {A : Type ℓ} (P : A → Type 0) (p : A → Bool) (xs : List A)
    → Any P (keep p xs) ↔ Any (λ x. (p x ≡ true) × P x) xs
Any-keep_iff P p [] = iff_refl
Any-keep_iff P p (x ∷ xs) =
    let ih = Any-keep_iff P p xs in
    elim (Bool-cases (p x)) [
      | inl e ↦ rw e (
        λ h. elim h [ inl k ↦ inl (refl, k) | inr r ↦ inr (ih.0 r) ],
        λ h. elim h [ inl k ↦ inl k.1 | inr r ↦ inr (ih.1 r) ],
      )
      | inr e ↦
          rw e (λ h. inr (ih.0 h), λ h. elim h [ inl k ↦ absurd (false≢true k.0) | inr r ↦ ih.1 r ])
    ]

-- Membership in the image of a list.
pub contains-map_iff {ℓ κ} :
    {A : Type ℓ} {B : Type κ} ⦃eb : Eq B⦄ (f : A → B) (xs : List A) (b : B)
    → (contains (map f xs) b ≡ true) ↔ Any (λ x. (f x == b) ≡ true) xs
contains-map_iff f [] b = (λ h. cc, λ h. absurd h)
contains-map_iff f (x ∷ xs) b =
    let ih = contains-map_iff f xs b in
    elim (Bool-cases (f x == b)) [
      | inl e ↦ rw e (λ h. inl refl, λ h. refl)
      | inr e ↦
          rw e (λ h. inr (ih.0 h), λ h. elim h [ inl k ↦ absurd (false≢true k) | inr r ↦ ih.1 r ])
    ]

pub All-image {ℓ κ} :
    {A : Type ℓ} {B : Type κ} (P : B → Type 0) (f : A → B) (xs : List A)
    → All P (map f xs) ↔ All (λ x. P (f x)) xs
All-image P f [] = iff_refl
All-image P f (x ∷ xs) = ×_iff iff_refl (All-image P f xs)

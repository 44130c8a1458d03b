-- ===== src/Prelude/Tests.antt =====
-- Boolean tests: on numbers, on values of a type with an equality, and the conditional.
use Prim.Native.Nat.{ℕ, ◌≤◌, compare, Ordering}
use Prim.Native.String.{String}
use mathlib.Core.Path.{◌≡◌, refl, ap, sym, ◌∙◌}
use mathlib.Core.Logic.{◌↔◌, ◌⊎◌, inl, inr}
use mathlib.Core.Bool.{Bool, true, false, not, ◌&&◌, ◌||◌}
use mathlib.Core.Option.{Option, none, some}
use native.Mathlib.Omega.{arith}
use text.Mathlib.Text.{◌==◌ as str_eq}
use text.Mathlib.TextEquality.{eq_iff}

abbrev pub ltb : ℕ → ℕ → Bool
ltb a b = elim (compare a b) [ Ordering.lt ↦ true | _ ↦ false ]

abbrev pub leb : ℕ → ℕ → Bool
leb a b = elim (compare a b) [ Ordering.gt ↦ false | _ ↦ true ]

abbrev pub eqb : ℕ → ℕ → Bool
eqb a b = elim (compare a b) [ Ordering.eq ↦ true | _ ↦ false ]

infix 1 if◌then◌else◌
abbrev pub if◌then◌else◌ {ℓ} : {A : Type ℓ} → Bool → A → A → A
if true then x else y = x
if false then x else y = y

pub leb→le : (a b : ℕ) → leb a b ≡ true → a ≤ b
leb→le a b h = ground arith

pub eqb_iff : (a b : ℕ) → (eqb a b ≡ true) ↔ (a ≡ b)
eqb_iff a b = ground arith

-- Python's `==` on the values of a type: a test that answers true for equal values only, and for a
-- value and itself.
pub record Eq {ℓ} (A : Type ℓ) : Type ℓ where
  pub beq : A → A → Bool
  pub beq_sound : (a b : A) → beq a b ≡ true → a ≡ b
  pub beq_refl : (a : A) → beq a a ≡ true

pub &&-true : (a b : Bool) → ((a && b) ≡ true) ↔ ((a ≡ true) × (b ≡ true))
&&-true a b = ground arith

pub ||-false : (a b : Bool) → ((a || b) ≡ false) ↔ ((a ≡ false) × (b ≡ false))
||-false a b = ground arith

pub not-true : (b : Bool) → (not b ≡ true) ↔ (b ≡ false)
not-true b = ground arith

pub not-false : (b : Bool) → (not b ≡ false) ↔ (b ≡ true)
not-false b = ground arith

pub ||-true : (a b : Bool) → b ≡ true → (a || b) ≡ true
||-true a b h = ground arith

module _ {ℓ κ} {A : Type ℓ} {B : Type κ} (first : Eq A) (second : Eq B) where
  -- Two pairs are tested part by part.
  abbrev pub both_beq : A × B → A × B → Bool
  both_beq x y = first.beq x.0 y.0 && second.beq x.1 y.1

  pub both_beq_sound : (x y : A × B) → both_beq x y ≡ true → x ≡ y
  both_beq_sound x y h =
      let parts = (&&-true (first.beq x.0 y.0) (second.beq x.1 y.1)).0 h in
      λ i. (first.beq_sound x.0 y.0 parts.0 i, second.beq_sound x.1 y.1 parts.1 i)

  pub both_beq_refl : (x : A × B) → both_beq x x ≡ true
  both_beq_refl x = (&&-true _ _).1 (first.beq_refl x.0, second.beq_refl x.1)

instance abbrev pub pair_eq {ℓ κ} : {A : Type ℓ} {B : Type κ} ⦃ea : Eq A⦄ ⦃eb : Eq B⦄ → Eq (A × B)
pair_eq ⦃ea⦄ ⦃eb⦄ = record {
  beq = both_beq ea eb;
  beq_sound = both_beq_sound ea eb;
  beq_refl = both_beq_refl ea eb;
}

instance abbrev pub string_eq : Eq String
string_eq = record {
  beq = str_eq;
  beq_sound = λ s t. (eq_iff s t).0;
  beq_refl = λ s. (eq_iff s s).1 refl;
}

instance abbrev pub nat_eq : Eq ℕ
nat_eq = record {
  beq = eqb;
  beq_sound = λ m n. (eqb_iff m n).0;
  beq_refl = λ n. (eqb_iff n n).1 refl;
}

module _ {ℓ} {A : Type ℓ} ⦃e : Eq A⦄ where
  infix 50 ◌==◌
  abbrev pub ◌==◌ : A → A → Bool
  a == b = e.beq a b

  -- The test decides equality.
  pub same_iff : (a b : A) → ((a == b) ≡ true) ↔ (a ≡ b)
  same_iff a b = (e.beq_sound a b, λ h. ap (λ c. e.beq a c) (sym h) ∙ e.beq_refl a)

-- Chains of equivalences, part by part.
pub iff_trans {ℓ κ μ} : {A : Type ℓ} {B : Type κ} {C : Type μ} → A ↔ B → B ↔ C → A ↔ C
iff_trans f g = (λ a. g.0 (f.0 a), λ c. f.1 (g.1 c))

pub iff_refl {ℓ} : {A : Type ℓ} → A ↔ A
iff_refl = (λ a. a, λ a. a)

pub iff_sym {ℓ κ} : {A : Type ℓ} {B : Type κ} → A ↔ B → B ↔ A
iff_sym f = (f.1, f.0)

pub ×_iff {ℓ κ μ ν} :
    {A : Type ℓ} {B : Type κ} {C : Type μ} {D : Type ν} → A ↔ B → C ↔ D → (A × C) ↔ (B × D)
×_iff f g = (λ h. (f.0 h.0, g.0 h.1), λ h. (f.1 h.0, g.1 h.1))

-- To split on a computed value and keep the equation.
pub Bool-cases : (b : Bool) → (b ≡ true) ⊎ (b ≡ false)
Bool-cases true = inl refl
Bool-cases false = inr refl

pub Option-cases {ℓ} : {A : Type ℓ} (o : Option A) → (o ≡ none) ⊎ ((a : A) × (o ≡ some a))
Option-cases none = inl refl
Option-cases (some a) = inr (a, refl)

-- `key in record`, for a key that may be absent.
abbrev pub given {ℓ} : {A : Type ℓ} → Option A → Bool
given none = false
given (some _) = true

-- `record.get(key) == value`.
abbrev pub is_some_eq {ℓ} : {A : Type ℓ} ⦃e : Eq A⦄ → Option A → A → Bool
is_some_eq none a = false
is_some_eq (some x) a = x == a

pub is_some_eq_iff {ℓ} :
    {A : Type ℓ} ⦃e : Eq A⦄ (o : Option A) (a : A) → (is_some_eq o a ≡ true) ↔ (o ≡ some a)
is_some_eq_iff {A = A} none a = (λ h. cc, λ h. cc)
is_some_eq_iff {A = A} (some x) a =
    (λ h. ap some ((same_iff x a).0 h), λ h. (same_iff x a).1 (some_inj h))
  where
    some_inj : {x y : A} → some x ≡ some y → x ≡ y
    some_inj h = cc

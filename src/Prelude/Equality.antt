-- ===== src/Prelude/Equality.antt =====
-- Equality of options, of lists and of what is encoded by such values.
use mathlib.Core.Bool.{false≢true, Bool, true, false, ◌&&◌}
use mathlib.Core.Path.{◌≡◌, refl, sym, ap, ◌∙◌}
use mathlib.Core.Option.{Option, none, some}
use mathlib.Core.List.{List, [], ◌∷◌}
use qualityci.Prelude.Tests.{Eq, &&-true}

module _ {A : Type 0} (e : Eq A) where
  abbrev pub option_beq : Option A → Option A → Bool
  option_beq none none = true
  option_beq none (some b) = false
  option_beq (some a) none = false
  option_beq (some a) (some b) = e.beq a b

  pub option_beq_sound : (o p : Option A) → option_beq o p ≡ true → o ≡ p
  option_beq_sound none none h = refl
  option_beq_sound none (some b) h = absurd (false≢true h)
  option_beq_sound (some a) none h = absurd (false≢true h)
  option_beq_sound (some a) (some b) h = ap some (e.beq_sound a b h)

  pub option_beq_refl : (o : Option A) → option_beq o o ≡ true
  option_beq_refl none = refl
  option_beq_refl (some a) = e.beq_refl a

  abbrev pub list_beq : List A → List A → Bool
  list_beq [] [] = true
  list_beq [] (y ∷ ys) = false
  list_beq (x ∷ xs) [] = false
  list_beq (x ∷ xs) (y ∷ ys) = e.beq x y && list_beq xs ys

  pub list_beq_sound : (xs ys : List A) → list_beq xs ys ≡ true → xs ≡ ys
  list_beq_sound [] [] h = refl
  list_beq_sound [] (y ∷ ys) h = absurd (false≢true h)
  list_beq_sound (x ∷ xs) [] h = absurd (false≢true h)
  list_beq_sound (x ∷ xs) (y ∷ ys) h =
      let (here, later) = (&&-true (e.beq x y) (list_beq xs ys)).0 h in
      ap (λ z. z ∷ xs) (e.beq_sound x y here) ∙ ap (λ zs. y ∷ zs) (list_beq_sound xs ys later)

  pub list_beq_refl : (xs : List A) → list_beq xs xs ≡ true
  list_beq_refl [] = refl
  list_beq_refl (x ∷ xs) = (&&-true _ _).1 (e.beq_refl x, list_beq_refl xs)

instance abbrev pub option_eq : {A : Type 0} ⦃e : Eq A⦄ → Eq (Option A)
option_eq ⦃e⦄ = record {
  beq = option_beq e;
  beq_sound = option_beq_sound e;
  beq_refl = option_beq_refl e;
}

instance abbrev pub list_eq : {A : Type 0} ⦃e : Eq A⦄ → Eq (List A)
list_eq ⦃e⦄ = record { beq = list_beq e; beq_sound = list_beq_sound e; beq_refl = list_beq_refl e }

-- A record is compared by its fields, from which it can be built again.
abbrev pub fields_eq :
    {A B : Type 0} (e : Eq B) (fields : A → B) (built : B → A)
    → ((a : A) → built (fields a) ≡ a)
    → Eq A
fields_eq e fields built same = record {
  beq = λ a b. e.beq (fields a) (fields b);
  beq_sound = λ a b h. sym (same a) ∙ ap built (e.beq_sound (fields a) (fields b) h) ∙ same b;
  beq_refl = λ a. e.beq_refl (fields a);
}

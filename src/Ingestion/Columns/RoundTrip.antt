-- ===== src/Ingestion/Columns/RoundTrip.antt =====
-- A column's label gives its number back.
use mathlib.Core.List.{foldl, foldl-append, reverse, reverse-cons}
use qualityci.Ingestion.Columns.{letters_of, column_label, add_letter, column_number}
use qualityci.Prelude.{
  ℕ, zero, suc, ◌+◌, ◌/◌, ◌%◌, ◌≤◌, ◌<◌, ◌≡◌, refl, ap, ◌∙◌, false, List, [], ◌∷◌, arith, leb,
  nat_eq, string_eq, pair_eq, All, All-append, ok,
}

-- The code is that of a capital letter of the alphabet.
abbrev pub IsCapital : ℕ → Type 0
IsCapital letter = (65 ≤ letter) × (letter ≤ 90)

letters_of-IsCapital : (fuel value : ℕ) → All IsCapital (letters_of fuel value)
unfolding letters_of
letters_of-IsCapital zero value = tt
letters_of-IsCapital (suc fuel) zero = tt
letters_of-IsCapital (suc fuel) (suc value) =
    ((ground arith, ground arith), letters_of-IsCapital fuel (value / 26))

All-reverse : (P : ℕ → Type 0) (xs : List ℕ) → All P xs → All P (reverse xs)
All-reverse P [] h = tt
All-reverse P (x ∷ xs) h =
    rw (reverse-cons x xs)
      ((All-append P (reverse xs) (x ∷ [])).1 (All-reverse P xs h.1, (h.0, tt)))

-- Reading the letters back, the most significant first, with enough fuel.
value_back :
    (fuel value : ℕ) → value ≤ fuel → foldl add_letter 0 (reverse (letters_of fuel value)) ≡ value
unfolding letters_of
value_back zero value h = ground arith
value_back (suc fuel) zero h = refl
value_back (suc fuel) (suc value) h =
    let rest = letters_of fuel (value / 26) in
    let ih = value_back fuel (value / 26) (ground arith) in
    rw
      (
        reverse-cons (65 + value % 26) rest,
        foldl-append add_letter 0 (reverse rest) ((65 + value % 26) ∷ []),
        ih,
      )
      (omega arith)

leb_positive : (n : ℕ) → leb (suc n) 0 ≡ false
leb_positive n = ground arith

-- For an `upper` that leaves a text of capital letters as it is, every positive column number has a
-- label, the label is made of capital letters, and `column_number` reads the number back from it.
pub column_number-column_label :
    (upper : List ℕ → List ℕ) (number : ℕ)
    → ((letters : List ℕ) → All IsCapital letters → upper letters ≡ letters)
    → 0 < number
    → (label : List ℕ) × (column_label number ≡ ok label)
      × All IsCapital label
      × (column_number upper label ≡ number)
unfolding column_label column_number
column_number-column_label upper zero fixed positive = absurd (omega arith)
column_number-column_label upper (suc n) fixed positive =
    let letters = letters_of (suc n) (suc n) in
    let capital = All-reverse IsCapital letters (letters_of-IsCapital (suc n) (suc n)) in
    (
      reverse letters,
      rw (leb_positive n) refl,
      capital,
      ap (foldl add_letter 0) (fixed (reverse letters) capital)
          ∙ value_back (suc n) (suc n) (omega arith),
    )

-- ===== src/Ingestion/Columns.antt =====
-- src/qualityci/ingestion.py: `_column_label` and `_column_number`. A label is the list of the codes
-- of its characters.
pub mod RoundTrip
use mathlib.Core.List.{foldl, reverse}
use qualityci.Prelude.{
  ℕ, zero, suc, ◌+◌, ◌-◌, ◌*◌, ◌/◌, ◌%◌, String, List, ◌∷◌, leb, nat_eq, string_eq, pair_eq, Result,
  ok, raise_if, [], ◌>>=◌, ◌>>◌,
}

-- `while value: value, remainder = divmod(value - 1, 26); letters.append(chr(65 + remainder))`, with
-- fuel for the rounds.
unfoldable pub letters_of : ℕ → ℕ → List ℕ
letters_of zero value = []
letters_of (suc fuel) zero = []
letters_of (suc fuel) (suc value) = (65 + value % 26) ∷ letters_of fuel (value / 26)

-- `_column_label`: it raises unless the number is positive. A round lowers the value, so that the
-- number itself is fuel enough.
unfoldable pub column_label : ℕ → Result String (List ℕ)
unfolding letters_of
column_label column_number = do
  raise_if (leb column_number 0) "column_number must be positive"
  ok (reverse (letters_of column_number column_number))

-- `value * 26 + (ord(letter) - 64)`. On a code below 64 the source goes negative; letters are above.
abbrev pub add_letter : ℕ → ℕ → ℕ
add_letter value letter = value * 26 + (letter - 64)

-- `_column_number`; `upper` is Python's `str.upper`.
unfoldable pub column_number : (List ℕ → List ℕ) → List ℕ → ℕ
column_number upper column_letters = foldl add_letter 0 (upper column_letters)

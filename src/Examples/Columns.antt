-- ===== src/Examples/Columns.antt =====
-- The column labels at one column.
use qualityci.Ingestion.Columns.{letters_of, column_label, column_number}
use qualityci.Ingestion.Columns.RoundTrip.{IsCapital, column_number-column_label}
use qualityci.Prelude.{ℕ, ◌≡◌, refl, List, [], ◌∷◌, arith, nat_eq, string_eq, pair_eq, All, ok}

-- Column 703 is AAA.
label_of_703 : column_label 703 ≡ ok (65 ∷ 65 ∷ 65 ∷ [])
unfolding column_label letters_of
label_of_703 = refl

column_number-column_label_example :
    (label : List ℕ) × (column_label 703 ≡ ok label)
    × All IsCapital label
    × (column_number (λ letters. letters) label ≡ 703)
column_number-column_label_example =
    column_number-column_label (λ letters. letters) 703 (λ letters capital. refl) (omega arith)

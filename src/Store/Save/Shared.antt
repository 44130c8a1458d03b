-- ===== src/Store/Save/Shared.antt =====
-- Rows that share the values of unique columns: in a store without conflicts they are one row.
use mathlib.Core.Path.{subst}
use mathlib.Core.Bool.{false≢true}
use qualityci.Prelude.Dict.{lookup}
use qualityci.Store.Audit.{Table, entity_type_of}
use qualityci.Store.Rows.{
  Cell, null_cell, integer_cell, text_cell, same_cell, Row, Rows, is_in, key_of, has_key, find_row,
}
use qualityci.Store.Rows.Named.{same_cell_sound, find_row-All}
use qualityci.Store.Tables.{unique_columns}
use qualityci.Store.Save.{agree, agrees, conflicts, entity_of}
use qualityci.Store.Save.Verified.{NoConflict}
use qualityci.Prelude.{
  same_iff, String, ◌≡◌, refl, sym, ap, ◌∙◌, inl, inr, Bool, true, false, not, ◌&&◌, ◌||◌, Option,
  none, some, List, [], ◌∷◌, ◌==◌, nat_eq, string_eq, pair_eq, Bool-cases, any, all, All, contains,
  All-map, all_iff, &&-true, ||-true, not-true,
}

-- The columns of a statement are different from each other.
abbrev pub distinct : List String → Bool
distinct [] = true
distinct (f ∷ fs) = not (contains fs f) && distinct fs

-- A value that the row of distinct columns has is the value that is read there.
is_in-contains :
    (fs : List String) (cells : List Cell) (e : String × Cell)
    → is_in (entity_of fs cells) e ≡ true
    → contains fs e.0 ≡ true
is_in-contains [] cells e h = absurd (false≢true h)
is_in-contains (f ∷ fs) [] e h = absurd (false≢true h)
is_in-contains (f ∷ fs) (c ∷ cells) e h = elim (Bool-cases (f == e.0)) [
  | inl same ↦ rw same refl
  | inr other ↦
      let both : (((f == e.0) && same_cell c e.1) || is_in (entity_of fs cells) e) ≡ true = h in
      rw other (is_in-contains fs cells e (rw other at both))
]

is_in-lookup :
    (fs : List String) (cells : List Cell) (column : String) (cell : Cell)
    → distinct fs ≡ true
    → is_in (entity_of fs cells) (column, cell) ≡ true
    → lookup column (entity_of fs cells) ≡ some cell
unfolding lookup
is_in-lookup [] cells column cell d h = absurd (false≢true h)
is_in-lookup (f ∷ fs) [] column cell d h = absurd (false≢true h)
is_in-lookup (f ∷ fs) (c ∷ cells) column cell d h =
    let both : (((f == column) && same_cell c cell) || is_in (entity_of fs cells) (column, cell))
        ≡ true =
      h in
    let (fresh, later) = (&&-true (not (contains fs f)) _).0 d in
    elim (Bool-cases (f == column)) [
      | inl same ↦ elim (Bool-cases (same_cell c cell)) [
        | inl value ↦ rw same (ap some (same_cell_sound c cell value))
        | inr other ↦
            let tail : (same_cell c cell || is_in (entity_of fs cells) (column, cell)) ≡ true =
              rw same at both in
            let there = is_in-contains fs cells (column, cell) (rw other at tail) in
            absurd (
              false≢true (
                sym ((not-true (contains fs f)).0 fresh)
                ∙ ap (contains fs) ((same_iff f column).0 same)
                ∙ there))
      ]
      | inr other ↦ rw other (is_in-lookup fs cells column cell later (rw other at both))
    ]

-- What a row has in a column, a row of distinct columns with the same values has there too.
lookup-same_row :
    (row : Row) (fs : List String) (cells : List Cell) (column : String) (cell : Cell)
    → distinct fs ≡ true
    → all row (is_in (entity_of fs cells)) ≡ true
    → lookup column row ≡ some cell
    → lookup column (entity_of fs cells) ≡ some cell
unfolding lookup
lookup-same_row [] fs cells column cell d h found = cc
lookup-same_row (e ∷ row) fs cells column cell d h found =
    let (here, later) = (&&-true (is_in (entity_of fs cells) e) _).0 h in
    elim (Bool-cases (e.0 == column)) [
      | inl same ↦
          let this : some e.1 ≡ some cell = rw same at found in
          let value : e.1 ≡ cell = cc in
          is_in-lookup fs cells column cell d (
            subst (λ k. is_in (entity_of fs cells) (k, cell) ≡ true) ((same_iff _ _).0 same)
              (subst (λ v. is_in (entity_of fs cells) (e.0, v) ≡ true) value here))
      | inr other ↦ lookup-same_row row fs cells column cell d later (rw other at found)
    ]

-- Rows that agree have the same value, and it is not null.
agrees-lookup :
    (r s : Row) (column : String)
    → agrees r s column ≡ true
    → (c : Cell) × (lookup column r ≡ some c)
      × (lookup column s ≡ some c)
      × (agree (some c) (some c) ≡ true)
agrees-lookup r s column h = go (lookup column r) (lookup column s) refl refl h
  where
    go :
        (o p : Option Cell)
        → lookup column r ≡ o
        → lookup column s ≡ p
        → agree o p ≡ true
        → (c : Cell) × (lookup column r ≡ some c)
          × (lookup column s ≡ some c)
          × (agree (some c) (some c) ≡ true)
    go none p e f h = absurd (false≢true h)
    go (some null_cell) p e f h = absurd (false≢true h)
    go (some (integer_cell n)) none e f h = absurd (false≢true h)
    go (some (text_cell t)) none e f h = absurd (false≢true h)
    go (some (integer_cell n)) (some d) e f h =
        let same = same_cell_sound (integer_cell n) d h in
        (
          integer_cell n,
          e,
          f ∙ ap some (sym same),
          subst (λ x. same_cell (integer_cell n) x ≡ true) (sym same) h,
        )
    go (some (text_cell t)) (some d) e f h =
        let same = same_cell_sound (text_cell t) d h in
        (
          text_cell t,
          e,
          f ∙ ap some (sym same),
          subst (λ x. same_cell (text_cell t) x ≡ true) (sym same) h,
        )

-- Rows of distinct columns agree where rows with the same values do, in either order.
pub agrees_same_rows :
    (r s : Row) (fs : List String) (cells others : List Cell) (column : String)
    → distinct fs ≡ true
    → all r (is_in (entity_of fs cells)) ≡ true
    → all s (is_in (entity_of fs others)) ≡ true
    → agrees r s column ≡ true
    → (agrees (entity_of fs cells) (entity_of fs others) column ≡ true)
      × (agrees (entity_of fs others) (entity_of fs cells) column ≡ true)
agrees_same_rows r s fs cells others column d hr hs h =
    let (c, left, right, itself) = agrees-lookup r s column h in
    let here = lookup-same_row r fs cells column c d hr left in
    let there = lookup-same_row s fs others column c d hs right in
    (
      ap (λ o. agree o (lookup column (entity_of fs others))) here
          ∙ ap (agree (some c)) there
          ∙ itself,
      ap (λ o. agree o (lookup column (entity_of fs cells))) there
          ∙ ap (agree (some c)) here
          ∙ itself,
    )

pub any_moved :
    (p q : String → Bool) (columns : List (List String))
    → ((c : String) → p c ≡ true → q c ≡ true)
    → any columns (λ cs. all cs p) ≡ true
    → any columns (λ cs. all cs q) ≡ true
any_moved p q [] f h = absurd (false≢true h)
any_moved p q (cs ∷ columns) f h = elim (Bool-cases (all cs p)) [
  | inl here ↦
      let mapped = (all_iff q cs).1 (All-map f cs ((all_iff p cs).0 here)) in rw mapped refl
  | inr other ↦ ||-true (all cs q) _ (any_moved p q columns f (rw other at h))
]

module _ (t : Table) where
  -- The rows share the values of unique columns of the table.
  abbrev pub shares : Row → Row → Bool
  shares r s = any (unique_columns t) (λ columns. all columns (agrees r s))

  shares-conflicts : (r s : Row) → shares r s ≡ true → conflicts t r (t, s) ≡ true
  unfolding conflicts
  shares-conflicts r s h = ||-true (has_key t (key_of t r) (t, s)) _ (
      (&&-true (entity_type_of t == entity_type_of t) _).1
        ((same_iff (entity_type_of t) (entity_type_of t)).1 refl, h))

  found_first :
      (e : Table × Row) (k : List String) {r : Row}
      → has_key t k e ≡ true
      → some e.1 ≡ some r
      → e ≡ (t, r)
  unfolding find_row
  found_first e k h found =
      (find_row-All (λ u x. e ≡ (u, x)) (e ∷ []) t k (refl, tt) (rw h found)).0

  one_conflicts :
      (e : Table × Row) (rows : Rows) (l : List String) (r s : Row)
      → All (λ f. conflicts f.0 f.1 e ≡ false) rows
      → e ≡ (t, r)
      → find_row rows t l ≡ some s
      → shares s r ≡ true
      → r ≡ s
  one_conflicts e rows l r s n same found h =
      let none_there = (find_row-All (λ u x. conflicts u x e ≡ false) rows t l n found).0 in
      absurd (false≢true (sym none_there ∙ ap (conflicts t s) same ∙ shares-conflicts s r h))

  -- Two rows that are found and share such values are one row.
  pub shares-found :
      (rows : Rows) (k l : List String) {r s : Row}
      → NoConflict rows
      → find_row rows t k ≡ some r
      → find_row rows t l ≡ some s
      → shares r s ≡ true
      → shares s r ≡ true
      → r ≡ s
  unfolding find_row
  shares-found [] k l n hk hl h back = cc
  shares-found (e ∷ rows) k l {r = r} {s = s} n hk hl h back = elim (Bool-cases (has_key t k e)) [
    | inl k_here ↦
        let first = found_first e k k_here (rw k_here at hk) in
        elim (Bool-cases (has_key t l e)) [
          | inl l_here ↦ ap (λ x. x.1) (sym first ∙ found_first e l l_here (rw l_here at hl))
          | inr l_later ↦ one_conflicts e rows l r s n.0 first (rw l_later at hl) back
        ]
    | inr k_later ↦ elim (Bool-cases (has_key t l e)) [
      | inl l_here ↦ sym (
          one_conflicts e rows k s r n.0 (found_first e l l_here (rw l_here at hl))
            (rw k_later at hk) h)
      | inr l_later ↦ shares-found rows k l n.1 (rw k_later at hk) (rw l_later at hl) h back
    ]
  ]

-- ===== src/Rules/Index/Laws.antt =====
-- What the indexes answer at a key, in terms of the rows of the document.
use qualityci.Prelude.Dict.{lookup, lookup-insert}
use mathlib.Core.List.{foldl, append_assoc, append-nil}
use qualityci.Text.{TextOps, Key}
use qualityci.Case.{Document, Characteristic, Risk, Item}
use qualityci.Rules.Index.{
  characteristics, risks, add_characteristic, add_risk, list_or_nil, append_at, row_key,
  insert_given, append_given,
}
use qualityci.Prelude.{
  same_iff, ◌≡◌, refl, sym, ap, ◌∙◌, ◌↔◌, inl, inr, Bool, true, not, Option, none, some, List, [],
  ◌∷◌, ◌++◌, arith, if◌then◌else◌, Eq, ◌==◌, nat_eq, string_eq, pair_eq, Bool-cases, Option-cases,
  given, is_some_eq, is_empty, keep, Any,
}

-- The later of two answers, if there is one.
abbrev pub or_else {ℓ} : {A : Type ℓ} → Option A → Option A → Option A
or_else (some a) other = some a
or_else none other = other

-- An entry is there exactly when its list is not empty.
abbrev IsFull {ℓ} : {V : Type ℓ} → Option (List V) → Type 0
IsFull o = given o ≡ not (is_empty (list_or_nil o))

IsFull-snoc {ℓ} : {V : Type ℓ} (xs : List V) (v : V) → IsFull (some (xs ++ v ∷ []))
IsFull-snoc [] v = refl
IsFull-snoc (x ∷ xs) v = refl

module _ {ℓ κ} {K : Type ℓ} {V : Type κ} ⦃e : Eq K⦄ (k : K) where
  lookup-insert_given :
      (o : Option K) (v : V) (d : List (K × V))
      → lookup k (insert_given o v d) ≡ (if is_some_eq o k then some v else lookup k d)
  lookup-insert_given none v d = refl
  lookup-insert_given (some j) v d = lookup-insert j k v d

  at_key :
      (j : K) (v : V) (d : List (K × List V))
      → list_or_nil (lookup k (append_at j v d))
        ≡ list_or_nil (lookup k d) ++ (if j == k then v ∷ [] else [])
  at_key j v d =
      rw (lookup-insert j k (list_or_nil (lookup j d) ++ v ∷ []) d) (elim (Bool-cases (j == k)) [
        | inl same ↦ rw same (rw ((same_iff j k).0 same) refl)
        | inr other ↦ rw other (sym (append-nil _))
      ])

  lookup-append_given :
      (o : Option K) (v : V) (d : List (K × List V))
      → list_or_nil (lookup k (append_given o v d))
        ≡ list_or_nil (lookup k d) ++ (if is_some_eq o k then v ∷ [] else [])
  lookup-append_given none v d = sym (append-nil _)
  lookup-append_given (some j) v d = at_key j v d

  IsFull-append_given :
      (o : Option K) (v : V) (d : List (K × List V))
      → IsFull (lookup k d)
      → IsFull (lookup k (append_given o v d))
  IsFull-append_given none v d h = h
  IsFull-append_given (some j) v d h =
      rw (lookup-insert j k (list_or_nil (lookup j d) ++ v ∷ []) d) (elim (Bool-cases (j == k)) [
        | inl same ↦ rw same (IsFull-snoc (list_or_nil (lookup j d)) v)
        | inr other ↦ rw other h
      ])

module _ (text : TextOps) (key : Key) where
  abbrev pub has_key : Item → Bool
  has_key item = is_some_eq (row_key text item) key

  -- The last row with the key.
  unfoldable pub last_with_key : List Characteristic → Option Characteristic
  last_with_key [] = none
  last_with_key (row ∷ rows) =
      or_else (last_with_key rows) (if has_key row.item then some row else none)

  lookup-fold_characteristics :
      (rows : List Characteristic) (index : List (Key × Characteristic))
      → lookup key (foldl (add_characteristic text) index rows)
        ≡ or_else (last_with_key rows) (lookup key index)
  unfolding last_with_key
  lookup-fold_characteristics [] index = refl
  lookup-fold_characteristics (row ∷ rows) index =
      lookup-fold_characteristics rows (add_characteristic text index row)
      ∙ ground (arith, lookup-insert_given key (row_key text row.item) row index)

  -- The rows of a key, in order.
  abbrev pub rows_with_key : List Risk → List Risk
  rows_with_key = keep (λ (row : Risk). has_key row.item)

  lookup-fold_risks :
      (rows : List Risk) (index : List (Key × List Risk))
      → list_or_nil (lookup key (foldl (add_risk text) index rows))
        ≡ list_or_nil (lookup key index) ++ rows_with_key rows
  lookup-fold_risks [] index = sym (append-nil _)
  lookup-fold_risks (row ∷ rows) index =
      lookup-fold_risks rows (add_risk text index row)
      ∙ rw (lookup-append_given key (row_key text row.item) row index)
          (elim (Bool-cases (has_key row.item)) [
            | inl same ↦ rw same (rw append_assoc)
            | inr other ↦ rw other (rw append-nil)
          ])

  -- The control row at a key is the last row with the key.
  pub lookup-characteristics :
      (doc : Document)
      → lookup key (characteristics text (some doc)) ≡ last_with_key doc.fields.characteristics
  unfolding characteristics lookup
  lookup-characteristics doc =
      ground (arith, lookup-fold_characteristics doc.fields.characteristics [])

  -- The risk rows at a key are all rows with the key, in the order of the document.
  pub lookup-risks :
      (doc : Document)
      → list_or_nil (lookup key (risks text (some doc))) ≡ rows_with_key doc.fields.risks
  unfolding risks lookup
  lookup-risks doc = lookup-fold_risks doc.fields.risks []

  IsFull-fold_risks :
      (rows : List Risk) (index : List (Key × List Risk))
      → IsFull (lookup key index)
      → IsFull (lookup key (foldl (add_risk text) index rows))
  IsFull-fold_risks [] index h = h
  IsFull-fold_risks (row ∷ rows) index h =
      IsFull-fold_risks rows (add_risk text index row)
        (IsFull-append_given key (row_key text row.item) row index h)

  -- The risk index has a key exactly when some row has it.
  pub given-lookup_risks :
      (doc : Document)
      → given (lookup key (risks text (some doc))) ≡ not (is_empty (rows_with_key doc.fields.risks))
  unfolding risks lookup
  given-lookup_risks doc =
      IsFull-fold_risks doc.fields.risks [] refl
      ∙ ap (λ rows. not (is_empty rows)) (lookup-fold_risks doc.fields.risks [])

  -- There is a control row at a key exactly when some row has it.
  pub given-last_with_key :
      (rows : List Characteristic)
      → (given (last_with_key rows) ≡ true)
        ↔ Any (λ (row : Characteristic). has_key row.item ≡ true) rows
  unfolding last_with_key
  given-last_with_key [] = (λ h. cc, λ h. absurd h)
  given-last_with_key (row ∷ rows) =
      let ih = given-last_with_key rows in
      elim (Option-cases (last_with_key rows)) [
        | inl e ↦ rw e (elim (Bool-cases (has_key row.item)) [
          | inl same ↦ rw same (λ h. inl refl, λ h. refl)
          | inr other ↦ rw other (λ h. cc, λ h. elim h [ inl k ↦ cc | inr r ↦ cc (ih.1 r, e) ])
        ])
        | inr (found, e) ↦ rw e (λ h. inr (ih.0 (rw e refl)), λ h. refl)
      ]

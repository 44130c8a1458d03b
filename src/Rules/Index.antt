-- ===== src/Rules/Index.antt =====
-- src/qualityci/rules.py: the indexes of risk and control rows by relationship key.
pub mod Laws
use qualityci.Prelude.Dict.{lookup, insert}
use mathlib.Core.List.{foldl}
use qualityci.Text.{TextOps, Key, normalized_identity, relationship_key}
use qualityci.Case.{Document, Characteristic, Risk, Item, Link}
use qualityci.Prelude.{
  ℕ, zero, suc, ◌+◌, ◌-◌, ◌*◌, ◌/◌, ◌%◌, ◌^◌, ◌≤◌, ◌<◌, String, ◌≡◌, refl, sym, ap, ◌∙◌, ◌≢◌, ◌↔◌,
  ◌⊎◌, inl, inr, Bool, true, false, not, ◌&&◌, ◌||◌, Option, none, some, List, [], ◌∷◌, ◌++◌, map,
  arith, eq_iff, ltb, leb, eqb, if◌then◌else◌, Eq, ◌==◌, nat_eq, string_eq, pair_eq, Bool-cases,
  Option-cases, given, is_some_eq, length, is_empty, any, all, keep, All, Any, contains, Result, ok,
  err, ◌>>=◌, ◌>>◌, raise_if,
}

abbrev pub list_or_nil {ℓ} : {A : Type ℓ} → Option (List A) → List A
list_or_nil none = []
list_or_nil (some xs) = xs

-- `d.setdefault(key, []).append(v)`
abbrev pub append_at {ℓ κ} :
    {K : Type ℓ} {V : Type κ} ⦃e : Eq K⦄ → K → V → List (K × List V) → List (K × List V)
append_at k v d = insert k (list_or_nil (lookup k d) ++ v ∷ []) d

-- The same for a key that a row may lack: the row is then passed over.
abbrev pub insert_given {ℓ κ} :
    {K : Type ℓ} {V : Type κ} ⦃e : Eq K⦄ → Option K → V → List (K × V) → List (K × V)
insert_given none v d = d
insert_given (some k) v d = insert k v d

abbrev pub append_given {ℓ κ} :
    {K : Type ℓ} {V : Type κ} ⦃e : Eq K⦄ → Option K → V → List (K × List V) → List (K × List V)
append_given none v d = d
append_given (some k) v d = append_at k v d

-- Rows by the text of a process step or of a characteristic. A row is tagged with its position, the
-- identity of the object.
abbrev pub Candidates : Type 0
Candidates = List (String × List (ℕ × Item))

abbrev pub CandidateIndexes : Type 0
CandidateIndexes = Candidates × Candidates

module _ (text : TextOps) where
  unfoldable pub link_key : Link → Key
  link_key pair = relationship_key text pair.process_step_id pair.characteristic_id

  abbrev key_of : Option String → String → Option Key
  key_of none characteristic_id = none
  key_of (some step) characteristic_id = some (relationship_key text step characteristic_id)

  -- The key of a row, if its `process_step_id` is a text.
  unfoldable pub row_key : Item → Option Key
  row_key item = key_of item.process_step_id item.characteristic_id

  abbrev pub add_characteristic :
      List (Key × Characteristic) → Characteristic → List (Key × Characteristic)
  add_characteristic index row = insert_given (row_key row.item) row index

  -- `_characteristics`: a later row of one key takes the place of an earlier one.
  unfoldable pub characteristics : Option Document → List (Key × Characteristic)
  unfolding row_key
  characteristics none = []
  characteristics (some doc) = foldl add_characteristic [] doc.fields.characteristics

  abbrev pub add_risk : List (Key × List Risk) → Risk → List (Key × List Risk)
  add_risk index row = append_given (row_key row.item) row index

  -- `_risks`
  unfoldable pub risks : Option Document → List (Key × List Risk)
  unfolding row_key
  risks none = []
  risks (some doc) = foldl add_risk [] doc.fields.risks

  abbrev pub by_first : Option Key → Option String
  by_first none = none
  by_first (some key) = some key.0

  abbrev pub by_second : Option Key → Option String
  by_second none = none
  by_second (some key) = some key.1

  abbrev pub add_candidate : ℕ → CandidateIndexes → Item → CandidateIndexes
  add_candidate position indexes item = (
    append_given (by_first (row_key item)) (position, item) indexes.0,
    append_given (by_second (row_key item)) (position, item) indexes.1,
  )

  add_candidates : ℕ → CandidateIndexes → List Item → CandidateIndexes
  add_candidates position indexes [] = indexes
  add_candidates position indexes (item ∷ items) =
      add_candidates (position + 1) (add_candidate position indexes item) items

  unfoldable pub relationship_candidate_indexes : List Item → CandidateIndexes
  unfolding add_candidates row_key
  relationship_candidate_indexes = add_candidates 0 ([], [])

-- The loop over the candidates: `room` more may be appended, and `seen` holds the identities.
collect : List (ℕ × Item) → ℕ → List ℕ → List Item
collect items zero seen = []
collect [] (suc room) seen = []
collect ((identity, item) ∷ items) (suc room) seen =
    let skipped = collect items (suc room) seen in
    let taken = collect items room (identity ∷ seen) in
    if contains seen identity then skipped else item ∷ taken

-- At most three rows that share the step or the characteristic of the pair, each once.
unfoldable pub relationship_candidates : TextOps → CandidateIndexes → Link → List Item
unfolding collect link_key
relationship_candidates text indexes pair =
    let expected = link_key text pair in
    collect (list_or_nil (lookup expected.0 indexes.0) ++ list_or_nil (lookup expected.1 indexes.1))
      3 []

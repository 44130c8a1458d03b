-- ===== src/Workflow/Operations/Paths.antt =====
-- Which documents and which fields a resolution may touch.
use mathlib.Core.Path.{subst}
use qualityci.Prelude.Dict.{lookup, insert}
use qualityci.Prelude.Sorting.{All-sorted_set}
use qualityci.Text.{TextOps, normalized_identity, is_blank}
use qualityci.Rules.Evidence.{get_or}
use qualityci.Workflow.Operations.{
  Operation, split_path, root_of, protected_roots, allowed_fact_roots, is_unsafe_segment,
  require_string, check_path, Touched, clashes, touch, touch_all, in_key_order,
  validate_resolution_operation_paths,
}
use qualityci.Prelude.{
  same_iff, String, ◌≡◌, refl, sym, ap, ◌⊎◌, inl, inr, Bool, true, false, not, ◌||◌, Option, none,
  some, List, [], ◌∷◌, arith, if◌then◌else◌, ◌==◌, nat_eq, string_eq, pair_eq, Bool-cases, given,
  is_empty, all, All, Any, contains, All-map, any-false_iff, not-false, All-image, ok, raise_if,
  >>-eq-ok, raise_if-eq-ok, >>=-eq-ok, ok_inj,
}

-- A path whose root is one of the facts of a document that may be revised, with safe segments.
pub record IsFactPath (text : TextOps) (path : String) : Type 0 where
  pub safe : All (λ s. is_unsafe_segment text s ≡ false) (split_path path)
  pub not_protected : contains protected_roots (root_of (split_path path)) ≡ false
  pub allowed : contains allowed_fact_roots (root_of (split_path path)) ≡ true

module _ (text : TextOps) where
  -- An operation on a fact of the document.
  pub record TouchesFact (operation : Operation) : Type 0 where
    pub on_document : get_or operation.target "document" ≡ "document"
    pub path : String
    pub path_is : operation.path ≡ some path
    pub fact : IsFactPath text path

  check_path-IsFactPath : (path : String) → check_path text path ≡ ok tt → IsFactPath text path
  unfolding check_path
  check_path-IsFactPath path h =
      let (safe, rest) = (raise_if-eq-ok _ _ _).0 h in
      let roots = both_false _ _ _ rest in
      record {
        safe = (any-false_iff (is_unsafe_segment text) (split_path path)).0 safe;
        not_protected = roots.0;
        allowed = roots.1;
      }
    where
      both_false :
          (a b : Bool) (e : String) → raise_if (a || not b) e ≡ ok tt → (a ≡ false) × (b ≡ true)
      both_false a b e h = ground arith

  require_string-eq-ok :
      (o : Option String) {s : String} → require_string text o ≡ ok s → o ≡ some s
  require_string-eq-ok none h = cc
  require_string-eq-ok (some t) h =
      ap some (ok_inj ((raise_if-eq-ok (is_blank text t) _ (ok t)).0 h).1)

  -- The id stands in some operation.
  abbrev pub Names : List Operation → String → Type 0
  Names operations id = Any (λ (o : Operation). o.document_id ≡ some id) operations

  -- A round that passes: the operation touches a fact of the document that is entered.
  touch-eq-ok :
      (touched : Touched text) (operation : Operation) {after : Touched text}
      → touch text touched operation ≡ ok after
      → TouchesFact operation
        × ((id : String) × (operation.document_id ≡ some id)
            × (after ≡ insert (normalized_identity text id) id touched))
  unfolding touch
  touch-eq-ok touched operation h =
      let (target, rest) = (raise_if-eq-ok _ _ _).0 h in
      let (id, id_is, rest1) = >>=-eq-ok (require_string text operation.document_id) _ rest in
      let (path, path_is, rest2) = >>=-eq-ok (require_string text operation.path) _ rest1 in
      let (checked, rest3) = (>>-eq-ok (check_path text path) _).0 rest2 in
      let key = normalized_identity text id in
      let last =
        (raise_if-eq-ok (clashes text (lookup key touched) id)
            "normalized duplicate touched document_id" (ok (insert key id touched))).0
          rest3 in
      (
        record {
          on_document = (same_iff _ _).0 ((not-false _).0 target);
          path = path;
          path_is = require_string-eq-ok operation.path path_is;
          fact = check_path-IsFactPath path checked;
        },
        (id, require_string-eq-ok operation.document_id id_is, sym (ok_inj last.1)),
      )

  -- Every entry names a document of the operations.
  abbrev AllNamed : List Operation → Touched text → Type 0
  AllNamed operations = All (λ (e : String × String). Names operations e.1)

  All-insert :
      (P : String → Type 0) (key id : String) (touched : Touched text)
      → P id
      → All (λ (e : String × String). P e.1) touched
      → All (λ (e : String × String). P e.1) (insert key id touched)
  unfolding insert
  All-insert P key id [] p all = (p, tt)
  All-insert P key id ((k, v) ∷ touched) p all =
      let rest = All-insert P key id touched p all.1 in
      elim (Bool-cases (k == key)) [ inl e ↦ rw e (p, all.1) | inr e ↦ rw e (all.0, rest) ]

  touch_all-eq-ok :
      (all operations : List Operation) (touched : Touched text) {after : Touched text}
      → ((id : String) → Names operations id → Names all id)
      → AllNamed all touched
      → touch_all text touched operations ≡ ok after
      → All TouchesFact operations × AllNamed all after
  unfolding touch_all
  touch_all-eq-ok all [] touched sub named h = (tt, subst (AllNamed all) (ok_inj h) named)
  touch_all-eq-ok all (operation ∷ operations) touched sub named h =
      let (next, first, rest) = >>=-eq-ok (touch text touched operation) _ h in
      let (fact, (id, id_is, next_is)) = touch-eq-ok touched operation first in
      let named' = subst (AllNamed all) (sym next_is) (
        All-insert (Names all) (normalized_identity text id) id touched (sub id (inl id_is))
          named) in
      let (facts, done) = touch_all-eq-ok all operations next (λ i n. sub i (inr n)) named' rest in
      ((fact, facts), done)

  lookup-All :
      (P : String → Type 0) (key : String) (touched : Touched text)
      → All (λ (e : String × String). P e.1) touched
      → (lookup key touched ≡ none) ⊎ P (get_or (lookup key touched) "")
  unfolding lookup
  lookup-All P key [] all = inl refl
  lookup-All P key ((k, v) ∷ touched) all =
      let rest = lookup-All P key touched all.1 in
      elim (Bool-cases (k == key)) [ inl e ↦ rw e (inr all.0) | inr e ↦ rw e rest ]

  keys_there :
      (touched : Touched text)
      → All (λ (e : String × String). given (lookup e.0 touched) ≡ true) touched
  unfolding lookup
  keys_there [] = tt
  keys_there ((k, v) ∷ touched) = (
    rw ((same_iff k k).1 refl) refl,
    All-map (λ (e : String × String) g. kept e g) touched (keys_there touched),
  )
    where
      kept :
          (e : String × String)
          → given (lookup e.0 touched) ≡ true
          → given (if k == e.0 then some v else lookup e.0 touched) ≡ true
      kept e g = ground arith

  in_key_order-All :
      (P : String → Type 0) (touched : Touched text)
      → All (λ (e : String × String). P e.1) touched
      → All P (in_key_order text touched)
  in_key_order-All P touched all = (All-image P (λ key. get_or (lookup key touched) "") _).1 (
      (All-sorted_set (λ key. P (get_or (lookup key touched) "")) _).1 (
        (All-image (λ key. P (get_or (lookup key touched) "")) (λ (e : String × String). e.0)
            touched).1
          (All-map (λ (e : String × String) g. there e g) touched (keys_there touched))))
    where
      there :
          (e : String × String)
          → given (lookup e.0 touched) ≡ true
          → P (get_or (lookup e.0 touched) "")
      there e g = elim (lookup-All P e.0 touched all) [ inl n ↦ cc (g, n) | inr p ↦ p ]

  -- If the paths of a resolution are accepted, then every operation is on a document, at a path of
  -- safe segments whose root is a fact that may be revised and no protected field, and every touched
  -- document is named by an operation.
  pub validate_resolution_operation_paths-TouchesFact :
      (operations : List Operation) (touched : List String)
      → validate_resolution_operation_paths text operations ≡ ok touched
      → All TouchesFact operations × All (Names operations) touched
  unfolding validate_resolution_operation_paths
  validate_resolution_operation_paths-TouchesFact operations touched h =
      let (_, rest) = (raise_if-eq-ok (is_empty operations) _ _).0 h in
      let (after, loop, last) = >>=-eq-ok (touch_all text [] operations) _ rest in
      let (facts, named) = touch_all-eq-ok operations operations [] (λ i n. n) tt loop in
      (
        facts,
        subst (All (Names operations)) (ok_inj last)
            (in_key_order-All (Names operations) after named),
      )

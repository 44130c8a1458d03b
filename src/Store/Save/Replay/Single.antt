-- ===== src/Store/Save/Replay/Single.antt =====
-- The single use of an approval, over the replays that a store saves.
use mathlib.Core.Path.{subst}
use mathlib.Core.Bool.{false≢true}
use qualityci.Json.{Json}
use qualityci.Store.Audit.{Table, approval_consumptions}
use qualityci.Store.Rows.{Cell, Row, is_in, same_row, key_of, find_row}
use qualityci.Store.Rows.Named.{find_row-All}
use qualityci.Store.Tables.{fields_of, unique_columns}
use qualityci.Store.Save.{
  Store, Database, agrees, entity_of, holds, stored_matches, save_entity, Call, save_all,
}
use qualityci.Store.Save.Verified.{
  save_entity-eq-ok, IsFilled, started, saved, IsFilled-NoConflict, save_all-IsFilled,
}
use qualityci.Store.Save.Replay.{
  ReplayEntities, replay_steps, compared_rows, is_stored, run_steps, final_preflight, save_replay,
}
use qualityci.Store.Save.Kept.{save_entity_kept}
use qualityci.Store.Save.Replay.Stored.{
  run_steps-IsFilled, run_steps_kept, assertion_rows, replay_rows, replay_steps-rows,
}
use qualityci.Prelude.{
  ℕ, String, ◌≡◌, refl, sym, ap, ◌∙◌, inl, inr, Bool, true, Any, any_iff, Any-map, Option, none,
  some, List, [], ◌∷◌, nat_eq, string_eq, pair_eq, all, All, all_iff, All-append, &&-true,
  not-false, ok, raise_if-eq-ok, >>=-eq-ok, ok_inj,
}
use qualityci.Store.Save.Unique.{SameIn, SameIn-agrees}
use qualityci.Store.Save.Shared.{distinct, agrees_same_rows, any_moved, shares, shares-found}

-- The row of the consumption of a replay.
abbrev pub consumption_of : ReplayEntities → Row
consumption_of e = entity_of (fields_of approval_consumptions) e.consumption

-- What a consumption uses up.
abbrev used_up : List String
used_up =
    "approval_subject_hash" ∷ "assertion_set_hash" ∷ "execution_nonce" ∷ "replay_admission_hash"
    ∷ "after_run_id" ∷ []

SameIn-shares :
    (r s : Row)
    → Any (λ column. SameIn r s (column ∷ [])) used_up
    → shares approval_consumptions r s ≡ true
unfolding unique_columns
SameIn-shares r s h =
    (any_iff (λ columns. all columns (agrees r s)) (unique_columns approval_consumptions)).1
      (Any-map (SameIn-agrees r s) (unique_columns approval_consumptions) h)

distinct_consumption : distinct (fields_of approval_consumptions) ≡ true
unfolding fields_of
distinct_consumption = refl

module _ (database : Database) where
  -- The rows of a filled store are those of the `INSERT` statements.
  IsFilled-entities :
      (store : Store)
      → IsFilled database store
      → All (λ e. (cells : List Cell) × (e.1 ≡ entity_of (fields_of e.0) cells)) store.rows
  IsFilled-entities _ started = tt
  IsFilled-entities _ (saved now t cells store after inserted filled h) =
      let P : Table × Row → Type 0 =
        λ e. (given : List Cell) × (e.1 ≡ entity_of (fields_of e.0) given) in
      let before = IsFilled-entities store filled in
      elim (save_entity-eq-ok database now t cells store after inserted h) [
        | inl (_, same) ↦ subst (λ (s : Store). All P s.rows) (sym same) before
        | inr (_, _, same) ↦
            subst (λ (s : Store). All P s.rows) (sym same)
              ((All-append P store.rows ((t, entity_of (fields_of t) cells) ∷ [])).1
                (before, ((cells, refl), tt)))
      ]

  -- The row that is stored for an entity.
  is_stored-found :
      (store : Store) (t : Table) (cells : List Cell)
      → IsFilled database store
      → is_stored database store (t, cells) ≡ true
      → (others : List Cell) × (find_row store.rows t (key_of t (entity_of (fields_of t) cells))
          ≡ some (entity_of (fields_of t) others))
        × (same_row (entity_of (fields_of t) others) (entity_of (fields_of t) cells) ≡ true)
        × (key_of t (entity_of (fields_of t) others) ≡ key_of t (entity_of (fields_of t) cells))
  unfolding stored_matches
  is_stored-found store t cells filled h = go (find_row store.rows t key) refl h
    where
      row : Row
      row = entity_of (fields_of t) cells

      key : List String
      key = key_of t (entity_of (fields_of t) cells)

      go :
          (o : Option Row)
          → find_row store.rows t key ≡ o
          → holds same_row row o ≡ true
          → (others : List Cell) × (find_row store.rows t key
              ≡ some (entity_of (fields_of t) others))
            × (same_row (entity_of (fields_of t) others) row ≡ true)
            × (key_of t (entity_of (fields_of t) others) ≡ key)
      go none found h = absurd (false≢true h)
      go (some r) found h =
          let ((others, same), keyed) =
            find_row-All (λ u x. (given : List Cell) × (x ≡ entity_of (fields_of u) given))
              store.rows t key (IsFilled-entities store filled) found in
          (
            others,
            found ∙ ap some same,
            subst (λ x. same_row x row ≡ true) same h,
            ap (key_of t) (sym same) ∙ keyed,
          )

  -- Two stored entities that share the values of unique columns have one key.
  stored-shares :
      (store : Store) (t : Table) (cells others : List Cell)
      → distinct (fields_of t) ≡ true
      → IsFilled database store
      → is_stored database store (t, cells) ≡ true
      → is_stored database store (t, others) ≡ true
      → shares t (entity_of (fields_of t) cells) (entity_of (fields_of t) others) ≡ true
      → key_of t (entity_of (fields_of t) cells) ≡ key_of t (entity_of (fields_of t) others)
  stored-shares store t cells others d filled h k s =
      let fs = fields_of t in
      let (a, found_a, same_a, keyed_a) = is_stored-found store t cells filled h in
      let (b, found_b, same_b, keyed_b) = is_stored-found store t others filled k in
      let (_, within_a) =
        (&&-true (all (entity_of fs a) (is_in (entity_of fs cells))) _).0 same_a in
      let (_, within_b) =
        (&&-true (all (entity_of fs b) (is_in (entity_of fs others))) _).0 same_b in
      let both =
        λ (column : String) (e : agrees (entity_of fs cells) (entity_of fs others) column ≡ true).
          agrees_same_rows (entity_of fs cells) (entity_of fs others) fs a b column d within_a
            within_b e in
      let one =
        shares-found t store.rows _ _ (IsFilled-NoConflict database store filled) found_a found_b
          (any_moved _ _ (unique_columns t) (λ column e. (both column e).0) s)
          (any_moved _ _ (unique_columns t) (λ column e. (both column e).1) s) in
      sym keyed_a ∙ ap (key_of t) one ∙ keyed_b

  save_all_kept :
      (same : Row → Row → Bool) (calls : List (Call database)) (store after : Store) (u : Table)
      (row : Row)
      → save_all database calls store ≡ ok after
      → stored_matches database same store.rows u row ≡ true
      → stored_matches database same after.rows u row ≡ true
  unfolding save_all
  save_all_kept same [] store after u row h there =
      subst (λ (s : Store). stored_matches database same s.rows u row ≡ true) (ok_inj h) there
  save_all_kept same (call ∷ calls) store after u row h there =
      let ((next, inserted), first, rest) =
        >>=-eq-ok (save_entity database call.0 call.1 call.2 store) _ h in
      save_all_kept same calls next after u row rest
        (save_entity_kept database same call.0 call.1 call.2 store next inserted u row first there)

  module _ (is_valid : Table → Json → Bool) (contexts_match : Store → Bool) where
    -- What a replay that is saved has passed: its calls, and the comparison of its rows.
    save_replay-eq-ok :
        (now : ℕ → String) (e : ReplayEntities) (store after : Store)
        → save_replay database is_valid contexts_match now e store ≡ ok after
        → (run_steps database now (replay_steps database e) store ≡ ok after)
          × All (λ r. is_stored database after r ≡ true) (compared_rows database e)
    unfolding save_replay final_preflight
    save_replay-eq-ok now e store after h =
        let (reached, ran, rest) =
          >>=-eq-ok (run_steps database now (replay_steps database e) store) _ h in
        let (passed, same) = (raise_if-eq-ok _ _ _).0 rest in
        let (both, _) = (&&-true _ _).0 ((not-false _).0 passed) in
        let (stored, _) = (&&-true _ _).0 both in
        (
          ran ∙ same,
          subst (λ s. All (λ r. is_stored database s r ≡ true) (compared_rows database e))
              (ok_inj same)
              ((all_iff (is_stored database reached) (compared_rows database e)).0 stored),
        )

    consumption_stored :
        (e : ReplayEntities) (store : Store)
        → All (λ r. is_stored database store r ≡ true) (compared_rows database e)
        → is_stored database store (approval_consumptions, e.consumption) ≡ true
    consumption_stored e store h =
        let Q : Table × List Cell → Type 0 = λ r. is_stored database store r ≡ true in
        let rest = (All-append Q (assertion_rows database e.assertions) _).0 h.1.1.1.1 in rest.1.0

    -- An approval is used once. If a replay is saved in a filled store, and another is saved after any
    -- other calls, and the two consumptions have the same value, which is not NULL, as the approval
    -- subject, as the set of assertions, as the execution nonce, as the admission or as the run, then
    -- they are one consumption: their hashes are the same.
    pub save_replay-SingleUse :
        (now later : ℕ → String) (e f : ReplayEntities) (store first between second : Store)
        (calls : List (Call database))
        → IsFilled database store
        → save_replay database is_valid contexts_match now e store ≡ ok first
        → save_all database calls first ≡ ok between
        → save_replay database is_valid contexts_match later f between ≡ ok second
        → Any (λ column. SameIn (consumption_of e) (consumption_of f) (column ∷ [])) used_up
        → key_of approval_consumptions (consumption_of e)
          ≡ key_of approval_consumptions (consumption_of f)
    save_replay-SingleUse now later e f store first between second calls filled one saves two s =
        let (ran_e, stored_e) = save_replay-eq-ok now e store first one in
        let (ran_f, stored_f) = save_replay-eq-ok later f between second two in
        let rows_e =
          ap (λ steps. run_steps database now steps store) (sym (replay_steps-rows database e))
          ∙ ran_e in
        let rows_f =
          ap (λ steps. run_steps database later steps between) (sym (replay_steps-rows database f))
          ∙ ran_f in
        let filled_e =
          run_steps-IsFilled database now (replay_rows database e) store first filled rows_e in
        let filled_b = save_all-IsFilled database calls first filled_e saves in
        let filled_f =
          run_steps-IsFilled database later (replay_rows database f) between second filled_b
            rows_f in
        let kept =
          run_steps_kept database same_row later (replay_rows database f) between second
            approval_consumptions (consumption_of e) rows_f
            (save_all_kept same_row calls first between approval_consumptions (consumption_of e)
              saves (consumption_stored e first stored_e)) in
        stored-shares second approval_consumptions e.consumption f.consumption distinct_consumption
          filled_f kept (consumption_stored f second stored_f)
          (SameIn-shares (consumption_of e) (consumption_of f) s)

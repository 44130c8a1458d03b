-- ===== src/Store/Save/Replay/Committed.antt =====
-- The last test of the transaction of a replay passes on what its calls have stored.
use mathlib.Core.Path.{subst}
use mathlib.Core.Bool.{false≢true}
use qualityci.Json.{Json}
use qualityci.Store.Audit.{append_audit, Table, replay_admissions}
use qualityci.Store.Rows.{Row, Rows, key_json, same_row, find_row}
use qualityci.Store.Tables.{fields_of}
use qualityci.Store.Save.{Store, Database, entity_of, stored_matches, append_row}
use qualityci.Store.Save.Verified.{save_entity-eq-ok, IsFilled, started, saved, IsFilled-verifies}
use qualityci.Store.Save.Replay.{
  ReplayEntities, run_steps, replay_steps, compared_rows, is_stored, final_preflight, save_replay,
}
use qualityci.Prelude.{
  ℕ, String, ◌≡◌, refl, sym, ◌∙◌, inl, inr, Bool, true, false, not, ◌&&◌, some, List, [], ◌∷◌, ◌++◌,
  if◌then◌else◌, nat_eq, string_eq, pair_eq, is_empty, All, all_iff, ok, err, ◌>>◌, raise_if,
}
use qualityci.Store.Save.Replay.Stored.{replay_steps-IsFilled, replay_steps-is_stored}

snoc_empty : {A : Type 0} (xs : List A) (x : A) → is_empty (xs ++ (x ∷ [])) ≡ false
snoc_empty [] x = refl
snoc_empty (y ∷ xs) x = refl

decided :
    (b : Bool) (store : Store)
    → ◌>>◌ {E = String}
        (raise_if (not (true && b && true)) "replay final semantic preflight failed")
        (ok store)
      ≡ (if b then ok store else err "replay final semantic preflight failed")
decided true store = refl
decided false store = refl

module _ (database : Database) where
  holds-not_empty :
      (same : Row → Row → Bool) (rows : Rows) (t : Table) (row : Row)
      → stored_matches database same rows t row ≡ true
      → is_empty rows ≡ false
  unfolding stored_matches find_row
  holds-not_empty same [] t row h = absurd (false≢true h)
  holds-not_empty same (e ∷ rows) t row h = refl

  -- The log of a filled store is empty only if the store is.
  IsFilled-is_empty :
      (store : Store) → IsFilled database store → is_empty store.rows ≡ is_empty store.events
  unfolding append_row append_audit
  IsFilled-is_empty _ started = refl
  IsFilled-is_empty _ (saved now t cells store after inserted filled h) =
      elim (save_entity-eq-ok database now t cells store after inserted h) [
        | inl (_, same) ↦
            subst (λ (s : Store). is_empty s.rows ≡ is_empty s.events) (sym same)
              (IsFilled-is_empty store filled)
        | inr (_, _, same) ↦
            subst (λ (s : Store). is_empty s.rows ≡ is_empty s.events) (sym same)
              (snoc_empty store.rows _ ∙ sym (snoc_empty store.events _))
      ]

  module _ (is_valid : Table → Json → Bool) (contexts_match : Store → Bool)
      (reads : (key : List (String × String)) (print : String)
        → database.read_payload (database.print_payload key print)
          ≡ some (key_json key, print)) where
    -- The last test of the transaction never refuses what its calls have stored: in a filled store, a
    -- replay whose calls all return is committed exactly when the comparisons with the contexts hold, for
    -- a JSON library that reads a payload back. Its rows are then stored with their values, and the
    -- store is filled.
    pub save_replay-IsCommitted :
        (now : ℕ → String) (e : ReplayEntities) (store after : Store)
        → IsFilled database store
        → run_steps database now (replay_steps database e) store ≡ ok after
        → (save_replay database is_valid contexts_match now e store ≡ (
            if contexts_match after
            then ok after
            else err "replay final semantic preflight failed"))
          × All (λ r. is_stored database after r ≡ true) (compared_rows database e)
          × IsFilled database after
    unfolding save_replay final_preflight
    save_replay-IsCommitted now e store after f h =
        let stored = replay_steps-is_stored database now e store after h in
        let filled = replay_steps-IsFilled database now e store after f h in
        let there =
          sym (IsFilled-is_empty after filled)
          ∙ holds-not_empty same_row after.rows replay_admissions
              (entity_of (fields_of replay_admissions) e.admission) stored.0 in
        let verifies = IsFilled-verifies database is_valid reads false after filled there in
        (
          (rw h (
              rw ((all_iff (is_stored database after) (compared_rows database e)).1 stored)
                (rw verifies (decided (contexts_match after) after)))),
          stored,
          filled,
        )

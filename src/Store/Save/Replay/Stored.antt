-- ===== src/Store/Save/Replay/Stored.antt =====
-- The rows of a native replay are stored, so the last test of its transaction passes.
use mathlib.Core.Path.{subst}
use mathlib.Core.List.{map-append}
use qualityci.Store.Audit.{
  Table, cases, runs, baselines, run_validation_sets, authorization_trust_snapshots,
  replay_admissions, replay_ledger, replay_validation_bindings,
  replay_authorization_authenticity_bindings, approval_subjects, approval_assertions,
  approval_consumptions, replay_approval_expectations, baseline_approval_bindings,
}
use qualityci.Store.Rows.{Cell, Row}
use qualityci.Store.Tables.{fields_of, order_of}
use qualityci.Store.Save.{Store, Database, entity_of, stored_matches, save_entity}
use qualityci.Store.Save.Verified.{IsFilled, saved}
use qualityci.Store.Save.Replay.{
  ReplayEntities, Step, run_steps, when_given, first_steps, middle_steps, replay_steps,
  compared_rows, given_bindings, is_stored,
}
use qualityci.Prelude.{
  ℕ, suc, String, ◌≡◌, refl, sym, ap, ◌∙◌, Bool, true, Option, none, some, List, [], ◌∷◌, ◌++◌, map,
  nat_eq, string_eq, pair_eq, All, All-append, All-image, ok, >>=-eq-ok, ok_inj,
}
use qualityci.Store.Save.Kept.{same_by, save_entity-stored_matches, save_entity_kept}

module _ (database : Database) where
  -- A call for a row, and the rows of a replay in the order of its calls.
  abbrev saving : Table × List Cell → Step
  saving r now store = save_entity database now r.0 r.1 store

  abbrev rows_given : Table → Option (List Cell) → List (Table × List Cell)
  rows_given t none = []
  rows_given t (some cells) = (t, cells) ∷ []

  abbrev first_rows : ReplayEntities → List (Table × List Cell)
  first_rows e =
      (authorization_trust_snapshots, e.trust_snapshot)
      ∷ (cases, e.resolved_case)
      ∷ (runs, e.before_run)
      ∷ (runs, e.after_run)
      ∷ (run_validation_sets, e.before_validation)
      ∷ (run_validation_sets, e.after_validation)
      ∷ (approval_subjects, e.subject)
      ∷ []

  abbrev middle_rows : ReplayEntities → List (Table × List Cell)
  middle_rows e =
      (replay_admissions, e.admission)
      ∷ (replay_authorization_authenticity_bindings, e.authenticity_binding)
      ∷ (replay_ledger, e.ledger)
      ∷ (replay_validation_bindings, e.validation_binding)
      ∷ (approval_consumptions, e.consumption)
      ∷ []

  abbrev pub assertion_rows : List (List Cell) → List (Table × List Cell)
  assertion_rows assertions = map (λ cells. (approval_assertions, cells)) assertions

  abbrev pub replay_rows : ReplayEntities → List (Table × List Cell)
  replay_rows e =
      first_rows e
      ++ (assertion_rows e.assertions
          ++ (rows_given baselines e.baseline
              ++ (middle_rows e
                  ++ (rows_given baseline_approval_bindings e.baseline_binding
                      ++ ((replay_approval_expectations, e.expectation) ∷ [])))))

  append-saving :
      (xs : List Step) (us : List (Table × List Cell)) {ys : List Step}
      (vs : List (Table × List Cell))
      → xs ≡ map saving us
      → ys ≡ map saving vs
      → xs ++ ys ≡ map saving (us ++ vs)
  append-saving xs us {ys = ys} vs p q =
      ap (λ zs. zs ++ ys) p ∙ ap (λ zs. map saving us ++ zs) q ∙ sym (map-append saving us vs)

  when_given-saving :
      (t : Table) (o : Option (List Cell))
      → when_given (λ cells now store. save_entity database now t cells store) o
        ≡ map saving (rows_given t o)
  when_given-saving t none = refl
  when_given-saving t (some cells) = refl

  assertions-saving :
      (assertions : List (List Cell))
      → map (λ cells now store. save_entity database now approval_assertions cells store) assertions
        ≡ map saving (assertion_rows assertions)
  assertions-saving [] = refl
  assertions-saving (cells ∷ assertions) =
      ap (λ steps. saving (approval_assertions, cells) ∷ steps) (assertions-saving assertions)

  pub replay_steps-rows :
      (e : ReplayEntities) → replay_steps database e ≡ map saving (replay_rows e)
  replay_steps-rows e = append-saving (first_steps database e) (first_rows e) _ refl (
      append-saving _ (assertion_rows e.assertions) _ (assertions-saving e.assertions) (
        append-saving _ (rows_given baselines e.baseline) _ (when_given-saving baselines e.baseline)
          (append-saving (middle_steps database e) (middle_rows e) _ refl (
            append-saving _ (rows_given baseline_approval_bindings e.baseline_binding) _
              (when_given-saving baseline_approval_bindings e.baseline_binding) refl))))

  -- A row is stored, as the comparison of its call sees it.
  abbrev is_kept : Store → Table × List Cell → Bool
  is_kept store (t, cells) =
      stored_matches database (same_by database (order_of t)) store.rows t
        (entity_of (fields_of t) cells)

  pub run_steps_kept :
      (same : Row → Row → Bool) (now : ℕ → String) (rows : List (Table × List Cell))
      (store after : Store) (u : Table) (row : Row)
      → run_steps database now (map saving rows) store ≡ ok after
      → stored_matches database same store.rows u row ≡ true
      → stored_matches database same after.rows u row ≡ true
  unfolding run_steps
  run_steps_kept same now [] store after u row h there =
      subst (λ (s : Store). stored_matches database same s.rows u row ≡ true) (ok_inj h) there
  run_steps_kept same now (r ∷ rows) store after u row h there =
      let ((next, inserted), first, rest) =
        >>=-eq-ok (save_entity database (now 0) r.0 r.1 store) _ h in
      run_steps_kept same (λ n. now (suc n)) rows next after u row rest
        (save_entity_kept database same (now 0) r.0 r.1 store next inserted u row first there)

  run_steps-is_kept :
      (now : ℕ → String) (rows : List (Table × List Cell)) (store after : Store)
      → run_steps database now (map saving rows) store ≡ ok after
      → All (λ r. is_kept after r ≡ true) rows
  unfolding run_steps
  run_steps-is_kept now [] store after h = tt
  run_steps-is_kept now (r ∷ rows) store after h =
      let ((next, inserted), first, rest) =
        >>=-eq-ok (save_entity database (now 0) r.0 r.1 store) _ h in
      (
        run_steps_kept (same_by database (order_of r.0)) (λ n. now (suc n)) rows next after r.0
            (entity_of (fields_of r.0) r.1) rest
            (save_entity-stored_matches database (now 0) r.0 r.1 store next inserted first),
        run_steps-is_kept (λ n. now (suc n)) rows next after rest,
      )

  pub run_steps-IsFilled :
      (now : ℕ → String) (rows : List (Table × List Cell)) (store after : Store)
      → IsFilled database store
      → run_steps database now (map saving rows) store ≡ ok after
      → IsFilled database after
  unfolding run_steps
  run_steps-IsFilled now [] store after f h = subst (IsFilled database) (ok_inj h) f
  run_steps-IsFilled now (r ∷ rows) store after f h =
      let ((next, inserted), first, rest) =
        >>=-eq-ok (save_entity database (now 0) r.0 r.1 store) _ h in
      run_steps-IsFilled (λ n. now (suc n)) rows next after
        (saved (now 0) r.0 r.1 store next inserted f first) rest

  -- The calls of a replay leave a filled store in which its rows are stored with their values.
  pub replay_steps-IsFilled :
      (now : ℕ → String) (e : ReplayEntities) (store after : Store)
      → IsFilled database store
      → run_steps database now (replay_steps database e) store ≡ ok after
      → IsFilled database after
  replay_steps-IsFilled now e store after f h =
      run_steps-IsFilled now (replay_rows e) store after f
        (ap (λ steps. run_steps database now steps store) (sym (replay_steps-rows e)) ∙ h)

  pub replay_steps-is_stored :
      (now : ℕ → String) (e : ReplayEntities) (store after : Store)
      → run_steps database now (replay_steps database e) store ≡ ok after
      → All (λ r. is_stored database after r ≡ true) (compared_rows database e)
  unfolding order_of
  replay_steps-is_stored now e store after h =
      let P : Table × List Cell → Type 0 = λ r. is_kept after r ≡ true in
      let all_kept =
        run_steps-is_kept now (replay_rows e) store after
          (ap (λ steps. run_steps database now steps store) (sym (replay_steps-rows e)) ∙ h) in
      let Q : Table × List Cell → Type 0 = λ r. is_stored database after r ≡ true in
      let named : List Cell → Table × List Cell = λ cells. (approval_assertions, cells) in
      let (first, rest1) = (All-append P (first_rows e) _).0 all_kept in
      let (assertions, rest2) = (All-append P (assertion_rows e.assertions) _).0 rest1 in
      let (_, rest3) = (All-append P (rows_given baselines e.baseline) _).0 rest2 in
      let (middle, rest4) = (All-append P (middle_rows e) _).0 rest3 in
      let (baseline, last) =
        (All-append P (rows_given baseline_approval_bindings e.baseline_binding) _).0 rest4 in
      (
        middle.0,
        (
          middle.1.1.0,
          (
            middle.1.1.1.0,
            (
              first.1.1.1.1.1.1.0,
              (All-append Q (map named e.assertions) _).1 (
                (All-image Q named e.assertions).1 ((All-image P named e.assertions).0 assertions),
                (
                  middle.1.1.1.1.0,
                  (last.0, (middle.1.0, (first.0, given_stored e.baseline_binding baseline))),
                ),
              ),
            ),
          ),
        ),
      )
    where
      given_stored :
          (o : Option (List Cell))
          → All (λ r. is_kept after r ≡ true) (rows_given baseline_approval_bindings o)
          → All (λ r. is_stored database after r ≡ true) (given_bindings o)
      given_stored none h = tt
      given_stored (some cells) h = h

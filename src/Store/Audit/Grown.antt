-- ===== src/Store/Audit/Grown.antt =====
-- A log that verifies goes on verifying when more entities can be found.
use qualityci.Json.{Json}
use qualityci.Store.Audit.{
  AuditEvent, Table, Services, Entity, check_row, check_payload, check_entity, is_linked,
  verify_rounds,
}
use qualityci.Store.Audit.Extended.{passed_with, passes_with}
use qualityci.Prelude.{
  ℕ, suc, String, ◌≡◌, refl, ap, ◌∙◌, Bool, Option, none, some, List, [], ◌∷◌, nat_eq, string_eq,
  pair_eq,
}

module _ (services : Services) (find : String → Json → Option Entity)
    (kept : (action : String) (key : Json) (e : Entity)
      → services.entity_for_audit action key ≡ some e
      → find action key ≡ some e) where
  abbrev pub grown : Services
  grown = record services { entity_for_audit = find }

  check_entity_kept :
      (semantic : Bool) (audited : List (Table × List String)) (e : AuditEvent)
      {key : Table × List String}
      → check_entity services semantic audited e ≡ some key
      → check_entity grown semantic audited e ≡ some key
  unfolding check_entity
  check_entity_kept semantic audited e {key = key} h =
      payload (services.read_payload e.payload_json) h
    where
      row :
          (k : Json) (print : String) (o : Option Entity)
          → services.entity_for_audit e.action k ≡ o
          → check_row services semantic audited e print o ≡ some key
          → check_row grown semantic audited e print (find e.action k) ≡ some key
      row k print none found h = cc
      row k print (some entity) found h =
          ap (check_row grown semantic audited e print) (kept e.action k entity found) ∙ h

      payload :
          (o : Option (Json × String))
          → check_payload services semantic audited e o ≡ some key
          → check_payload grown semantic audited e o ≡ some key
      payload none h = cc
      payload (some (k, print)) h = row k print (services.entity_for_audit e.action k) refl h

  -- If every entity that was found is found still, then the rounds that passed pass still.
  pub verify_rounds_kept :
      (semantic : Bool) (n : ℕ) (previous : String) (audited : List (Table × List String))
      (events : List AuditEvent) {after : List (Table × List String)}
      → verify_rounds services semantic n previous audited events ≡ some after
      → verify_rounds grown semantic n previous audited events ≡ some after
  unfolding verify_rounds is_linked
  verify_rounds_kept semantic n previous audited [] h = h
  verify_rounds_kept semantic n previous audited (e ∷ events) h =
      let (key, linked, checked, rest) =
        passed_with (is_linked services n previous e) (check_entity services semantic audited e)
          (λ key. verify_rounds services semantic (suc n) e.event_hash (key ∷ audited) events) h in
      passes_with (is_linked grown n previous e) (check_entity grown semantic audited e)
        (λ key. verify_rounds grown semantic (suc n) e.event_hash (key ∷ audited) events) linked
        (check_entity_kept semantic audited e checked)
        (verify_rounds_kept semantic (suc n) e.event_hash (key ∷ audited) events rest)

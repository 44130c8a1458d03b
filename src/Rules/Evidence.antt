-- ===== src/Rules/Evidence.antt =====
-- src/qualityci/rules.py: the constructors of evidence references and of findings.
use qualityci.Text.{concat}
use qualityci.Case.{Case, Document, Event, Item, Link}
use qualityci.Model.{CheckStatus, EvidenceRef, Finding}
use qualityci.Prelude.{String, Option, none, some, List, [], ◌∷◌, nat_eq, string_eq, pair_eq}

unfoldable pub evidence : Document → String → EvidenceRef
evidence doc locator = record {
  document_id = doc.document_id;
  revision = doc.revision;
  locator = locator;
  source_hash = doc.source_hash;
}

unfoldable pub event_evidence : Event → String → EvidenceRef
event_evidence event locator = record {
  document_id = "CHANGE_EVENT";
  revision = event.revision;
  locator = locator;
  source_hash = "";
}

unfoldable pub case_evidence : Case → String → EvidenceRef
case_evidence case locator = record {
  document_id = "CASE_INPUT";
  revision = "1";
  locator = locator;
  source_hash = "";
}

unfoldable pub finding : String → CheckStatus → String → List EvidenceRef → Finding
finding rule_id status severity refs = record {
  rule_id = rule_id;
  status = status;
  severity = severity;
  evidence = refs;
}

-- `d.get(key, default)`
abbrev pub get_or : Option String → String → String
get_or none default = default
get_or (some value) default = value

abbrev pub pair_label : Link → String
unfolding concat
pair_label pair = concat ("(" ∷ pair.process_step_id ∷ ", " ∷ pair.characteristic_id ∷ ")" ∷ [])

abbrev pair_locator : String → Link → String
unfolding concat
pair_locator collection pair = concat (
    collection ∷ "[process_step_id=" ∷ pair.process_step_id ∷ "][characteristic_id="
    ∷ pair.characteristic_id ∷ "]" ∷ [])

unfoldable pub relationship_evidence : Document → Item → EvidenceRef
unfolding evidence
relationship_evidence doc item = evidence doc (get_or item.locator "RELATION_LOCATOR_MISSING")

unfoldable pub missing_relationship_evidence : Document → String → Link → EvidenceRef
unfolding evidence concat
missing_relationship_evidence doc collection pair =
    evidence doc (pair_locator (concat ("fields." ∷ collection ∷ [])) pair)

unfoldable pub event_relationship_evidence : Event → Link → EvidenceRef
unfolding event_evidence concat
event_relationship_evidence event pair = event_evidence event (pair_locator "affected_links" pair)

-- ===== src/Evaluation.antt =====
-- src/qualityci/evaluation.py: the truth vectors, the loop over the mutations and the metrics of
-- `evaluate_benchmark`.
pub mod Sets
pub mod Counts
pub mod Bounds
use qualityci.Model.{CheckStatus, pass, contradicted, unverifiable, EvidenceRef, Finding}
use qualityci.Run.{RunResult}
use qualityci.Rules.Evidence.{get_or}
use qualityci.Prelude.Dict.{lookup, insert}
use qualityci.Prelude.{
  ℕ, suc, ◌+◌, ◌-◌, ◌*◌, String, Bool, not, ◌&&◌, Option, none, some, List, ◌∷◌, map, eqb,
  if◌then◌else◌, ◌==◌, nat_eq, string_eq, pair_eq, length, is_empty, all, keep, contains, Result,
  ok, err, raise_if, [], ◌>>=◌, ◌>>◌,
}

-- A quotient of natural numbers, by its numerator and its denominator.
pub record Ratio : Type 0 where
  pub numerator : ℕ
  pub denominator : ℕ

-- `_ratio`: 0/1 when the denominator is 0.
unfoldable pub ratio : ℕ → ℕ → Ratio
ratio numerator denominator =
    if eqb denominator 0
    then record { numerator = 0; denominator = 1 }
    else record { numerator = numerator; denominator = denominator }

-- `_ratio(2 * p * r, p + r)` for two quotients, with the denominators cleared.
unfoldable pub f1_ratio : Ratio → Ratio → Ratio
unfolding ratio
f1_ratio p r =
    ratio (2 * (p.numerator * r.numerator))
      (p.numerator * r.denominator + p.denominator * r.numerator)

-- A mutation file; `expected_rule_statuses` is `none` when it is not an object.
pub record Mutation : Type 0 where
  pub mutation_id : String
  pub expected_rule_statuses : Option (List (String × String))

pub record MutationEvaluation : Type 0 where
  pub mutation_id : String
  pub exact_rule_state_match : Bool
  pub expected_rule_statuses : List (String × String)
  pub actual_rule_statuses : List (String × String)
  pub mismatched_rule_ids : List String
  pub expected_positive_rule_ids : List String
  pub predicted_positive_rule_ids : List String
  pub positive_findings_with_evidence : ℕ
  pub predicted_positive_findings : ℕ

-- The counters of the loop.
pub record Totals : Type 0 where
  pub total_state_correct : ℕ
  pub total_state_count : ℕ
  pub exact_mutations : ℕ
  pub true_positives : ℕ
  pub false_positives : ℕ
  pub false_negatives : ℕ
  pub evidence_present : ℕ
  pub predicted_positive_count : ℕ
  pub mutations_evaluated : ℕ

abbrev pub no_totals : Totals
no_totals = record {
  total_state_correct = 0;
  total_state_count = 0;
  exact_mutations = 0;
  true_positives = 0;
  false_positives = 0;
  false_negatives = 0;
  evidence_present = 0;
  predicted_positive_count = 0;
  mutations_evaluated = 0;
}

-- `str(status)`
abbrev pub status_name : CheckStatus → String
status_name pass = "PASS"
status_name contradicted = "CONTRADICTED"
status_name unverifiable = "UNVERIFIABLE"

abbrev pub allowed_statuses : List String
allowed_statuses = "PASS" ∷ "CONTRADICTED" ∷ "UNVERIFIABLE" ∷ []

abbrev pub keys {ℓ} : {V : Type ℓ} → List (String × V) → List String
keys d = map (λ e. e.0) d

-- `set(xs) != set(ys)`
abbrev pub differ : List String → List String → Bool
differ xs ys = not (all xs (contains ys) && all ys (contains xs))

-- `{finding.rule_id: finding for finding in findings}`, after the entries there are.
unfoldable pub by_rule : List (String × Finding) → List Finding → List (String × Finding)
by_rule d [] = d
by_rule d (f ∷ fs) = by_rule (insert f.rule_id f d) fs

-- `_validate_truth_vector`
unfoldable pub validate_truth_vector :
    List String → Option (List (String × String)) → Result String (List (String × String))
validate_truth_vector rule_ids none = err "expected_rule_statuses must be an object"
validate_truth_vector rule_ids (some truth) = do
  raise_if (differ (keys truth) rule_ids) "truth vector must cover the complete ruleset"
  raise_if (not (all truth (λ e. contains allowed_statuses e.1))) "invalid expected statuses"
  ok truth

-- `{rule_id for rule_id, status in statuses.items() if status != "PASS"}`
abbrev pub positives : List (String × String) → List String
positives statuses = keys (keep (λ e. not (e.1 == "PASS")) statuses)

-- `xs & ys`
abbrev pub common : List String → List String → List String
common xs ys = keep (contains ys) xs

-- `xs - ys`
abbrev pub minus : List String → List String → List String
minus xs ys = keep (λ x. not (contains ys x)) xs

-- `actual[rule_id] != expected[rule_id]`
abbrev pub mismatches : List (String × String) → List (String × String) → String → Bool
mismatches actual expected rule_id =
    not (get_or (lookup rule_id actual) "" == get_or (lookup rule_id expected) "")

-- One round of the loop, after the run: the evaluation of the mutation.
unfoldable pub evaluate_mutation :
    List String → Mutation → RunResult → Result String MutationEvaluation
unfolding validate_truth_vector by_rule
evaluate_mutation rule_ids mutation result = do
  let findings = by_rule [] result.findings
  raise_if (differ (keys findings) rule_ids) "runtime ruleset differs from baseline"
  expected ← validate_truth_vector rule_ids mutation.expected_rule_statuses
  let actual = map (λ (e : String × Finding). (e.0, status_name e.1.status)) findings
  let mismatched = keep (mismatches actual expected) rule_ids
  let predicted = positives actual
  let evidenced =
      keep (λ (e : String × Finding). not (is_empty e.1.evidence))
        (keep (λ (e : String × Finding). not (status_name e.1.status == "PASS")) findings)
  ok (record {
    mutation_id = mutation.mutation_id;
    exact_rule_state_match = is_empty mismatched;
    expected_rule_statuses = expected;
    actual_rule_statuses = actual;
    mismatched_rule_ids = mismatched;
    expected_positive_rule_ids = positives expected;
    predicted_positive_rule_ids = predicted;
    positive_findings_with_evidence = length evidenced;
    predicted_positive_findings = length predicted;
  })

-- The counters after a mutation.
unfoldable pub count : List String → Totals → MutationEvaluation → Totals
count rule_ids totals m =
    let expected = m.expected_positive_rule_ids in
    let predicted = m.predicted_positive_rule_ids in
    let rules = length rule_ids in
    record {
      total_state_correct = totals.total_state_correct + (rules - length m.mismatched_rule_ids);
      total_state_count = totals.total_state_count + rules;
      exact_mutations = totals.exact_mutations + (if m.exact_rule_state_match then 1 else 0);
      true_positives = totals.true_positives + length (common expected predicted);
      false_positives = totals.false_positives + length (minus predicted expected);
      false_negatives = totals.false_negatives + length (minus expected predicted);
      evidence_present = totals.evidence_present + m.positive_findings_with_evidence;
      predicted_positive_count = totals.predicted_positive_count + m.predicted_positive_findings;
      mutations_evaluated = suc totals.mutations_evaluated;
    }

-- The run over the case of a mutation: `load_case` and the entry points of the engine.
module _ (run_mutation : Mutation → Result String RunResult) (rule_ids : List String) where
  -- The loop over the mutations, with the ids seen so far.
  unfoldable pub evaluate_mutations : List String → Totals → List Mutation → Result String Totals
  unfolding evaluate_mutation count
  evaluate_mutations seen totals [] = ok totals
  evaluate_mutations seen totals (mutation ∷ mutations) = do
    raise_if (mutation.mutation_id == "") "mutation_id is required"
    raise_if (contains seen mutation.mutation_id) "duplicate mutation_id"
    result ← run_mutation mutation
    evaluation ← evaluate_mutation rule_ids mutation result
    evaluate_mutations (mutation.mutation_id ∷ seen) (count rule_ids totals evaluation) mutations

pub record BenchmarkMetrics : Type 0 where
  pub rule_state_accuracy : Ratio
  pub mutation_pass_rate : Ratio
  pub finding_precision : Ratio
  pub finding_recall : Ratio
  pub finding_f1 : Ratio
  pub evidence_present_rate : Ratio

-- The metrics of the returned `BenchmarkEvaluation`.
unfoldable pub metrics_of : Totals → BenchmarkMetrics
unfolding ratio f1_ratio
metrics_of t =
    let precision = ratio t.true_positives (t.true_positives + t.false_positives) in
    let recall = ratio t.true_positives (t.true_positives + t.false_negatives) in
    record {
      rule_state_accuracy = ratio t.total_state_correct t.total_state_count;
      mutation_pass_rate = ratio t.exact_mutations t.mutations_evaluated;
      finding_precision = precision;
      finding_recall = recall;
      finding_f1 = f1_ratio precision recall;
      evidence_present_rate = ratio t.evidence_present t.predicted_positive_count;
    }

-- ===== src/Evaluation/Counts.antt =====
-- The counters of the loop over the mutations agree with each other after every round.
use mathlib.Core.Path.{subst}
use qualityci.Model.{Finding}
use qualityci.Run.{RunResult}
use qualityci.Evaluation.{
  Mutation, MutationEvaluation, Totals, no_totals, status_name, allowed_statuses, keys, differ,
  by_rule, validate_truth_vector, positives, mismatches, evaluate_mutation, count,
  evaluate_mutations,
}
use qualityci.Evaluation.Sets.{
  IsDistinct, length-keep-split, length-keep_le, length-common_comm, by_rule-IsDistinct,
  keep-IsDistinct,
}
use qualityci.Prelude.{
  suc, ◌+◌, ◌≤◌, String, ◌≡◌, refl, sym, ap, ◌∙◌, ◌↔◌, inl, inr, true, false, not, Option, none,
  some, List, [], ◌∷◌, map, arith, ◌==◌, nat_eq, string_eq, pair_eq, Bool-cases, length, is_empty,
  all, keep, All, contains, Result, ok, raise_if-eq-ok, >>=-eq-ok, ok_inj,
}

-- The keys of a JSON object are distinct.
abbrev pub HasDistinctKeys : Option (List (String × String)) → Type 0
HasDistinctKeys none = Unit
HasDistinctKeys (some truth) = IsDistinct (keys truth)

abbrev pub HasDistinctTruth : Mutation → Type 0
HasDistinctTruth mutation = HasDistinctKeys mutation.expected_rule_statuses

abbrev statuses_of : List (String × Finding) → List (String × String)
statuses_of findings = map (λ (e : String × Finding). (e.0, status_name e.1.status)) findings

keys_of_statuses :
    (findings : List (String × Finding)) → keys (statuses_of findings) ≡ keys findings
keys_of_statuses [] = refl
keys_of_statuses (e ∷ d) = ap (λ ks. e.0 ∷ ks) (keys_of_statuses d)

length-positives :
    (findings : List (String × Finding))
    → length (positives (statuses_of findings))
      ≡ length (keep (λ (e : String × Finding). not (status_name e.1.status == "PASS")) findings)
length-positives [] = refl
length-positives (e ∷ d) = elim (Bool-cases (status_name e.1.status == "PASS")) [
  | inl c ↦ rw c (length-positives d)
  | inr c ↦ rw c (ap suc (length-positives d))
]

-- What an evaluation of a mutation says of its own parts.
record IsEvaluated (rule_ids : List String) (m : MutationEvaluation) : Type 0 where
  exact : m.exact_rule_state_match ≡ is_empty m.mismatched_rule_ids
  mismatched : length m.mismatched_rule_ids ≤ length rule_ids
  predicted : m.predicted_positive_findings ≡ length m.predicted_positive_rule_ids
  distinct_predicted : IsDistinct m.predicted_positive_rule_ids
  distinct_expected : IsDistinct m.expected_positive_rule_ids
  evidence : m.positive_findings_with_evidence ≤ m.predicted_positive_findings

validate_truth_vector-eq-ok :
    (rule_ids : List String) (mutation : Mutation) {truth : List (String × String)}
    → HasDistinctTruth mutation
    → validate_truth_vector rule_ids mutation.expected_rule_statuses ≡ ok truth
    → IsDistinct (keys truth)
unfolding validate_truth_vector
validate_truth_vector-eq-ok rule_ids mutation d h = go mutation.expected_rule_statuses d h
  where
    go :
        (o : Option (List (String × String))) {truth : List (String × String)}
        → HasDistinctKeys o
        → validate_truth_vector rule_ids o ≡ ok truth
        → IsDistinct (keys truth)
    go none d h = cc
    go (some t) d h =
        let (_, h1) = (raise_if-eq-ok (differ (keys t) rule_ids) _ _).0 h in
        let (_, h2) =
          (raise_if-eq-ok (not (all t (λ e. contains allowed_statuses e.1))) _ _).0 h1 in
        subst (λ t. IsDistinct (keys t)) (ok_inj h2) d

evaluate_mutation-IsEvaluated :
    (rule_ids : List String) (mutation : Mutation) (result : RunResult) (m : MutationEvaluation)
    → HasDistinctTruth mutation
    → evaluate_mutation rule_ids mutation result ≡ ok m
    → IsEvaluated rule_ids m
unfolding evaluate_mutation
evaluate_mutation-IsEvaluated rule_ids mutation result m d h =
    let findings = by_rule [] result.findings in
    let actual = statuses_of findings in
    let (_, h1) = (raise_if-eq-ok (differ (keys findings) rule_ids) _ _).0 h in
    let (expected, validated, h2) =
      >>=-eq-ok (validate_truth_vector rule_ids mutation.expected_rule_statuses) _ h1 in
    let truth = validate_truth_vector-eq-ok rule_ids mutation d validated in
    let positive =
      keep (λ (e : String × Finding). not (status_name e.1.status == "PASS")) findings in
    let with_evidence = λ (e : String × Finding). not (is_empty e.1.evidence) in
    let once = by_rule-IsDistinct [] result.findings tt in
    subst (IsEvaluated rule_ids) (ok_inj h2) (record {
      exact = refl;
      mismatched = length-keep_le (mismatches actual expected) rule_ids;
      predicted = refl;
      distinct_predicted =
          keep-IsDistinct (λ e. not (e.1 == "PASS")) actual
            (subst IsDistinct (sym (keys_of_statuses findings)) once);
      distinct_expected = keep-IsDistinct (λ e. not (e.1 == "PASS")) expected truth;
      evidence =
          subst (λ n. length (keep with_evidence positive) ≤ n) (sym (length-positives findings))
            (length-keep_le with_evidence positive);
    })

-- The counters agree: no more rule states are correct than were compared, and all are exactly when
-- every mutation matched exactly; the true and the false positives are the predicted ones together;
-- and no more positive findings carry evidence than were predicted.
pub record IsTallied (t : Totals) : Type 0 where
  pub states : t.total_state_correct ≤ t.total_state_count
  pub mutations : t.exact_mutations ≤ t.mutations_evaluated
  pub all_exact :
      (t.exact_mutations ≡ t.mutations_evaluated) ↔ (t.total_state_correct ≡ t.total_state_count)
  pub predictions : t.true_positives + t.false_positives ≡ t.predicted_positive_count
  pub evidence : t.evidence_present ≤ t.predicted_positive_count

no_totals-IsTallied : IsTallied no_totals
no_totals-IsTallied = record {
  states = omega arith;
  mutations = omega arith;
  all_exact = (λ h. refl, λ h. refl);
  predictions = refl;
  evidence = omega arith;
}

no_element : {A : Type 0} (xs : List A) → is_empty xs ≡ true → length xs ≡ 0
no_element [] h = refl
no_element (x ∷ xs) h = cc

some_element : {A : Type 0} (xs : List A) → is_empty xs ≡ false → 1 ≤ length xs
some_element [] h = cc
some_element (x ∷ xs) h = omega arith

count-IsTallied :
    (rule_ids : List String) (t : Totals) (m : MutationEvaluation)
    → IsEvaluated rule_ids m
    → IsTallied t
    → IsTallied (count rule_ids t m)
unfolding count
count-IsTallied rule_ids t m e i =
    let expected = m.expected_positive_rule_ids in
    let predicted = m.predicted_positive_rule_ids in
    let split = length-keep-split (contains expected) predicted in
    let same = length-common_comm expected predicted e.distinct_expected e.distinct_predicted in
    let mismatched = e.mismatched in
    let here = e.evidence in
    let states = i.states in
    let mutations = i.mutations in
    let evidence = i.evidence in
    record {
      states = omega arith;
      mutations = elim (Bool-cases m.exact_rule_state_match) [
        | inl x ↦ rw x (omega arith)
        | inr x ↦ rw x (omega arith)
      ];
      all_exact = elim (Bool-cases m.exact_rule_state_match) [
        | inl x ↦
            let none_wrong = no_element m.mismatched_rule_ids (sym e.exact ∙ x) in
            rw x (
              λ h. let before = i.all_exact.0 (omega arith) in omega arith,
              λ h. let before = i.all_exact.1 (omega arith) in omega arith,
            )
        | inr x ↦
            let wrong = some_element m.mismatched_rule_ids (sym e.exact ∙ x) in
            rw x (λ h. omega arith, λ h. omega arith)
      ];
      predictions = omega (arith, i.predictions, e.predicted);
      evidence = omega arith;
    }

module _ (run_mutation : Mutation → Result String RunResult) (rule_ids : List String) where
  evaluate_mutations-keeps :
      (seen : List String) (before : Totals) (mutations : List Mutation) (after : Totals)
      → All HasDistinctTruth mutations
      → IsTallied before
      → evaluate_mutations run_mutation rule_ids seen before mutations ≡ ok after
      → IsTallied after
  unfolding evaluate_mutations
  evaluate_mutations-keeps seen before [] after d i h = subst IsTallied (ok_inj h) i
  evaluate_mutations-keeps seen before (mutation ∷ mutations) after d i h =
      let (_, h1) = (raise_if-eq-ok (mutation.mutation_id == "") _ _).0 h in
      let (_, h2) = (raise_if-eq-ok (contains seen mutation.mutation_id) _ _).0 h1 in
      let (result, _, h3) = >>=-eq-ok (run_mutation mutation) _ h2 in
      let (m, evaluated, h4) = >>=-eq-ok (evaluate_mutation rule_ids mutation result) _ h3 in
      let now = evaluate_mutation-IsEvaluated rule_ids mutation result m d.0 evaluated in
      evaluate_mutations-keeps (mutation.mutation_id ∷ seen) (count rule_ids before m) mutations
        after d.1 (count-IsTallied rule_ids before m now i) h4

  -- After the loop over mutations whose truth vectors repeat no key, the counters agree: at most the
  -- compared rule states are correct, all of them exactly when every mutation matched exactly; the
  -- true and false positives add up to the predicted ones; and at most the predicted ones carry
  -- evidence.
  pub evaluate_mutations-IsTallied :
      (mutations : List Mutation) (after : Totals)
      → All HasDistinctTruth mutations
      → evaluate_mutations run_mutation rule_ids [] no_totals mutations ≡ ok after
      → IsTallied after
  evaluate_mutations-IsTallied mutations after d h =
      evaluate_mutations-keeps [] no_totals mutations after d no_totals-IsTallied h

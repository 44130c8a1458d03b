-- ===== src/Evaluation/Bounds.antt =====
-- The metrics of the benchmark are proportions.
use native.Mathlib.Nat.{mul-le-mul_left, mul-le-mul_right}
use qualityci.Run.{RunResult}
use qualityci.Evaluation.{
  Ratio, ratio, f1_ratio, Mutation, Totals, no_totals, evaluate_mutations, BenchmarkMetrics,
  metrics_of,
}
use qualityci.Evaluation.Counts.{HasDistinctTruth, IsTallied, evaluate_mutations-IsTallied}
use qualityci.Prelude.{
  ℕ, ◌+◌, ◌*◌, ◌≤◌, ◌<◌, String, ◌≡◌, inl, inr, List, [], arith, eqb, nat_eq, string_eq, pair_eq,
  Bool-cases, All, Result, ok,
}

-- A number between 0 and 1.
pub record IsProportion (r : Ratio) : Type 0 where
  pub at_most_one : r.numerator ≤ r.denominator
  pub defined : 0 < r.denominator

pub record AreProportions (m : BenchmarkMetrics) : Type 0 where
  pub accuracy : IsProportion m.rule_state_accuracy
  pub pass_rate : IsProportion m.mutation_pass_rate
  pub precision : IsProportion m.finding_precision
  pub recall : IsProportion m.finding_recall
  pub f1 : IsProportion m.finding_f1
  pub evidence : IsProportion m.evidence_present_rate

ratio-IsProportion : (n d : ℕ) → n ≤ d → IsProportion (ratio n d)
unfolding ratio
ratio-IsProportion n d h = elim (Bool-cases (eqb d 0)) [
  | inl e ↦ rw e (record { at_most_one = omega arith; defined = omega arith })
  | inr e ↦ rw e (record { at_most_one = h; defined = ground arith })
]

f1_ratio-IsProportion :
    (p r : Ratio) → IsProportion p → IsProportion r → IsProportion (f1_ratio p r)
unfolding f1_ratio
f1_ratio-IsProportion p r hp hr =
    let precise = mul-le-mul_right r.numerator hp.at_most_one in
    let recalled = mul-le-mul_left p.numerator hr.at_most_one in
    ratio-IsProportion (2 * (p.numerator * r.numerator))
      (p.numerator * r.denominator + p.denominator * r.numerator) (omega arith)

metrics_of-AreProportions : (t : Totals) → IsTallied t → AreProportions (metrics_of t)
unfolding metrics_of
metrics_of-AreProportions t i =
    let precision =
      ratio-IsProportion t.true_positives (t.true_positives + t.false_positives) (omega arith) in
    let recall =
      ratio-IsProportion t.true_positives (t.true_positives + t.false_negatives) (omega arith) in
    record {
      accuracy = ratio-IsProportion t.total_state_correct t.total_state_count i.states;
      pass_rate = ratio-IsProportion t.exact_mutations t.mutations_evaluated i.mutations;
      precision = precision;
      recall = recall;
      f1 = f1_ratio-IsProportion _ _ precision recall;
      evidence = ratio-IsProportion t.evidence_present t.predicted_positive_count i.evidence;
    }

-- Every metric of a benchmark that is evaluated, over mutations whose truth vectors repeat no key, is
-- a defined quotient between 0 and 1: the accuracy, the pass rate, the precision, the recall, the F1
-- of the two, and the rate of evidence.
pub evaluate_mutations-AreProportions :
    (run_mutation : Mutation → Result String RunResult) (rule_ids : List String)
    (mutations : List Mutation) (after : Totals)
    → All HasDistinctTruth mutations
    → evaluate_mutations run_mutation rule_ids [] no_totals mutations ≡ ok after
    → AreProportions (metrics_of after)
evaluate_mutations-AreProportions run_mutation rule_ids mutations after d h =
    metrics_of-AreProportions after
      (evaluate_mutations-IsTallied run_mutation rule_ids mutations after d h)

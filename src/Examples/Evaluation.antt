-- ===== src/Examples/Evaluation.antt =====
-- A benchmark of two mutations, and the theorems on the evaluation applied to it.
use qualityci.Prelude.Dict.{lookup, insert}
use qualityci.Model.{CheckStatus, pass, contradicted}
use qualityci.Run.{RunResult}
use qualityci.Rules.Evidence.{finding, event_evidence}
use qualityci.Evaluation.{
  Mutation, Totals, no_totals, by_rule, validate_truth_vector, evaluate_mutation, count,
  evaluate_mutations, metrics_of,
}
use qualityci.Evaluation.Counts.{IsTallied, evaluate_mutations-IsTallied}
use qualityci.Evaluation.Bounds.{AreProportions, evaluate_mutations-AreProportions}
use qualityci.Engine.{run_of}
use qualityci.Examples.Rules.{program}
use qualityci.Examples.Data.{plain_text, fixed_hashes, sample, event, references, validation}
use qualityci.Prelude.{
  String, ◌≡◌, refl, some, List, [], ◌∷◌, nat_eq, string_eq, pair_eq, Result, ok,
}

abbrev run_with : CheckStatus → RunResult
run_with status =
    record (run_of plain_text fixed_hashes sample (some references) (some validation)) {
      findings =
          finding "QCI-R001" status "LOW" (event_evidence event "approvals" ∷ [])
          ∷ finding "QCI-R002" pass "LOW" []
          ∷ [];
    }

abbrev truth : String → List (String × String)
truth first = ("QCI-R001", first) ∷ ("QCI-R002", "PASS") ∷ []

abbrev mutations : List Mutation
mutations =
    record { mutation_id = "M1"; expected_rule_statuses = some (truth "CONTRADICTED") }
    ∷ record { mutation_id = "M2"; expected_rule_statuses = some (truth "PASS") }
    ∷ []

-- The run of every mutation has an alert of the first rule.
abbrev run_mutation : Mutation → Result String RunResult
run_mutation mutation = ok (run_with contradicted)

abbrev totals : Totals
totals = record {
  total_state_correct = 3;
  total_state_count = 4;
  exact_mutations = 1;
  true_positives = 1;
  false_positives = 1;
  false_negatives = 0;
  evidence_present = 2;
  predicted_positive_count = 2;
  mutations_evaluated = 2;
}

evaluates :
    evaluate_mutations run_mutation ("QCI-R001" ∷ "QCI-R002" ∷ []) [] no_totals mutations
    ≡ ok totals
unfolding evaluate_mutations evaluate_mutation validate_truth_vector by_rule count lookup insert
    finding event_evidence program
evaluates = refl

evaluate_mutations-IsTallied_example : IsTallied totals
evaluate_mutations-IsTallied_example =
    evaluate_mutations-IsTallied run_mutation ("QCI-R001" ∷ "QCI-R002" ∷ []) mutations totals
      ((refl, (refl, tt)), ((refl, (refl, tt)), tt)) evaluates

evaluate_mutations-AreProportions_example : AreProportions (metrics_of totals)
evaluate_mutations-AreProportions_example =
    evaluate_mutations-AreProportions run_mutation ("QCI-R001" ∷ "QCI-R002" ∷ []) mutations totals
      ((refl, (refl, tt)), ((refl, (refl, tt)), tt)) evaluates

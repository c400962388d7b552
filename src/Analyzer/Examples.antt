-- ===== src/Analyzer/Examples.antt =====
-- The theorems over the run of a rule set in which two rules throw.
use mathlib.Core.List.{Permᴰ}
use stack_lens.Base.Tests.{◌≡◌, ◌≤◌, refl, false, some, [], ◌∷◌, arith}
use stack_lens.Base.Lists.{length}
use stack_lens.Base.Text.{text, ◌===◌, text_lt}
use stack_lens.Base.Table.{mem}
use stack_lens.Base.Sort.{sort, insert_sorted}
use stack_lens.Base.Distinct.{are_new}
use stack_lens.Analyzer.Identifiers.{next_identifier, allocate_identifier}
use stack_lens.Analyzer.Identifiers.Fresh.{allocate_identifier_lem}
use stack_lens.Analyzer.Validation.{
  validate_limitations, validate_facts, validate_findings, validate_recommendations,
  validate_fact_rule_result, validate_finding_rule_result, validate_recommendation_rule_result,
  finding_of,
}
use stack_lens.Analyzer.References.{find_finding}
use stack_lens.Analyzer.Pipeline.{
  initial_state, failure_ids, evidence_ids, try_fact_rule, run_fact_rules, try_finding_rule,
  run_finding_rules, try_priority, run_priorities, try_recommendation_rule,
  run_recommendation_rules, run_stages,
}
use stack_lens.Analyzer.RuleSet.{is_accepted, run_rule_pipeline}
use stack_lens.Analyzer.RuleSet.Order.{run_rule_pipeline-permute}
use stack_lens.Analyzer.Consistency.{IsConsistent}
use stack_lens.Analyzer.Consistency.Priorities.{run_rule_pipeline-IsConsistent}
use stack_lens.Analyzer.Conservation.{Conserves, run_priorities-Conserves}
use stack_lens.Analyzer.Samples.{
  schemas, context, rule_a, rule_b, two_candidates, rule_c, prioritizer, rule_r, rules, result,
}

-- Both failures, and what is left.
failures_named :
    failure_ids result.partial_failures
    ≡ text "partial-failure:rule_evaluation_failed:B"
      ∷ text "partial-failure:priority_evaluation_failed:P:c2"
      ∷ []
unfolding run_rule_pipeline are_new sort insert_sorted text_lt ◌===◌ run_stages run_fact_rules
    try_fact_rule run_finding_rules try_finding_rule run_priorities try_priority
    run_recommendation_rules try_recommendation_rule validate_fact_rule_result
    validate_finding_rule_result validate_recommendation_rule_result validate_limitations
    validate_facts validate_findings validate_recommendations finding_of find_finding
    allocate_identifier next_identifier is_accepted
failures_named = refl

runs : run_rule_pipeline schemas context rules 5 ≡ some result
unfolding run_rule_pipeline are_new ◌===◌ is_accepted
runs = refl

allocate_identifier_lem_example :
    (mem (allocate_identifier (text "x") (text "x" ∷ text "x#2" ∷ [])) (text "x" ∷ text "x#2" ∷ [])
      ≡ false)
    × (length (allocate_identifier (text "x") (text "x" ∷ text "x#2" ∷ [])) ≤ 200)
allocate_identifier_lem_example =
    allocate_identifier_lem (text "x") (text "x" ∷ text "x#2" ∷ []) (omega arith)

run_rule_pipeline-IsConsistent_example : IsConsistent (evidence_ids context) result
run_rule_pipeline-IsConsistent_example =
    run_rule_pipeline-IsConsistent schemas context rules 5 result tt tt runs

run_rule_pipeline-permute_example :
    run_rule_pipeline schemas context rules 5
    ≡ run_rule_pipeline schemas context (record rules { fact_rules = rule_b ∷ rule_a ∷ [] }) 5
run_rule_pipeline-permute_example =
    run_rule_pipeline-permute schemas context rules 5 (rule_b ∷ rule_a ∷ []) (rule_c ∷ [])
      (rule_r ∷ []) (Permᴰ.swap refl refl) (Permᴰ.cons refl Permᴰ.nil) (Permᴰ.cons refl Permᴰ.nil)

run_priorities-Conserves_example :
    Conserves prioritizer.definition 5 two_candidates (initial_state context) (
      run_priorities schemas context 5 context [] two_candidates prioritizer two_candidates
        (initial_state context))
run_priorities-Conserves_example =
    run_priorities-Conserves schemas context 5 context [] two_candidates prioritizer two_candidates
      (initial_state context)

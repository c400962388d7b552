-- ===== src/Analyzer/Pipeline.antt =====
-- Running the rules (packages/analyzer-core/src/pipeline.ts, `runRulePipeline`). The sets of
-- identifiers are those of the lists that they grow with.
pub use stack_lens.Analyzer.State.{
  FailureCode, State, fact_ids, candidate_ids, finding_id, finding_ids, recommendation_ids,
  limitation_ids, failure_ids, failure_limitation, partial_failure_of, add_failure, settle,
  evidence_ids, stage_context, initial_state,
}
use stack_lens.Base.Tests.{ℕ, none, some, List, [], ◌∷◌, ◌++◌}
use stack_lens.Base.Lists.{all}
use stack_lens.Base.Text.{text_lt}
use stack_lens.Base.Sort.{sort}
use stack_lens.Base.Distinct.{are_new}
use stack_lens.Analyzer.Types.{
  RuleDefinition, Fact, Candidate, Finding, Attempt, done, ◌>>=◌, ◌>>◌, ensure, Context, FactRule,
  FindingRule, Prioritizer, RecommendationRule, RuleSet, Schemas,
}
use stack_lens.Analyzer.Identifiers.{allocate_identifier}
use stack_lens.Analyzer.Validation.{
  validate_fact_rule_result, validate_finding_rule_result, validate_recommendation_rule_result,
  finding_of,
}
use stack_lens.Analyzer.References.{cites, refers, recommends, find_finding}

-- `sortedRules`
abbrev pub sorted_rules {ℓ} : {A : Type ℓ} → (A → RuleDefinition) → List A → List A
sorted_rules definition rules = sort (λ a b. text_lt (definition a).id (definition b).id) rules

module _ (schemas : Schemas) {Project Metadata : Type 0} (context : Context Project Metadata)
    (at : ℕ) where
  unfoldable pub try_fact_rule :
      Context Project Metadata → FactRule Project Metadata → State → Attempt State
  unfolding validate_fact_rule_result
  try_fact_rule stage rule s = do
    emitted ← rule.evaluate stage
    result ← validate_fact_rule_result schemas rule.definition emitted
    ensure (are_new (fact_ids s.facts) (fact_ids result.facts))
    ensure (all (cites (evidence_ids context)) result.facts)
    ensure (are_new (limitation_ids s.limitations) (limitation_ids result.limitations))
    done (record s {
      facts = s.facts ++ result.facts;
      limitations = s.limitations ++ result.limitations;
    })

  unfoldable pub run_fact_rules :
      Context Project Metadata → List (FactRule Project Metadata) → State → State
  unfolding try_fact_rule allocate_identifier
  run_fact_rules stage [] s = s
  run_fact_rules stage (rule ∷ rest) s = run_fact_rules stage rest (
      settle rule.definition at FailureCode.rule_output_invalid FailureCode.rule_evaluation_failed
        none s (try_fact_rule stage rule s))

  unfoldable pub try_finding_rule :
      Context Project Metadata → List Fact → FindingRule Project Metadata → State → Attempt State
  unfolding validate_finding_rule_result
  try_finding_rule stage facts rule s = do
    emitted ← rule.evaluate stage facts
    result ← validate_finding_rule_result schemas rule.definition emitted
    ensure (are_new (candidate_ids s.candidates) (candidate_ids result.findings))
    ensure (are_new (limitation_ids s.limitations) (limitation_ids result.limitations))
    ensure (
        all
          (refers (evidence_ids context) (fact_ids s.facts)
            (limitation_ids s.limitations ++ limitation_ids result.limitations))
          result.findings)
    done (record s {
      candidates = s.candidates ++ result.findings;
      limitations = s.limitations ++ result.limitations;
    })

  unfoldable pub run_finding_rules :
      Context Project Metadata → List Fact → List (FindingRule Project Metadata) → State → State
  unfolding try_finding_rule allocate_identifier
  run_finding_rules stage facts [] s = s
  run_finding_rules stage facts (rule ∷ rest) s = run_finding_rules stage facts rest (
      settle rule.definition at FailureCode.rule_output_invalid FailureCode.rule_evaluation_failed
        none s (try_finding_rule stage facts rule s))

  unfoldable pub try_priority :
      Context Project Metadata
      → List Fact
      → List Candidate
      → Prioritizer Project Metadata
      → Candidate
      → State
      → Attempt State
  unfolding finding_of
  try_priority stage facts candidates prioritizer c s = do
    emitted ← prioritizer.prioritize stage facts candidates c
    finding ← finding_of schemas prioritizer.definition c emitted
    ensure (are_new (finding_ids s.findings) (finding_id finding ∷ []))
    done (record s { findings = s.findings ++ (finding ∷ []) })

  unfoldable pub run_priorities :
      Context Project Metadata
      → List Fact
      → List Candidate
      → Prioritizer Project Metadata
      → List Candidate
      → State
      → State
  unfolding try_priority allocate_identifier
  run_priorities stage facts candidates prioritizer [] s = s
  run_priorities stage facts candidates prioritizer (c ∷ rest) s =
      run_priorities stage facts candidates prioritizer rest (
        settle prioritizer.definition at FailureCode.priority_output_invalid
          FailureCode.priority_evaluation_failed (some c) s
          (try_priority stage facts candidates prioritizer c s))

  unfoldable pub try_recommendation_rule :
      Context Project Metadata
      → List Fact
      → List Finding
      → RecommendationRule Project Metadata
      → State
      → Attempt State
  unfolding validate_recommendation_rule_result find_finding
  try_recommendation_rule stage facts findings rule s = do
    emitted ← rule.evaluate stage facts findings
    result ← validate_recommendation_rule_result schemas rule.definition emitted
    ensure
        (are_new (recommendation_ids s.recommendations) (recommendation_ids result.recommendations))
    ensure (are_new (limitation_ids s.limitations) (limitation_ids result.limitations))
    ensure (
        all (recommends (evidence_ids context) (fact_ids s.facts) s.findings)
          result.recommendations)
    done (record s {
      recommendations = s.recommendations ++ result.recommendations;
      limitations = s.limitations ++ result.limitations;
    })

  unfoldable pub run_recommendation_rules :
      Context Project Metadata
      → List Fact
      → List Finding
      → List (RecommendationRule Project Metadata)
      → State
      → State
  unfolding try_recommendation_rule allocate_identifier
  run_recommendation_rules stage facts findings [] s = s
  run_recommendation_rules stage facts findings (rule ∷ rest) s =
      run_recommendation_rules stage facts findings rest (
        settle rule.definition at FailureCode.rule_output_invalid FailureCode.rule_evaluation_failed
          none s (try_recommendation_rule stage facts findings rule s))

  -- The four stages, each over its sorted rules.
  abbrev pub fact_stage : List (FactRule Project Metadata) → State
  fact_stage sorted =
      run_fact_rules (stage_context context (initial_state context)) sorted (initial_state context)

  abbrev pub finding_stage : List (FindingRule Project Metadata) → State → State
  finding_stage sorted s = run_finding_rules (stage_context context s) s.facts sorted s

  abbrev pub priority_stage : Prioritizer Project Metadata → State → State
  priority_stage prioritizer s =
      run_priorities (stage_context context s) s.facts s.candidates prioritizer s.candidates s

  abbrev pub recommendation_stage : List (RecommendationRule Project Metadata) → State → State
  recommendation_stage sorted s =
      run_recommendation_rules (stage_context context s) s.facts s.findings sorted s

  unfoldable pub run_stages : RuleSet Project Metadata → State
  unfolding run_fact_rules run_finding_rules run_priorities run_recommendation_rules sort text_lt
  run_stages rules =
      recommendation_stage (sorted_rules RecommendationRule.definition rules.recommendation_rules) (
        priority_stage rules.prioritizer (
          finding_stage (sorted_rules FindingRule.definition rules.finding_rules)
            (fact_stage (sorted_rules FactRule.definition rules.fact_rules))))

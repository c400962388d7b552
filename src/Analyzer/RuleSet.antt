-- ===== src/Analyzer/RuleSet.antt =====
-- Which rule sets are accepted, and the pipeline over one (packages/analyzer-core/src/pipeline.ts,
-- `assertDefinition`, `assertRuleSet`, `runRulePipeline`).
pub mod Order
use stack_lens.Base.Tests.{
  ℕ, Bool, true, false, not, ◌&&◌, ◌||◌, Option, none, some, List, [], ◌∷◌, ◌++◌, map, ◌==◌, leb,
  if◌then◌else◌,
}
use stack_lens.Base.Lists.{length, all, any}
use stack_lens.Base.Text.{Text, text, ◌===◌}
use stack_lens.Base.Distinct.{are_new}
use stack_lens.Analyzer.Types.{
  RuleDefinition, Context, FactRule, FindingRule, Prioritizer, RecommendationRule, RuleSet, Schemas,
}
use stack_lens.Analyzer.Pipeline.{State, run_stages}

-- Three digits.
abbrev is_number : Text → Bool
is_number (a ∷ b ∷ c ∷ []) = all (λ d. leb 48 d && leb d 57) (a ∷ b ∷ c ∷ [])
is_number _ = false

-- `-\d{3}$` after a prefix
abbrev follows : Text → Text → Bool
follows [] [] = false
follows [] (c ∷ s) = c == 45 && is_number s
follows (p ∷ ps) [] = false
follows (p ∷ ps) (c ∷ s) = p == c && follows ps s

abbrev prefixes : List Text
prefixes =
    text "PRD" ∷ text "FR" ∷ text "NFR" ∷ text "SEC" ∷ text "DATA" ∷ text "SCORE" ∷ text "GOV" ∷ []

-- `RequirementIdSchema`
abbrev pub is_requirement_id : Text → Bool
is_requirement_id s = any (λ p. follows p s) prefixes

abbrev pub is_definition : Schemas → RuleDefinition → Bool
is_definition schemas rule =
    schemas.is_identifier rule.id
    && schemas.is_identifier rule.version
    && not (length rule.requirement_ids == 0)
    && all is_requirement_id rule.requirement_ids

module _ {Project Metadata : Type 0} where
  abbrev pub definitions : RuleSet Project Metadata → List RuleDefinition
  definitions rules =
      map FactRule.definition rules.fact_rules
      ++ (map FindingRule.definition rules.finding_rules
          ++ (rules.prioritizer.definition
              ∷ map RecommendationRule.definition rules.recommendation_rules))

  unfoldable pub is_accepted : Schemas → RuleSet Project Metadata → Bool
  unfolding are_new
  is_accepted schemas rules =
      schemas.is_identifier rules.version
      && all (is_definition schemas) (definitions rules)
      && are_new [] (map RuleDefinition.id (definitions rules))
      && rules.prioritizer.is_priority

  -- `none` is the `AnalyzerConfigurationError` of `assertRuleSet`.
  unfoldable pub run_rule_pipeline :
      Schemas → Context Project Metadata → RuleSet Project Metadata → ℕ → Option State
  unfolding is_accepted run_stages
  run_rule_pipeline schemas context rules at =
      if is_accepted schemas rules then some (run_stages schemas context at rules) else none

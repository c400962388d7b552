-- ===== src/Analyzer/Validation.antt =====
-- What is required of the result of a rule (packages/analyzer-core/src/rules.ts), and of the
-- priority of a finding (priority.ts, `applyFindingPriority`).
use stack_lens.Base.Tests.{Bool, ◌&&◌, List, [], ◌∷◌, or_else}
use stack_lens.Base.Text.{Text, ◌===◌}
use stack_lens.Base.Table.{mem}
use stack_lens.Base.Distinct.{are_within}
use stack_lens.Contracts.{RuleReference, AnalysisLimitation}
use stack_lens.Rules.Priority.{FindingPriority}
use stack_lens.Analyzer.Types.{
  RuleDefinition, Fact, Candidate, Finding, Recommendation, Attempt, done, ◌>>=◌, ◌>>◌, ensure,
  parsed, FactResult, FindingResult, RecommendationResult, Schemas,
}

-- `assertOwnedRequirements`
abbrev pub owns_requirements : RuleDefinition → List Text → Bool
owns_requirements rule ids = are_within ids rule.requirement_ids

-- `assertRuleReference`
abbrev pub is_of_rule : RuleDefinition → RuleReference → Bool
is_of_rule rule r = r.id === rule.id && r.version === rule.version

pub record ValidFacts : Type 0 where
  pub facts : List Fact
  pub limitations : List AnalysisLimitation

pub record ValidFindings : Type 0 where
  pub findings : List Candidate
  pub limitations : List AnalysisLimitation

pub record ValidRecommendations : Type 0 where
  pub recommendations : List Recommendation
  pub limitations : List AnalysisLimitation

module _ (schemas : Schemas) (rule : RuleDefinition) where
  open schemas use {read_fact, read_candidate, read_recommendation, read_limitation}

  unfoldable pub validate_limitations : List AnalysisLimitation → Attempt (List AnalysisLimitation)
  validate_limitations [] = done []
  validate_limitations (l ∷ rest) = do
    read ← parsed (read_limitation l)
    ensure (mem rule.id read.rule_ids)
    others ← validate_limitations rest
    done (read ∷ others)

  unfoldable pub validate_facts : List Fact → Attempt (List Fact)
  validate_facts [] = done []
  validate_facts (f ∷ rest) = do
    read ← parsed (read_fact f)
    ensure (is_of_rule rule read.rule)
    ensure (owns_requirements rule read.requirement_ids)
    others ← validate_facts rest
    done (read ∷ others)

  unfoldable pub validate_findings : List Candidate → Attempt (List Candidate)
  validate_findings [] = done []
  validate_findings (f ∷ rest) = do
    read ← parsed (read_candidate f)
    ensure (is_of_rule rule read.rule)
    ensure (owns_requirements rule read.requirement_ids)
    others ← validate_findings rest
    done (read ∷ others)

  unfoldable pub validate_recommendations : List Recommendation → Attempt (List Recommendation)
  validate_recommendations [] = done []
  validate_recommendations (r ∷ rest) = do
    read ← parsed (read_recommendation r)
    ensure (is_of_rule rule read.rule)
    ensure (owns_requirements rule read.requirement_ids)
    others ← validate_recommendations rest
    done (read ∷ others)

  unfoldable pub validate_fact_rule_result : FactResult → Attempt ValidFacts
  unfolding validate_facts validate_limitations ◌===◌
  validate_fact_rule_result result = do
    facts ← validate_facts (or_else result.facts [])
    limitations ← validate_limitations (or_else result.limitations [])
    done (record { facts = facts; limitations = limitations })

  unfoldable pub validate_finding_rule_result : FindingResult → Attempt ValidFindings
  unfolding validate_findings validate_limitations ◌===◌
  validate_finding_rule_result result = do
    findings ← validate_findings (or_else result.findings [])
    limitations ← validate_limitations (or_else result.limitations [])
    done (record { findings = findings; limitations = limitations })

  unfoldable pub validate_recommendation_rule_result :
      RecommendationResult → Attempt ValidRecommendations
  unfolding validate_recommendations validate_limitations ◌===◌
  validate_recommendation_rule_result result = do
    recommendations ← validate_recommendations (or_else result.recommendations [])
    limitations ← validate_limitations (or_else result.limitations [])
    done (record { recommendations = recommendations; limitations = limitations })

  -- The rest of `applyFindingPriority`, once the prioritizer has been asked.
  unfoldable pub finding_of : Candidate → FindingPriority → Attempt Finding
  unfolding ◌===◌
  finding_of candidate priority = do
    read ← parsed (schemas.read_priority priority)
    ensure (is_of_rule rule read.rule)
    done (record { candidate = candidate; priority = read })

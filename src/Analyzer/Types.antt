-- ===== src/Analyzer/Types.antt =====
-- What rules are given and emit (context.ts, rules.ts, priority.ts and rule-definition.ts of
-- packages/analyzer-core/src). Of an entity of a report it has what the pipeline reads.
use stack_lens.Base.Tests.{Bool, true, false, Option, List}
use stack_lens.Base.Text.{Text}
use stack_lens.Contracts.{
  AnalysisInput, ScoreCategory, RuleReference, AnalysisLimitation, PartialFailure,
}
use stack_lens.Scoring.Types.{CheckDetails}
use stack_lens.Rules.Priority.{FindingPriority}

pub record RuleDefinition : Type 0 where
  pub id : Text
  pub version : Text
  pub requirement_ids : List Text

-- A source, and whether its status is `unavailable`.
pub record Source : Type 0 where
  pub id : Text
  pub is_unavailable : Bool

-- Evidence; external evidence names its source.
pub record Evidence : Type 0 where
  pub id : Text
  pub source_id : Option Text

pub record Fact : Type 0 where
  pub id : Text
  pub rule : RuleReference
  pub requirement_ids : List Text
  pub evidence_ids : List Text
  pub details : Option CheckDetails

-- The classification of a finding or the basis of a recommendation; a heuristic has the facts of
-- its confidence.
pub data Basis : Type 0 where
  fact : Basis
  heuristic : List Text → Basis

pub record Candidate : Type 0 where
  pub id : Text
  pub category : ScoreCategory
  pub rule : RuleReference
  pub requirement_ids : List Text
  pub evidence_ids : List Text
  pub fact_ids : List Text
  pub limitation_ids : List Text
  pub basis : Basis

pub record Finding : Type 0 where
  pub candidate : Candidate
  pub priority : FindingPriority

pub record Recommendation : Type 0 where
  pub id : Text
  pub rule : RuleReference
  pub requirement_ids : List Text
  pub evidence_ids : List Text
  pub finding_ids : List Text
  pub basis : Basis

-- What a rule that is evaluated comes to: a value, an `AnalyzerInvariantError`, or another error.
pub data Attempt (A : Type 0) : Type 0 where
  done : A → Attempt A
  invariant_broken crashed : Attempt A

infixl 5 ◌>>=◌ ◌>>◌
abbrev pub ◌>>=◌ : {A B : Type 0} → Attempt A → (A → Attempt B) → Attempt B
done a >>= f = f a
invariant_broken >>= f = invariant_broken
crashed >>= f = crashed

abbrev pub ◌>>◌ : {B : Type 0} → Attempt (Unit {0}) → Attempt B → Attempt B
m >> k = m >>= λ _. k

-- The assertions throw an `AnalyzerInvariantError`.
abbrev pub ensure : Bool → Attempt (Unit {0})
ensure true = done tt
ensure false = invariant_broken

-- A schema either refuses a value or gives the value that it read.
abbrev pub parsed : {A : Type 0} → Option A → Attempt A
parsed Option.none = invariant_broken
parsed (Option.some a) = done a

pub record FactResult : Type 0 where
  pub facts : Option (List Fact)
  pub limitations : Option (List AnalysisLimitation)

pub record FindingResult : Type 0 where
  pub findings : Option (List Candidate)
  pub limitations : Option (List AnalysisLimitation)

pub record RecommendationResult : Type 0 where
  pub recommendations : Option (List Recommendation)
  pub limitations : Option (List AnalysisLimitation)

-- `AnalysisContext`; `Project` and `Metadata` are the snapshots that the rules read.
pub record Context (Project Metadata : Type 0) : Type 0 where
  pub input : AnalysisInput
  pub project : Project
  pub metadata : Metadata
  pub sources : List Source
  pub evidence : List Evidence
  pub limitations : List AnalysisLimitation
  pub partial_failures : List PartialFailure

module _ (Project Metadata : Type 0) where
  pub record FactRule : Type 0 where
    pub definition : RuleDefinition
    pub evaluate : Context Project Metadata → Attempt FactResult

  pub record FindingRule : Type 0 where
    pub definition : RuleDefinition
    pub evaluate : Context Project Metadata → List Fact → Attempt FindingResult

  -- The prioritizer, with whether its `kind` is `priority`.
  pub record Prioritizer : Type 0 where
    pub definition : RuleDefinition
    pub is_priority : Bool
    pub prioritize :
        Context Project Metadata → List Fact → List Candidate → Candidate → Attempt FindingPriority

  pub record RecommendationRule : Type 0 where
    pub definition : RuleDefinition
    pub evaluate :
        Context Project Metadata → List Fact → List Finding → Attempt RecommendationResult

  pub record RuleSet : Type 0 where
    pub version : Text
    pub fact_rules : List FactRule
    pub finding_rules : List FindingRule
    pub prioritizer : Prioritizer
    pub recommendation_rules : List RecommendationRule

-- `safeParse` of the schemas, a function of the library that reads them.
pub record Schemas : Type 0 where
  pub is_identifier : Text → Bool
  pub read_fact : Fact → Option Fact
  pub read_candidate : Candidate → Option Candidate
  pub read_recommendation : Recommendation → Option Recommendation
  pub read_limitation : AnalysisLimitation → Option AnalysisLimitation
  pub read_priority : FindingPriority → Option FindingPriority

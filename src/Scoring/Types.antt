-- ===== src/Scoring/Types.antt =====
-- What the scorer reads and returns (packages/contracts/src/inspection.ts and score.ts). The texts
-- `scope` and `rationale` of a score are left out. A number of a score is the exact fraction that
-- the source computes in doubles, before it is rounded.
use stack_lens.Base.Tests.{ℕ, ◌+◌, ◌-◌, ◌*◌, Bool, Option, List, leb, ◌==◌}
use stack_lens.Base.Text.{Text}
use stack_lens.Contracts.{ScoreCategory, RuleReference, AnalysisLimitation}

pub data CheckState : Type 0 where
  pass fail unknown not_applicable : CheckState

pub data RiskBand : Type 0 where
  none low medium high critical : RiskBand

-- `InspectionCheckDetails`
pub record CheckDetails : Type 0 where
  pub key : Text
  pub package_path : Text
  pub category : ScoreCategory
  pub state : CheckState
  pub observed_severity : Option RiskBand
  pub package_name : Option Text
  pub limitation_ids : List Text

-- A fact; its details are given when they are an inspection check.
pub record Fact : Type 0 where
  pub id : Text
  pub evidence_ids : List Text
  pub details : Option CheckDetails

-- A fact whose details are an inspection check.
pub record CheckFact : Type 0 where
  pub id : Text
  pub evidence_ids : List Text
  pub details : CheckDetails

pub data Classification : Type 0 where
  fact heuristic : Classification

pub record AdvisoryDetails : Type 0 where
  pub advisory_id : Text
  pub aliases : List Text

pub record Finding : Type 0 where
  pub id : Text
  pub category : ScoreCategory
  pub classification : Classification
  pub rule : RuleReference
  pub details : Option AdvisoryDetails

-- What of `ScoringContext` the scorer reads.
pub record Context : Type 0 where
  pub facts : List Fact
  pub findings : List Finding
  pub limitations : List AnalysisLimitation

pub record Fraction : Type 0 where
  pub numerator : ℕ
  pub denominator : ℕ

abbrev pub whole : ℕ → Fraction
whole n = record { numerator = n; denominator = 1 }

abbrev pub add : Fraction → Fraction → Fraction
add a b = record {
  numerator = a.numerator * b.denominator + b.numerator * a.denominator;
  denominator = a.denominator * b.denominator;
}

abbrev pub subtract : Fraction → Fraction → Fraction
subtract a b = record {
  numerator = a.numerator * b.denominator - b.numerator * a.denominator;
  denominator = a.denominator * b.denominator;
}

abbrev pub divide : Fraction → ℕ → Fraction
divide a n = record { numerator = a.numerator; denominator = a.denominator * n }

abbrev pub is_at_most : Fraction → Fraction → Bool
is_at_most a b = leb (a.numerator * b.denominator) (b.numerator * a.denominator)

pub data ExplanationKind : Type 0 where
  risk_band readiness_check overall_ceiling : ExplanationKind

-- Every explanation is a deduction under the rule SCORE-STACK-001.
pub record Explanation : Type 0 where
  pub id : Text
  pub category : ScoreCategory
  pub kind : ExplanationKind
  pub points : Fraction
  pub fact_ids : List Text
  pub finding_ids : List Text
  pub evidence_ids : List Text

pub record CheckCounts : Type 0 where
  pub passed : ℕ
  pub failed : ℕ
  pub unknown : ℕ
  pub not_applicable : ℕ

pub record ScoreBase : Type 0 where
  pub check_counts : CheckCounts
  pub check_fact_ids : List Text

pub record AvailableScore : Type 0 where
  pub value : Fraction
  pub band : Option RiskBand
  pub affected_package_count : Option ℕ
  pub affected_advisory_count : Option ℕ
  pub contribution_ids : List Text

pub data ScoreResult : Type 0 where
  insufficient_evidence : ScoreBase → List Text → ScoreResult
  no_check_applies : ScoreBase → ScoreResult
  available : ScoreBase → AvailableScore → ScoreResult

abbrev rank : ScoreCategory → ℕ
rank ScoreCategory.dependencies = 0
rank ScoreCategory.security = 1
rank ScoreCategory.maintainability = 2
rank ScoreCategory.testing = 3
rank ScoreCategory.tooling = 4

-- `===` on categories
abbrev pub is_category : ScoreCategory → ScoreCategory → Bool
is_category a b = rank a == rank b

-- `BANDS`
abbrev pub band_score : RiskBand → ℕ
band_score none = 100
band_score low = 90
band_score medium = 70
band_score high = 40
band_score critical = 0

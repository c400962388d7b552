-- ===== src/Contracts.antt =====
-- The report contract, as far as storage and jobs read it (packages/contracts/src).
use stack_lens.Base.Tests.{ℕ, Bool, Option, List}
use stack_lens.Base.Text.{Text}

pub record RepositoryIdentity : Type 0 where
  pub owner : Text
  pub name : Text
  pub commit_sha : Text
  pub ref : Option Text

pub data AnalysisInput : Type 0 where
  manifest : Text → AnalysisInput
  repository : Text → RepositoryIdentity → AnalysisInput

-- `report.input.fingerprint`
abbrev pub fingerprint : AnalysisInput → Text
fingerprint (manifest f) = f
fingerprint (repository f r) = f

pub record AnalyzerMetadata : Type 0 where
  pub version : Text
  pub rule_set_version : Text
  pub scoring_version : Text

pub data ScoreCategory : Type 0 where
  dependencies security maintainability testing tooling : ScoreCategory

pub data LimitationKind : Type 0 where
  input_mode unsupported_configuration external_data insufficient_evidence : LimitationKind
  resource_limit partial_failure : LimitationKind

pub record RuleReference : Type 0 where
  pub id : Text
  pub version : Text

pub record AnalysisLimitation : Type 0 where
  pub id : Text
  pub kind : LimitationKind
  pub message : Text
  pub affected_categories : List ScoreCategory
  pub source_ids : List Text
  pub rule_ids : List Text
  pub reason_code : Option Text
  pub package_paths : Option (List Text)
  pub check_keys : Option (List Text)
  pub paths : Option (List Text)

pub data FailureScope : Type 0 where
  of_source : Text → FailureScope
  of_rule : RuleReference → FailureScope
  of_acquisition : FailureScope

pub record PartialFailure : Type 0 where
  pub id : Text
  pub scope : FailureScope
  pub code : Text
  pub message : Text
  pub retryable : Bool
  pub occurred_at : ℕ

-- The parts of a report that storage and jobs read.
pub record AnalysisReport : Type 0 where
  pub schema_version : Text
  pub input : AnalysisInput
  pub analyzer : AnalyzerMetadata
  pub limitations : List AnalysisLimitation
  pub partial_failures : List PartialFailure

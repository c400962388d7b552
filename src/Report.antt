-- ===== src/Report.antt =====
-- A report as its validation reads it, and the issues that validation adds
-- (packages/contracts/src/analysis-report.ts). Its scores, and with them its facts, findings and
-- limitations, are those of schema version 2.0.0.
pub mod Issues
pub mod References
pub mod Checks
pub mod Validation
pub mod Assembly
pub mod Run
mod Examples
use stack_lens.Base.Tests.{ℕ, List, Option}
use stack_lens.Base.Text.{Text}
use stack_lens.Contracts.{AnalysisInput, AnalyzerMetadata, AnalysisLimitation, PartialFailure}
use stack_lens.Scoring.Types.{Explanation, ScoreResult}
use stack_lens.Analyzer.Types.{Source, Evidence, Fact, Finding, Recommendation}
use stack_lens.Scoring.Overall.{Scores}

-- 1.0.0 and 2.0.0
pub data SchemaVersion : Type 0 where
  version_1 version_2 : SchemaVersion

pub record ReportForValidation : Type 0 where
  pub schema_version : SchemaVersion
  pub analysis_id : Text
  pub created_at : ℕ
  pub input : AnalysisInput
  pub analyzer : AnalyzerMetadata
  pub sources : List Source
  pub evidence : List Evidence
  pub facts : List Fact
  pub findings : List Finding
  pub recommendations : List Recommendation
  pub scores : Scores
  pub limitations : List AnalysisLimitation
  pub partial_failures : List PartialFailure

-- A step of the path to what an issue is about: a field or an index.
pub data PathPart : Type 0 where
  field : Text → PathPart
  index : ℕ → PathPart

pub record Issue : Type 0 where
  pub path : List PathPart
  pub message : Text

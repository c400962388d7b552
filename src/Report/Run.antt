-- ===== src/Report/Run.antt =====
-- A whole run (packages/analyzer-core/src/analyzer.ts).
pub mod Returns
use stack_lens.Base.Tests.{ℕ, Bool, ◌&&◌, Option, none, some, List, [], if◌then◌else◌, or_else}
use stack_lens.Base.Text.{Text}
use stack_lens.Contracts.{AnalysisInput, AnalysisLimitation, PartialFailure}
use stack_lens.Scoring.Overall.{Scores}
use stack_lens.Analyzer.Types.{Source, Evidence, Fact, Finding, Context, RuleSet, Schemas}
use stack_lens.Analyzer.Pipeline.{State}
use stack_lens.Analyzer.RuleSet.{run_rule_pipeline}
use stack_lens.Report.{SchemaVersion, ReportForValidation}
use stack_lens.Report.Validation.{Assembly, assemble_analysis_report}

-- `ScoringContext` and `AnalysisScorer`, whose scores are those of schema version 2.0.0; `none` is an
-- error that the scorer throws.
pub record ScoringContext : Type 0 where
  pub sources : List Source
  pub evidence : List Evidence
  pub facts : List Fact
  pub findings : List Finding
  pub limitations : List AnalysisLimitation
  pub partial_failures : List PartialFailure

pub record Scorer : Type 0 where
  pub version : Text
  pub score : ScoringContext → Option Scores

module _ (Project Metadata : Type 0) where
  pub record AnalyzerDefinition : Type 0 where
    pub version : Text
    pub report_schema_version : Option SchemaVersion
    pub rule_set : RuleSet Project Metadata
    pub scorer : Scorer

  pub record RunInput : Type 0 where
    pub analysis_id : Text
    pub created_at : ℕ
    pub input : AnalysisInput
    pub project : Project
    pub metadata : Metadata
    pub sources : List Source
    pub evidence : List Evidence
    pub limitations : Option (List AnalysisLimitation)
    pub partial_failures : Option (List PartialFailure)

module _ {Project Metadata : Type 0} where
  abbrev pub is_analyzer_definition : Schemas → AnalyzerDefinition Project Metadata → Bool
  is_analyzer_definition schemas d =
      schemas.is_identifier d.version && schemas.is_identifier d.scorer.version

  abbrev pub context_of : RunInput Project Metadata → Context Project Metadata
  context_of r = record {
    input = r.input;
    project = r.project;
    metadata = r.metadata;
    sources = r.sources;
    evidence = r.evidence;
    limitations = or_else r.limitations [];
    partial_failures = or_else r.partial_failures [];
  }

  abbrev pub scoring_context : RunInput Project Metadata → State → ScoringContext
  scoring_context r s = record {
    sources = r.sources;
    evidence = r.evidence;
    facts = s.facts;
    findings = s.findings;
    limitations = s.limitations;
    partial_failures = s.partial_failures;
  }

  abbrev pub assembly_of :
      AnalyzerDefinition Project Metadata → RunInput Project Metadata → State → Scores → Assembly
  assembly_of d r s scores = record {
    schema_version = d.report_schema_version;
    analysis_id = r.analysis_id;
    created_at = r.created_at;
    input = r.input;
    analyzer = record {
      version = d.version;
      rule_set_version = d.rule_set.version;
      scoring_version = d.scorer.version;
    };
    sources = r.sources;
    evidence = r.evidence;
    rule_result = s;
    scores = scores;
  }

  module _ (schemas : Schemas) (read : ReportForValidation → Option ReportForValidation)
      (d : AnalyzerDefinition Project Metadata) (r : RunInput Project Metadata) where
    unfoldable pub with_scores : State → Option Scores → Option ReportForValidation
    unfolding assemble_analysis_report
    with_scores s none = none
    with_scores s (some scores) = assemble_analysis_report read (assembly_of d r s scores)

    unfoldable pub with_result : Option State → Option ReportForValidation
    unfolding with_scores
    with_result none = none
    with_result (some s) = with_scores s (d.scorer.score (scoring_context r s))

    -- `none` is any error: of the configuration, of the scorer, or of the report.
    unfoldable pub run_analyzer : Option ReportForValidation
    unfolding run_rule_pipeline with_result
    run_analyzer =
        if is_analyzer_definition schemas d
        then with_result (run_rule_pipeline schemas (context_of r) d.rule_set r.created_at)
        else none

-- ===== src/Report/Run/Returns.antt =====
-- When a run returns a report, and which.
use stack_lens.Base.Tests.{◌≡◌, true, Option, some, or_else, []}
use stack_lens.Scoring.Overall.{Scores}
use stack_lens.Analyzer.Types.{Schemas}
use stack_lens.Analyzer.Pipeline.{State}
use stack_lens.Analyzer.RuleSet.{run_rule_pipeline}
use stack_lens.Report.{SchemaVersion, ReportForValidation}
use stack_lens.Report.Validation.Soundness.{IsSound}
use stack_lens.Report.Run.{AnalyzerDefinition, RunInput}

module _ {Project Metadata : Type 0} (d : AnalyzerDefinition Project Metadata)
    (r : RunInput Project Metadata) where
  -- The report of these results, with what the run was given.
  abbrev pub whole_report : State → Scores → ReportForValidation
  whole_report s scores = record {
    schema_version = SchemaVersion.version_2;
    analysis_id = r.analysis_id;
    created_at = r.created_at;
    input = r.input;
    analyzer = record {
      version = d.version;
      rule_set_version = d.rule_set.version;
      scoring_version = d.scorer.version;
    };
    sources = r.sources;
    evidence = r.evidence;
    facts = s.facts;
    findings = s.findings;
    recommendations = s.recommendations;
    scores = scores;
    limitations = s.limitations;
    partial_failures = s.partial_failures;
  }

  -- The definition is valid and of version 2.0.0, the pipeline has a result and the scorer the
  -- scores of it, and the report is what the schema of the fields reads of all this, and sound.
  pub record IsReturned (schemas : Schemas)
      (read : ReportForValidation → Option ReportForValidation) (report : ReportForValidation)
      : Type 0 where
    pub result : State
    pub scores : Scores
    pub valid_version : schemas.is_identifier d.version ≡ true
    pub valid_scorer : schemas.is_identifier d.scorer.version ≡ true
    pub version : d.report_schema_version ≡ some SchemaVersion.version_2
    pub ran :
        run_rule_pipeline schemas
          (record {
            input = r.input;
            project = r.project;
            metadata = r.metadata;
            sources = r.sources;
            evidence = r.evidence;
            limitations = or_else r.limitations [];
            partial_failures = or_else r.partial_failures [];
          })
          d.rule_set
          r.created_at
        ≡ some result
    pub was_scored :
        d.scorer.score (record {
          sources = r.sources;
          evidence = r.evidence;
          facts = result.facts;
          findings = result.findings;
          limitations = result.limitations;
          partial_failures = result.partial_failures;
        })
        ≡ some scores
    pub was_read : read (whole_report result scores) ≡ some report
    pub is_sound : IsSound report

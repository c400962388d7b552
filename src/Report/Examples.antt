-- ===== src/Report/Examples.antt =====
-- The report of the sample run, and one that validation refuses.
use stack_lens.Base.Tests.{ℕ, none, ◌≡◌, ◌↔◌, refl, some, [], ◌∷◌}
use stack_lens.Base.Text.{text, ◌===◌, text_lt}
use stack_lens.Base.Sort.{sort, insert_sorted}
use stack_lens.Base.Distinct.{are_new}
use stack_lens.Contracts.{AnalysisInput, ScoreCategory}
use stack_lens.Scoring.Types.{ScoreBase, ScoreResult, Explanation, ExplanationKind, whole}
use stack_lens.Analyzer.Identifiers.{next_identifier, allocate_identifier}
use stack_lens.Analyzer.Validation.{
  validate_limitations, validate_facts, validate_findings, validate_recommendations,
  validate_fact_rule_result, validate_finding_rule_result, validate_recommendation_rule_result,
  finding_of,
}
use stack_lens.Analyzer.References.{find_finding}
use stack_lens.Analyzer.Pipeline.{
  limitation_ids, try_fact_rule, run_fact_rules, try_finding_rule, run_finding_rules, try_priority,
  run_priorities, try_recommendation_rule, run_recommendation_rules, run_stages,
}
use stack_lens.Analyzer.RuleSet.{is_accepted, run_rule_pipeline}
use stack_lens.Analyzer.Types.{Prioritizer, done}
use stack_lens.Analyzer.Samples.{prioritizer, low, schemas, context, rules, result, evidence}
use stack_lens.Report.{SchemaVersion, ReportForValidation, PathPart}
use stack_lens.Report.Issues.{each, references_issues, duplicate_issues}
use stack_lens.Report.References.{last_with, referenced}
use stack_lens.Report.Checks.{details_of, checks_issues, actual_counts, categories_issues}
use stack_lens.Report.Validation.{
  Assembly, report_of, refined, parse_report, sections, validate_report, assemble_analysis_report,
}
use stack_lens.Report.Validation.Soundness.{IsSound, validate_report_iff}
use stack_lens.Report.Run.{AnalyzerDefinition, RunInput, run_analyzer, with_result, with_scores}
use stack_lens.Report.Assembly.{IsCompleted, assemble_analysis_report_lem}

abbrev base : ScoreBase
base = record {
  check_counts = record { passed = 0; failed = 0; unknown = 0; not_applicable = 0 };
  check_fact_ids = [];
}

abbrev lacking : ScoreResult
lacking = ScoreResult.insufficient_evidence base (limitation_ids result.limitations)

abbrev contribution : Explanation
contribution = record {
  id = text "d";
  category = ScoreCategory.security;
  kind = ExplanationKind.risk_band;
  points = whole 10;
  fact_ids = text "fact" ∷ [];
  finding_ids = text "c1" ∷ [];
  evidence_ids = text "e" ∷ [];
}

abbrev assembly : Assembly
assembly = record {
  schema_version = some SchemaVersion.version_2;
  analysis_id = text "a";
  created_at = 5;
  input = AnalysisInput.manifest (text "f");
  analyzer = record { version = text "1"; rule_set_version = text "1"; scoring_version = text "1" };
  sources = [];
  evidence = evidence;
  rule_result = result;
  scores = record {
    overall = lacking;
    categories =
        (ScoreCategory.security, lacking)
        ∷ (ScoreCategory.testing, ScoreResult.no_check_applies base)
        ∷ [];
    contributions = contribution ∷ [];
  };
}

runs : run_rule_pipeline schemas context rules 5 ≡ some result
unfolding run_rule_pipeline are_new ◌===◌ is_accepted
runs = refl

completed : IsCompleted assembly
unfolding validate_report sections each references_issues duplicate_issues last_with referenced
    details_of checks_issues actual_counts categories_issues run_rule_pipeline are_new sort
    insert_sorted text_lt ◌===◌ run_stages run_fact_rules try_fact_rule run_finding_rules
    try_finding_rule run_priorities try_priority run_recommendation_rules try_recommendation_rule
    validate_fact_rule_result validate_finding_rule_result validate_recommendation_rule_result
    validate_limitations validate_facts validate_findings validate_recommendations finding_of
    find_finding allocate_identifier next_identifier is_accepted
completed = record {
  version = refl;
  unique_sources = tt;
  unique_evidence = (refl, tt);
  unique_contributions = (refl, tt);
  evidence_has_sources = refl;
  factors_cite = refl;
  contributions_refer = refl;
  overall_is_sound = refl;
  categories_are_sound = refl;
  limitations_have_sources = refl;
  failures_have_sources = refl;
  checks_have_limitations = refl;
}

assemble_analysis_report_lem_example :
    assemble_analysis_report (λ r. some r) assembly ≡ some (report_of assembly)
assemble_analysis_report_lem_example =
    assemble_analysis_report_lem schemas context rules 5 (λ r. some r) assembly tt tt runs refl
      completed refl

-- A report whose only recommendation is of a finding that it does not have.
abbrev unfounded : ReportForValidation
unfounded = record (report_of assembly) { findings = [] }

no_finding :
    validate_report unfounded
    ≡ record {
      path =
          PathPart.field (text "recommendations")
          ∷ PathPart.index 0
          ∷ PathPart.field (text "findingIds")
          ∷ PathPart.index 0
          ∷ [];
      message = text "Unknown finding reference: c1";
    }
      ∷ record {
        path =
            PathPart.field (text "scores")
            ∷ PathPart.field (text "contributions")
            ∷ PathPart.index 0
            ∷ PathPart.field (text "findingIds")
            ∷ PathPart.index 0
            ∷ [];
        message = text "Unknown finding reference: c1";
      }
      ∷ []
unfolding validate_report sections each references_issues duplicate_issues last_with referenced
    details_of checks_issues actual_counts categories_issues run_rule_pipeline are_new sort
    insert_sorted text_lt ◌===◌ run_stages run_fact_rules try_fact_rule run_finding_rules
    try_finding_rule run_priorities try_priority run_recommendation_rules try_recommendation_rule
    validate_fact_rule_result validate_finding_rule_result validate_recommendation_rule_result
    validate_limitations validate_facts validate_findings validate_recommendations finding_of
    find_finding allocate_identifier next_identifier is_accepted
no_finding = refl

validate_report_iff_example : (validate_report unfounded ≡ []) ↔ IsSound unfounded
validate_report_iff_example = validate_report_iff unfounded

abbrev definition : AnalyzerDefinition ℕ ℕ
definition = record {
  version = text "1";
  report_schema_version = some SchemaVersion.version_2;
  rule_set = rules;
  scorer = record { version = text "1"; score = λ scoring. some assembly.scores };
}

abbrev run_input : RunInput ℕ ℕ
run_input = record {
  analysis_id = text "a";
  created_at = 5;
  input = AnalysisInput.manifest (text "f");
  project = 0;
  metadata = 0;
  sources = [];
  evidence = evidence;
  limitations = none;
  partial_failures = none;
}

returns : run_analyzer schemas (λ r. some r) definition run_input ≡ some (report_of assembly)
unfolding run_analyzer with_result with_scores assemble_analysis_report parse_report refined
    validate_report sections each references_issues duplicate_issues last_with referenced details_of
    checks_issues actual_counts categories_issues run_rule_pipeline are_new sort insert_sorted
    text_lt ◌===◌ run_stages run_fact_rules try_fact_rule run_finding_rules try_finding_rule
    run_priorities try_priority run_recommendation_rules try_recommendation_rule
    validate_fact_rule_result validate_finding_rule_result validate_recommendation_rule_result
    validate_limitations validate_facts validate_findings validate_recommendations finding_of
    find_finding allocate_identifier next_identifier is_accepted
returns = refl

-- A prioritizer whose factors name evidence that there is not: its findings pass the pipeline, and
-- no report is returned.
abbrev careless : Prioritizer ℕ ℕ
careless = record prioritizer {
  prioritize = λ stage facts cs c. done (record low {
    factors = record { key = text "k"; rationale = text "r"; evidence_ids = text "x" ∷ [] } ∷ [];
  });
}

abbrev careless_definition : AnalyzerDefinition ℕ ℕ
careless_definition = record definition { rule_set = record rules { prioritizer = careless } }

returns_nothing : run_analyzer schemas (λ r. some r) careless_definition run_input ≡ none
unfolding run_analyzer with_result with_scores assemble_analysis_report parse_report refined
    validate_report sections each references_issues duplicate_issues last_with referenced details_of
    checks_issues actual_counts categories_issues run_rule_pipeline are_new sort insert_sorted
    text_lt ◌===◌ run_stages run_fact_rules try_fact_rule run_finding_rules try_finding_rule
    run_priorities try_priority run_recommendation_rules try_recommendation_rule
    validate_fact_rule_result validate_finding_rule_result validate_recommendation_rule_result
    validate_limitations validate_facts validate_findings validate_recommendations finding_of
    find_finding allocate_identifier next_identifier is_accepted
returns_nothing = refl

-- Without a version the report is one of version 1.0.0, which has no such scores.
returns_no_first_version :
    run_analyzer schemas
      (λ r. some r)
      (record definition { report_schema_version = none })
      run_input
    ≡ none
unfolding run_analyzer with_result with_scores assemble_analysis_report parse_report
    run_rule_pipeline are_new ◌===◌ is_accepted
returns_no_first_version = refl

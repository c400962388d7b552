-- ===== src/Report/Validation.antt =====
-- The validation of a report (packages/contracts/src/analysis-report.ts, `validateReport`), and its
-- assembly from the result of the rules (packages/analyzer-core/src/report.ts).
pub mod Soundness
use stack_lens.Base.Tests.{
  ℕ, Bool, Option, none, some, List, [], ◌∷◌, ◌++◌, map, if◌then◌else◌, or_else,
}
use stack_lens.Base.Text.{Text, text}
use stack_lens.Contracts.{AnalysisInput, AnalyzerMetadata, AnalysisLimitation, PartialFailure}
use stack_lens.Scoring.Types.{Explanation}
use stack_lens.Scoring.Overall.{Scores}
use stack_lens.Analyzer.Types.{Source, Evidence, Context}
use stack_lens.Analyzer.Pipeline.{
  State, fact_ids, finding_ids, recommendation_ids, limitation_ids, failure_ids, evidence_ids,
}
use stack_lens.Report.{SchemaVersion, ReportForValidation, Issue}
use stack_lens.Report.Issues.{each, references_issues, duplicate_issues, is_clear}
use stack_lens.Report.References.{
  last_with, referenced, evidence_issues, fact_issues, finding_issues, recommendation_issues,
  contribution_issues, limitation_issues, failure_issues, fact_limitation_issues,
}
use stack_lens.Report.Checks.{checks_issues, actual_counts, score_issues, categories_issues}

abbrev pub source_ids : List Source → List Text
source_ids ss = map Source.id ss

abbrev pub known_evidence : List Evidence → List Text
known_evidence es = map Evidence.id es

abbrev pub contribution_ids : List Explanation → List Text
contribution_ids cs = map Explanation.id cs

abbrev pub concat {ℓ} : {A : Type ℓ} → List (List A) → List A
concat [] = []
concat (xs ∷ xss) = xs ++ concat xss

-- The parts of the validation in their order.
unfoldable pub sections : ReportForValidation → List (List Issue)
unfolding each references_issues duplicate_issues last_with referenced checks_issues
    categories_issues actual_counts
sections r =
    let evidence = known_evidence r.evidence in
    let facts = fact_ids r.facts in
    let findings = finding_ids r.findings in
    let limitations = limitation_ids r.limitations in
    let contributions = contribution_ids r.scores.contributions in
    duplicate_issues (text "sources") [] 0 (source_ids r.sources)
    ∷ duplicate_issues (text "evidence") [] 0 evidence
    ∷ duplicate_issues (text "facts") [] 0 facts
    ∷ duplicate_issues (text "findings") [] 0 findings
    ∷ duplicate_issues (text "recommendations") [] 0 (recommendation_ids r.recommendations)
    ∷ duplicate_issues (text "limitations") [] 0 limitations
    ∷ duplicate_issues (text "partialFailures") [] 0 (failure_ids r.partial_failures)
    ∷ duplicate_issues (text "contributions") [] 0 contributions
    ∷ each (evidence_issues r.sources) 0 r.evidence
    ∷ each (fact_issues evidence) 0 r.facts
    ∷ each (finding_issues evidence facts limitations) 0 r.findings
    ∷ each (recommendation_issues evidence facts r.findings) 0 r.recommendations
    ∷ each (contribution_issues evidence findings facts) 0 r.scores.contributions
    ∷ score_issues r.facts contributions limitations none r.scores.overall
    ∷ categories_issues r.facts contributions limitations r.scores.categories
    ∷ each (limitation_issues (source_ids r.sources)) 0 r.limitations
    ∷ each (failure_issues (source_ids r.sources)) 0 r.partial_failures
    ∷ each (fact_limitation_issues limitations) 0 r.facts
    ∷ []

unfoldable pub validate_report : ReportForValidation → List Issue
unfolding sections
validate_report r = concat (sections r)

-- What goes with the result of the rules into a report.
pub record Assembly : Type 0 where
  pub schema_version : Option SchemaVersion
  pub analysis_id : Text
  pub created_at : ℕ
  pub input : AnalysisInput
  pub analyzer : AnalyzerMetadata
  pub sources : List Source
  pub evidence : List Evidence
  pub rule_result : State
  pub scores : Scores

-- `ANALYSIS_REPORT_SCHEMA_VERSION`
abbrev report_schema_version : SchemaVersion
report_schema_version = SchemaVersion.version_1

abbrev pub report_of : Assembly → ReportForValidation
report_of a = record {
  schema_version = or_else a.schema_version report_schema_version;
  analysis_id = a.analysis_id;
  created_at = a.created_at;
  input = a.input;
  analyzer = a.analyzer;
  sources = a.sources;
  evidence = a.evidence;
  facts = a.rule_result.facts;
  findings = a.rule_result.findings;
  recommendations = a.rule_result.recommendations;
  scores = a.scores;
  limitations = a.rule_result.limitations;
  partial_failures = a.rule_result.partial_failures;
}

-- `AnalysisReportV2Schema`: the fields as they are read; `none` is the error that reading them or an
-- issue throws.
unfoldable pub refined : Option ReportForValidation → Option ReportForValidation
unfolding validate_report
refined none = none
refined (some r) = if is_clear (validate_report r) then some r else none

-- `AnalysisReportSchema.parse`, by the version; `read` is the schema of the fields in version 2.0.0.
-- That of version 1.0.0 refuses scores that name their checks, as all scores here do.
unfoldable pub parse_report :
    (ReportForValidation → Option ReportForValidation)
    → ReportForValidation
    → Option ReportForValidation
unfolding refined
parse_report read r = elim r.schema_version [
  | SchemaVersion.version_1 ↦ none
  | SchemaVersion.version_2 ↦ refined (read r)
]

unfoldable pub assemble_analysis_report :
    (ReportForValidation → Option ReportForValidation) → Assembly → Option ReportForValidation
unfolding parse_report
assemble_analysis_report read a = parse_report read (report_of a)

-- ===== src/Analyzer/State.antt =====
-- What the pipeline has gathered, and the failure of a rule (packages/analyzer-core/src/pipeline.ts,
-- `createFailureArtifacts`, `createStageContext`).
use stack_lens.Base.Tests.{ℕ, false, Option, none, some, List, [], ◌∷◌, ◌++◌, map}
use stack_lens.Base.Text.{Text, text}
use stack_lens.Contracts.{
  ScoreCategory, LimitationKind, AnalysisLimitation, FailureScope, PartialFailure,
}
use stack_lens.Analyzer.Types.{
  RuleDefinition, Evidence, Fact, Candidate, Finding, Recommendation, Attempt, done,
  invariant_broken, crashed, Context,
}
use stack_lens.Analyzer.Identifiers.{allocate_identifier}

pub data FailureCode : Type 0 where
  rule_evaluation_failed rule_output_invalid : FailureCode
  priority_evaluation_failed priority_output_invalid : FailureCode

-- What the pipeline has gathered; at the end it is the result, with the candidates dropped.
pub record State : Type 0 where
  pub facts : List Fact
  pub candidates : List Candidate
  pub findings : List Finding
  pub recommendations : List Recommendation
  pub limitations : List AnalysisLimitation
  pub partial_failures : List PartialFailure

abbrev pub fact_ids : List Fact → List Text
fact_ids fs = map Fact.id fs

abbrev pub candidate_ids : List Candidate → List Text
candidate_ids cs = map Candidate.id cs

abbrev pub finding_id : Finding → Text
finding_id f = f.candidate.id

abbrev pub finding_ids : List Finding → List Text
finding_ids fs = map finding_id fs

abbrev pub recommendation_ids : List Recommendation → List Text
recommendation_ids rs = map Recommendation.id rs

abbrev pub limitation_ids : List AnalysisLimitation → List Text
limitation_ids ls = map AnalysisLimitation.id ls

abbrev pub failure_ids : List PartialFailure → List Text
failure_ids fs = map PartialFailure.id fs

abbrev code_name : FailureCode → Text
code_name FailureCode.rule_evaluation_failed = text "rule_evaluation_failed"
code_name FailureCode.rule_output_invalid = text "rule_output_invalid"
code_name FailureCode.priority_evaluation_failed = text "priority_evaluation_failed"
code_name FailureCode.priority_output_invalid = text "priority_output_invalid"

abbrev subject_suffix : Option Candidate → Text
subject_suffix none = []
subject_suffix (some c) = text ":" ++ c.id

abbrev category_of : Option Candidate → List ScoreCategory
category_of none = []
category_of (some c) = c.category ∷ []

abbrev limitation_message : RuleDefinition → Option Candidate → Text
limitation_message rule none =
    text "Rule " ++ (rule.id ++ text " could not complete. Its outputs were omitted.")
limitation_message rule (some c) =
    text "Finding " ++ (c.id ++ text " could not be prioritized and was omitted.")

abbrev failure_message : RuleDefinition → FailureCode → Text
failure_message rule FailureCode.rule_evaluation_failed =
    text "Rule " ++ (rule.id ++ text " could not complete deterministic evaluation.")
failure_message rule FailureCode.rule_output_invalid =
    text "Rule " ++ (rule.id ++ text " emitted invalid analyzer output.")
failure_message rule FailureCode.priority_evaluation_failed =
    text "Priority rule " ++ (rule.id ++ text " could not complete deterministic evaluation.")
failure_message rule FailureCode.priority_output_invalid =
    text "Priority rule " ++ (rule.id ++ text " emitted invalid priority output.")

abbrev failure_name : Text → RuleDefinition → FailureCode → Option Candidate → Text
failure_name prefix rule code subject =
    prefix ++ (code_name code ++ (text ":" ++ (rule.id ++ subject_suffix subject)))

-- `createFailureArtifacts`, from the identifiers that are used.
abbrev pub failure_limitation :
    RuleDefinition → FailureCode → Option Candidate → List Text → AnalysisLimitation
failure_limitation rule code subject used = record {
  id = allocate_identifier (failure_name (text "limitation:") rule code subject) used;
  kind = LimitationKind.partial_failure;
  message = limitation_message rule subject;
  affected_categories = category_of subject;
  source_ids = [];
  rule_ids = rule.id ∷ [];
  reason_code = none;
  package_paths = none;
  check_keys = none;
  paths = none;
}

abbrev pub partial_failure_of :
    RuleDefinition → ℕ → FailureCode → Option Candidate → List Text → PartialFailure
partial_failure_of rule at code subject used = record {
  id = allocate_identifier (failure_name (text "partial-failure:") rule code subject) used;
  scope = FailureScope.of_rule (record { id = rule.id; version = rule.version });
  code = code_name code;
  message = failure_message rule code;
  retryable = false;
  occurred_at = at;
}

abbrev pub add_failure : RuleDefinition → ℕ → FailureCode → Option Candidate → State → State
add_failure rule at code subject s = record s {
  limitations =
      s.limitations ++ (failure_limitation rule code subject (limitation_ids s.limitations) ∷ []);
  partial_failures =
      s.partial_failures
      ++ (partial_failure_of rule at code subject (failure_ids s.partial_failures) ∷ []);
}

-- `try { … } catch { … }`: what a rule comes to, or its failure.
abbrev pub settle :
    RuleDefinition
    → ℕ
    → FailureCode
    → FailureCode
    → Option Candidate
    → State
    → Attempt State
    → State
settle rule at invalid failed subject s (done t) = t
settle rule at invalid failed subject s invariant_broken = add_failure rule at invalid subject s
settle rule at invalid failed subject s crashed = add_failure rule at failed subject s

module _ {Project Metadata : Type 0} (context : Context Project Metadata) where
  abbrev pub evidence_ids : List Text
  evidence_ids = map Evidence.id context.evidence

  -- `createStageContext`
  abbrev pub stage_context : State → Context Project Metadata
  stage_context s = record context {
    limitations = s.limitations;
    partial_failures = s.partial_failures;
  }

  abbrev pub initial_state : State
  initial_state = record {
    facts = [];
    candidates = [];
    findings = [];
    recommendations = [];
    limitations = context.limitations;
    partial_failures = context.partial_failures;
  }

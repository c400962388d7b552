-- ===== src/Persistence/Records.antt =====
-- What a reader of the tables is given (packages/persistence/src/repository.ts, `compactRecord`,
-- `findAnalysis` and `findReport`).
use stack_lens.Base.Tests.{ℕ, Option}
use stack_lens.Base.Text.{Text}
use stack_lens.Base.Table.{lookup}
use stack_lens.Persistence.Types.{
  AnalysisStatus, ProgressStage, FailureSummary, Analysis, StoredReport, Store,
}
use mathlib.Core.Option

-- The row with its identifier and without the job that holds it.
pub record AnalysisRecord : Type 0 where
  pub id : Text
  pub repository_url : Text
  pub owner_github_id : Option Text
  pub github_connection_id : Option Text
  pub requested_ref : Option Text
  pub status : AnalysisStatus
  pub progress_stage : ProgressStage
  pub repository_owner : Option Text
  pub repository_name : Option Text
  pub commit_sha : Option Text
  pub input_fingerprint : Option Text
  pub analyzer_version : Option Text
  pub rule_set_version : Option Text
  pub scoring_version : Option Text
  pub created_at : ℕ
  pub started_at : Option ℕ
  pub completed_at : Option ℕ
  pub updated_at : ℕ
  pub retention_expires_at : Option ℕ
  pub failure_summary : Option FailureSummary

abbrev pub compact_record : Text → Analysis → AnalysisRecord
compact_record i a = record {
  id = i;
  repository_url = a.repository_url;
  owner_github_id = a.owner_github_id;
  github_connection_id = a.github_connection_id;
  requested_ref = a.requested_ref;
  status = a.status;
  progress_stage = a.progress_stage;
  repository_owner = a.repository_owner;
  repository_name = a.repository_name;
  commit_sha = a.commit_sha;
  input_fingerprint = a.input_fingerprint;
  analyzer_version = a.analyzer_version;
  rule_set_version = a.rule_set_version;
  scoring_version = a.scoring_version;
  created_at = a.created_at;
  started_at = a.started_at;
  completed_at = a.completed_at;
  updated_at = a.updated_at;
  retention_expires_at = a.retention_expires_at;
  failure_summary = a.failure_summary;
}

unfoldable pub find_analysis : Text → Store → Option AnalysisRecord
unfolding lookup
find_analysis i s = Option.map (compact_record i) (lookup i s.analyses)

unfoldable pub find_report : Text → Store → Option StoredReport
unfolding lookup
find_report i s = lookup i s.reports

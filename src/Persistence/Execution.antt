-- ===== src/Persistence/Execution.antt =====
-- Running an analysis (packages/persistence/src/repository.ts, `claimForExecution`,
-- `updateProgress`, `markRetryPending`, `complete` and `fail`).
pub mod Claims
use stack_lens.Base.Tests.{
  ℕ, Bool, true, false, not, ◌&&◌, ◌||◌, Option, none, some, if◌then◌else◌, is_some,
}
use stack_lens.Base.Text.{Text, ◌=?=◌}
use stack_lens.Base.Table.{update_where, upsert, is_matched}
use stack_lens.Contracts.{AnalysisInput, AnalysisReport, fingerprint}
use stack_lens.Persistence.Types.{
  AnalysisStatus, ProgressStage, Analysis, Store, StoredReport, RetryUpdate, FailureUpdate,
  Completion, is_queued, is_running, is_terminal_analysis_status, completion_status,
  completion_stage,
}

-- `active_job_id = job`, which is not true of a null.
abbrev pub is_held_by : Text → Analysis → Bool
is_held_by job a = a.active_job_id =?= some job

abbrev pub can_claim : Text → Analysis → Bool
can_claim job a = is_queued a.status || (is_running a.status && is_held_by job a)

abbrev pub start : Text → ℕ → Analysis → Analysis
start job at a = record a {
  status = AnalysisStatus.running;
  active_job_id = some job;
  started_at = some at;
  updated_at = at;
  failure_summary = none;
}

unfoldable pub claim_for_execution : Text → Text → ℕ → Store → Bool × Store
unfolding update_where
claim_for_execution i job at s = (
  is_matched i (can_claim job) s.analyses,
  record s { analyses = update_where i (can_claim job) (start job at) s.analyses },
)

abbrev pub is_run_by : Text → Analysis → Bool
is_run_by job a = is_running a.status && is_held_by job a

abbrev pub advance : ProgressStage → ℕ → Analysis → Analysis
advance stage at a = record a { progress_stage = stage; updated_at = at }

unfoldable pub update_progress : Text → Text → ProgressStage → ℕ → Store → Store
unfolding update_where
update_progress i job stage at s = record s {
  analyses = update_where i (is_run_by job) (advance stage at) s.analyses;
}

abbrev pub is_active_of : Text → Analysis → Bool
is_active_of job a = is_held_by job a && not (is_terminal_analysis_status a.status)

abbrev pub requeue : RetryUpdate → Analysis → Analysis
requeue u a = record a {
  status = AnalysisStatus.queued;
  progress_stage = ProgressStage.queued;
  active_job_id = none;
  failure_summary = some u.failure_summary;
  updated_at = u.updated_at;
}

unfoldable pub mark_retry_pending : RetryUpdate → Store → Store
unfolding update_where
mark_retry_pending u s = record s {
  analyses = update_where u.id (is_active_of u.job_id) (requeue u) s.analyses;
}

-- The columns that are set for a repository report only.
abbrev pub with_repository : AnalysisInput → Analysis → Analysis
with_repository (AnalysisInput.manifest f) a = a
with_repository (AnalysisInput.repository f r) a = record a {
  repository_owner = some r.owner;
  repository_name = some r.name;
  commit_sha = some r.commit_sha;
}

abbrev pub finish : Completion → Analysis → Analysis
finish u a = record (with_repository u.report.input a) {
  status = completion_status u.status;
  progress_stage = completion_stage u.status;
  input_fingerprint = some (fingerprint u.report.input);
  analyzer_version = some u.report.analyzer.version;
  rule_set_version = some u.report.analyzer.rule_set_version;
  scoring_version = some u.report.analyzer.scoring_version;
  active_job_id = none;
  completed_at = some u.completed_at;
  updated_at = u.completed_at;
  failure_summary = none;
}

abbrev pub stored_report : Completion → StoredReport
stored_report u = record {
  report_schema_version = u.report.schema_version;
  report = u.report;
  created_at = u.completed_at;
}

-- The report is written only when the update claims the row.
unfoldable pub complete : Completion → Store → Store
unfolding update_where upsert
complete u s = record s {
  analyses = update_where u.id (is_active_of u.job_id) (finish u) s.analyses;
  reports =
      if is_matched u.id (is_active_of u.job_id) s.analyses
      then upsert u.id (stored_report u) s.reports
      else s.reports;
}

abbrev pub can_fail : Text → Analysis → Bool
can_fail job a =
    (not (is_some a.active_job_id) || is_held_by job a)
    && not (is_terminal_analysis_status a.status)

abbrev pub give_up : FailureUpdate → Analysis → Analysis
give_up u a = record a {
  status = AnalysisStatus.failed;
  progress_stage = ProgressStage.failed;
  active_job_id = none;
  failure_summary = some u.failure_summary;
  completed_at = some u.completed_at;
  updated_at = u.completed_at;
}

unfoldable pub fail : FailureUpdate → Store → Store
unfolding update_where
fail u s = record s { analyses = update_where u.id (can_fail u.job_id) (give_up u) s.analyses }

-- ===== src/Persistence/Types.antt =====
-- The rows of the three tables (packages/persistence/src/schema.ts) and the values that the
-- repository exchanges (types.ts). A row's primary key is its key in the table. A timestamp is the
-- number of milliseconds that it stands for.
use stack_lens.Base.Tests.{ℕ, Bool, true, false, Option}
use stack_lens.Base.Text.{Text}
use stack_lens.Base.Table.{Table}
use stack_lens.Contracts.{AnalysisReport}

pub data AnalysisStatus : Type 0 where
  queued running completed completed_with_limitations failed : AnalysisStatus

pub data ProgressStage : Type 0 where
  queued resolving_repository collecting_snapshot collecting_metadata : ProgressStage
  running_rules scoring completed completed_with_limitations failed : ProgressStage

abbrev pub is_terminal_analysis_status : AnalysisStatus → Bool
is_terminal_analysis_status AnalysisStatus.completed = true
is_terminal_analysis_status AnalysisStatus.completed_with_limitations = true
is_terminal_analysis_status AnalysisStatus.failed = true
is_terminal_analysis_status AnalysisStatus.queued = false
is_terminal_analysis_status AnalysisStatus.running = false

-- `status = 'queued'`
abbrev pub is_queued : AnalysisStatus → Bool
is_queued AnalysisStatus.queued = true
is_queued AnalysisStatus.running = false
is_queued AnalysisStatus.completed = false
is_queued AnalysisStatus.completed_with_limitations = false
is_queued AnalysisStatus.failed = false

-- `status = 'running'`
abbrev pub is_running : AnalysisStatus → Bool
is_running AnalysisStatus.running = true
is_running AnalysisStatus.queued = false
is_running AnalysisStatus.completed = false
is_running AnalysisStatus.completed_with_limitations = false
is_running AnalysisStatus.failed = false

-- The status of a completion, `completed` or `completed_with_limitations`.
pub data CompletionStatus : Type 0 where
  whole limited : CompletionStatus

abbrev pub completion_status : CompletionStatus → AnalysisStatus
completion_status whole = AnalysisStatus.completed
completion_status limited = AnalysisStatus.completed_with_limitations

abbrev pub completion_stage : CompletionStatus → ProgressStage
completion_stage whole = ProgressStage.completed
completion_stage limited = ProgressStage.completed_with_limitations

pub record FailureSummary : Type 0 where
  pub code : Text
  pub message : Text
  pub retryable : Bool

-- A row of `analysis`.
pub record Analysis : Type 0 where
  pub repository_url : Text
  pub owner_github_id : Option Text
  pub github_connection_id : Option Text
  pub requested_ref : Option Text
  pub status : AnalysisStatus
  pub progress_stage : ProgressStage
  pub active_job_id : Option Text
  pub repository_owner : Option Text
  pub repository_name : Option Text
  pub commit_sha : Option Text
  pub input_fingerprint : Option Text
  pub analyzer_version : Option Text
  pub rule_set_version : Option Text
  pub scoring_version : Option Text
  pub created_at : ℕ
  pub started_at : Option ℕ
  pub completed_at : Option ℕ
  pub updated_at : ℕ
  pub retention_expires_at : Option ℕ
  pub failure_summary : Option FailureSummary

-- A row of `analysis_report`.
pub record StoredReport : Type 0 where
  pub report_schema_version : Text
  pub report : AnalysisReport
  pub created_at : ℕ

pub data DeliveryStatus : Type 0 where
  pending delivering delivered : DeliveryStatus

-- `status = 'delivering'`
abbrev pub is_delivering : DeliveryStatus → Bool
is_delivering delivering = true
is_delivering pending = false
is_delivering delivered = false

abbrev pub is_delivered : DeliveryStatus → Bool
is_delivered delivered = true
is_delivered pending = false
is_delivered delivering = false

-- A row of `analysis_delivery`, the outbox.
pub record Delivery : Type 0 where
  pub status : DeliveryStatus
  pub attempts : ℕ
  pub available_at : ℕ
  pub lease_token : Option Text
  pub lease_expires_at : Option ℕ
  pub delivered_at : Option ℕ
  pub created_at : ℕ
  pub updated_at : ℕ

pub record Store : Type 0 where
  pub analyses : Table Analysis
  pub reports : Table StoredReport
  pub deliveries : Table Delivery

pub record CreateQueued : Type 0 where
  pub id : Text
  pub repository_url : Text
  pub owner_github_id : Option Text
  pub github_connection_id : Option Text
  pub requested_ref : Option Text
  pub created_at : ℕ
  pub retention_expires_at : Option ℕ

-- What a claim of the outbox hands to the dispatcher.
pub record ClaimedDelivery : Type 0 where
  pub analysis_id : Text
  pub repository_url : Text
  pub requested_ref : Option Text
  pub attempts : ℕ
  pub lease_token : Text

pub record RetryUpdate : Type 0 where
  pub id : Text
  pub job_id : Text
  pub failure_summary : FailureSummary
  pub updated_at : ℕ

pub record FailureUpdate : Type 0 where
  pub id : Text
  pub job_id : Text
  pub failure_summary : FailureSummary
  pub updated_at : ℕ
  pub completed_at : ℕ

pub record Completion : Type 0 where
  pub id : Text
  pub job_id : Text
  pub report : AnalysisReport
  pub completed_at : ℕ
  pub status : CompletionStatus

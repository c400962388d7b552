-- ===== src/Persistence/Invariant.antt =====
-- What every reachable state of the three tables satisfies.
pub mod Submits
pub mod Runs
pub mod Delivers
pub mod Purges
use stack_lens.Base.Tests.{
  ℕ, ◌≤◌, ◌≡◌, Bool, true, false, not, ◌||◌, Option, none, some, is_some, [],
}
use stack_lens.Base.Text.{Text}
use stack_lens.Base.Table.{Table, lookup, HasDistinctKeys, Holds}
use stack_lens.Persistence.Types.{
  AnalysisStatus, ProgressStage, Analysis, Delivery, DeliveryStatus, Store, is_running,
  is_terminal_analysis_status, is_delivering, is_delivered,
}

abbrev pub is_completed : AnalysisStatus → Bool
is_completed AnalysisStatus.completed = true
is_completed AnalysisStatus.completed_with_limitations = true
is_completed AnalysisStatus.queued = false
is_completed AnalysisStatus.running = false
is_completed AnalysisStatus.failed = false

abbrev is_failed : AnalysisStatus → Bool
is_failed AnalysisStatus.failed = true
is_failed _ = false

-- The stage that a terminal status ends in, and any stage for the others.
abbrev has_final_stage : AnalysisStatus → ProgressStage → Bool
has_final_stage AnalysisStatus.completed ProgressStage.completed = true
has_final_stage AnalysisStatus.completed _ = false
has_final_stage AnalysisStatus.completed_with_limitations ProgressStage.completed_with_limitations =
    true
has_final_stage AnalysisStatus.completed_with_limitations _ = false
has_final_stage AnalysisStatus.failed ProgressStage.failed = true
has_final_stage AnalysisStatus.failed _ = false
has_final_stage AnalysisStatus.queued _ = true
has_final_stage AnalysisStatus.running _ = true

-- A job holds an analysis exactly while it runs; a completion time stands exactly on the terminal
-- ones, with their final stage; a running one has started; a failed one says why, and a completed
-- one does not and has its fingerprint.
pub record IsValidRow (a : Analysis) : Type 0 where
  pub held : is_some a.active_job_id ≡ is_running a.status
  pub ended : is_some a.completed_at ≡ is_terminal_analysis_status a.status
  pub staged : has_final_stage a.status a.progress_stage ≡ true
  pub begun : (not (is_running a.status) || is_some a.started_at) ≡ true
  pub explained : (not (is_failed a.status) || is_some a.failure_summary) ≡ true
  pub unblamed : (not (is_completed a.status) || not (is_some a.failure_summary)) ≡ true
  pub printed : (not (is_completed a.status) || is_some a.input_fingerprint) ≡ true

-- A lease stands exactly on the deliveries under way, and a delivery time on the delivered ones.
pub record IsValidDelivery (d : Delivery) : Type 0 where
  pub leased : is_some d.lease_token ≡ is_delivering d.status
  pub expires : is_some d.lease_expires_at ≡ is_delivering d.status
  pub stamped : is_some d.delivered_at ≡ is_delivered d.status
  pub tried : (is_delivering d.status || is_delivered d.status) ≡ true → 1 ≤ d.attempts

abbrev pub is_completed_row : Option Analysis → Bool
is_completed_row none = false
is_completed_row (some a) = is_completed a.status

-- The primary keys are distinct, the rows are valid, reports stand exactly on the completed
-- analyses, and every delivery has its analysis.
pub record IsValid (s : Store) : Type 0 where
  pub keys_of_analyses : HasDistinctKeys s.analyses
  pub keys_of_reports : HasDistinctKeys s.reports
  pub keys_of_deliveries : HasDistinctKeys s.deliveries
  pub rows : Holds IsValidRow s.analyses
  pub deliveries : Holds IsValidDelivery s.deliveries
  pub reported : (i : Text) → is_some (lookup i s.reports) ≡ is_completed_row (lookup i s.analyses)
  pub owned :
      (i : Text) → is_some (lookup i s.deliveries) ≡ true → is_some (lookup i s.analyses) ≡ true

abbrev pub empty_store : Store
empty_store = record { analyses = []; reports = []; deliveries = [] }

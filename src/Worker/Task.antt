-- ===== src/Worker/Task.antt =====
-- One execution of a job (apps/worker/src/task.ts, `executeRepositoryAnalysisJob`). The analysis
-- itself is the dependency `analyze`: what it does is the sequence of progress reports that it
-- makes, between which the abort signal may fire, and the way it ends. Each call of the clock is a
-- field of `Clock`. An update that a thrown error skips is not made.
pub mod Settles
pub mod Completes
use stack_lens.Base.Tests.{
  ℕ, Bool, true, false, not, ◌&&◌, ◌||◌, Option, none, some, List, [], ◌∷◌, leb, if◌then◌else◌,
  is_some, or_else,
}
use stack_lens.Base.Text.{Text, text, ◌===◌, ◌=?=◌}
use stack_lens.Contracts.{AnalysisReport}
use stack_lens.Persistence.Types.{
  Store, FailureSummary, ProgressStage, CompletionStatus, whole, limited,
  is_terminal_analysis_status,
}
use stack_lens.Persistence.Records.{AnalysisRecord, find_analysis}
use stack_lens.Persistence.Execution.{
  claim_for_execution, update_progress, mark_retry_pending, complete, fail,
}
use stack_lens.Jobs.Payload.{
  Payload, JobValue, PayloadError, Parsed, parsed, malformed, parse_repository_analysis_job_payload,
}
use stack_lens.Jobs.Progress.{ProgressReport, durable_stage_for_progress}

-- `RepositoryJobExecution`, less the signal.
pub record JobExecution : Type 0 where
  pub id : Text
  pub attempts : ℕ
  pub max_attempts : ℕ

pub data Event : Type 0 where
  report : ProgressReport → ℕ → Event
  abort : Event

pub data Ending : Type 0 where
  analysed : AnalysisReport → Ending
  unavailable : FailureSummary → Ending
  connection_lost crashed : Ending

-- What happens while the job runs: the signal may be aborted before it starts.
pub record Analysis : Type 0 where
  pub aborted_before : Bool
  pub events : List Event
  pub ending : Ending

pub record Clock : Type 0 where
  pub mismatch_at : ℕ
  pub started_at : ℕ
  pub ended_at : ℕ
  pub scored_at : ℕ
  pub completed_at : ℕ

pub data TaskError : Type 0 where
  bad_payload : PayloadError → TaskError
  record_missing interrupted unexpected_failure provider_retryable : TaskError

pub data TaskResult : Type 0 where
  returned : TaskResult
  threw : TaskError → TaskResult

abbrev pub job_input_mismatch : FailureSummary
job_input_mismatch = record {
  code = text "job_input_mismatch";
  message = text "Repository analysis job input does not match its persisted analysis.";
  retryable = false;
}

abbrev pub github_connection_unavailable : FailureSummary
github_connection_unavailable = record {
  code = text "github_connection_unavailable";
  message = text "Reconnect GitHub and submit a new analysis with repository access.";
  retryable = false;
}

abbrev pub error_summary : Bool → FailureSummary
error_summary true = record {
  code = text "repository_analysis_interrupted";
  message = text "Repository analysis was interrupted.";
  retryable = true;
}
error_summary false = record {
  code = text "repository_analysis_unexpected_failure";
  message = text "Repository analysis failed unexpectedly.";
  retryable = true;
}

-- How the `try` block ends: with a result, or by a throw into the `catch` block.
pub data Attempt : Type 0 where
  succeeded : AnalysisReport → Attempt
  refused : FailureSummary → Attempt
  connection_error : Attempt
  other_error : Attempt

-- `result.report.limitations.length > 0 || result.report.partialFailures.length > 0`
abbrev pub completion_of : AnalysisReport → CompletionStatus
completion_of r = elim r.limitations [
  | [] ↦ elim r.partial_failures [ [] ↦ whole | _ ∷ _ ↦ limited ]
  | _ ∷ _ ↦ limited
]

-- The record names both halves of a GitHub connection, and the worker can use one.
abbrev pub can_connect : Bool → AnalysisRecord → Bool
can_connect factory e = is_some e.owner_github_id && is_some e.github_connection_id && factory

abbrev pub is_connected : AnalysisRecord → Bool
is_connected e = is_some e.owner_github_id || is_some e.github_connection_id

module _ (i job : Text) where
  -- The progress reports of the analysis; `onProgress` throws once the signal is aborted. The
  -- result says whether the signal is aborted, whether a throw ended the run, and the store.
  unfoldable pub run_events : Bool → List Event → Store → Bool × Bool × Store
  run_events aborted [] s = (aborted, false, s)
  run_events aborted (abort ∷ rest) s = run_events true rest s
  run_events true (report p at ∷ rest) s = (true, true, s)
  run_events false (report p at ∷ rest) s =
      run_events false rest (elim (durable_stage_for_progress p) [
        | none ↦ s
        | some stage ↦ update_progress i job stage at s
      ])

  -- The end of the `try` block after the events.
  abbrev pub attempt_of : Bool → Bool → Ending → Attempt
  attempt_of aborted true e = other_error
  attempt_of true false (analysed r) = other_error
  attempt_of true false (unavailable f) = other_error
  attempt_of false false (analysed r) = succeeded r
  attempt_of false false (unavailable f) = refused f
  attempt_of aborted false connection_lost = connection_error
  attempt_of aborted false crashed = other_error

  -- The `try` block: the result with the signal and the store.
  unfoldable pub attempt : Bool → AnalysisRecord → Analysis → Store → Attempt × Bool × Store
  unfolding run_events
  attempt factory e a s =
      if a.aborted_before
      then (other_error, true, s)
      else if is_connected e && not (can_connect factory e)
      then (connection_error, false, s)
      else let (aborted, ended, s') = run_events false a.events s in
        (attempt_of aborted ended a.ending, aborted, s')

  -- An error that may be retried: the last attempt fails the analysis, any other one throws.
  abbrev pub retry_or_fail : Bool → FailureSummary → TaskError → Clock → Store → TaskResult × Store
  retry_or_fail final summary e c s =
      if final
      then (
        returned,
        fail
            (record {
              id = i;
              job_id = job;
              failure_summary = summary;
              updated_at = c.ended_at;
              completed_at = c.ended_at;
            })
            s,
      )
      else (
        threw e,
        mark_retry_pending
            (record { id = i; job_id = job; failure_summary = summary; updated_at = c.ended_at }) s,
      )

  abbrev pub fail_for_good : FailureSummary → Clock → Store → TaskResult × Store
  fail_for_good summary c s = (
    returned,
    fail
        (record {
          id = i;
          job_id = job;
          failure_summary = summary;
          updated_at = c.ended_at;
          completed_at = c.ended_at;
        })
        s,
  )

  abbrev pub error_of : Bool → TaskError
  error_of true = interrupted
  error_of false = unexpected_failure

  -- The `catch` block, and what follows the `try` block.
  unfoldable pub conclude : Bool → Clock → Attempt → Bool → Store → TaskResult × Store
  conclude final c (succeeded r) aborted s =
      let scored = update_progress i job ProgressStage.scoring c.scored_at s in
      (
        returned,
        complete
            (record {
              id = i;
              job_id = job;
              report = r;
              completed_at = c.completed_at;
              status = completion_of r;
            })
            scored,
      )
  conclude final c (refused f) aborted s =
      if f.retryable && not final
      then retry_or_fail false f provider_retryable c s
      else fail_for_good f c s
  conclude final c connection_error aborted s =
      if aborted
      then retry_or_fail final (error_summary true) interrupted c s
      else fail_for_good github_connection_unavailable c s
  conclude final c other_error aborted s =
      retry_or_fail final (error_summary aborted) (error_of aborted) c s

-- `job.attempts >= job.maxAttempts`
abbrev pub is_final_attempt : JobExecution → Bool
is_final_attempt job = leb job.max_attempts job.attempts

-- The execution once the record is known to be that of the payload and not terminal.
unfoldable pub run_claimed :
    Bool → JobExecution → Clock → Analysis → AnalysisRecord → Store → TaskResult × Store
unfolding attempt conclude
run_claimed factory job c a e s =
    let (claimed, s') = claim_for_execution e.id job.id (or_else e.started_at c.started_at) s in
    let (result, aborted, s'') = attempt e.id job.id factory e a s' in
    let concluded = conclude e.id job.id (is_final_attempt job) c result aborted s'' in
    if claimed then concluded else (returned, s')

unfoldable pub run_existing :
    Bool → JobExecution → Clock → Analysis → Payload → AnalysisRecord → Store → TaskResult × Store
unfolding run_claimed
run_existing factory job c a p e s =
    if not (e.repository_url === p.repository_url && e.requested_ref =?= p.ref)
    then (
      returned,
      fail
          (record {
            id = e.id;
            job_id = job.id;
            failure_summary = job_input_mismatch;
            updated_at = c.mismatch_at;
            completed_at = c.mismatch_at;
          })
          s,
    )
    else if is_terminal_analysis_status e.status
    then (returned, s)
    else run_claimed factory job c a e s

unfoldable pub execute_repository_analysis_job :
    Bool → JobValue → JobExecution → Clock → Analysis → Store → TaskResult × Store
unfolding run_existing
execute_repository_analysis_job factory raw job c a s =
    elim (parse_repository_analysis_job_payload raw) [
      | malformed e ↦ (threw (bad_payload e), s)
      | parsed p ↦ elim (find_analysis p.analysis_id s) [
        | none ↦ (threw record_missing, s)
        | some e ↦ run_existing factory job c a p e s
      ]
    ]

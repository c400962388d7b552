-- ===== src/Worker/Task/Completes.antt =====
-- An execution whose analysis succeeds stores its report; one that is not for its analysis changes
-- nothing of it.
use stack_lens.Base.Tests.{
  ◌≡◌, refl, Bool, true, false, not, ◌&&◌, some, List, [], ◌∷◌, arith, or_else,
}
use stack_lens.Base.Lists.{all}
use stack_lens.Base.Text.{Text, ===_refl}
use stack_lens.Base.Table.{lookup}
use stack_lens.Contracts.{AnalysisReport}
use stack_lens.Persistence.Types
use stack_lens.Persistence.Types.{
  Store, StoredReport, AnalysisStatus, ProgressStage, completion_status,
  is_terminal_analysis_status,
}
use stack_lens.Persistence.Records.{AnalysisRecord, find_report, compact_record}
use stack_lens.Persistence.Execution.{claim_for_execution, update_progress, can_claim}
use stack_lens.Persistence.Execution.Claims.{complete-stores_report}
use stack_lens.Jobs.Payload.{Payload, JobValue, parsed, parse_repository_analysis_job_payload}
use stack_lens.Jobs.Progress.{durable_stage_for_progress}
use stack_lens.Worker.Task.{
  JobExecution, Event, report, abort, Analysis, Clock, TaskResult, returned, succeeded, run_events,
  attempt, conclude, is_final_attempt, run_claimed, execute_repository_analysis_job, completion_of,
  analysed, is_connected, can_connect,
}
use stack_lens.Worker.Task.Settles.{
  IsHeld, update_progress-IsHeld, run_events-IsHeld, claim-IsHeld, execute_is_run,
}

abbrev pub is_report : Event → Bool
is_report (report p at) = true
is_report abort = false

-- The run is not aborted, and the analysis ends with this report.
pub record Succeeds (a : Analysis) (r : AnalysisReport) : Type 0 where
  pub unaborted_before : a.aborted_before ≡ false
  pub unaborted : all is_report a.events ≡ true
  pub ends : a.ending ≡ analysed r

run_events_unaborted :
    (i job : Text) (events : List Event) (s : Store)
    → all is_report events ≡ true
    → ((run_events i job false events s).0 ≡ false) × ((run_events i job false events s).1 ≡ false)
unfolding run_events durable_stage_for_progress
run_events_unaborted i job [] s h = (refl, refl)
run_events_unaborted i job (abort ∷ rest) s h = absurd (ground arith)
run_events_unaborted i job (report p at ∷ rest) s h = run_events_unaborted i job rest _ h

-- What the `try` block of a run that succeeds gives.
attempt-Succeeds :
    (factory : Bool) (i job : Text) (e : AnalysisRecord) (a : Analysis) (r : AnalysisReport)
    (s : Store)
    → Succeeds a r
    → (is_connected e && not (can_connect factory e)) ≡ false
    → IsHeld i job s
    → let (result, aborted, t) = attempt i job factory e a s in
      (result ≡ succeeded r) × IsHeld i job t
unfolding attempt
attempt-Succeeds factory i job e a r s h fine held =
    let (quiet, through) = run_events_unaborted i job a.events s h.unaborted in
    (
      rw (h.unaborted_before, fine, quiet, through, h.ends) refl,
      rw (h.unaborted_before, fine) (run_events-IsHeld i job false a.events s held),
    )

-- The row and the report of a completed analysis.
pub record IsCompleted (i : Text) (r : AnalysisReport) (c : Clock) (w : TaskResult × Store)
    : Type 0 where
  pub result : w.0 ≡ returned
  pub row : Types.Analysis
  pub stored : lookup i w.1.analyses ≡ some row
  pub status : row.status ≡ completion_status (completion_of r)
  pub ended : row.completed_at ≡ some c.completed_at
  pub kept : StoredReport
  pub found : find_report i w.1 ≡ some kept
  pub whole : kept.report ≡ r

conclude-IsCompleted :
    (i job : Text) (final : Bool) (c : Clock) (r : AnalysisReport) (aborted : Bool) (s : Store)
    → IsHeld i job s
    → IsCompleted i r c (conclude i job final c (succeeded r) aborted s)
unfolding conclude
conclude-IsCompleted i job final c r aborted s h =
    let s' = update_progress i job ProgressStage.scoring c.scored_at s in
    let h' = update_progress-IsHeld i job ProgressStage.scoring c.scored_at s h in
    let ((b, at, status, free, ended, blame, print, made), (kept, found, whole, when)) =
      complete-stores_report
        (record {
          id = i;
          job_id = job;
          report = r;
          completed_at = c.completed_at;
          status = completion_of r;
        })
        s' h'.row h'.stored (ground (arith, h'.runs, h'.held, ===_refl job)) in
    record {
      result = refl;
      row = b;
      stored = at;
      status = status;
      ended = ended;
      kept = kept;
      found = found;
      whole = whole;
    }

-- When a job can claim the stored analysis that its payload names, the run is not aborted, the
-- connection that the analysis needs is there, and the analysis ends with a report, then the task
-- returns, the analysis is completed, with limitations exactly if the report has limitations or
-- partial failures, and the report is stored whole.
pub execute-IsCompleted :
    (factory : Bool) (raw : JobValue) (job : JobExecution) (c : Clock) (a : Analysis) (s : Store)
    (p : Payload) (row : Types.Analysis) (r : AnalysisReport)
    → parse_repository_analysis_job_payload raw ≡ parsed p
    → lookup p.analysis_id s.analyses ≡ some row
    → row.repository_url ≡ p.repository_url
    → row.requested_ref ≡ p.ref
    → can_claim job.id row ≡ true
    → Succeeds a r
    → (is_connected (compact_record p.analysis_id row)
        && not (can_connect factory (compact_record p.analysis_id row)))
      ≡ false
    → IsCompleted p.analysis_id r c (execute_repository_analysis_job factory raw job c a s)
unfolding run_claimed
execute-IsCompleted factory raw job c a s p row r read found url ref may good fine =
    let e = compact_record p.analysis_id row in
    let at = or_else e.started_at c.started_at in
    let (won, held) = claim-IsHeld e.id job.id at s row found may in
    let s' = (claim_for_execution e.id job.id at s).1 in
    let (done, held') = attempt-Succeeds factory e.id job.id e a r s' good fine held in
    rw (execute_is_run factory raw job c a s p row read found url ref may, run_claimed, won, done)
      (conclude-IsCompleted p.analysis_id job.id (is_final_attempt job) c r
        (attempt e.id job.id factory e a s').1 (attempt e.id job.id factory e a s').2 held')

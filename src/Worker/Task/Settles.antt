-- ===== src/Worker/Task/Settles.antt =====
-- An execution that gets the claim never leaves its analysis running.
use stack_lens.Base.Tests.{
  ℕ, ◌≡◌, refl, Bool, true, false, not, ◌&&◌, none, some, List, [], ◌∷◌, inl, inr, arith,
  Bool-cases, ◌⊎◌, or_else, subst, sym,
}
use stack_lens.Base.Text.{Text, ◌===◌, ===_iff, ===_refl, ◌=?=◌, =?=_iff}
use stack_lens.Persistence.Types
use stack_lens.Base.Table.{lookup, update_where, lookup-update_where}
use stack_lens.Persistence.Types.{
  Store, FailureSummary, ProgressStage, AnalysisStatus, is_terminal_analysis_status, RetryUpdate,
  FailureUpdate, Completion, completion_status, StoredReport,
}
use stack_lens.Persistence.Records.{AnalysisRecord, find_analysis, compact_record}
use stack_lens.Persistence.Execution.{
  claim_for_execution, update_progress, mark_retry_pending, complete, fail, can_claim, start,
  is_run_by, advance, is_active_of, can_fail, requeue, give_up, finish,
}
use stack_lens.Jobs.Payload.{Payload, JobValue, parsed, parse_repository_analysis_job_payload}
use stack_lens.Jobs.Progress.{durable_stage_for_progress}
use stack_lens.Worker.Task.{
  JobExecution, Event, report, abort, Analysis, Clock, TaskError, TaskResult, returned, threw,
  Attempt, succeeded, refused, connection_error, other_error, run_events, attempt, conclude,
  is_final_attempt, run_claimed, execute_repository_analysis_job, is_connected, can_connect,
}

module _ (i job : Text) where
  -- The analysis runs under the job.
  pub record IsHeld (s : Store) : Type 0 where
    pub row : Types.Analysis
    pub stored : lookup i s.analyses ≡ some row
    pub runs : row.status ≡ AnalysisStatus.running
    pub held : row.active_job_id ≡ some job

  -- An update of the analysis whose test the held row passes.
  updated_row :
      (test : Types.Analysis → Bool) (f : Types.Analysis → Types.Analysis) (s : Store)
      (a : Types.Analysis)
      → lookup i s.analyses ≡ some a
      → test a ≡ true
      → lookup i (update_where i test f s.analyses) ≡ some (f a)
  updated_row test f s a found h =
      ground (arith, lookup-update_where i i test f s.analyses, ===_refl i)

  pub update_progress-IsHeld :
      (stage : ProgressStage) (at : ℕ) (s : Store)
      → IsHeld s
      → IsHeld (update_progress i job stage at s)
  unfolding update_progress
  update_progress-IsHeld stage at s h = record {
    row = advance stage at h.row;
    stored =
        updated_row (is_run_by job) (advance stage at) s h.row h.stored
          (ground (arith, h.runs, h.held, ===_refl job));
    runs = h.runs;
    held = h.held;
  }

  pub run_events-IsHeld :
      (aborted : Bool) (events : List Event) (s : Store)
      → IsHeld s
      → IsHeld (run_events i job aborted events s).2
  unfolding run_events durable_stage_for_progress
  run_events-IsHeld aborted [] s h = h
  run_events-IsHeld aborted (abort ∷ rest) s h = run_events-IsHeld true rest s h
  run_events-IsHeld true (report p at ∷ rest) s h = h
  run_events-IsHeld false (report p at ∷ rest) s h =
      run_events-IsHeld false rest _ (update_progress-IsHeld _ at s h)

  attempt-IsHeld :
      (factory : Bool) (e : AnalysisRecord) (a : Analysis) (s : Store)
      → IsHeld s
      → IsHeld (attempt i job factory e a s).2
  unfolding attempt
  attempt-IsHeld factory e a s h = elim (Bool-cases a.aborted_before) [
    | inl early ↦ rw early h
    | inr later ↦ elim (Bool-cases (is_connected e && not (can_connect factory e))) [
      | inl missing ↦ rw (later, missing) h
      | inr fine ↦ rw (later, fine) (run_events-IsHeld false a.events s h)
    ]
  ]

  -- The analysis ended and the task returned, or it waits for another attempt, which was not the
  -- last, and the task threw so that the queue makes it.
  pub record IsSettled (final : Bool) (w : TaskResult × Store) : Type 0 where
    pub row : Types.Analysis
    pub stored : lookup i w.1.analyses ≡ some row
    pub free : row.active_job_id ≡ none
    pub outcome :
        ((is_terminal_analysis_status row.status ≡ true) × (w.0 ≡ returned))
        ⊎ ((row.status ≡ AnalysisStatus.queued)
            × (final ≡ false)
            × ((e : TaskError) × (w.0 ≡ threw e)))

  fail-IsSettled :
      (final : Bool) (u : FailureUpdate) (s : Store)
      → u.id ≡ i
      → u.job_id ≡ job
      → IsHeld s
      → IsSettled final (returned, fail u s)
  unfolding fail
  fail-IsSettled final u s at by h = record {
    row = give_up u h.row;
    stored =
        subst
          (λ k.
            lookup i (update_where k (can_fail u.job_id) (give_up u) s.analyses)
            ≡ some (give_up u h.row))
          (sym at)
          (updated_row (can_fail u.job_id) (give_up u) s h.row h.stored
            (ground (arith, h.runs, h.held, by, ===_iff job u.job_id)));
    free = refl;
    outcome = inl (refl, refl);
  }

  requeue-IsSettled :
      (u : RetryUpdate) (e : TaskError) (s : Store)
      → u.id ≡ i
      → u.job_id ≡ job
      → IsHeld s
      → IsSettled false (threw e, mark_retry_pending u s)
  unfolding mark_retry_pending
  requeue-IsSettled u e s at by h = record {
    row = requeue u h.row;
    stored =
        subst
          (λ k.
            lookup i (update_where k (is_active_of u.job_id) (requeue u) s.analyses)
            ≡ some (requeue u h.row))
          (sym at)
          (updated_row (is_active_of u.job_id) (requeue u) s h.row h.stored
            (ground (arith, h.runs, h.held, by, ===_iff job u.job_id)));
    free = refl;
    outcome = inr (refl, refl, (e, refl));
  }

  complete-IsSettled :
      (final : Bool) (u : Completion) (s : Store)
      → u.id ≡ i
      → u.job_id ≡ job
      → IsHeld s
      → IsSettled final (returned, complete u s)
  unfolding complete
  complete-IsSettled final u s at by h = record {
    row = finish u h.row;
    stored =
        subst
          (λ k.
            lookup i (update_where k (is_active_of u.job_id) (finish u) s.analyses)
            ≡ some (finish u h.row))
          (sym at)
          (updated_row (is_active_of u.job_id) (finish u) s h.row h.stored
            (ground (arith, h.runs, h.held, by, ===_iff job u.job_id)));
    free = ground arith;
    outcome = inl (ground arith, refl);
  }

  pub conclude-IsSettled :
      (final : Bool) (c : Clock) (r : Attempt) (aborted : Bool) (s : Store)
      → IsHeld s
      → IsSettled final (conclude i job final c r aborted s)
  unfolding conclude
  conclude-IsSettled final c (succeeded r) aborted s h =
      complete-IsSettled final _ _ refl refl (update_progress-IsHeld _ _ s h)
  conclude-IsSettled true c (refused f) aborted s h = elim (Bool-cases f.retryable) [
    | inl e ↦ rw e (fail-IsSettled true _ s refl refl h)
    | inr e ↦ rw e (fail-IsSettled true _ s refl refl h)
  ]
  conclude-IsSettled false c (refused f) aborted s h = elim (Bool-cases f.retryable) [
    | inl e ↦ rw e (requeue-IsSettled _ _ s refl refl h)
    | inr e ↦ rw e (fail-IsSettled false _ s refl refl h)
  ]
  conclude-IsSettled true c connection_error true s h = fail-IsSettled true _ s refl refl h
  conclude-IsSettled false c connection_error true s h = requeue-IsSettled _ _ s refl refl h
  conclude-IsSettled final c connection_error false s h = fail-IsSettled final _ s refl refl h
  conclude-IsSettled true c other_error aborted s h = fail-IsSettled true _ s refl refl h
  conclude-IsSettled false c other_error aborted s h = requeue-IsSettled _ _ s refl refl h

pub claim-IsHeld :
    (i job : Text) (at : ℕ) (s : Store) (a : Types.Analysis)
    → lookup i s.analyses ≡ some a
    → can_claim job a ≡ true
    → ((claim_for_execution i job at s).0 ≡ true) × IsHeld i job (claim_for_execution i job at s).1
unfolding claim_for_execution
claim-IsHeld i job at s a found may = (
  ground arith,
  record {
    row = start job at a;
    stored = updated_row i job (can_claim job) (start job at) s a found may;
    runs = refl;
    held = refl;
  },
)

run_claimed-IsSettled :
    (factory : Bool) (job : JobExecution) (c : Clock) (a : Analysis) (e : AnalysisRecord)
    (s : Store) (row : Types.Analysis)
    → lookup e.id s.analyses ≡ some row
    → can_claim job.id row ≡ true
    → IsSettled e.id job.id (is_final_attempt job) (run_claimed factory job c a e s)
unfolding run_claimed
run_claimed-IsSettled factory job c a e s row found may =
    let (won, held) =
      claim-IsHeld e.id job.id (or_else e.started_at c.started_at) s row found may in
    let s' = (claim_for_execution e.id job.id (or_else e.started_at c.started_at) s).1 in
    rw won (
      conclude-IsSettled e.id job.id (is_final_attempt job) c _ _ _
        (attempt-IsHeld e.id job.id factory e a s' held))

-- The execution of a well-formed job whose analysis is stored with the same input comes down to the
-- claimed run, if the job can claim the analysis.
pub execute_is_run :
    (factory : Bool) (raw : JobValue) (job : JobExecution) (c : Clock) (a : Analysis) (s : Store)
    (p : Payload) (row : Types.Analysis)
    → parse_repository_analysis_job_payload raw ≡ parsed p
    → lookup p.analysis_id s.analyses ≡ some row
    → row.repository_url ≡ p.repository_url
    → row.requested_ref ≡ p.ref
    → can_claim job.id row ≡ true
    → execute_repository_analysis_job factory raw job c a s
      ≡ run_claimed factory job c a (compact_record p.analysis_id row) s
unfolding execute_repository_analysis_job find_analysis
execute_is_run factory raw job c a s p row read found url ref may =
    let same : (row.repository_url === p.repository_url) ≡ true = (===_iff _ _).1 url in
    let same_ref : (row.requested_ref =?= p.ref) ≡ true = (=?=_iff _ _).1 ref in
    let active : is_terminal_analysis_status row.status ≡ false = ground arith in
    rw (read, execute_repository_analysis_job, found, same, same_ref, active) refl

-- When a job can claim the stored analysis that its payload names, its execution leaves that
-- analysis free of any job: terminal, with the task returned; or queued, with the task throwing to
-- have the queue try again, which happens only before the last attempt.
pub execute-IsSettled :
    (factory : Bool) (raw : JobValue) (job : JobExecution) (c : Clock) (a : Analysis) (s : Store)
    (p : Payload) (row : Types.Analysis)
    → parse_repository_analysis_job_payload raw ≡ parsed p
    → lookup p.analysis_id s.analyses ≡ some row
    → row.repository_url ≡ p.repository_url
    → row.requested_ref ≡ p.ref
    → can_claim job.id row ≡ true
    → IsSettled p.analysis_id job.id
        (is_final_attempt job)
        (execute_repository_analysis_job factory raw job c a s)
execute-IsSettled factory raw job c a s p row read found url ref may =
    rw (execute_is_run factory raw job c a s p row read found url ref may)
      (run_claimed-IsSettled factory job c a (compact_record p.analysis_id row) s row found may)

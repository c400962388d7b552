-- ===== src/Worker/Examples.antt =====
-- The theorems about an execution at a concrete job.
use stack_lens.Base.Tests.{none, ◌≡◌, refl, true, false, some, [], ◌∷◌}
use stack_lens.Base.Text.{text, ◌===◌}
use stack_lens.Base.Table.{lookup, insert_new}
use stack_lens.Persistence.Submission.{
  create_queued_repository_analysis_with_delivery, has_owner_pair, is_bound_to,
}
use stack_lens.Persistence.History.{replay}
use stack_lens.Persistence.Samples.{analysis_id, job_id, submitted, queued_analysis, sample_report}
use stack_lens.Jobs.Payload.{
  Payload, JobValue, parsed, payload_object, parse_repository_analysis_job_payload,
}
use stack_lens.Jobs.Progress.{repository, analysis, started, completed}
use stack_lens.Worker.Sweep.{
  Phase, Sweeper, start_sweeper, stop, purged, stops, purges, start, next,
}
use stack_lens.Worker.Sweep.Order.{IsTicking, IsOrderly, sweep_lem}
use stack_lens.Worker.Task.{
  JobExecution, Clock, Analysis, report, abort, analysed, execute_repository_analysis_job,
  is_final_attempt,
}
use stack_lens.Worker.Task.Settles.{IsSettled, execute-IsSettled}
use stack_lens.Worker.Task.Completes.{IsCompleted, execute-IsCompleted}

abbrev payload : Payload
payload = record {
  analysis_id = analysis_id;
  repository_url = text "https://github.com/o/r";
  ref = some (text "main");
}

abbrev raw_payload : JobValue
raw_payload = payload_object payload

abbrev job : JobExecution
job = record { id = job_id; attempts = 1; max_attempts = 5 }

abbrev clock : Clock
clock = record {
  mismatch_at = 20;
  started_at = 20;
  ended_at = 30;
  scored_at = 40;
  completed_at = 50;
}

-- The signal fires after the first progress report.
abbrev aborted_run : Analysis
aborted_run = record {
  aborted_before = false;
  events =
      report (record { phase = repository; status = started }) 21
      ∷ abort
      ∷ report (record { phase = analysis; status = started }) 22
      ∷ [];
  ending = analysed sample_report;
}

abbrev good_run : Analysis
good_run = record {
  aborted_before = false;
  events =
      report (record { phase = repository; status = started }) 21
      ∷ report (record { phase = analysis; status = completed }) 22
      ∷ [];
  ending = analysed sample_report;
}

read : parse_repository_analysis_job_payload raw_payload ≡ parsed payload
unfolding parse_repository_analysis_job_payload
read = refl

queued_row_found : lookup analysis_id (replay submitted).analyses ≡ some queued_analysis
unfolding replay lookup create_queued_repository_analysis_with_delivery has_owner_pair is_bound_to
    ◌===◌ insert_new
queued_row_found = refl

execute-IsSettled_example :
    IsSettled analysis_id job_id
      (is_final_attempt job)
      (execute_repository_analysis_job true raw_payload job clock aborted_run (replay submitted))
execute-IsSettled_example =
    execute-IsSettled true raw_payload job clock aborted_run (replay submitted) payload
      queued_analysis read queued_row_found refl refl refl

execute-IsCompleted_example :
    IsCompleted analysis_id sample_report clock
      (execute_repository_analysis_job true raw_payload job clock good_run (replay submitted))
execute-IsCompleted_example =
    execute-IsCompleted true raw_payload job clock good_run (replay submitted) payload
      queued_analysis sample_report read queued_row_found refl refl refl
      (record { unaborted_before = refl; unaborted = refl; ends = refl }) refl

-- A sweeper as it is started.
abbrev first_sweep : Sweeper
first_sweep = record {
  stopped = false;
  phase = Phase.purging;
  pending = 0;
  sweeps = 1;
  connection_sweeps = 0;
  errors = 0;
}

first_started : start_sweeper none ≡ some first_sweep
unfolding start_sweeper
first_started = refl

-- The purge resolved after a stop, and no purge of connections follows.
sweep_lem_example :
    IsTicking (stop first_sweep) × IsOrderly (stop first_sweep) (purged true (stop first_sweep))
sweep_lem_example =
    sweep_lem {interval = none} (next (start first_sweep first_started) (stops first_sweep))
      (purges (stop first_sweep) true refl)

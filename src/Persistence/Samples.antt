-- ===== src/Persistence/Samples.antt =====
-- Data for the examples: one analysis, its job, its report and its histories.
use stack_lens.Base.Tests.{none, some, true, List, [], ◌∷◌}
use stack_lens.Base.Text.{Text, text, text_lt}
use stack_lens.Contracts.{AnalysisReport, AnalysisInput}
use stack_lens.Persistence.Types.{
  Analysis, CreateQueued, FailureUpdate, Completion, whole, Delivery,
}
use stack_lens.Persistence.Submission.{queued_row, pending_delivery}
use stack_lens.Persistence.Outbox.{lease}
use stack_lens.Persistence.Execution.{start, finish}
use stack_lens.Persistence.History.{Operation, submit, claim, finish_with, claim_outbox}

abbrev pub analysis_id : Text
analysis_id = text "a1"

abbrev pub job_id : Text
job_id = text "j1"

abbrev pub other_job_id : Text
other_job_id = text "j2"

abbrev pub submission : CreateQueued
submission = record {
  id = analysis_id;
  repository_url = text "https://github.com/o/r";
  owner_github_id = none;
  github_connection_id = none;
  requested_ref = some (text "main");
  created_at = 10;
  retention_expires_at = some 1000;
}

abbrev pub sample_report : AnalysisReport
sample_report = record {
  schema_version = text "2.0.0";
  input = AnalysisInput.manifest (text "sha");
  analyzer = record { version = text "1"; rule_set_version = text "2"; scoring_version = text "3" };
  limitations = [];
  partial_failures = [];
}

abbrev pub completion : Completion
completion = record {
  id = analysis_id;
  job_id = job_id;
  report = sample_report;
  completed_at = 30;
  status = whole;
}

abbrev pub late_failure : FailureUpdate
late_failure = record {
  id = analysis_id;
  job_id = other_job_id;
  failure_summary = record { code = text "x"; message = text "y"; retryable = true };
  updated_at = 40;
  completed_at = 40;
}

abbrev pub token : Text
token = text "t1"

abbrev pub submitted : List Operation
submitted = submit submission ∷ []

abbrev pub leased : List Operation
leased = claim_outbox text_lt [] 25 token 20 60020 ∷ submitted

abbrev pub running : List Operation
running = claim analysis_id job_id 20 ∷ submitted

abbrev pub finished : List Operation
finished = finish_with completion ∷ running

abbrev pub queued_analysis : Analysis
queued_analysis = queued_row submission

abbrev pub running_analysis : Analysis
running_analysis = start job_id 20 queued_analysis

abbrev pub finished_analysis : Analysis
finished_analysis = finish completion running_analysis

abbrev pub leased_delivery : Delivery
leased_delivery = lease token 20 60020 (pending_delivery 10)

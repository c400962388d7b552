-- ===== src/Api/Examples.antt =====
-- Reading the sample analysis after it is completed.
use stack_lens.Base.Tests.{◌≡◌, refl, none, some, []}
use stack_lens.Base.Text.{◌===◌}
use stack_lens.Base.Table.{lookup, insert_new}
use stack_lens.Persistence.Records.{compact_record, find_analysis, find_report}
use stack_lens.Persistence.Submission.{
  create_queued_repository_analysis_with_delivery, has_owner_pair, is_bound_to,
}
use stack_lens.Persistence.Execution.{claim_for_execution, complete}
use stack_lens.Persistence.History.{replay}
use stack_lens.Persistence.Samples.{analysis_id, finished, finished_analysis}
use stack_lens.Api.Analyses.{Snapshot, read_repository_analysis}
use stack_lens.Api.Analyses.Access.{IsShown, read_repository_analysis-IsShown}

-- The report that is stored by the second read.
abbrev shown : Snapshot
shown = record {
  analysis = compact_record analysis_id finished_analysis;
  report = find_report analysis_id (replay finished);
}

reads_finished :
    read_repository_analysis analysis_id none (replay finished) (replay finished) (replay finished)
    ≡ some shown
unfolding read_repository_analysis find_analysis find_report replay lookup complete
    claim_for_execution create_queued_repository_analysis_with_delivery has_owner_pair is_bound_to
    ◌===◌ insert_new
reads_finished = refl

-- Between the reads the analysis is purged.
reads_purged :
    read_repository_analysis analysis_id none (replay finished) (replay []) (replay []) ≡ none
unfolding read_repository_analysis find_analysis find_report replay lookup complete
    claim_for_execution create_queued_repository_analysis_with_delivery has_owner_pair is_bound_to
    ◌===◌ insert_new
reads_purged = refl

read_repository_analysis-IsShown_example : IsShown none (λ i. find_report i (replay finished)) shown
read_repository_analysis-IsShown_example =
    read_repository_analysis-IsShown analysis_id none (replay finished) (replay finished)
      (replay finished) shown reads_finished

-- ===== src/Persistence/Examples.antt =====
-- The theorems about the tables at concrete histories, and runs of them.
use stack_lens.Base.Tests.{◌≤◌, ◌≡◌, refl, true, false, some, [], arith}
use stack_lens.Base.Lists.{All, length}
use stack_lens.Base.Text.{Text, text, ◌===◌, text_lt}
use stack_lens.Base.Table.{lookup, insert_new}
use stack_lens.Persistence.Types.{Analysis, AnalysisStatus}
use stack_lens.Persistence.Records.{compact_record}
use stack_lens.Persistence.Submission.{
  create_queued_repository_analysis_with_delivery, has_owner_pair, is_bound_to, accepted,
}
use stack_lens.Persistence.Submission.Laws.{
  Promises, create_with_delivery-Promises, create_with_delivery_idempotent,
}
use stack_lens.Persistence.Outbox.{
  claim_deliveries, claim_pending_repository_analysis_deliveries, backfill,
  mark_repository_analysis_delivery_delivered, retry_repository_analysis_delivery,
}
use stack_lens.Persistence.Outbox.Leases.{
  IsLeased, claim_deliveries-IsLeased, leased_not_claimed, late_dispatcher_is_harmless,
}
use stack_lens.Persistence.Execution.{claim_for_execution, complete}
use stack_lens.Persistence.Execution.Claims.{claim_excludes_others}
use stack_lens.Persistence.History.{replay, apply, fail_with}
use stack_lens.Persistence.History.Validity.{replay-IsValid}
use stack_lens.Persistence.History.Terminal.{IsKeptOrPurged, terminal_is_final}
use stack_lens.Persistence.History.Ownership.{held_is_exclusive}
use stack_lens.Persistence.Invariant.{IsValid, empty_store}
use stack_lens.Persistence.Samples.{
  analysis_id, job_id, other_job_id, submission, late_failure, token, submitted, leased, running,
  finished, queued_analysis, running_analysis, finished_analysis, leased_delivery,
}

replay-IsValid_example : IsValid (replay finished)
replay-IsValid_example = replay-IsValid finished

finished_row : lookup analysis_id (replay finished).analyses ≡ some finished_analysis
unfolding replay lookup complete claim_for_execution create_queued_repository_analysis_with_delivery
    has_owner_pair is_bound_to ◌===◌ insert_new
finished_row = refl

running_row : lookup analysis_id (replay running).analyses ≡ some running_analysis
unfolding replay lookup claim_for_execution create_queued_repository_analysis_with_delivery
    has_owner_pair is_bound_to ◌===◌ insert_new
running_row = refl

leased_row : lookup analysis_id (replay leased).deliveries ≡ some leased_delivery
unfolding replay lookup claim_pending_repository_analysis_deliveries
    create_queued_repository_analysis_with_delivery has_owner_pair is_bound_to ◌===◌ insert_new
leased_row = refl

terminal_is_final_example :
    IsKeptOrPurged (fail_with late_failure) (replay finished) analysis_id finished_analysis
terminal_is_final_example =
    terminal_is_final (fail_with late_failure) (replay finished) analysis_id finished_analysis
      (replay-IsValid finished) finished_row refl

held_is_exclusive_example :
    lookup analysis_id (apply (fail_with late_failure) (replay running)).analyses
    ≡ some running_analysis
unfolding ◌===◌
held_is_exclusive_example =
    held_is_exclusive (replay running) analysis_id job_id running_analysis (replay-IsValid running)
      running_row refl (fail_with late_failure) refl

submission_row : lookup analysis_id (replay submitted).analyses ≡ some queued_analysis
unfolding replay lookup create_queued_repository_analysis_with_delivery has_owner_pair is_bound_to
    ◌===◌ insert_new
submission_row = refl

create_with_delivery-Promises_example :
    Promises submission
      (replay submitted)
      (create_queued_repository_analysis_with_delivery submission (replay submitted))
create_with_delivery-Promises_example = create_with_delivery-Promises submission (replay submitted)

first_answer :
    create_queued_repository_analysis_with_delivery submission empty_store
    ≡ (accepted (compact_record analysis_id queued_analysis), replay submitted)
unfolding replay lookup create_queued_repository_analysis_with_delivery has_owner_pair is_bound_to
    ◌===◌ insert_new
first_answer = refl

create_with_delivery_idempotent_example :
    create_queued_repository_analysis_with_delivery submission (replay submitted)
    ≡ (accepted (compact_record analysis_id queued_analysis), replay submitted)
create_with_delivery_idempotent_example =
    create_with_delivery_idempotent submission empty_store (replay submitted)
      (compact_record analysis_id queued_analysis) first_answer

claim_deliveries-IsLeased_example :
    let (claimed, t) = claim_deliveries text_lt [] 25 token 20 60020 (replay submitted) in
    All (IsLeased (backfill (replay submitted)) t token 20 60020) claimed × (length claimed ≤ 25)
claim_deliveries-IsLeased_example =
    claim_deliveries-IsLeased text_lt [] 25 token 20 60020 (replay submitted)
      (replay-IsValid submitted)

leased_not_claimed_example :
    All
      (λ c. (c.analysis_id === analysis_id) ≡ false)
      (claim_deliveries text_lt [] 25 (text "t2") 60019 120019 (replay leased)).0
leased_not_claimed_example =
    leased_not_claimed text_lt [] 25 (text "t2") 60019 120019 (replay leased)
      (replay-IsValid leased) analysis_id leased_delivery 60020 leased_row refl refl (omega arith)

late_dispatcher_is_harmless_example :
    let (claimed, t) = claim_deliveries text_lt [] 25 token 20 60020 (replay submitted) in
    All
      (λ c.
        (j : Text)
        → (lookup j
              (mark_repository_analysis_delivery_delivered c.analysis_id
                (text "t2")
                50
                t).deliveries
            ≡ lookup j t.deliveries)
          × (lookup j
                (retry_repository_analysis_delivery c.analysis_id (text "t2") 60 50 t).deliveries
              ≡ lookup j t.deliveries))
      claimed
unfolding ◌===◌
late_dispatcher_is_harmless_example =
    late_dispatcher_is_harmless text_lt [] 25 token 20 60020 (replay submitted)
      (replay-IsValid submitted) (text "t2") 50 60 refl

claim_wins : (claim_for_execution analysis_id job_id 20 (replay submitted)).0 ≡ true
unfolding replay lookup claim_for_execution create_queued_repository_analysis_with_delivery
    has_owner_pair is_bound_to ◌===◌ insert_new
claim_wins = refl

claim_excludes_others_example :
    let t = (claim_for_execution analysis_id job_id 20 (replay submitted)).1 in
    ((a : Analysis) × (lookup analysis_id t.analyses ≡ some a)
      × (a.status ≡ AnalysisStatus.running)
      × (a.active_job_id ≡ some job_id)
      × (a.started_at ≡ some 20))
    × ((claim_for_execution analysis_id other_job_id 25 t).0 ≡ false)
    × ((claim_for_execution analysis_id job_id 25 t).0 ≡ true)
unfolding ◌===◌
claim_excludes_others_example =
    claim_excludes_others analysis_id job_id other_job_id 20 25 (replay submitted) claim_wins refl

-- ===== src/Persistence/History/Validity.antt =====
-- Every history keeps the tables valid.
use stack_lens.Base.Tests.{
  max_safe_integer, ℕ, refl, Bool, List, [], ◌∷◌, inl, inr, Bool-cases, ◌||◌, ltb, ◌==◌,
}
use stack_lens.Base.Text.{Text}
use stack_lens.Base.Table.{lookup, keys}
use stack_lens.Persistence.Types.{Store}
use stack_lens.Persistence.Outbox.{claim_pending_repository_analysis_deliveries}
use stack_lens.Persistence.Retention.{purge_expired_terminal_analyses, expired_rows}
use stack_lens.Persistence.History.{
  Operation, submit, submit_alone, claim_outbox, deliver, postpone, claim, progress, retry,
  finish_with, fail_with, purge, apply, replay, after,
}
use stack_lens.Persistence.Invariant.{IsValid, empty_store}
use stack_lens.Persistence.Invariant.Submits.{
  create_queued_repository_analysis-IsValid,
  create_queued_repository_analysis_with_delivery-IsValid,
}
use stack_lens.Persistence.Invariant.Runs.{
  claim_for_execution-IsValid, update_progress-IsValid, mark_retry_pending-IsValid,
  complete-IsValid, fail-IsValid,
}
use stack_lens.Persistence.Invariant.Delivers.{
  claim_deliveries-IsValid, mark_delivered-IsValid, retry_delivery-IsValid,
}
use stack_lens.Persistence.Invariant.Purges.{delete_analyses-IsValid}

claim_pending-IsValid :
    (collate : Text → Text → Bool) (locked : List Text) (limit : ℕ) (token : Text) (now expires : ℕ)
    (s : Store)
    → IsValid s
    → IsValid (
        after s
          (claim_pending_repository_analysis_deliveries collate locked limit token now expires s))
unfolding claim_pending_repository_analysis_deliveries
claim_pending-IsValid collate locked limit token now expires s v =
    elim (Bool-cases (limit == 0 || ltb max_safe_integer limit)) [
      | inl refused ↦ rw (refused, claim_pending_repository_analysis_deliveries) v
      | inr within ↦
          rw (within, claim_pending_repository_analysis_deliveries)
            (claim_deliveries-IsValid collate locked limit token now expires s v)
    ]

purge-IsValid :
    (collate : Text → Text → Bool) (locked : List Text) (now limit : ℕ) (s : Store)
    → IsValid s
    → IsValid (after s (purge_expired_terminal_analyses collate locked now limit s))
unfolding purge_expired_terminal_analyses
purge-IsValid collate locked now limit s v = elim (Bool-cases (limit == 0 || ltb 1000 limit)) [
  | inl refused ↦ rw (refused, purge_expired_terminal_analyses) v
  | inr within ↦
      rw (within, purge_expired_terminal_analyses)
        (delete_analyses-IsValid (keys (expired_rows collate locked now limit s)) s v)
]

-- Every operation keeps the tables valid.
pub apply-IsValid : (op : Operation) (s : Store) → IsValid s → IsValid (apply op s)
unfolding apply
apply-IsValid (submit input) s v = create_queued_repository_analysis_with_delivery-IsValid input s v
apply-IsValid (submit_alone input) s v = create_queued_repository_analysis-IsValid input s v
apply-IsValid (claim_outbox collate locked limit token now expires) s v =
    claim_pending-IsValid collate locked limit token now expires s v
apply-IsValid (deliver i token at) s v = mark_delivered-IsValid i token at s v
apply-IsValid (postpone i token next at) s v = retry_delivery-IsValid i token next at s v
apply-IsValid (claim i job at) s v = claim_for_execution-IsValid i job at s v
apply-IsValid (progress i job stage at) s v = update_progress-IsValid i job stage at s v
apply-IsValid (retry u) s v = mark_retry_pending-IsValid u s v
apply-IsValid (finish_with u) s v = complete-IsValid u s v
apply-IsValid (fail_with u) s v = fail-IsValid u s v
apply-IsValid (purge collate locked now limit) s v = purge-IsValid collate locked now limit s v

empty_store-IsValid : IsValid empty_store
unfolding lookup
empty_store-IsValid = record {
  keys_of_analyses = tt;
  keys_of_reports = tt;
  keys_of_deliveries = tt;
  rows = λ i a h. cc;
  deliveries = λ i d h. cc;
  reported = λ i. refl;
  owned = λ i h. cc;
}

-- Whatever submissions, claims, retries, completions, failures and purges ran, and in whatever
-- order, the tables are valid: distinct keys, a job on exactly the running analyses, a completion
-- time and the final stage on the terminal ones, a report on exactly the completed ones, a lease on
-- exactly the deliveries under way, and an analysis for every delivery.
pub replay-IsValid : (history : List Operation) → IsValid (replay history)
unfolding replay
replay-IsValid [] = empty_store-IsValid
replay-IsValid (op ∷ earlier) = apply-IsValid op (replay earlier) (replay-IsValid earlier)

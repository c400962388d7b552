-- ===== src/Persistence/History.antt =====
-- Histories of the store: the operations of packages/persistence/src/repository.ts that change
-- it, in any order and by any number of processes, each a transaction.
pub mod Rows
pub mod Validity
pub mod Terminal
pub mod Ownership
use stack_lens.Base.Tests.{ℕ, Bool, Option, none, some, List, [], ◌∷◌}
use stack_lens.Base.Text.{Text, ◌===◌}
use stack_lens.Persistence.Types.{
  ProgressStage, Store, CreateQueued, RetryUpdate, FailureUpdate, Completion,
}
use stack_lens.Persistence.Submission.{
  create_queued_repository_analysis, create_queued_repository_analysis_with_delivery,
}
use stack_lens.Persistence.Outbox.{
  claim_pending_repository_analysis_deliveries, mark_repository_analysis_delivery_delivered,
  retry_repository_analysis_delivery,
}
use stack_lens.Persistence.Execution.{
  claim_for_execution, update_progress, mark_retry_pending, complete, fail,
}
use stack_lens.Persistence.Retention.{purge_expired_terminal_analyses}
use stack_lens.Persistence.Invariant.{empty_store}

pub data Operation : Type 0 where
  submit submit_alone : CreateQueued → Operation
  claim_outbox : (Text → Text → Bool) → List Text → ℕ → Text → ℕ → ℕ → Operation
  deliver : Text → Text → ℕ → Operation
  postpone : Text → Text → ℕ → ℕ → Operation
  claim : Text → Text → ℕ → Operation
  progress : Text → Text → ProgressStage → ℕ → Operation
  retry : RetryUpdate → Operation
  finish_with : Completion → Operation
  fail_with : FailureUpdate → Operation
  purge : (Text → Text → Bool) → List Text → ℕ → ℕ → Operation

-- The store after an operation that throws is the store before it.
abbrev pub after {ℓ} : {A : Type ℓ} → Store → Option (A × Store) → Store
after s none = s
after s (some (a, t)) = t

unfoldable pub apply : Operation → Store → Store
apply (submit input) s = (create_queued_repository_analysis_with_delivery input s).1
apply (submit_alone input) s = (create_queued_repository_analysis input s).1
apply (claim_outbox collate locked limit token now expires) s =
    after s (claim_pending_repository_analysis_deliveries collate locked limit token now expires s)
apply (deliver i token at) s = mark_repository_analysis_delivery_delivered i token at s
apply (postpone i token next at) s = retry_repository_analysis_delivery i token next at s
apply (claim i job at) s = (claim_for_execution i job at s).1
apply (progress i job stage at) s = update_progress i job stage at s
apply (retry u) s = mark_retry_pending u s
apply (finish_with u) s = complete u s
apply (fail_with u) s = fail u s
apply (purge collate locked now limit) s =
    after s (purge_expired_terminal_analyses collate locked now limit s)

-- The last operation of the list is the first that ran.
unfoldable pub replay : List Operation → Store
unfolding apply
replay [] = empty_store
replay (op ∷ earlier) = apply op (replay earlier)

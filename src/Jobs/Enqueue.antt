-- ===== src/Jobs/Enqueue.antt =====
-- Submitting an analysis (packages/repository-jobs/src/enqueue.ts, `createRepositoryAnalysisJob`):
-- the transaction, and a round of the dispatcher that is not waited for.
pub mod Laws
use stack_lens.Base.Tests.{
  ℕ, ◌+◌, ◌≡◌, refl, ◌∙◌, Bool, ◌&&◌, Option, List, [], ◌∷◌, Bool-cases, inl, inr, none, some,
  is_some, arith, true, false,
}
use stack_lens.Base.Text.{Text}
use stack_lens.Persistence.Types.{Store, CreateQueued, ClaimedDelivery}
use stack_lens.Base.Table.{lookup, lookup-update_where}
use stack_lens.Jobs.Backoff.{next_delivery_attempt}
use stack_lens.Persistence.Submission.Laws.{IsAccepted, Promises, create_with_delivery-Promises}
use stack_lens.Persistence.Records.{AnalysisRecord}
use stack_lens.Persistence.Submission.{
  Submission, accepted, rejected, create_queued_repository_analysis_with_delivery,
}
use stack_lens.Persistence.Outbox.{
  is_leased_by, mark_delivered, mark_pending, backfill, claim_deliveries,
  claim_pending_repository_analysis_deliveries, mark_repository_analysis_delivery_delivered,
  retry_repository_analysis_delivery,
}
use stack_lens.Jobs.Payload.{job_for}
use stack_lens.Jobs.Dispatch.{
  payload_of, JobQueue, Fate, mark, put_back, delivery_batch_size, delivery_lease_ms,
  dispatch_delivery, dispatch_all, dispatch_round, Settled, fulfilled, threw,
}

pub record CreateCommand : Type 0 where
  pub analysis_id : Text
  pub repository_url : Text
  pub owner_github_id : Option Text
  pub github_connection_id : Option Text
  pub ref : Option Text
  pub created_at : ℕ
  pub retention_expires_at : Option ℕ

abbrev pub input_of : CreateCommand → CreateQueued
input_of c = record {
  id = c.analysis_id;
  repository_url = c.repository_url;
  owner_github_id = c.owner_github_id;
  github_connection_id = c.github_connection_id;
  requested_ref = c.ref;
  created_at = c.created_at;
  retention_expires_at = c.retention_expires_at;
}

-- What a submission comes to: the answer to the caller (`rejected` is an error thrown at it), how
-- the promise ends that is not waited for, and what is left behind.
pub record Created (W : Type 0) : Type 0 where
  pub answer : Submission AnalysisRecord
  pub floating : Option Settled
  pub left : W

-- `.catch(() => undefined)`
abbrev pub caught : Settled → Settled
caught fulfilled = fulfilled
caught threw = fulfilled

module _ (jobs : JobQueue) (claim_reaches : Bool) (collate : Text → Text → Bool)
    (locked : List Text) (fate : ClaimedDelivery → Fate) (token : Text) (now : ℕ) where
  -- What follows the transaction: a rejection is thrown on, and nothing is dispatched.
  unfoldable pub submitted :
      Submission AnalysisRecord × Store → jobs.Queue → Created (Store × jobs.Queue)
  unfolding dispatch_round
  submitted (rejected e, s) q = record { answer = rejected e; floating = none; left = (s, q) }
  submitted (accepted r, s) q =
      let (end, w) = dispatch_round jobs claim_reaches collate locked fate token now (s, q) in
      record { answer = accepted r; floating = some (caught end); left = w }

  unfoldable pub create_repository_analysis_job :
      CreateCommand → Store × jobs.Queue → Created (Store × jobs.Queue)
  unfolding submitted
  create_repository_analysis_job c (s, q) =
      submitted (create_queued_repository_analysis_with_delivery (input_of c) s) q

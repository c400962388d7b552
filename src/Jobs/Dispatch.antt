-- ===== src/Jobs/Dispatch.antt =====
-- Dispatching what a claim handed out (packages/repository-jobs/src/delivery.ts,
-- `createRepositoryAnalysisDeliveryDispatcher` and `dispatchDelivery`). The dispatches of a batch
-- run at once in the source; each works on the row of its own analysis, and they are taken one
-- after the other here. The job queue is graphile-worker, a parameter.
pub mod Laws
pub mod Liveness
use stack_lens.Base.Tests.{
  ℕ, ◌+◌, ◌≡◌, Bool, true, false, ◌&&◌, ◌||◌, ◌⊎◌, Option, none, some, List, [], ◌∷◌, if◌then◌else◌,
}
use stack_lens.Base.Text.{Text}
use stack_lens.Persistence.Types.{Store, ClaimedDelivery, Analysis}
use stack_lens.Persistence.Outbox.{
  claim_pending_repository_analysis_deliveries, mark_repository_analysis_delivery_delivered,
  retry_repository_analysis_delivery,
}
use stack_lens.Jobs.Payload.{Payload, JobKeyMode, unsafe_dedupe, AddedJob, job_for}
use stack_lens.Jobs.Backoff.{next_delivery_attempt}

abbrev pub delivery_batch_size : ℕ
delivery_batch_size = 25

abbrev pub delivery_lease_ms : ℕ
delivery_lease_ms = 60000

-- A queue of jobs: `add` says whether the call resolved, and `holds` that a job was taken in. A call
-- that resolved leaves some job with its key, which is an earlier one where the new one is ignored as
-- a duplicate; no call takes in another job than its own; and one that asks for `unsafe_dedupe`
-- replaces none.
pub record JobQueue : Type 1 where
  pub Queue : Type 0
  pub add : AddedJob → Queue → Bool × Queue
  pub holds : Queue → AddedJob → Type 0
  pub add-holds :
      (j : AddedJob) (q : Queue)
      → (add j q).0 ≡ true
      → (k : AddedJob) × (k.job_key ≡ j.job_key) × holds (add j q).1 k
  pub add-own : (j k : AddedJob) (q : Queue) → holds (add j q).1 k → holds q k ⊎ (k ≡ j)
  pub holds_on :
      (j k : AddedJob) (q : Queue)
      → j.job_key_mode ≡ some unsafe_dedupe
      → holds q k
      → holds (add j q).1 k

-- How a promise ends.
pub data Settled : Type 0 where
  fulfilled threw : Settled

-- `Promise.all` of two
abbrev pub both : Settled → Settled → Settled
both fulfilled e = e
both threw e = threw

-- Whether the two updates of the outbox reach the database, and when they are made.
pub record Fate : Type 0 where
  pub mark_reaches : Bool
  pub retry_reaches : Bool
  pub marked_at : ℕ
  pub retried_at : ℕ

abbrev pub payload_of : ClaimedDelivery → Payload
payload_of d = record {
  analysis_id = d.analysis_id;
  repository_url = d.repository_url;
  ref = d.requested_ref;
}

abbrev pub mark : Fate → ClaimedDelivery → Store → Store
mark f d s = mark_repository_analysis_delivery_delivered d.analysis_id d.lease_token f.marked_at s

-- The `catch` block; an update that does not reach the database throws on.
abbrev pub put_back : Fate → ClaimedDelivery → Store → Store
put_back f d s =
    if f.retry_reaches
    then retry_repository_analysis_delivery d.analysis_id d.lease_token
        (next_delivery_attempt d.attempts f.retried_at) f.retried_at s
    else s

module _ (jobs : JobQueue) where
  open jobs use {Queue, add}

  -- The call throws when the put-back does not reach the database.
  unfoldable pub dispatch_delivery :
      Fate → ClaimedDelivery → Store × Queue → Settled × (Store × Queue)
  dispatch_delivery f d (s, q) =
      let (resolved, q') = add (job_for (payload_of d)) q in
      (
        if resolved && f.mark_reaches || f.retry_reaches then fulfilled else threw,
        (if resolved && f.mark_reaches then mark f d s else put_back f d s, q'),
      )

  -- `Promise.all` over the batch, with the fate of each dispatch: a dispatch that throws makes the
  -- whole throw, and stops none of the others.
  unfoldable pub dispatch_all :
      (ClaimedDelivery → Fate) → List ClaimedDelivery → Store × Queue → Settled × (Store × Queue)
  unfolding dispatch_delivery
  dispatch_all fate [] w = (fulfilled, w)
  dispatch_all fate (d ∷ ds) w =
      let (first, v) = dispatch_delivery (fate d) d w in
      let (others, u) = dispatch_all fate ds v in (both first others, u)

  -- The batch that a claim returned; a claim that throws ends the round.
  abbrev pub dispatch_claimed :
      (ClaimedDelivery → Fate)
      → Queue
      → Store
      → Option (List ClaimedDelivery × Store)
      → Settled × (Store × Queue)
  dispatch_claimed fate q s none = (threw, (s, q))
  dispatch_claimed fate q s (some (claimed, s')) = dispatch_all fate claimed (s', q)

  -- A call of `dispatchReady`; the claim reaches the database or throws.
  unfoldable pub dispatch_round :
      Bool
      → (Text → Text → Bool)
      → List Text
      → (ClaimedDelivery → Fate)
      → Text
      → ℕ
      → Store × Queue
      → Settled × (Store × Queue)
  unfolding dispatch_all claim_pending_repository_analysis_deliveries
  dispatch_round claim_reaches collate locked fate token now (s, q) =
      if claim_reaches
      then dispatch_claimed fate q s (
          claim_pending_repository_analysis_deliveries collate locked delivery_batch_size token now
            (now + delivery_lease_ms) s)
      else (threw, (s, q))

  -- What a call whose claim reaches the database leaves.
  unfoldable pub dispatch_ready :
      (Text → Text → Bool)
      → List Text
      → (ClaimedDelivery → Fate)
      → Text
      → ℕ
      → Store × Queue
      → Store × Queue
  unfolding dispatch_round
  dispatch_ready collate locked fate token now w =
      (dispatch_round true collate locked fate token now w).1

-- ===== src/Jobs/Enqueue/Laws.antt =====
-- What a submission leaves, however the dispatch that follows it ends.
use stack_lens.Base.Tests.{
  ℕ, ◌+◌, ◌≡◌, refl, ◌∙◌, ap, Bool, true, false, ◌&&◌, none, some, List, [], ◌∷◌, is_some,
  Bool-cases, Option-cases, inl, inr, ◌⊎◌, arith,
}
use stack_lens.Base.Text.{Text}
use stack_lens.Base.Table.{lookup, lookup-update_where, lookup-adjust_keys, keys}
use stack_lens.Persistence.Types.{Store, CreateQueued, ClaimedDelivery}
use stack_lens.Persistence.Records.{AnalysisRecord}
use stack_lens.Persistence.Submission.{
  Submission, accepted, rejected, create_queued_repository_analysis_with_delivery,
}
use stack_lens.Persistence.Submission.Laws.{IsAccepted, Promises, create_with_delivery-Promises}
use stack_lens.Persistence.Outbox.{
  is_leased_by, mark_delivered, mark_pending, candidates, lease, backfill, claim_deliveries,
  mark_repository_analysis_delivery_delivered, retry_repository_analysis_delivery,
}
use stack_lens.Persistence.Outbox.Leases.{backfill-lookup}
use stack_lens.Jobs.Payload.{job_for}
use stack_lens.Jobs.Backoff.{next_delivery_attempt}
use stack_lens.Jobs.Dispatch.{
  payload_of, JobQueue, Fate, mark, put_back, delivery_batch_size, delivery_lease_ms,
  dispatch_delivery, dispatch_all, dispatch_round, Settled, fulfilled, threw,
}
use stack_lens.Jobs.Enqueue.{
  CreateCommand, input_of, Created, caught, submitted, create_repository_analysis_job,
}

-- The analyses are the same, and every delivery that was in the outbox still is.
record IsKept (s t : Store) : Type 0 where
  same : t.analyses ≡ s.analyses
  there :
      (j : Text) → is_some (lookup j s.deliveries) ≡ true → is_some (lookup j t.deliveries) ≡ true

IsKept-refl : (s : Store) → IsKept s s
IsKept-refl s = record { same = refl; there = λ j h. h }

IsKept-trans : (s t u : Store) → IsKept s t → IsKept t u → IsKept s u
IsKept-trans s t u h k = record { same = k.same ∙ h.same; there = λ j d. k.there j (h.there j d) }

mark-IsKept : (f : Fate) (d : ClaimedDelivery) (s : Store) → IsKept s (mark f d s)
unfolding mark_repository_analysis_delivery_delivered
mark-IsKept f d s = record {
  same = refl;
  there = λ j h.
      let law =
        lookup-update_where j d.analysis_id (is_leased_by d.lease_token)
          (mark_delivered f.marked_at) s.deliveries in
      ground (arith, law);
}

put_back-IsKept : (f : Fate) (d : ClaimedDelivery) (s : Store) → IsKept s (put_back f d s)
unfolding retry_repository_analysis_delivery
put_back-IsKept f d s = elim (Bool-cases f.retry_reaches) [
  | inl e ↦ rw e (record {
    same = refl;
    there = λ j h.
        let law =
          lookup-update_where j d.analysis_id (is_leased_by d.lease_token)
            (mark_pending (next_delivery_attempt d.attempts f.retried_at) f.retried_at)
            s.deliveries in
        ground (arith, law);
  })
  | inr e ↦ rw e (IsKept-refl s)
]

claim-IsKept :
    (collate : Text → Text → Bool) (locked : List Text) (limit : ℕ) (token : Text) (now expires : ℕ)
    (s : Store)
    → IsKept s (claim_deliveries collate locked limit token now expires s).1
unfolding claim_deliveries backfill
claim-IsKept collate locked limit token now expires s = record {
  same = refl;
  there = λ j h.
      let law =
        lookup-adjust_keys j (keys (candidates collate locked limit now (backfill s)))
          (lease token now expires) (backfill s).deliveries in
      elim (Option-cases (lookup j s.deliveries)) [
        | inl missing ↦ absurd (ground (arith, missing))
        | inr (d, found) ↦ let before = backfill-lookup s j d found in ground (arith, law, before)
      ];
}

module _ (jobs : JobQueue) where
  dispatch_delivery-IsKept :
      (f : Fate) (d : ClaimedDelivery) (s : Store) (q : jobs.Queue)
      → IsKept s (dispatch_delivery jobs f d (s, q)).1.0
  unfolding dispatch_delivery
  dispatch_delivery-IsKept f d s q =
      elim (Bool-cases ((jobs.add (job_for (payload_of d)) q).0 && f.mark_reaches)) [
        | inl e ↦ rw e (mark-IsKept f d s)
        | inr e ↦ rw e (put_back-IsKept f d s)
      ]

  dispatch_all-IsKept :
      (fate : ClaimedDelivery → Fate) (ds : List ClaimedDelivery) (s : Store) (q : jobs.Queue)
      → IsKept s (dispatch_all jobs fate ds (s, q)).1.0
  unfolding dispatch_all
  dispatch_all-IsKept fate [] s q = IsKept-refl s
  dispatch_all-IsKept fate (d ∷ ds) s q =
      let w = (dispatch_delivery jobs (fate d) d (s, q)).1 in
      IsKept-trans s w.0 _ (dispatch_delivery-IsKept (fate d) d s q)
        (dispatch_all-IsKept fate ds w.0 w.1)

  dispatch_round-IsKept :
      (claim_reaches : Bool) (collate : Text → Text → Bool) (locked : List Text)
      (fate : ClaimedDelivery → Fate) (token : Text) (now : ℕ) (s : Store) (q : jobs.Queue)
      → IsKept s (dispatch_round jobs claim_reaches collate locked fate token now (s, q)).1.0
  unfolding dispatch_round
  dispatch_round-IsKept false collate locked fate token now s q = IsKept-refl s
  dispatch_round-IsKept true collate locked fate token now s q =
      let at = now + delivery_lease_ms in
      let (claimed, t) = claim_deliveries collate locked delivery_batch_size token now at s in
      IsKept-trans s t _ (claim-IsKept collate locked delivery_batch_size token now at s)
        (dispatch_all-IsKept fate claimed t q)

kept-IsAccepted :
    (input : CreateQueued) (s t : Store) (r : AnalysisRecord)
    → IsKept s t
    → IsAccepted input s r
    → IsAccepted input t r
kept-IsAccepted input s t r k p = record {
  row = p.row;
  stored = rw k.same p.stored;
  answer = p.answer;
  url = p.url;
  ref = p.ref;
  owner = p.owner;
  connection = p.connection;
  delivery = λ waiting. k.there input.id (p.delivery waiting);
}

-- The answer is the one of the transaction, and what that answer promises holds of what is left;
-- the promise that is not waited for, if there is one, does not throw.
abbrev pub IsHonoured :
    {Queue : Type 0}
    → CreateQueued
    → Store
    → Submission AnalysisRecord
    → Created (Store × Queue)
    → Type 0
IsHonoured input s answer c =
    (c.answer ≡ answer)
    × Promises input s (c.answer, c.left.0)
    × ((c.floating ≡ none) ⊎ (c.floating ≡ some fulfilled))

caught_lem : (e : Settled) → caught e ≡ fulfilled
caught_lem fulfilled = refl
caught_lem threw = refl

submitted-IsHonoured :
    (jobs : JobQueue) (claim_reaches : Bool) (collate : Text → Text → Bool) (locked : List Text)
    (fate : ClaimedDelivery → Fate) (token : Text) (now : ℕ) (input : CreateQueued) (s : Store)
    (o : Submission AnalysisRecord × Store) (q : jobs.Queue)
    → Promises input s o
    → IsHonoured input s o.0 (submitted jobs claim_reaches collate locked fate token now o q)
unfolding submitted
submitted-IsHonoured jobs reaches collate locked fate token now input s (rejected e, t) q p =
    (refl, p, inl refl)
submitted-IsHonoured jobs reaches collate locked fate token now input s (accepted r, t) q p = (
  refl,
  kept-IsAccepted input t _ r (dispatch_round-IsKept jobs reaches collate locked fate token now t q)
      p,
  inr (ap some (caught_lem _)),
)

-- However the round of the dispatcher ends that a submission starts, the caller gets the answer of
-- the transaction, and no error is left uncaught. After the round an accepted submission is still
-- stored with its input and still has its delivery if it waits for a job; after a rejected one
-- nothing has changed.
pub create_repository_analysis_job_lem :
    (jobs : JobQueue) (claim_reaches : Bool) (collate : Text → Text → Bool) (locked : List Text)
    (fate : ClaimedDelivery → Fate) (token : Text) (now : ℕ) (c : CreateCommand) (s : Store)
    (q : jobs.Queue)
    → IsHonoured
        (input_of c)
        s
        (create_queued_repository_analysis_with_delivery (input_of c) s).0
        (create_repository_analysis_job jobs claim_reaches collate locked fate token now c (s, q))
unfolding create_repository_analysis_job
create_repository_analysis_job_lem jobs reaches collate locked fate token now c s q =
    submitted-IsHonoured jobs reaches collate locked fate token now (input_of c) s _ q
      (create_with_delivery-Promises (input_of c) s)

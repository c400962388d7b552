-- ===== src/Jobs/Dispatch/Laws.antt =====
-- The outbox loses no submission: what is marked delivered is in the queue.
use stack_lens.Base.Tests.{
  ℕ, ◌+◌, ◌≡◌, refl, Bool, true, some, List, [], ◌∷◌, inl, inr, arith, Bool-cases, Option-cases,
  false, ◌++◌, subst, sym, ◌⊎◌, ◌∙◌, ap,
}
use stack_lens.Base.Lists.{All, All-imp}
use stack_lens.Base.Text.{Text, text, ◌===◌, ===_iff}
use stack_lens.Base.Table.{lookup, lookup-update_where}
use stack_lens.Persistence.Types.{Analysis, Delivery, Store, ClaimedDelivery, is_delivered}
use stack_lens.Persistence.Outbox.{
  claim_deliveries, mark_repository_analysis_delivery_delivered, retry_repository_analysis_delivery,
  is_leased_by, mark_delivered, mark_pending, backfill,
}
use stack_lens.Persistence.Outbox.Leases.{
  IsLeased, claim_deliveries-IsLeased, claim_deliveries-delivered, claim_deliveries-analyses,
}
use stack_lens.Persistence.Invariant.{IsValid}
use stack_lens.Jobs.Payload.{Payload, AddedJob, job_for}
use stack_lens.Jobs.Backoff.{next_delivery_attempt}
use stack_lens.Jobs.Dispatch.{
  JobQueue, Fate, payload_of, mark, put_back, dispatch_delivery, dispatch_all, dispatch_round,
  delivery_batch_size, delivery_lease_ms,
}

abbrev pub row_payload : Text → Analysis → Payload
row_payload i a = record {
  analysis_id = i;
  repository_url = a.repository_url;
  ref = a.requested_ref;
}

-- The delivery carries the input of its analysis.
abbrev IsFor : Store → ClaimedDelivery → Type 0
IsFor s d =
    (a : Analysis) × (lookup d.analysis_id s.analyses ≡ some a)
    × (d.repository_url ≡ a.repository_url)
    × (d.requested_ref ≡ a.requested_ref)

-- A row that is delivered after the put-back was delivered before it.
put_back_row :
    (f : Fate) (d : ClaimedDelivery) (s : Store) (j : Text) (e : Delivery)
    → lookup j (put_back f d s).deliveries ≡ some e
    → is_delivered e.status ≡ true
    → (e' : Delivery) × (lookup j s.deliveries ≡ some e') × (is_delivered e'.status ≡ true)
unfolding retry_repository_analysis_delivery
put_back_row f d s j e found done =
    let law =
      lookup-update_where j d.analysis_id (is_leased_by d.lease_token)
        (mark_pending (next_delivery_attempt d.attempts f.retried_at) f.retried_at) s.deliveries in
    elim (Option-cases (lookup j s.deliveries)) [
      | inl missing ↦ absurd (ground (arith, law))
      | inr (e', before) ↦ (e', before, ground (arith, law))
    ]

-- A row that is delivered after the mark was so before it, or is the one that is marked.
mark_row :
    (f : Fate) (d : ClaimedDelivery) (s : Store) (j : Text) (e : Delivery)
    → lookup j (mark f d s).deliveries ≡ some e
    → is_delivered e.status ≡ true
    → ((d.analysis_id === j) ≡ true)
      ⊎ ((e' : Delivery) × (lookup j s.deliveries ≡ some e') × (is_delivered e'.status ≡ true))
unfolding mark_repository_analysis_delivery_delivered
mark_row f d s j e found done =
    let law =
      lookup-update_where j d.analysis_id (is_leased_by d.lease_token) (mark_delivered f.marked_at)
        s.deliveries in
    elim (Bool-cases (d.analysis_id === j)) [
      | inl same ↦ inl same
      | inr other ↦ inr (e, ground (arith, law), done)
    ]

put_back-analyses :
    (f : Fate) (d : ClaimedDelivery) (s : Store) → (put_back f d s).analyses ≡ s.analyses
unfolding retry_repository_analysis_delivery
put_back-analyses f d s = ground arith

mark-analyses : (f : Fate) (d : ClaimedDelivery) (s : Store) → (mark f d s).analyses ≡ s.analyses
unfolding mark_repository_analysis_delivery_delivered
mark-analyses f d s = refl

append_cancel : (p i j : Text) → p ++ i ≡ p ++ j → i ≡ j
append_cancel [] i j h = h
append_cancel (c ∷ p) i j h = append_cancel p i j cc

-- A delivery's job is that of each stored analysis with the same key.
job_of_row :
    (s : Store) (d : ClaimedDelivery) (j : Text) (a : Analysis)
    → IsFor s d
    → lookup j s.analyses ≡ some a
    → (job_for (payload_of d)).job_key ≡ (job_for (row_payload j a)).job_key
    → job_for (payload_of d) ≡ job_for (row_payload j a)
unfolding job_for
job_of_row s d j a (b, known, url, ref) stored key =
    let at : d.analysis_id ≡ j = append_cancel (text "repository-analysis:") d.analysis_id j key in
    let there : lookup j s.analyses ≡ some b = subst (λ i. lookup i s.analyses ≡ some b) at known in
    let row : b ≡ a = cc in
    let carried : payload_of d ≡ row_payload j a = λ i. record {
      analysis_id = at i;
      repository_url = (url ∙ ap (λ r. r.repository_url) row) i;
      ref = (ref ∙ ap (λ r. r.requested_ref) row) i;
    } in
    ap job_for carried

module _ (jobs : JobQueue) where
  open jobs use {Queue, add, holds, add-holds, add-own, holds_on}

  -- Each job that was taken in under the key of a stored analysis has that analysis's input, and
  -- one was taken in for every stored analysis whose delivery is marked delivered.
  pub record IsDelivered (s : Store) (q : Queue) : Type 0 where
    pub own :
        (k : AddedJob) (j : Text) (a : Analysis)
        → holds q k
        → lookup j s.analyses ≡ some a
        → k.job_key ≡ (job_for (row_payload j a)).job_key
        → k ≡ job_for (row_payload j a)
    pub queued :
        (j : Text) (d : Delivery) (a : Analysis)
        → lookup j s.deliveries ≡ some d
        → is_delivered d.status ≡ true
        → lookup j s.analyses ≡ some a
        → holds q (job_for (row_payload j a))

  put_back-IsDelivered :
      (f : Fate) (d : ClaimedDelivery) (s : Store) (q : Queue)
      → IsDelivered s q
      → IsDelivered (put_back f d s) q
  put_back-IsDelivered f d s q h = record {
    own = λ k j a held stored. h.own k j a held (rw put_back-analyses at stored);
    queued = λ j e a found done stored.
        let (e', before, done') = put_back_row f d s j e found done in
        h.queued j e' a before done' (rw put_back-analyses at stored);
  }

  mark-IsDelivered :
      (f : Fate) (d : ClaimedDelivery) (s : Store) (q : Queue) (k : AddedJob)
      → IsFor s d
      → k.job_key ≡ (job_for (payload_of d)).job_key
      → holds q k
      → IsDelivered s q
      → IsDelivered (mark f d s) q
  unfolding job_for
  mark-IsDelivered f d s q k for key held h = record {
    own = λ l j a had stored. h.own l j a had (rw mark-analyses at stored);
    queued = λ j e a found done stored.
        let kept : lookup j s.analyses ≡ some a = rw mark-analyses at stored in
        elim (mark_row f d s j e found done) [
          | inl same ↦
              let at : d.analysis_id ≡ j = (===_iff d.analysis_id j).0 same in
              subst (holds q)
                (h.own k j a held kept (key ∙ ap (λ i. text "repository-analysis:" ++ i) at)) held
          | inr (e', before, done') ↦ h.queued j e' a before done' kept
        ];
  }

  add-IsDelivered :
      (d : ClaimedDelivery) (s : Store) (q : Queue)
      → IsFor s d
      → IsDelivered s q
      → IsDelivered s (add (job_for (payload_of d)) q).1
  unfolding job_for
  add-IsDelivered d s q for h = record {
    own = λ k j a held stored key. elim (add-own (job_for (payload_of d)) k q held) [
      | inl before ↦ h.own k j a before stored key
      | inr new ↦ new ∙ job_of_row s d j a for stored (sym (ap AddedJob.job_key new) ∙ key)
    ];
    queued = λ j e a found done stored.
        holds_on (job_for (payload_of d)) _ q refl (h.queued j e a found done stored);
  }

  dispatch_delivery-IsDelivered :
      (f : Fate) (d : ClaimedDelivery) (s : Store) (q : Queue)
      → IsFor s d
      → IsDelivered s q
      → IsDelivered (dispatch_delivery jobs f d (s, q)).1.0 (dispatch_delivery jobs f d (s, q)).1.1
  unfolding dispatch_delivery
  dispatch_delivery-IsDelivered f d s q for h =
      let k = job_for (payload_of d) in
      let added = add-IsDelivered d s q for h in
      elim (Bool-cases ((add k q).0)) [
        | inl resolved ↦ elim (Bool-cases f.mark_reaches) [
          | inl reaches ↦
              let (l, key, held) = add-holds k q resolved in
              rw (resolved, reaches) (mark-IsDelivered f d s (add k q).1 l for key held added)
          | inr lost ↦ rw (resolved, lost) (put_back-IsDelivered f d s (add k q).1 added)
        ]
        | inr failed ↦ rw failed (put_back-IsDelivered f d s (add k q).1 added)
      ]

  dispatch_delivery-analyses :
      (f : Fate) (d : ClaimedDelivery) (s : Store) (q : Queue)
      → (dispatch_delivery jobs f d (s, q)).1.0.analyses ≡ s.analyses
  unfolding dispatch_delivery
  dispatch_delivery-analyses f d s q = ground (arith, put_back-analyses f d s, mark-analyses f d s)

  dispatch_all-IsDelivered :
      (fate : ClaimedDelivery → Fate) (ds : List ClaimedDelivery) (s : Store) (q : Queue)
      → All (IsFor s) ds
      → IsDelivered s q
      → IsDelivered (dispatch_all jobs fate ds (s, q)).1.0 (dispatch_all jobs fate ds (s, q)).1.1
  unfolding dispatch_all
  dispatch_all-IsDelivered fate [] s q for h = h
  dispatch_all-IsDelivered fate (d ∷ ds) s q for h =
      let w = (dispatch_delivery jobs (fate d) d (s, q)).1 in
      dispatch_all-IsDelivered fate ds w.0 w.1
        (All-imp (IsFor s) (IsFor w.0)
          (λ c (a, known, url, ref).
            (a, rw (dispatch_delivery-analyses (fate d) d s q) known, url, ref))
          ds for.1)
        (dispatch_delivery-IsDelivered (fate d) d s q for.0 h)

  claim-IsDelivered :
      (collate : Text → Text → Bool) (locked : List Text) (limit : ℕ) (token : Text)
      (now expires : ℕ) (s : Store) (q : Queue)
      → IsValid s
      → IsDelivered s q
      → IsDelivered (claim_deliveries collate locked limit token now expires s).1 q
  claim-IsDelivered collate locked limit token now expires s q v h = record {
    own = λ k j a held stored. h.own k j a held (rw claim_deliveries-analyses at stored);
    queued = λ j e a found done stored.
        h.queued j e a
          (claim_deliveries-delivered collate locked limit token now expires s j e found done) done
          (rw claim_deliveries-analyses at stored);
  }

  dispatch_claimed-IsDelivered :
      (collate : Text → Text → Bool) (locked : List Text) (fate : ClaimedDelivery → Fate)
      (token : Text) (now : ℕ) (s : Store) (q : Queue)
      → IsValid s
      → IsDelivered s q
      → IsDelivered
          (dispatch_round jobs true collate locked fate token now (s, q)).1.0
          (dispatch_round jobs true collate locked fate token now (s, q)).1.1
  unfolding dispatch_round
  dispatch_claimed-IsDelivered collate locked fate token now s q v h =
      let at = now + delivery_lease_ms in
      let t = (claim_deliveries collate locked delivery_batch_size token now at s).1 in
      dispatch_all-IsDelivered fate _ t q
        (All-imp (IsLeased (backfill s) t token now at) (IsFor t)
          (λ c l. (l.analysis, rw claim_deliveries-analyses l.stored, l.url, l.ref)) _
          (claim_deliveries-IsLeased collate locked delivery_batch_size token now at s v).0)
        (claim-IsDelivered collate locked delivery_batch_size token now at s q v h)

  -- A round of the dispatcher from a valid store keeps this: every stored analysis whose delivery
  -- is marked delivered has had a job with its own input taken in by the queue, and no job was
  -- taken in under the key of a stored analysis with another input. It holds whichever calls of the
  -- queue or of the database fail, and although the queue ignores a job whose key it has.
  pub dispatch_round-IsDelivered :
      (claim_reaches : Bool) (collate : Text → Text → Bool) (locked : List Text)
      (fate : ClaimedDelivery → Fate) (token : Text) (now : ℕ) (s : Store) (q : Queue)
      → IsValid s
      → IsDelivered s q
      → IsDelivered
          (dispatch_round jobs claim_reaches collate locked fate token now (s, q)).1.0
          (dispatch_round jobs claim_reaches collate locked fate token now (s, q)).1.1
  unfolding dispatch_round
  dispatch_round-IsDelivered true collate locked fate token now s q v h =
      dispatch_claimed-IsDelivered collate locked fate token now s q v h
  dispatch_round-IsDelivered false collate locked fate token now s q v h = h

-- ===== src/Jobs/Dispatch/Liveness.antt =====
-- A batch whose calls succeed delivers all that it claimed.
use stack_lens.Base.Tests.{
  ℕ, ◌+◌, ◌≡◌, refl, Bool, true, ◌||◌, some, List, [], ◌∷◌, inl, inr, arith, Bool-cases, ◌⊎◌,
}
use stack_lens.Base.Lists.{All, All-imp}
use stack_lens.Base.Text.{Text, ◌===◌, ===_refl}
use stack_lens.Base.Table.{lookup, lookup-update_where}
use stack_lens.Persistence.Types.{Delivery, Store, ClaimedDelivery, is_delivered}
use stack_lens.Persistence.Outbox.{
  claim_deliveries, is_leased_by, mark_delivered, mark_repository_analysis_delivery_delivered,
  backfill,
}
use stack_lens.Persistence.Outbox.Leases.{IsLeased, claim_deliveries-IsLeased}
use stack_lens.Persistence.Invariant.{IsValid}
use stack_lens.Jobs.Payload.{AddedJob, job_for}
use stack_lens.Jobs.Dispatch.{
  JobQueue, Fate, payload_of, mark, dispatch_delivery, dispatch_all, dispatch_ready, dispatch_round,
  delivery_batch_size, delivery_lease_ms,
}

-- The delivery is marked delivered, or is still leased to the one that was handed it.
abbrev IsReady : Store → ClaimedDelivery → Type 0
IsReady s c =
    (e : Delivery) × (lookup c.analysis_id s.deliveries ≡ some e)
    × ((is_leased_by c.lease_token e || is_delivered e.status) ≡ true)

abbrev pub IsDone : Store → ClaimedDelivery → Type 0
IsDone s c =
    (e : Delivery) × (lookup c.analysis_id s.deliveries ≡ some e) × (is_delivered e.status ≡ true)

module _ (f : Fate) (d : ClaimedDelivery) (s : Store) where
  -- The row after the mark is the row before it, or its marked form.
  mark_effect :
      (j : Text) (e : Delivery)
      → lookup j s.deliveries ≡ some e
      → (lookup j (mark f d s).deliveries ≡ some e)
        ⊎ (lookup j (mark f d s).deliveries ≡ some (mark_delivered f.marked_at e))
  unfolding mark_repository_analysis_delivery_delivered
  mark_effect j e found =
      let law =
        lookup-update_where j d.analysis_id (is_leased_by d.lease_token)
          (mark_delivered f.marked_at) s.deliveries in
      elim (Bool-cases (d.analysis_id === j)) [
        | inl same ↦ elim (Bool-cases (is_leased_by d.lease_token e)) [
          | inl leased ↦ inr (ground (arith, law))
          | inr free ↦ inl (ground (arith, law))
        ]
        | inr other ↦ inl (ground (arith, law))
      ]

  mark-IsReady : (c : ClaimedDelivery) → IsReady s c → IsReady (mark f d s) c
  mark-IsReady c (e, found, ready) = elim (mark_effect c.analysis_id e found) [
    | inl same ↦ (e, same, ready)
    | inr marked ↦ (mark_delivered f.marked_at e, marked, refl)
  ]

  mark-IsDone : (c : ClaimedDelivery) → IsDone s c → IsDone (mark f d s) c
  mark-IsDone c (e, found, done) = elim (mark_effect c.analysis_id e found) [
    | inl same ↦ (e, same, done)
    | inr marked ↦ (mark_delivered f.marked_at e, marked, refl)
  ]

  mark-delivers : IsReady s d → IsDone (mark f d s) d
  unfolding mark_repository_analysis_delivery_delivered
  mark-delivers (e, found, ready) =
      let law =
        lookup-update_where d.analysis_id d.analysis_id (is_leased_by d.lease_token)
          (mark_delivered f.marked_at) s.deliveries in
      elim (Bool-cases (is_leased_by d.lease_token e)) [
        | inl leased ↦
            (mark_delivered f.marked_at e, ground (arith, law, ===_refl d.analysis_id), refl)
        | inr free ↦ (e, ground (arith, law, ===_refl d.analysis_id), ground arith)
      ]

module _ (jobs : JobQueue) (fate : ClaimedDelivery → Fate)
    (resolves : (k : AddedJob) (q : jobs.Queue) → (jobs.add k q).0 ≡ true)
    (reaches : (c : ClaimedDelivery) → (fate c).mark_reaches ≡ true) where
  dispatch_marks :
      (d : ClaimedDelivery) (s : Store) (q : jobs.Queue)
      → (dispatch_delivery jobs (fate d) d (s, q)).1.0 ≡ mark (fate d) d s
  unfolding dispatch_delivery
  dispatch_marks d s q = rw (resolves (job_for (payload_of d)) q, reaches d) refl

  dispatch_all-IsDone :
      (ds : List ClaimedDelivery) (s : Store) (q : jobs.Queue)
      → All (IsReady s) ds
      → (c : ClaimedDelivery) → IsDone s c
      → IsDone (dispatch_all jobs fate ds (s, q)).1.0 c
  unfolding dispatch_all
  dispatch_all-IsDone [] s q r c h = h
  dispatch_all-IsDone (d ∷ ds) s q r c h =
      let w = (dispatch_delivery jobs (fate d) d (s, q)).1 in
      dispatch_all-IsDone ds w.0 w.1
        (All-imp (IsReady s) (IsReady w.0)
          (λ b k. rw (dispatch_marks d s q) (mark-IsReady (fate d) d s b k)) ds r.1)
        c (rw (dispatch_marks d s q) (mark-IsDone (fate d) d s c h))

  dispatch_all-delivers :
      (ds : List ClaimedDelivery) (s : Store) (q : jobs.Queue)
      → All (IsReady s) ds
      → All (IsDone (dispatch_all jobs fate ds (s, q)).1.0) ds
  unfolding dispatch_all
  dispatch_all-delivers [] s q r = tt
  dispatch_all-delivers (d ∷ ds) s q r =
      let w = (dispatch_delivery jobs (fate d) d (s, q)).1 in
      let later =
        All-imp (IsReady s) (IsReady w.0)
          (λ b k. rw (dispatch_marks d s q) (mark-IsReady (fate d) d s b k)) ds r.1 in
      (
        dispatch_all-IsDone ds w.0 w.1 later d
            (rw (dispatch_marks d s q) (mark-delivers (fate d) d s r.0)),
        dispatch_all-delivers ds w.0 w.1 later,
      )

  -- When every call of the queue resolves and every mark reaches the database, a round from a
  -- valid store, whose claim reaches the database, leaves each delivery that the claim hands out
  -- marked delivered.
  pub dispatch_ready_delivers :
      (collate : Text → Text → Bool) (locked : List Text) (token : Text) (now : ℕ) (s : Store)
      (q : jobs.Queue)
      → IsValid s
      → All
          (IsDone (dispatch_ready jobs collate locked fate token now (s, q)).0)
          (claim_deliveries collate locked delivery_batch_size token now
            (now + delivery_lease_ms)
            s).0
  unfolding dispatch_ready dispatch_round
  dispatch_ready_delivers collate locked token now s q v =
      let at = now + delivery_lease_ms in
      let t = (claim_deliveries collate locked delivery_batch_size token now at s).1 in
      dispatch_all-delivers _ t q (
        All-imp (IsLeased (backfill s) t token now at) (IsReady t)
          (λ c l. (_, l.leased, ground (arith, l.holder, ===_refl token))) _
          (claim_deliveries-IsLeased collate locked delivery_batch_size token now at s v).0)

-- ===== src/Persistence/Outbox/Leases.antt =====
-- Leases: what a claim hands out, and that no two claims hand out the same delivery at a time.
use stack_lens.Base.Tests.{
  ℕ, ◌+◌, ◌≤◌, ◌<◌, ◌≡◌, refl, Bool, true, false, some, List, [], ◌∷◌, inl, inr, arith, Bool-cases,
  subst,
}
use stack_lens.Base.Lists.{All, All-imp, length}
use stack_lens.Base.Text.{Text, ◌===◌, ===_iff, ===_refl}
use stack_lens.Base.Table.{
  Table, lookup, keys, mem, insert_new, lookup-insert_new, adjust_keys, lookup-adjust_keys,
  lookup-update_where,
}
use stack_lens.Persistence.Types.{
  Analysis, Delivery, DeliveryStatus, ClaimedDelivery, Store, is_delivered,
}
use stack_lens.Persistence.Submission.{is_waiting, pending_delivery}
use stack_lens.Persistence.Outbox.{
  backfill_rows, backfill, claim_deliveries, claimed_rows, candidates, is_due, lease, is_leased_by,
  mark_delivered, mark_pending, mark_repository_analysis_delivery_delivered,
  retry_repository_analysis_delivery,
}
use stack_lens.Persistence.Invariant.{IsValid}
use stack_lens.Persistence.Invariant.Delivers.{backfill-IsValid}
use stack_lens.Persistence.Outbox.Claims.{
  candidates-IsChosen, candidate_parts, length-candidates-le, IsChosen,
}

-- The backfill leaves every delivery that stands in the outbox as it is.
backfill_rows-lookup :
    (rows : Table Analysis) (t : Table Delivery) (j : Text) (d : Delivery)
    → lookup j t ≡ some d
    → lookup j (backfill_rows rows t) ≡ some d
unfolding backfill_rows
backfill_rows-lookup [] t j d found = found
backfill_rows-lookup ((k, a) ∷ rows) t j d found = elim (Bool-cases (is_waiting a)) [
  | inl waiting ↦ rw waiting (
      backfill_rows-lookup rows (insert_new k (pending_delivery a.updated_at) t) j d
        (ground (arith, lookup-insert_new j k (pending_delivery a.updated_at) t, ===_iff k j)))
  | inr taken ↦ rw taken (backfill_rows-lookup rows t j d found)
]

pub backfill-lookup :
    (s : Store) (j : Text) (d : Delivery)
    → lookup j s.deliveries ≡ some d
    → lookup j (backfill s).deliveries ≡ some d
unfolding backfill
backfill-lookup s j d found = backfill_rows-lookup s.analyses s.deliveries j d found

-- The backfill adds no delivered row.
backfill_rows-delivered :
    (rows : Table Analysis) (t : Table Delivery) (j : Text) (d : Delivery)
    → lookup j (backfill_rows rows t) ≡ some d
    → is_delivered d.status ≡ true
    → lookup j t ≡ some d
unfolding backfill_rows
backfill_rows-delivered [] t j d found done = found
backfill_rows-delivered ((k, a) ∷ rows) t j d found done = elim (Bool-cases (is_waiting a)) [
  | inl waiting ↦
      let p = pending_delivery a.updated_at in
      let earlier : lookup j (insert_new k p t) ≡ some d =
        backfill_rows-delivered rows (insert_new k p t) j d (rw waiting at found) done in
      ground (arith, lookup-insert_new j k p t, ===_iff k j)
  | inr taken ↦ backfill_rows-delivered rows t j d (rw taken at found) done
]

-- Nor does a claim as a whole.
pub claim_deliveries-delivered :
    (collate : Text → Text → Bool) (locked : List Text) (limit : ℕ) (token : Text) (now expires : ℕ)
    (s : Store) (j : Text) (d : Delivery)
    → lookup j (claim_deliveries collate locked limit token now expires s).1.deliveries ≡ some d
    → is_delivered d.status ≡ true
    → lookup j s.deliveries ≡ some d
unfolding claim_deliveries backfill
claim_deliveries-delivered collate locked limit token now expires s j d found done =
    backfill_rows-delivered s.analyses s.deliveries j d
      (ground (
        arith,
        found,
        lookup-adjust_keys j (keys (candidates collate locked limit now (backfill s)))
            (lease token now expires) (backfill s).deliveries,
      ))
      done

pub claim_deliveries-analyses :
    (collate : Text → Text → Bool) (locked : List Text) (limit : ℕ) (token : Text) (now expires : ℕ)
    (s : Store)
    → (claim_deliveries collate locked limit token now expires s).1.analyses ≡ s.analyses
unfolding claim_deliveries backfill
claim_deliveries-analyses collate locked limit token now expires s = refl

-- A delivery that the dispatcher is handed: its analysis waits for a job and is the one of the
-- handed input, its row was due, and is now leased to this claim with one more attempt.
pub record IsLeased (s t : Store) (token : Text) (now expires : ℕ) (c : ClaimedDelivery)
    : Type 0 where
  pub analysis : Analysis
  pub before : Delivery
  pub stored : lookup c.analysis_id s.analyses ≡ some analysis
  pub row : lookup c.analysis_id s.deliveries ≡ some before
  pub waiting : is_waiting analysis ≡ true
  pub url : c.repository_url ≡ analysis.repository_url
  pub ref : c.requested_ref ≡ analysis.requested_ref
  pub due : is_due before.status before now ≡ true
  pub count : c.attempts ≡ before.attempts + 1
  pub holder : c.lease_token ≡ token
  pub leased :
      lookup c.analysis_id t.deliveries
      ≡ some (record before {
        status = DeliveryStatus.delivering;
        attempts = before.attempts + 1;
        lease_token = some token;
        lease_expires_at = some expires;
        updated_at = now;
      })

module _ (token : Text) (now expires : ℕ) (locked : List Text) (s : Store) (ks : List Text) where
  leased_store : Store
  leased_store = record s { deliveries = adjust_keys ks (lease token now expires) s.deliveries }

  claimed_rows-IsLeased :
      (xs : List (Text × Delivery))
      → All (λ e. IsChosen s now locked e × (mem e.0 ks ≡ true)) xs
      → All (IsLeased s leased_store token now expires) (claimed_rows s.analyses token xs)
  unfolding claimed_rows leased_store
  claimed_rows-IsLeased [] h = tt
  claimed_rows-IsLeased ((k, d) ∷ xs) h =
      let (a, found, due, free) = candidate_parts s now locked k d h.0.0.1 in
      rw (found, All)
        (
          record {
            analysis = a;
            before = d;
            stored = found;
            row = h.0.0.0;
            waiting = ground arith;
            url = refl;
            ref = refl;
            due = ground arith;
            count = refl;
            holder = refl;
            leased = ground (
              arith,
              h.0.0.0,
              h.0.1,
              lookup-adjust_keys k ks (lease token now expires) s.deliveries,
            );
          },
          claimed_rows-IsLeased xs h.1,
        )

-- Every row of a list is found among the keys of the list.
keys-All-mem :
    (seen : List Text) (xs : List (Text × Delivery))
    → ((j : Text) → mem j (keys xs) ≡ true → mem j seen ≡ true)
    → All (λ e. mem e.0 seen ≡ true) xs
keys-All-mem seen [] inside = tt
keys-All-mem seen ((k, d) ∷ xs) inside =
    (inside k (rw (===_refl k) refl), keys-All-mem seen xs (λ j m. inside j (ground arith)))

All-both {ℓ κ κ'} :
    {A : Type ℓ} (P : A → Type κ) (Q : A → Type κ') (xs : List A)
    → All P xs
    → All Q xs
    → All (λ x. P x × Q x) xs
All-both P Q [] h k = tt
All-both P Q (x ∷ xs) h k = ((h.0, k.0), All-both P Q xs h.1 k.1)

length-claimed_rows-le :
    (analyses : Table Analysis) (token : Text) (xs : List (Text × Delivery))
    → length (claimed_rows analyses token xs) ≤ length xs
unfolding claimed_rows
length-claimed_rows-le analyses token [] = omega arith
length-claimed_rows-le analyses token ((k, d) ∷ xs) =
    ground (arith, length-claimed_rows-le analyses token xs)

module _ (collate : Text → Text → Bool) (locked : List Text) (limit : ℕ) (token : Text)
    (now expires : ℕ) (s : Store) (v : IsValid s) where
  -- In a valid store a claim hands out at most `limit` deliveries. Each is of a queued analysis
  -- that no job holds, with that analysis' input; its row was pending and due or under an expired
  -- lease, after the backfill; and afterwards the row is under a lease of the claim's token until
  -- the given time, with one more attempt, which is the count handed out.
  pub claim_deliveries-IsLeased :
      let (claimed, t) = claim_deliveries collate locked limit token now expires s in
      All (IsLeased (backfill s) t token now expires) claimed × (length claimed ≤ limit)
  unfolding claim_deliveries leased_store
  claim_deliveries-IsLeased =
      let s' = backfill s in
      let chosen = candidates collate locked limit now s' in
      let w = backfill-IsValid s v in
      (
        claimed_rows-IsLeased token now expires locked s' (keys chosen) chosen (
            All-both (IsChosen s' now locked) (λ e. mem e.0 (keys chosen) ≡ true) chosen
              (candidates-IsChosen collate locked limit now s' w.keys_of_deliveries)
              (keys-All-mem (keys chosen) chosen (λ j m. m))),
        omega (
          arith,
          length-claimed_rows-le s'.analyses token chosen,
          length-candidates-le collate locked limit now s',
        ),
      )

  -- In a valid store, while a delivery is under a lease that has not expired, no claim hands it
  -- out.
  pub leased_not_claimed :
      (j : Text) (d : Delivery) (until : ℕ)
      → lookup j s.deliveries ≡ some d
      → d.status ≡ DeliveryStatus.delivering
      → d.lease_expires_at ≡ some until
      → now < until
      → All
          (λ c. (c.analysis_id === j) ≡ false)
          (claim_deliveries collate locked limit token now expires s).0
  leased_not_claimed j d until found under lasts early =
      let t = (claim_deliveries collate locked limit token now expires s).1 in
      All-imp (IsLeased (backfill s) t token now expires) (λ c. (c.analysis_id === j) ≡ false)
        (λ c h. elim (Bool-cases (c.analysis_id === j)) [
          | inl same ↦
              let e : c.analysis_id ≡ j = (===_iff c.analysis_id j).0 same in
              let at_j : lookup j (backfill s).deliveries ≡ some h.before =
                subst (λ i. lookup i (backfill s).deliveries ≡ some h.before) e h.row in
              let kept : lookup j (backfill s).deliveries ≡ some d = backfill-lookup s j d found in
              let row : h.before ≡ d = cc in absurd (ground (arith, h.due))
          | inr other ↦ other
        ])
        (claim_deliveries collate locked limit token now expires s).0 claim_deliveries-IsLeased.0

  -- In a valid store, after a claim, a dispatcher with another token that marks a claimed
  -- delivery delivered, or puts it back, changes no row of the outbox.
  pub late_dispatcher_is_harmless :
      (other : Text) (at next : ℕ)
      → (other === token) ≡ false
      → let (claimed, t) = claim_deliveries collate locked limit token now expires s in
        All
          (λ c.
            (j : Text)
            → (lookup j
                  (mark_repository_analysis_delivery_delivered c.analysis_id other at t).deliveries
                ≡ lookup j t.deliveries)
              × (lookup j
                    (retry_repository_analysis_delivery c.analysis_id other next at t).deliveries
                  ≡ lookup j t.deliveries))
          claimed
  unfolding mark_repository_analysis_delivery_delivered retry_repository_analysis_delivery
  late_dispatcher_is_harmless other at next differs =
      let t = (claim_deliveries collate locked limit token now expires s).1 in
      All-imp (IsLeased (backfill s) t token now expires) _
        (λ c h j.
          let mark =
            lookup-update_where j c.analysis_id (is_leased_by other) (mark_delivered at)
              t.deliveries in
          let retry =
            lookup-update_where j c.analysis_id (is_leased_by other) (mark_pending next at)
              t.deliveries in
          elim (Bool-cases (c.analysis_id === j)) [
            | inl same ↦
                let e : c.analysis_id ≡ j = (===_iff c.analysis_id j).0 same in
                let row : lookup j t.deliveries ≡ some (lease token now expires h.before) =
                  subst (λ i. lookup i t.deliveries ≡ some (lease token now expires h.before)) e
                    h.leased in
                (
                  ground (arith, mark, ===_iff token other, ===_iff other token),
                  ground (arith, retry, ===_iff token other, ===_iff other token),
                )
            | inr differs ↦ (ground (arith, mark), ground (arith, retry))
          ])
        (claim_deliveries collate locked limit token now expires s).0 claim_deliveries-IsLeased.0

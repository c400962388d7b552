-- ===== src/Persistence/Invariant/Delivers.antt =====
-- The operations of the outbox keep the invariant.
use stack_lens.Base.Tests.{
  ℕ, ◌≡◌, Bool, true, false, some, List, [], ◌∷◌, inl, inr, arith, Bool-cases,
}
use stack_lens.Base.Lists.{All}
use stack_lens.Base.Text.{Text}
use stack_lens.Base.Table.{
  Table, lookup, lookup_self, keys, insert_new, lookup-adjust_keys, adjust_keys, adjust_keys-Holds,
  adjust_keys-HasDistinctKeys, update_where, lookup-update_where, update_where-Holds,
  update_where-HasDistinctKeys,
}
use stack_lens.Persistence.Types.{Analysis, Delivery, Store, is_delivered}
use stack_lens.Persistence.Submission.{is_waiting, pending_delivery}
use stack_lens.Persistence.Outbox.{
  backfill_rows, backfill, claim_deliveries, candidates, lease, is_leased_by, mark_delivered,
  mark_pending, mark_repository_analysis_delivery_delivered, retry_repository_analysis_delivery,
}
use stack_lens.Persistence.Outbox.{is_candidate}
use stack_lens.Persistence.Outbox.Claims.{candidate_of_key, candidate_not_delivered}
use stack_lens.Persistence.Invariant.{IsValid, IsValidDelivery}
use stack_lens.Persistence.Invariant.Submits.{insert_delivery-IsValid}

-- The state after the statement has read the rows so far: the analyses are as they were.
backfill_rows-IsValid :
    (s : Store) (rows : Table Analysis)
    → All (λ e. lookup e.0 s.analyses ≡ some e.1) rows
    → (d : Table Delivery) → IsValid (record s { deliveries = d })
    → IsValid (record s { deliveries = backfill_rows rows d })
unfolding backfill_rows
backfill_rows-IsValid s [] h d v = v
backfill_rows-IsValid s ((k, a) ∷ rows) h d v = elim (Bool-cases (is_waiting a)) [
  | inl waiting ↦ rw waiting (
      backfill_rows-IsValid s rows h.1 (insert_new k (pending_delivery a.updated_at) d)
        (insert_delivery-IsValid k a.updated_at (record s { deliveries = d }) (rw h.0) v))
  | inr taken ↦ rw taken (backfill_rows-IsValid s rows h.1 d v)
]

pub backfill-IsValid : (s : Store) → IsValid s → IsValid (backfill s)
unfolding backfill
backfill-IsValid s v =
    backfill_rows-IsValid s s.analyses (lookup_self s.analyses v.keys_of_analyses) s.deliveries v

-- Leasing chosen rows keeps the invariant, since no delivered row is chosen.
lease-IsValidDelivery :
    (token : Text) (now expires : ℕ) (s : Store) (locked : List Text) (j : Text) (d : Delivery)
    → is_candidate s now locked (j, d) ≡ true
    → IsValidDelivery d
    → IsValidDelivery (lease token now expires d)
lease-IsValidDelivery token now expires s locked j d chosen v =
    let open_row : is_delivered d.status ≡ false =
      candidate_not_delivered s now locked j d chosen in
    ground arith

lease_rows-IsValid :
    (collate : Text → Text → Bool) (locked : List Text) (limit : ℕ) (token : Text) (now expires : ℕ)
    (s : Store)
    → IsValid s
    → IsValid (record s {
      deliveries =
          adjust_keys
            (keys (candidates collate locked limit now s))
            (lease token now expires)
            s.deliveries;
    })
lease_rows-IsValid collate locked limit token now expires s v =
    let ks = keys (candidates collate locked limit now s) in
    let f = lease token now expires in
    record {
      keys_of_analyses = v.keys_of_analyses;
      keys_of_reports = v.keys_of_reports;
      keys_of_deliveries = adjust_keys-HasDistinctKeys ks f s.deliveries v.keys_of_deliveries;
      rows = v.rows;
      deliveries =
          adjust_keys-Holds IsValidDelivery ks f s.deliveries
            (λ j d listed found h.
              lease-IsValidDelivery token now expires s locked j d
                (candidate_of_key collate locked limit now s v.keys_of_deliveries j d listed found)
                h)
            v.deliveries;
      reported = v.reported;
      owned = λ i h. ground (arith, v.owned i, lookup-adjust_keys i ks f s.deliveries);
    }

pub claim_deliveries-IsValid :
    (collate : Text → Text → Bool) (locked : List Text) (limit : ℕ) (token : Text) (now expires : ℕ)
    (s : Store)
    → IsValid s
    → IsValid (claim_deliveries collate locked limit token now expires s).1
unfolding claim_deliveries
claim_deliveries-IsValid collate locked limit token now expires s v =
    lease_rows-IsValid collate locked limit token now expires (backfill s) (backfill-IsValid s v)

update_delivery-IsValid :
    (k : Text) (token : Text) (f : Delivery → Delivery) (s : Store)
    → ((d : Delivery) → IsValidDelivery d → is_leased_by token d ≡ true → IsValidDelivery (f d))
    → IsValid s
    → IsValid (record s { deliveries = update_where k (is_leased_by token) f s.deliveries })
update_delivery-IsValid k token f s keep v = record {
  keys_of_analyses = v.keys_of_analyses;
  keys_of_reports = v.keys_of_reports;
  keys_of_deliveries =
      update_where-HasDistinctKeys k (is_leased_by token) f s.deliveries v.keys_of_deliveries;
  rows = v.rows;
  deliveries =
      update_where-Holds IsValidDelivery k (is_leased_by token) f s.deliveries keep v.deliveries;
  reported = v.reported;
  owned =
      λ i h. ground (arith, v.owned i, lookup-update_where i k (is_leased_by token) f s.deliveries);
}

pub mark_delivered-IsValid :
    (i token : Text) (at : ℕ) (s : Store)
    → IsValid s
    → IsValid (mark_repository_analysis_delivery_delivered i token at s)
unfolding mark_repository_analysis_delivery_delivered
mark_delivered-IsValid i token at s v =
    update_delivery-IsValid i token (mark_delivered at) s (λ d h leased. ground arith) v

pub retry_delivery-IsValid :
    (i token : Text) (next at : ℕ) (s : Store)
    → IsValid s
    → IsValid (retry_repository_analysis_delivery i token next at s)
unfolding retry_repository_analysis_delivery
retry_delivery-IsValid i token next at s v =
    update_delivery-IsValid i token (mark_pending next at) s (λ d h leased. ground arith) v

-- ===== src/Persistence/Outbox.antt =====
-- The outbox of accepted submissions (packages/persistence/src/repository.ts,
-- `claimPendingRepositoryAnalysisDeliveries`, `markRepositoryAnalysisDeliveryDelivered` and
-- `retryRepositoryAnalysisDelivery`). The order of identifiers is the database's collation, and
-- the rows that other transactions hold locked are an argument. The attempts column is taken
-- without its bound of 2 ^ 31.
pub mod Claims
pub mod Leases
use stack_lens.Base.Tests.{
  max_safe_integer, ℕ, ◌+◌, Bool, true, false, not, ◌&&◌, ◌||◌, Option, none, some, List, [], ◌∷◌,
  map, ltb, leb, ◌==◌, if◌then◌else◌, is_some,
}
use stack_lens.Base.Lists.{take, select}
use stack_lens.Base.Text.{Text, ◌=?=◌}
use stack_lens.Base.Table.{Table, lookup, insert_new, adjust_keys, update_where, mem, keys}
use stack_lens.Base.Sort.{sort}
use stack_lens.Persistence.Types.{
  Analysis, Delivery, DeliveryStatus, Store, ClaimedDelivery, is_queued, is_delivering,
}
use stack_lens.Persistence.Submission.{pending_delivery, is_waiting}

-- `INSERT INTO analysis_delivery … SELECT … FROM analysis WHERE … ON CONFLICT DO NOTHING`
unfoldable pub backfill_rows : Table Analysis → Table Delivery → Table Delivery
unfolding insert_new
backfill_rows [] d = d
backfill_rows ((k, a) ∷ rows) d =
    backfill_rows rows (if is_waiting a then insert_new k (pending_delivery a.updated_at) d else d)

unfoldable pub backfill : Store → Store
unfolding backfill_rows
backfill s = record s { deliveries = backfill_rows s.analyses s.deliveries }

-- `lease_expires_at <= now`, which is not true of a null.
abbrev pub is_expired : Option ℕ → ℕ → Bool
is_expired none now = false
is_expired (some at) now = leb at now

abbrev pub is_due : DeliveryStatus → Delivery → ℕ → Bool
is_due DeliveryStatus.pending d now = leb d.available_at now
is_due DeliveryStatus.delivering d now = is_expired d.lease_expires_at now
is_due DeliveryStatus.delivered d now = false

abbrev pub is_claimable : ℕ → Analysis → Delivery → Bool
is_claimable now a d = is_waiting a && is_due d.status d now

-- The `WHERE` of the candidates: the join on the key, the tests, and no lock held by another.
abbrev pub is_candidate : Store → ℕ → List Text → Text × Delivery → Bool
is_candidate s now locked (k, d) =
    not (mem k locked)
    && elim (lookup k s.analyses) [ none ↦ false | some a ↦ is_claimable now a d ]

-- `ORDER BY delivery.available_at, delivery.analysis_id`
abbrev pub is_served_before : (Text → Text → Bool) → Text × Delivery → Text × Delivery → Bool
is_served_before collate (k, d) (j, e) =
    ltb d.available_at e.available_at || (d.available_at == e.available_at && collate k j)

unfoldable pub candidates :
    (Text → Text → Bool) → List Text → ℕ → ℕ → Store → List (Text × Delivery)
unfolding select sort
candidates collate locked limit now s =
    take limit (sort (is_served_before collate) (select (is_candidate s now locked) s.deliveries))

abbrev pub lease : Text → ℕ → ℕ → Delivery → Delivery
lease token now expires d = record d {
  status = DeliveryStatus.delivering;
  attempts = d.attempts + 1;
  lease_token = some token;
  lease_expires_at = some expires;
  updated_at = now;
}

-- The rows that the statement returns, joined with their analyses.
unfoldable pub claimed_rows : Table Analysis → Text → List (Text × Delivery) → List ClaimedDelivery
claimed_rows analyses token [] = []
claimed_rows analyses token ((k, d) ∷ rest) =
    let others = claimed_rows analyses token rest in
    elim (lookup k analyses) [
      | none ↦ others
      | some a ↦
          let row : ClaimedDelivery = record {
            analysis_id = k;
            repository_url = a.repository_url;
            requested_ref = a.requested_ref;
            attempts = d.attempts + 1;
            lease_token = token;
          } in
          row ∷ others
    ]

module _ (collate : Text → Text → Bool) (locked : List Text) where
  -- The transaction, at a limit that passed the guard.
  unfoldable pub claim_deliveries : ℕ → Text → ℕ → ℕ → Store → List ClaimedDelivery × Store
  unfolding backfill candidates claimed_rows adjust_keys
  claim_deliveries limit token now expires s =
      let s' = backfill s in
      let chosen = candidates collate locked limit now s' in
      (
        claimed_rows s'.analyses token chosen,
        record s' {
          deliveries = adjust_keys (keys chosen) (lease token now expires) s'.deliveries;
        },
      )

  -- `none` is the error that the guard throws.
  unfoldable pub claim_pending_repository_analysis_deliveries :
      ℕ → Text → ℕ → ℕ → Store → Option (List ClaimedDelivery × Store)
  unfolding claim_deliveries
  claim_pending_repository_analysis_deliveries limit token now expires s =
      if limit == 0 || ltb max_safe_integer limit
      then none
      else some (claim_deliveries limit token now expires s)

-- The `WHERE` of both updates below, on the row of the analysis.
abbrev pub is_leased_by : Text → Delivery → Bool
is_leased_by token d = is_delivering d.status && d.lease_token =?= some token

abbrev pub mark_delivered : ℕ → Delivery → Delivery
mark_delivered at d = record d {
  status = DeliveryStatus.delivered;
  lease_token = none;
  lease_expires_at = none;
  delivered_at = some at;
  updated_at = at;
}

abbrev pub mark_pending : ℕ → ℕ → Delivery → Delivery
mark_pending next at d = record d {
  status = DeliveryStatus.pending;
  lease_token = none;
  lease_expires_at = none;
  available_at = next;
  updated_at = at;
}

unfoldable pub mark_repository_analysis_delivery_delivered : Text → Text → ℕ → Store → Store
unfolding update_where
mark_repository_analysis_delivery_delivered i token at s = record s {
  deliveries = update_where i (is_leased_by token) (mark_delivered at) s.deliveries;
}

unfoldable pub retry_repository_analysis_delivery : Text → Text → ℕ → ℕ → Store → Store
unfolding update_where
retry_repository_analysis_delivery i token next at s = record s {
  deliveries = update_where i (is_leased_by token) (mark_pending next at) s.deliveries;
}

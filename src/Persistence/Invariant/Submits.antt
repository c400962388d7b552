-- ===== src/Persistence/Invariant/Submits.antt =====
-- Submissions keep the invariant.
use stack_lens.Base.Tests.{
  ℕ, ◌≡◌, refl, true, Option, none, some, inl, inr, is_some, arith, Bool-cases,
}
use stack_lens.Base.Text.{Text, ===_iff}
use stack_lens.Base.Table.{
  lookup, insert_new, lookup-insert_new, insert_new-Holds, insert_new-HasDistinctKeys,
}
use stack_lens.Persistence.Types.{Analysis, Store, CreateQueued}
use stack_lens.Persistence.Submission.{
  queued_row, pending_delivery, insert_queued_analysis, create_queued_repository_analysis,
  create_queued_repository_analysis_with_delivery, has_owner_pair, is_bound_to, is_waiting,
  deliver_row,
}
use stack_lens.Persistence.Invariant.{IsValid, IsValidRow, IsValidDelivery}

pub queued_row-IsValidRow : (input : CreateQueued) → IsValidRow (queued_row input)
queued_row-IsValidRow input = ground arith

pub pending_delivery-IsValidDelivery : (at : ℕ) → IsValidDelivery (pending_delivery at)
pending_delivery-IsValidDelivery at = ground arith

insert_row-IsValid :
    (input : CreateQueued) (s : Store)
    → IsValid s
    → IsValid (record s { analyses = insert_new input.id (queued_row input) s.analyses })
insert_row-IsValid input s v =
    let law = λ (i : Text). lookup-insert_new i input.id (queued_row input) s.analyses in
    record {
      keys_of_analyses =
          insert_new-HasDistinctKeys input.id (queued_row input) s.analyses v.keys_of_analyses;
      keys_of_reports = v.keys_of_reports;
      keys_of_deliveries = v.keys_of_deliveries;
      rows =
          insert_new-Holds IsValidRow input.id (queued_row input) s.analyses
            (queued_row-IsValidRow input) v.rows;
      deliveries = v.deliveries;
      reported = λ i. ground (arith, v.reported i, law i, ===_iff input.id i);
      owned = λ i h. ground (arith, v.owned i h, law i, ===_iff input.id i);
    }

-- A delivery may be added for an analysis that stands in the table.
pub insert_delivery-IsValid :
    (k : Text) (at : ℕ) (s : Store)
    → is_some (lookup k s.analyses) ≡ true
    → IsValid s
    → IsValid (record s { deliveries = insert_new k (pending_delivery at) s.deliveries })
insert_delivery-IsValid k at s known v = record {
  keys_of_analyses = v.keys_of_analyses;
  keys_of_reports = v.keys_of_reports;
  keys_of_deliveries =
      insert_new-HasDistinctKeys k (pending_delivery at) s.deliveries v.keys_of_deliveries;
  rows = v.rows;
  deliveries =
      insert_new-Holds IsValidDelivery k (pending_delivery at) s.deliveries
        (pending_delivery-IsValidDelivery at) v.deliveries;
  reported = v.reported;
  owned = λ i h. ground (
    arith,
    v.owned i,
    known,
    lookup-insert_new i k (pending_delivery at) s.deliveries,
    ===_iff k i,
  );
}

pub create_queued_repository_analysis-IsValid :
    (input : CreateQueued) (s : Store)
    → IsValid s
    → IsValid (create_queued_repository_analysis input s).1
unfolding create_queued_repository_analysis
create_queued_repository_analysis-IsValid input s v =
    elim (Bool-cases (has_owner_pair input.owner_github_id input.github_connection_id)) [
      | inl paired ↦
          rw (paired, create_queued_repository_analysis, insert_queued_analysis)
            (insert_row-IsValid input s v)
      | inr unpaired ↦ rw (unpaired, create_queued_repository_analysis, insert_queued_analysis) v
    ]

pub create_queued_repository_analysis_with_delivery-IsValid :
    (input : CreateQueued) (s : Store)
    → IsValid s
    → IsValid (create_queued_repository_analysis_with_delivery input s).1
unfolding create_queued_repository_analysis_with_delivery
create_queued_repository_analysis_with_delivery-IsValid input s v =
    elim (Bool-cases (has_owner_pair input.owner_github_id input.github_connection_id)) [
      | inl paired ↦
          rw (paired, create_queued_repository_analysis_with_delivery, insert_queued_analysis)
            (after (lookup input.id s'.analyses) refl)
      | inr unpaired ↦
          rw (unpaired, create_queued_repository_analysis_with_delivery, insert_queued_analysis) v
    ]
  where
    s' : Store
    s' = record s { analyses = insert_new input.id (queued_row input) s.analyses }

    after :
        (o : Option Analysis)
        → lookup input.id s'.analyses ≡ o
        → IsValid (deliver_row input s s' o).1
    after none e = v
    after (some a) e = elim (Bool-cases (is_bound_to input a)) [
      | inl bound ↦ elim (Bool-cases (is_waiting a)) [
        | inl waiting ↦
            rw (bound, waiting)
              (insert_delivery-IsValid input.id input.created_at s' (rw e)
                (insert_row-IsValid input s v))
        | inr taken ↦ rw (bound, taken) (insert_row-IsValid input s v)
      ]
      | inr other ↦ rw other v
    ]

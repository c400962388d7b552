-- ===== src/Persistence/Submission/Laws.antt =====
-- What a submission promises.
use stack_lens.Base.Tests.{
  ◌≡◌, refl, true, Option, none, some, inl, inr, is_some, arith, Bool-cases, subst,
}
use stack_lens.Base.Text.{===_iff, ===_refl, =?=_iff}
use stack_lens.Base.Table.{lookup, insert_new, lookup-insert_new, insert_new_present}
use stack_lens.Persistence.Types.{Analysis, Store, CreateQueued}
use stack_lens.Persistence.Records.{AnalysisRecord, compact_record}
use stack_lens.Persistence.Submission.{
  queued_row, pending_delivery, insert_queued_analysis, has_owner_pair, is_bound_to, is_waiting,
  deliver_row, Submission, accepted, rejected, create_queued_repository_analysis_with_delivery,
}

-- What an accepted submission leaves behind: its analysis stands under its identifier with the
-- submitted input, and unless it already runs or ended there is a delivery for it.
pub record IsAccepted (input : CreateQueued) (t : Store) (r : AnalysisRecord) : Type 0 where
  pub row : Analysis
  pub stored : lookup input.id t.analyses ≡ some row
  pub answer : r ≡ compact_record input.id row
  pub url : row.repository_url ≡ input.repository_url
  pub ref : row.requested_ref ≡ input.requested_ref
  pub owner : row.owner_github_id ≡ input.owner_github_id
  pub connection : row.github_connection_id ≡ input.github_connection_id
  pub delivery : is_waiting row ≡ true → is_some (lookup input.id t.deliveries) ≡ true

abbrev pub Promises : CreateQueued → Store → Submission AnalysisRecord × Store → Type 0
Promises input s (accepted r, t) = IsAccepted input t r
Promises input s (rejected e, t) = t ≡ s

-- The stored row of an accepted submission holds the submitted input.
bound_fields :
    (input : CreateQueued) (a : Analysis)
    → is_bound_to input a ≡ true
    → (a.repository_url ≡ input.repository_url)
      × (a.requested_ref ≡ input.requested_ref)
      × (a.owner_github_id ≡ input.owner_github_id)
      × (a.github_connection_id ≡ input.github_connection_id)
unfolding is_bound_to
bound_fields input a h = ground (
  arith,
  ===_iff a.repository_url input.repository_url,
  =?=_iff a.requested_ref input.requested_ref,
  =?=_iff a.owner_github_id input.owner_github_id,
  =?=_iff a.github_connection_id input.github_connection_id,
)

fields_bound :
    (input : CreateQueued) (a : Analysis)
    → a.repository_url ≡ input.repository_url
    → a.requested_ref ≡ input.requested_ref
    → a.owner_github_id ≡ input.owner_github_id
    → a.github_connection_id ≡ input.github_connection_id
    → is_bound_to input a ≡ true
unfolding is_bound_to
fields_bound input a url ref owner connection = ground (
  arith,
  ===_iff a.repository_url input.repository_url,
  =?=_iff a.requested_ref input.requested_ref,
  =?=_iff a.owner_github_id input.owner_github_id,
  =?=_iff a.github_connection_id input.github_connection_id,
)

row-IsAccepted :
    (input : CreateQueued) (t : Store) (a : Analysis)
    → lookup input.id t.analyses ≡ some a
    → is_bound_to input a ≡ true
    → (is_waiting a ≡ true → is_some (lookup input.id t.deliveries) ≡ true)
    → IsAccepted input t (compact_record input.id a)
row-IsAccepted input t a found bound delivery =
    let (url, ref, owner, connection) = bound_fields input a bound in
    record {
      row = a;
      stored = found;
      answer = refl;
      url = url;
      ref = ref;
      owner = owner;
      connection = connection;
      delivery = delivery;
    }

deliver_row-Promises :
    (input : CreateQueued) (s s' : Store) (o : Option Analysis)
    → lookup input.id s'.analyses ≡ o
    → Promises input s (deliver_row input s s' o)
deliver_row-Promises input s s' none e = refl
deliver_row-Promises input s s' (some a) e = elim (Bool-cases (is_bound_to input a)) [
  | inl bound ↦ elim (Bool-cases (is_waiting a)) [
    | inl waiting ↦
        rw (bound, waiting)
          (row-IsAccepted input _ a e bound (λ w. ground (
            arith,
            lookup-insert_new input.id input.id (pending_delivery input.created_at) s'.deliveries,
            ===_refl input.id,
          )))
    | inr taken ↦ rw (bound, taken) (row-IsAccepted input s' a e bound (λ w. ground arith))
  ]
  | inr other ↦ rw other refl
]

-- An accepted submission is stored under its identifier with the submitted input and, unless its
-- analysis already runs or ended, has a delivery in the outbox; a rejected one changes nothing.
pub create_with_delivery-Promises :
    (input : CreateQueued) (s : Store)
    → Promises input s (create_queued_repository_analysis_with_delivery input s)
unfolding create_queued_repository_analysis_with_delivery
create_with_delivery-Promises input s =
    elim (Bool-cases (has_owner_pair input.owner_github_id input.github_connection_id)) [
      | inl paired ↦
          rw (paired, create_queued_repository_analysis_with_delivery, insert_queued_analysis)
            (deliver_row-Promises input s _ _ refl)
      | inr unpaired ↦
          rw (unpaired, create_queued_repository_analysis_with_delivery, insert_queued_analysis)
            refl
    ]

-- The state of a store on which a submission has been accepted: the same submission reads its row
-- and adds nothing.
resubmit :
    (input : CreateQueued) (t : Store) (a : Analysis)
    → has_owner_pair input.owner_github_id input.github_connection_id ≡ true
    → lookup input.id t.analyses ≡ some a
    → is_bound_to input a ≡ true
    → (is_waiting a ≡ true → is_some (lookup input.id t.deliveries) ≡ true)
    → create_queued_repository_analysis_with_delivery input t
      ≡ (accepted (compact_record input.id a), t)
unfolding create_queued_repository_analysis_with_delivery
resubmit input t a paired found bound delivery =
    let same : insert_new input.id (queued_row input) t.analyses ≡ t.analyses =
      insert_new_present input.id (queued_row input) t.analyses (rw found) in
    let here : lookup input.id (insert_new input.id (queued_row input) t.analyses) ≡ some a =
      rw same found in
    rw
      (
        paired, create_queued_repository_analysis_with_delivery, insert_queued_analysis, here,
        deliver_row,
      )
      (elim (Bool-cases (is_waiting a)) [
        | inl waiting ↦
            let kept =
              insert_new_present input.id (pending_delivery input.created_at) t.deliveries
                (delivery waiting) in
            rw (bound, waiting, kept, same) refl
        | inr taken ↦ rw (bound, taken, same) refl
      ])

paired_of_accepted :
    (input : CreateQueued) (s t : Store) (r : AnalysisRecord)
    → create_queued_repository_analysis_with_delivery input s ≡ (accepted r, t)
    → has_owner_pair input.owner_github_id input.github_connection_id ≡ true
unfolding create_queued_repository_analysis_with_delivery
paired_of_accepted input s t r e = ground arith

-- Submitting again what was accepted gives the same answer and changes nothing.
pub create_with_delivery_idempotent :
    (input : CreateQueued) (s t : Store) (r : AnalysisRecord)
    → create_queued_repository_analysis_with_delivery input s ≡ (accepted r, t)
    → create_queued_repository_analysis_with_delivery input t ≡ (accepted r, t)
create_with_delivery_idempotent input s t r e =
    let p : IsAccepted input t r =
      subst (Promises input s) e (create_with_delivery-Promises input s) in
    let bound = fields_bound input p.row p.url p.ref p.owner p.connection in
    rw p.answer
      (resubmit input t p.row (paired_of_accepted input s t r e) p.stored bound p.delivery)

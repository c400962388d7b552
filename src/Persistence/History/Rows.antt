-- ===== src/Persistence/History/Rows.antt =====
-- What each operation that is not bound to one job does to a stored analysis and its report.
use stack_lens.Base.Tests.{
  max_safe_integer, ℕ, ◌≡◌, refl, Bool, true, Option, none, some, List, inl, inr, arith, Bool-cases,
  ◌||◌, ltb, ◌==◌, ◌⊎◌,
}
use stack_lens.Base.Text.{Text, ===_iff}
use stack_lens.Base.Table.{lookup, keys, mem, insert_new, lookup-insert_new, lookup-delete_keys}
use stack_lens.Persistence.Types.{Analysis, Store, CreateQueued, is_terminal_analysis_status}
use stack_lens.Persistence.Submission.{
  queued_row, insert_queued_analysis, create_queued_repository_analysis,
  create_queued_repository_analysis_with_delivery, has_owner_pair, deliver_row,
}
use stack_lens.Persistence.Outbox.{claim_pending_repository_analysis_deliveries, is_expired}
use stack_lens.Persistence.Retention.{
  purge_expired_terminal_analyses, expired_rows, purgeable_of_key, delete_analyses, is_expired_row,
}
use stack_lens.Persistence.Invariant.{IsValid}
use stack_lens.Persistence.History.{after}

-- The analysis and its report are as they were.
abbrev pub IsKept : Store → Store → Text → Analysis → Type 0
IsKept s t i a = (lookup i t.analyses ≡ some a) × (lookup i t.reports ≡ lookup i s.reports)

-- The analysis is gone, with its report and its delivery.
abbrev pub IsGone : Store → Text → Type 0
IsGone t i =
    (lookup i t.analyses ≡ none) × (lookup i t.reports ≡ none) × (lookup i t.deliveries ≡ none)

module _ (s : Store) (i : Text) (a : Analysis) (found : lookup i s.analyses ≡ some a) where
  insert_row-IsKept :
      (input : CreateQueued)
      → IsKept s (record s { analyses = insert_new input.id (queued_row input) s.analyses }) i a
  insert_row-IsKept input = (
    ground (arith, lookup-insert_new i input.id (queued_row input) s.analyses, ===_iff input.id i),
    refl,
  )

  pub submit_alone-IsKept :
      (input : CreateQueued) → IsKept s (create_queued_repository_analysis input s).1 i a
  unfolding create_queued_repository_analysis
  submit_alone-IsKept input =
      elim (Bool-cases (has_owner_pair input.owner_github_id input.github_connection_id)) [
        | inl paired ↦
            rw (paired, create_queued_repository_analysis, insert_queued_analysis)
              (insert_row-IsKept input)
        | inr unpaired ↦
            rw (unpaired, create_queued_repository_analysis, insert_queued_analysis) (found, refl)
      ]

  deliver_row-IsKept :
      (input : CreateQueued) (s' : Store) (o : Option Analysis)
      → IsKept s s' i a
      → IsKept s (deliver_row input s s' o).1 i a
  deliver_row-IsKept input s' none k = (found, refl)
  deliver_row-IsKept input s' (some b) k = ground (arith, k)

  pub submit-IsKept :
      (input : CreateQueued)
      → IsKept s (create_queued_repository_analysis_with_delivery input s).1 i a
  unfolding create_queued_repository_analysis_with_delivery
  submit-IsKept input =
      elim (Bool-cases (has_owner_pair input.owner_github_id input.github_connection_id)) [
        | inl paired ↦
            rw (paired, create_queued_repository_analysis_with_delivery, insert_queued_analysis)
              (deliver_row-IsKept input _ _ (insert_row-IsKept input))
        | inr unpaired ↦
            rw (unpaired, create_queued_repository_analysis_with_delivery, insert_queued_analysis)
              (found, refl)
      ]

  pub claim_outbox-IsKept :
      (collate : Text → Text → Bool) (locked : List Text) (limit : ℕ) (token : Text)
      (now expires : ℕ)
      → IsKept s
          (after s
            (claim_pending_repository_analysis_deliveries collate locked limit token now expires s))
          i
          a
  unfolding claim_pending_repository_analysis_deliveries
  claim_outbox-IsKept collate locked limit token now expires =
      elim (Bool-cases (limit == 0 || ltb max_safe_integer limit)) [
        | inl refused ↦ rw (refused, claim_pending_repository_analysis_deliveries) (found, refl)
        | inr within ↦ rw (within, claim_pending_repository_analysis_deliveries) (found, refl)
      ]

  -- A purge deletes the analysis only if it is terminal, held by no job and past its retention.
  pub purge_row :
      (collate : Text → Text → Bool) (locked : List Text) (now limit : ℕ)
      → IsValid s
      → let t = after s (purge_expired_terminal_analyses collate locked now limit s) in
        IsKept s t i a
        ⊎ ((is_expired a.retention_expires_at now ≡ true)
            × (is_terminal_analysis_status a.status ≡ true)
            × IsGone t i)
  unfolding purge_expired_terminal_analyses
  purge_row collate locked now limit v = elim (Bool-cases (limit == 0 || ltb 1000 limit)) [
    | inl refused ↦ rw (refused, purge_expired_terminal_analyses) (inl (found, refl))
    | inr within ↦
        rw (within, purge_expired_terminal_analyses)
          (deleted (keys (expired_rows collate locked now limit s))
            (λ m. purgeable_of_key collate locked now limit s v.keys_of_analyses i a m found))
  ]
    where
      deleted :
          (gone : List Text)
          → (mem i gone ≡ true → is_expired_row now locked (i, a) ≡ true)
          → IsKept s (delete_analyses gone s) i a
            ⊎ ((is_expired a.retention_expires_at now ≡ true)
                × (is_terminal_analysis_status a.status ≡ true)
                × IsGone (delete_analyses gone s) i)
      deleted gone may = elim (Bool-cases (mem i gone)) [
        | inl m ↦
            let e = may m in
            inr (
              ground arith,
              ground arith,
              (
                ground (arith, lookup-delete_keys i gone s.analyses),
                ground (arith, lookup-delete_keys i gone s.reports),
                ground (arith, lookup-delete_keys i gone s.deliveries),
              ),
            )
        | inr m ↦ inl (
          ground (arith, lookup-delete_keys i gone s.analyses),
          ground (arith, lookup-delete_keys i gone s.reports),
        )
      ]

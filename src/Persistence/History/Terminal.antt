-- ===== src/Persistence/History/Terminal.antt =====
-- A terminal analysis never changes again; the retention sweep alone may delete it.
use stack_lens.Base.Tests.{
  ◌≡◌, refl, sym, subst, Bool, true, false, some, inl, inr, arith, ◌⊎◌, Bool-cases,
}
use stack_lens.Base.Text.{Text, ◌===◌, ===_iff}
use stack_lens.Base.Table.{lookup, update_where, lookup-update_where, lookup-upsert}
use stack_lens.Persistence.Types.{Analysis, Completion, Store, is_terminal_analysis_status}
use stack_lens.Persistence.Outbox.{
  is_expired, mark_repository_analysis_delivery_delivered, retry_repository_analysis_delivery,
}
use stack_lens.Persistence.Execution.{
  claim_for_execution, update_progress, mark_retry_pending, complete, fail, can_claim, is_run_by,
  is_active_of, can_fail, start, advance, requeue, finish, give_up, stored_report,
}
use stack_lens.Persistence.Invariant.{IsValid}
use stack_lens.Persistence.History.{
  Operation, submit, submit_alone, claim_outbox, deliver, postpone, claim, progress, retry,
  finish_with, fail_with, purge, apply,
}
use stack_lens.Persistence.History.Rows.{
  IsKept, IsGone, submit-IsKept, submit_alone-IsKept, claim_outbox-IsKept, purge_row,
}

-- `update_where` leaves a row that fails its test alone.
pub update_where-refused :
    (k i : Text) (test : Analysis → Bool) (f : Analysis → Analysis) (s : Store) (a : Analysis)
    → lookup i s.analyses ≡ some a
    → test a ≡ false
    → lookup i (update_where k test f s.analyses) ≡ some a
update_where-refused k i test f s a found refused =
    ground (arith, lookup-update_where i k test f s.analyses)

-- What an operation does to a stored analysis: it stays as it is with its report, or the
-- operation is a purge at a time past its retention and it is gone.
abbrev pub IsKeptOrPurged : Operation → Store → Text → Analysis → Type 0
IsKeptOrPurged (purge collate locked now limit) s i a =
    IsKept s (apply (purge collate locked now limit) s) i a
    ⊎ ((is_expired a.retention_expires_at now ≡ true)
        × (is_terminal_analysis_status a.status ≡ true)
        × IsGone (apply (purge collate locked now limit) s) i)
IsKeptOrPurged op s i a = IsKept s (apply op s) i a

complete-IsKept :
    (u : Completion) (s : Store) (i : Text) (a : Analysis)
    → lookup i s.analyses ≡ some a
    → is_active_of u.job_id a ≡ false
    → IsKept s (complete u s) i a
unfolding complete
complete-IsKept u s i a found refused = (
  update_where-refused u.id i (is_active_of u.job_id) (finish u) s a found refused,
  elim (Bool-cases (u.id === i)) [
    | inl same ↦
        let e : lookup u.id s.analyses ≡ some a =
          subst (λ j. lookup j s.analyses ≡ some a) (sym ((===_iff u.id i).0 same)) found in
        ground arith
    | inr other ↦ ground (arith, lookup-upsert i u.id (stored_report u) s.reports)
  ],
)

-- In a valid store no operation changes a terminal analysis or its report, except that a purge
-- past its retention time deletes the analysis together with its report and its delivery.
pub terminal_is_final :
    (op : Operation) (s : Store) (i : Text) (a : Analysis)
    → IsValid s
    → lookup i s.analyses ≡ some a
    → is_terminal_analysis_status a.status ≡ true
    → IsKeptOrPurged op s i a
unfolding apply
terminal_is_final (submit input) s i a v found t = submit-IsKept s i a found input
terminal_is_final (submit_alone input) s i a v found t = submit_alone-IsKept s i a found input
terminal_is_final (claim_outbox collate locked limit token now expires) s i a v found t =
    claim_outbox-IsKept s i a found collate locked limit token now expires
terminal_is_final (deliver k token at) s i a v found t =
    unfold mark_repository_analysis_delivery_delivered in (found, refl)
terminal_is_final (postpone k token next at) s i a v found t =
    unfold retry_repository_analysis_delivery in (found, refl)
terminal_is_final (claim k job at) s i a v found t =
    unfold claim_for_execution in
    (update_where-refused k i (can_claim job) (start job at) s a found (ground arith), refl)
terminal_is_final (progress k job stage at) s i a v found t =
    unfold update_progress in
    (update_where-refused k i (is_run_by job) (advance stage at) s a found (ground arith), refl)
terminal_is_final (retry u) s i a v found t =
    unfold mark_retry_pending in
    (update_where-refused u.id i (is_active_of u.job_id) (requeue u) s a found (ground arith), refl)
terminal_is_final (finish_with u) s i a v found t = complete-IsKept u s i a found (ground arith)
terminal_is_final (fail_with u) s i a v found t =
    unfold fail in
    (update_where-refused u.id i (can_fail u.job_id) (give_up u) s a found (ground arith), refl)
terminal_is_final (purge collate locked now limit) s i a v found t =
    purge_row s i a found collate locked now limit v

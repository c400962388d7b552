-- ===== src/Persistence/History/Ownership.antt =====
-- While a job holds an analysis, only operations on behalf of that job change it.
use stack_lens.Base.Tests.{◌≡◌, Bool, true, false, some, inl, inr, arith}
use stack_lens.Base.Text.{Text, ◌===◌, ===_iff}
use stack_lens.Base.Table.{lookup}
use stack_lens.Persistence.Types.{Analysis, Store, is_running}
use stack_lens.Persistence.Outbox.{
  mark_repository_analysis_delivery_delivered, retry_repository_analysis_delivery,
}
use stack_lens.Persistence.Execution.{
  claim_for_execution, update_progress, mark_retry_pending, complete, fail, can_claim, is_run_by,
  is_active_of, can_fail, start, advance, requeue, finish, give_up,
}
use stack_lens.Persistence.Invariant.{IsValid}
use stack_lens.Persistence.History.{
  Operation, submit, submit_alone, claim_outbox, deliver, postpone, claim, progress, retry,
  finish_with, fail_with, purge, apply,
}
use stack_lens.Persistence.History.Rows.{
  submit-IsKept, submit_alone-IsKept, claim_outbox-IsKept, purge_row,
}
use stack_lens.Persistence.History.Terminal.{update_where-refused}

-- Whether the operation is made on behalf of the job.
abbrev pub acts_for : Operation → Text → Bool
acts_for (claim i job at) j = job === j
acts_for (progress i job stage at) j = job === j
acts_for (retry u) j = u.job_id === j
acts_for (finish_with u) j = u.job_id === j
acts_for (fail_with u) j = u.job_id === j
acts_for _ j = false

module _ (s : Store) (i j : Text) (a : Analysis) (v : IsValid s)
    (found : lookup i s.analyses ≡ some a) (held : a.active_job_id ≡ some j) where
  is_run : is_running a.status ≡ true
  is_run = let r = v.rows i a found in ground (arith, r.held)

  -- In a valid store an analysis that one job holds is left as it is by every operation that is
  -- not on behalf of that job.
  pub held_is_exclusive :
      (op : Operation) → acts_for op j ≡ false → lookup i (apply op s).analyses ≡ some a
  unfolding apply
  held_is_exclusive (submit input) other = (submit-IsKept s i a found input).0
  held_is_exclusive (submit_alone input) other = (submit_alone-IsKept s i a found input).0
  held_is_exclusive (claim_outbox collate locked limit token now expires) other =
      (claim_outbox-IsKept s i a found collate locked limit token now expires).0
  held_is_exclusive (deliver k token at) other =
      unfold mark_repository_analysis_delivery_delivered in found
  held_is_exclusive (postpone k token next at) other =
      unfold retry_repository_analysis_delivery in found
  held_is_exclusive (claim k job at) other =
      unfold claim_for_execution in
      update_where-refused k i (can_claim job) (start job at) s a found
        (ground (arith, is_run, ===_iff job j, ===_iff j job))
  held_is_exclusive (progress k job stage at) other =
      unfold update_progress in
      update_where-refused k i (is_run_by job) (advance stage at) s a found
        (ground (arith, ===_iff job j, ===_iff j job))
  held_is_exclusive (retry u) other =
      unfold mark_retry_pending in
      update_where-refused u.id i (is_active_of u.job_id) (requeue u) s a found
        (ground (arith, ===_iff u.job_id j, ===_iff j u.job_id))
  held_is_exclusive (finish_with u) other =
      unfold complete in
      update_where-refused u.id i (is_active_of u.job_id) (finish u) s a found
        (ground (arith, ===_iff u.job_id j, ===_iff j u.job_id))
  held_is_exclusive (fail_with u) other =
      unfold fail in
      update_where-refused u.id i (can_fail u.job_id) (give_up u) s a found
        (ground (arith, ===_iff u.job_id j, ===_iff j u.job_id))
  held_is_exclusive (purge collate locked now limit) other =
      elim (purge_row s i a found collate locked now limit v) [
        | inl kept ↦ kept.0
        | inr gone ↦ absurd (ground (arith, is_run, gone.1))
      ]

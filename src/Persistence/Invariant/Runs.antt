-- ===== src/Persistence/Invariant/Runs.antt =====
-- The operations of a job keep the invariant.
use stack_lens.Base.Tests.{
  ℕ, ◌≡◌, refl, Bool, true, Option, none, some, inl, inr, is_some, arith, Option-cases, Bool-cases,
  subst,
}
use stack_lens.Base.Text.{Text, ◌===◌, ===_iff, ===_refl}
use stack_lens.Base.Table.{
  lookup, update_where, lookup-update_where, lookup-upsert, update_where-Holds,
  update_where-HasDistinctKeys, upsert-HasDistinctKeys,
}
use stack_lens.Persistence.Types.{
  ProgressStage, Analysis, Store, RetryUpdate, FailureUpdate, Completion,
}
use stack_lens.Persistence.Execution.{
  claim_for_execution, update_progress, mark_retry_pending, complete, fail, is_active_of, can_claim,
  can_fail, finish, stored_report, is_run_by, advance, start, requeue, give_up,
}
use stack_lens.Persistence.Invariant.{IsValid, IsValidRow, is_completed_row}

-- An update of one analysis that keeps its row valid, and that neither completes a row nor
-- touches a completed one, keeps the invariant.
module _ (k : Text) (test : Analysis → Bool) (f : Analysis → Analysis) where
  update-IsValid :
      (s : Store)
      → ((a : Analysis) → IsValidRow a → test a ≡ true → IsValidRow (f a))
      → ((a : Analysis) → test a ≡ true → is_completed_row (some (f a)) ≡ is_completed_row (some a))
      → IsValid s
      → IsValid (record s { analyses = update_where k test f s.analyses })
  update-IsValid s keep same v = record {
    keys_of_analyses = update_where-HasDistinctKeys k test f s.analyses v.keys_of_analyses;
    keys_of_reports = v.keys_of_reports;
    keys_of_deliveries = v.keys_of_deliveries;
    rows = update_where-Holds IsValidRow k test f s.analyses keep v.rows;
    deliveries = v.deliveries;
    reported = λ i. elim (Option-cases (lookup i s.analyses)) [
      | inl missing ↦ ground (arith, v.reported i, lookup-update_where i k test f s.analyses)
      | inr (a, found) ↦
          ground (arith, v.reported i, lookup-update_where i k test f s.analyses, same a)
    ];
    owned = λ i h. ground (arith, v.owned i h, lookup-update_where i k test f s.analyses);
  }

pub claim_for_execution-IsValid :
    (i job : Text) (at : ℕ) (s : Store) → IsValid s → IsValid (claim_for_execution i job at s).1
unfolding claim_for_execution
claim_for_execution-IsValid i job at s v =
    update-IsValid i (can_claim job) (start job at) s (λ a r h. ground arith) (λ a h. ground arith)
      v

pub update_progress-IsValid :
    (i job : Text) (stage : ProgressStage) (at : ℕ) (s : Store)
    → IsValid s
    → IsValid (update_progress i job stage at s)
unfolding update_progress
update_progress-IsValid i job stage at s v =
    update-IsValid i (is_run_by job) (advance stage at) s (λ a r h. ground arith)
      (λ a h. ground arith) v

pub mark_retry_pending-IsValid :
    (u : RetryUpdate) (s : Store) → IsValid s → IsValid (mark_retry_pending u s)
unfolding mark_retry_pending
mark_retry_pending-IsValid u s v =
    update-IsValid u.id (is_active_of u.job_id) (requeue u) s (λ a r h. ground arith)
      (λ a h. ground arith) v

pub fail-IsValid : (u : FailureUpdate) (s : Store) → IsValid s → IsValid (fail u s)
unfolding fail
fail-IsValid u s v =
    update-IsValid u.id (can_fail u.job_id) (give_up u) s (λ a r h. ground arith)
      (λ a h. ground arith) v

finish-IsValidRow : (u : Completion) (a : Analysis) → IsValidRow a → IsValidRow (finish u a)
finish-IsValidRow u a r = ground arith

finish-is_completed : (u : Completion) (a : Analysis) → is_completed_row (some (finish u a)) ≡ true
finish-is_completed u a = ground arith

complete-reported :
    (u : Completion) (s : Store)
    → IsValid s
    → (i : Text)
    → is_some (lookup i (complete u s).reports)
      ≡ is_completed_row (lookup i (complete u s).analyses)
unfolding complete
complete-reported u s v i = elim (Bool-cases (u.id === i)) [
  | inl same ↦
      let e : u.id ≡ i = (===_iff u.id i).0 same in
      subst
        (λ j.
          is_some (lookup j (complete u s).reports)
          ≡ is_completed_row (lookup j (complete u s).analyses))
        e (here (lookup u.id s.analyses) refl)
  | inr other ↦ ground (
    arith,
    v.reported i,
    lookup-update_where i u.id (is_active_of u.job_id) (finish u) s.analyses,
    lookup-upsert i u.id (stored_report u) s.reports,
  )
]
  where
    here :
        (o : Option Analysis)
        → lookup u.id s.analyses ≡ o
        → is_some (lookup u.id (complete u s).reports)
          ≡ is_completed_row (lookup u.id (complete u s).analyses)
    here none e = ground (
      arith,
      v.reported u.id,
      lookup-update_where u.id u.id (is_active_of u.job_id) (finish u) s.analyses,
    )
    here (some a) e = ground (
      arith,
      v.reported u.id,
      finish-is_completed u a,
      lookup-update_where u.id u.id (is_active_of u.job_id) (finish u) s.analyses,
      lookup-upsert u.id u.id (stored_report u) s.reports,
      ===_refl u.id,
    )

pub complete-IsValid : (u : Completion) (s : Store) → IsValid s → IsValid (complete u s)
unfolding complete
complete-IsValid u s v = record {
  keys_of_analyses =
      update_where-HasDistinctKeys u.id (is_active_of u.job_id) (finish u) s.analyses
        v.keys_of_analyses;
  keys_of_reports = ground (
    arith,
    v.keys_of_reports,
    upsert-HasDistinctKeys u.id (stored_report u) s.reports v.keys_of_reports,
  );
  keys_of_deliveries = v.keys_of_deliveries;
  rows =
      update_where-Holds IsValidRow u.id (is_active_of u.job_id) (finish u) s.analyses
        (λ a r h. finish-IsValidRow u a r) v.rows;
  deliveries = v.deliveries;
  reported = complete-reported u s v;
  owned = λ i h. ground (
    arith,
    v.owned i h,
    lookup-update_where i u.id (is_active_of u.job_id) (finish u) s.analyses,
  );
}

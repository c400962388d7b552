-- ===== src/Persistence/Execution/Claims.antt =====
-- What a job gains by a claim, and what a job without the claim cannot do.
use stack_lens.Base.Tests.{
  ℕ, ◌≡◌, refl, true, false, none, some, inl, inr, arith, Option-cases, Bool-cases, subst,
}
use stack_lens.Base.Text.{Text, ◌===◌, ===_iff, ===_refl}
use stack_lens.Base.Table.{lookup, lookup-update_where, lookup-upsert}
use stack_lens.Contracts.{fingerprint}
use stack_lens.Persistence.Types.{
  Analysis, AnalysisStatus, Store, StoredReport, Completion, completion_status,
}
use stack_lens.Persistence.Records.{find_report}
use stack_lens.Persistence.Execution.{
  claim_for_execution, complete, can_claim, start, finish, stored_report, is_active_of,
}

-- The row of a claim that succeeded.
claimed_row :
    (i job : Text) (at : ℕ) (s : Store)
    → (claim_for_execution i job at s).0 ≡ true
    → (a : Analysis) × (lookup i s.analyses ≡ some a)
      × (can_claim job a ≡ true)
      × (lookup i (claim_for_execution i job at s).1.analyses ≡ some (start job at a))
unfolding claim_for_execution
claimed_row i job at s won = elim (Option-cases (lookup i s.analyses)) [
  | inl missing ↦ absurd (ground arith)
  | inr (a, found) ↦ (
    a,
    found,
    ground arith,
    ground (arith, lookup-update_where i i (can_claim job) (start job at) s.analyses, ===_refl i),
  )
]

-- A claim that succeeded leaves the analysis running under the job, started at the given time;
-- then another job's claim of it fails, and the same job's succeeds again.
pub claim_excludes_others :
    (i job other : Text) (at at' : ℕ) (s : Store)
    → (claim_for_execution i job at s).0 ≡ true
    → (other === job) ≡ false
    → let t = (claim_for_execution i job at s).1 in
      ((a : Analysis) × (lookup i t.analyses ≡ some a)
        × (a.status ≡ AnalysisStatus.running)
        × (a.active_job_id ≡ some job)
        × (a.started_at ≡ some at))
      × ((claim_for_execution i other at' t).0 ≡ false)
      × ((claim_for_execution i job at' t).0 ≡ true)
unfolding claim_for_execution
claim_excludes_others i job other at at' s won differs =
    let (a, found, may, after) = claimed_row i job at s won in
    (
      (start job at a, after, refl, refl, refl),
      ground (arith, after, ===_iff job other, ===_iff other job),
      ground (arith, after, ===_refl job),
    )

-- A completion by the job that holds an analysis ends it with the given status and time, free of
-- the job and of any failure, and stores the report whole.
pub complete-stores_report :
    (u : Completion) (s : Store) (a : Analysis)
    → lookup u.id s.analyses ≡ some a
    → is_active_of u.job_id a ≡ true
    → ((b : Analysis) × (lookup u.id (complete u s).analyses ≡ some b)
        × (b.status ≡ completion_status u.status)
        × (b.active_job_id ≡ none)
        × (b.completed_at ≡ some u.completed_at)
        × (b.failure_summary ≡ none)
        × (b.input_fingerprint ≡ some (fingerprint u.report.input))
        × (b.created_at ≡ a.created_at))
      × ((r : StoredReport) × (find_report u.id (complete u s) ≡ some r)
          × (r.report ≡ u.report)
          × (r.created_at ≡ u.completed_at))
unfolding complete find_report
complete-stores_report u s a found active = (
  (
    finish u a,
    ground (
      arith,
      lookup-update_where u.id u.id (is_active_of u.job_id) (finish u) s.analyses,
      ===_refl u.id,
    ),
    refl,
    refl,
    refl,
    refl,
    refl,
    ground arith,
  ),
  (
    stored_report u,
    ground (arith, lookup-upsert u.id u.id (stored_report u) s.reports, ===_refl u.id),
    refl,
    refl,
  ),
)

-- A completion by a job that does not hold the stored analysis, or of one that already ended,
-- changes no analysis and no report.
complete-stale :
    (u : Completion) (s : Store) (a : Analysis)
    → lookup u.id s.analyses ≡ some a
    → is_active_of u.job_id a ≡ false
    → (j : Text)
    → (lookup j (complete u s).analyses ≡ lookup j s.analyses)
      × (lookup j (complete u s).reports ≡ lookup j s.reports)
unfolding complete
complete-stale u s a found stale j = elim (Bool-cases (u.id === j)) [
  | inl same ↦
      let at_j : lookup j s.analyses ≡ some a =
        subst (λ i. lookup i s.analyses ≡ some a) ((===_iff u.id j).0 same) found in
      (
        ground (arith, lookup-update_where j u.id (is_active_of u.job_id) (finish u) s.analyses),
        ground arith,
      )
  | inr other ↦ (
    ground (arith, lookup-update_where j u.id (is_active_of u.job_id) (finish u) s.analyses),
    ground arith,
  )
]

-- ===== src/Api/Analyses/Access.antt =====
-- Who is shown an analysis, and when its report.
use stack_lens.Base.Tests.{
  ◌≡◌, refl, ap, ◌∙◌, subst, true, false, Option, none, some, or_else, arith, Bool-cases, inl, inr,
}
use stack_lens.Base.Text.{Text}
use stack_lens.Persistence.Types.{Store, StoredReport}
use stack_lens.Persistence.Records.{AnalysisRecord, find_analysis, find_report}
use stack_lens.Api.Analyses.{
  Snapshot, is_completed, is_of_another, is_hidden, refreshed, with_report, read_found,
  read_repository_analysis,
}

-- The analysis is the requester's or nobody's, and a report is that of a completed analysis, as it
-- was stored.
pub record IsShown (requester : Option Text) (reports : Text → Option StoredReport) (s : Snapshot)
    : Type 0 where
  pub owned : is_of_another requester s.analysis ≡ false
  pub reported :
      (r : StoredReport)
      → s.report ≡ some r
      → (reports s.analysis.id ≡ some r) × (is_completed s.analysis.status ≡ true)

nothing-IsShown :
    (requester : Option Text) (reports : Text → Option StoredReport) (s : Snapshot)
    → none ≡ some s
    → IsShown requester reports s
nothing-IsShown requester reports s h = cc

without_report-IsShown :
    (requester : Option Text) (reports : Text → Option StoredReport) (a : AnalysisRecord)
    (s : Snapshot)
    → is_of_another requester a ≡ false
    → some (record { analysis = a; report = none }) ≡ some s
    → IsShown requester reports s
without_report-IsShown requester reports a s own h =
    subst (IsShown requester reports) (ap (λ o. or_else o s) h)
      (record { owned = own; reported = λ r e. cc })

refreshed-IsShown :
    (requester : Option Text) (reports : Text → Option StoredReport) (again : Option AnalysisRecord)
    (s : Snapshot)
    → refreshed requester again ≡ some s
    → IsShown requester reports s
refreshed-IsShown requester reports none s h = nothing-IsShown requester reports s h
refreshed-IsShown requester reports (some a) s h = elim (Bool-cases (is_of_another requester a)) [
  | inl e ↦ nothing-IsShown requester reports s (rw e at h)
  | inr e ↦ without_report-IsShown requester reports a s e (rw e at h)
]

with_report-IsShown :
    (requester : Option Text) (reports : Text → Option StoredReport) (a : AnalysisRecord)
    (again : Option AnalysisRecord) (o : Option StoredReport) (s : Snapshot)
    → is_of_another requester a ≡ false
    → is_completed a.status ≡ true
    → reports a.id ≡ o
    → with_report requester a again o ≡ some s
    → IsShown requester reports s
with_report-IsShown requester reports a again none s own complete e h =
    refreshed-IsShown requester reports again s h
with_report-IsShown requester reports a again (some r) s own complete e h =
    subst (IsShown requester reports) (ap (λ o. or_else o s) h)
      (record { owned = own; reported = λ r' k. (e ∙ k, complete) })

read_found-IsShown :
    (requester : Option Text) (o : Option AnalysisRecord) (reports : Text → Option StoredReport)
    (again : Option AnalysisRecord) (s : Snapshot)
    → read_found requester o reports again ≡ some s
    → IsShown requester reports s
read_found-IsShown requester none reports again s h = nothing-IsShown requester reports s h
read_found-IsShown requester (some a) reports again s h =
    elim (Bool-cases (is_hidden requester a)) [
      | inl e ↦ nothing-IsShown requester reports s (rw e at h)
      | inr e ↦
          let own : is_of_another requester a ≡ false = ground (arith, e) in
          elim (Bool-cases (is_completed a.status)) [
            | inl c ↦
                with_report-IsShown requester reports a again (reports a.id) s own c refl
                  (rw (e, c) at h)
            | inr c ↦ without_report-IsShown requester reports a s own (rw (e, c) at h)
          ]
    ]

-- Whatever happens between the reads of a request, it is shown no analysis that has another owner,
-- and a report only of an analysis that it saw completed, as it is stored under its identifier.
pub read_repository_analysis-IsShown :
    (id : Text) (requester : Option Text) (first second third : Store) (s : Snapshot)
    → read_repository_analysis id requester first second third ≡ some s
    → IsShown requester (λ i. find_report i second) s
unfolding read_repository_analysis
read_repository_analysis-IsShown id requester first second third s h =
    read_found-IsShown requester (find_analysis id first) (λ i. find_report i second)
      (find_analysis id third) s h

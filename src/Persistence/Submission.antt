-- ===== src/Persistence/Submission.antt =====
-- Submitting an analysis (packages/persistence/src/repository.ts, `#insertQueuedAnalysis`,
-- `createQueuedRepositoryAnalysis` and `createQueuedRepositoryAnalysisWithDelivery`), with the
-- constraint on its owner that the migration installs (migrate.ts). A call that throws inside a
-- transaction leaves the store as it was.
pub mod Laws
use stack_lens.Base.Tests.{
  ℕ, Bool, true, false, not, ◌&&◌, ◌||◌, Option, none, some, leb, ◌==◌, if◌then◌else◌, is_some,
}
use stack_lens.Base.Lists.{length, all}
use stack_lens.Base.Text.{Text, ◌===◌, ◌=?=◌}
use stack_lens.Base.Table.{lookup, insert_new}
use stack_lens.Persistence.Types.{
  AnalysisStatus, ProgressStage, Analysis, Delivery, DeliveryStatus, Store, CreateQueued, is_queued,
}
use stack_lens.Persistence.Records.{AnalysisRecord, compact_record}

pub data SubmissionError : Type 0 where
  check_violation not_persisted bound_to_other_input : SubmissionError

pub data Submission (A : Type 0) : Type 0 where
  accepted : A → Submission A
  rejected : SubmissionError → Submission A

abbrev is_digit : ℕ → Bool
is_digit c = leb b'0' c && leb c b'9'

abbrev is_hex : ℕ → Bool
is_hex c = is_digit c || (leb b'a' c && leb c b'f')

-- The constraint `analysis_github_owner_pair`.
unfoldable pub has_owner_pair : Option Text → Option Text → Bool
has_owner_pair none none = true
has_owner_pair (some owner) (some connection) =
    leb 1 (length owner)
    && leb (length owner) 20
    && all is_digit owner
    && length connection == 64
    && all is_hex connection
has_owner_pair _ _ = false

abbrev pub queued_row : CreateQueued → Analysis
queued_row input = record {
  repository_url = input.repository_url;
  owner_github_id = input.owner_github_id;
  github_connection_id = input.github_connection_id;
  requested_ref = input.requested_ref;
  status = AnalysisStatus.queued;
  progress_stage = ProgressStage.queued;
  active_job_id = none;
  repository_owner = none;
  repository_name = none;
  commit_sha = none;
  input_fingerprint = none;
  analyzer_version = none;
  rule_set_version = none;
  scoring_version = none;
  created_at = input.created_at;
  started_at = none;
  completed_at = none;
  updated_at = input.created_at;
  retention_expires_at = input.retention_expires_at;
  failure_summary = none;
}

abbrev pub pending_delivery : ℕ → Delivery
pending_delivery at = record {
  status = DeliveryStatus.pending;
  attempts = 0;
  available_at = at;
  lease_token = none;
  lease_expires_at = none;
  delivered_at = none;
  created_at = at;
  updated_at = at;
}

-- `none` is the violated constraint, which PostgreSQL tests before the conflict on the key.
unfoldable pub insert_queued_analysis : CreateQueued → Store → Option Store
insert_queued_analysis input s =
    if has_owner_pair input.owner_github_id input.github_connection_id
    then some (record s { analyses = insert_new input.id (queued_row input) s.analyses })
    else none

-- Whether a stored row is the row of this input.
unfoldable pub is_bound_to : CreateQueued → Analysis → Bool
is_bound_to input a =
    a.repository_url === input.repository_url
    && a.requested_ref =?= input.requested_ref
    && a.owner_github_id =?= input.owner_github_id
    && a.github_connection_id =?= input.github_connection_id

abbrev pub read_back : CreateQueued → Option Analysis → Submission AnalysisRecord
read_back input none = rejected not_persisted
read_back input (some a) =
    if is_bound_to input a
    then accepted (compact_record input.id a)
    else rejected bound_to_other_input

unfoldable pub create_queued_repository_analysis :
    CreateQueued → Store → Submission AnalysisRecord × Store
unfolding insert_queued_analysis
create_queued_repository_analysis input s = elim (insert_queued_analysis input s) [
  | none ↦ (rejected check_violation, s)
  | some s' ↦ (read_back input (lookup input.id s'.analyses), s')
]

-- `row.status === "queued" && row.activeJobId === null`
abbrev pub is_waiting : Analysis → Bool
is_waiting a = is_queued a.status && not (is_some a.active_job_id)

-- The rest of the transaction on the row that was read; `s` is the store before it.
abbrev pub deliver_row :
    CreateQueued → Store → Store → Option Analysis → Submission AnalysisRecord × Store
deliver_row input s s' none = (rejected not_persisted, s)
deliver_row input s s' (some a) =
    if is_bound_to input a
    then (
      accepted (compact_record input.id a),
      if is_waiting a
          then record s' {
            deliveries = insert_new input.id (pending_delivery input.created_at) s'.deliveries;
          }
          else s',
    )
    else (rejected bound_to_other_input, s)

unfoldable pub create_queued_repository_analysis_with_delivery :
    CreateQueued → Store → Submission AnalysisRecord × Store
unfolding insert_queued_analysis
create_queued_repository_analysis_with_delivery input s = elim (insert_queued_analysis input s) [
  | none ↦ (rejected check_violation, s)
  | some s' ↦ deliver_row input s s' (lookup input.id s'.analyses)
]

-- ===== src/Api/Analyses.antt =====
-- Submitting and reading an analysis (apps/api/src/repository-analysis.ts).
pub mod Access
use stack_lens.Base.Tests.{
  ℕ, ◌+◌, ◌*◌, Bool, true, false, not, ◌&&◌, ◌||◌, Option, none, some, List, is_some, leb,
  if◌then◌else◌,
}
use stack_lens.Base.Text.{Text, ◌===◌, ◌=?=◌}
use stack_lens.Persistence.Types.{AnalysisStatus, Store, StoredReport, ClaimedDelivery}
use stack_lens.Persistence.Records.{AnalysisRecord, find_analysis, find_report}
use stack_lens.Persistence.Submission.{Submission}
use stack_lens.Jobs.Dispatch.{JobQueue, Fate}
use stack_lens.Jobs.Enqueue.{CreateCommand, Created, create_repository_analysis_job}

pub record ConnectedOwner : Type 0 where
  pub owner_github_id : Text
  pub github_connection_id : Text

-- `RepositoryAnalysisSnapshot`
pub record Snapshot : Type 0 where
  pub analysis : AnalysisRecord
  pub report : Option StoredReport

-- A result, the error of the configuration, or what the submission comes to.
pub data Submitted (W : Type 0) : Type 0 where
  invalid_repository_url retention_out_of_range : Submitted W
  answered : Created W → Submitted W

-- Hours are whole numbers from 1 to 8760.
abbrev pub is_retention : Option ℕ → Bool
is_retention none = true
is_retention (some h) = leb 1 h && leb h 8760

abbrev pub expires_at : ℕ → Option ℕ → Option ℕ
expires_at created_at none = none
expires_at created_at (some h) = some (created_at + h * 3600000)

abbrev owner_of : Option ConnectedOwner → Option Text
owner_of none = none
owner_of (some o) = some o.owner_github_id

abbrev connection_of : Option ConnectedOwner → Option Text
connection_of none = none
connection_of (some o) = some o.github_connection_id

abbrev pub command_of : Text → ℕ → Option ℕ → Option ConnectedOwner → Text → CreateCommand
command_of id created_at hours connection url = record {
  analysis_id = id;
  repository_url = url;
  owner_github_id = owner_of connection;
  github_connection_id = connection_of connection;
  ref = none;
  created_at = created_at;
  retention_expires_at = expires_at created_at hours;
}

-- `parse` gives the canonical form of the URL of a public repository.
module _ (parse : Text → Option Text) (jobs : JobQueue) (claim_reaches : Bool)
    (collate : Text → Text → Bool) (locked : List Text) (fate : ClaimedDelivery → Fate)
    (token : Text) (now : ℕ) where
  unfoldable pub submit_parsed :
      Option Text
      → Text
      → ℕ
      → Option ℕ
      → Option ConnectedOwner
      → Store × jobs.Queue
      → Submitted (Store × jobs.Queue)
  unfolding create_repository_analysis_job
  submit_parsed none id created_at hours connection w = invalid_repository_url
  submit_parsed (some url) id created_at hours connection w =
      if is_retention hours
      then answered (
          create_repository_analysis_job jobs claim_reaches collate locked fate token now
            (command_of id created_at hours connection url) w)
      else retention_out_of_range

  unfoldable pub submit_repository_analysis :
      Text
      → Text
      → ℕ
      → Option ℕ
      → Option ConnectedOwner
      → Store × jobs.Queue
      → Submitted (Store × jobs.Queue)
  unfolding submit_parsed
  submit_repository_analysis repository_url id created_at hours connection w =
      submit_parsed (parse repository_url) id created_at hours connection w

abbrev pub is_completed : AnalysisStatus → Bool
is_completed AnalysisStatus.queued = false
is_completed AnalysisStatus.running = false
is_completed AnalysisStatus.completed = true
is_completed AnalysisStatus.completed_with_limitations = true
is_completed AnalysisStatus.failed = false

-- An analysis of another owner.
abbrev pub is_of_another : Option Text → AnalysisRecord → Bool
is_of_another requester a = is_some a.owner_github_id && not (a.owner_github_id =?= requester)

abbrev pub is_hidden : Option Text → AnalysisRecord → Bool
is_hidden requester a =
    is_of_another requester a || (is_some a.github_connection_id && not (is_some a.owner_github_id))

abbrev pub refreshed : Option Text → Option AnalysisRecord → Option Snapshot
refreshed requester none = none
refreshed requester (some a) =
    if is_of_another requester a then none else some (record { analysis = a; report = none })

abbrev pub with_report :
    Option Text → AnalysisRecord → Option AnalysisRecord → Option StoredReport → Option Snapshot
with_report requester a again none = refreshed requester again
with_report requester a again (some r) = some (record { analysis = a; report = some r })

abbrev pub read_found :
    Option Text
    → Option AnalysisRecord
    → (Text → Option StoredReport)
    → Option AnalysisRecord
    → Option Snapshot
read_found requester none reports again = none
read_found requester (some a) reports again =
    if is_hidden requester a
    then none
    else if is_completed a.status
    then with_report requester a again (reports a.id)
    else some (record { analysis = a; report = none })

-- The three reads are of the store at three times, between which anything may happen.
unfoldable pub read_repository_analysis :
    Text → Option Text → Store → Store → Store → Option Snapshot
unfolding find_analysis find_report ◌===◌
read_repository_analysis id requester first second third =
    read_found requester (find_analysis id first) (λ i. find_report i second)
      (find_analysis id third)

-- ===== src/Jobs/Progress.antt =====
-- The durable stage of a progress report (packages/repository-jobs/src/progress.ts). The reports
-- are those of packages/analysis-orchestration/src/repository-analysis.ts.
use stack_lens.Base.Tests.{Option, some}
use stack_lens.Persistence.Types.{ProgressStage}

pub data ProgressPhase : Type 0 where
  repository manifest package_metadata vulnerability_data analysis : ProgressPhase

pub data ProgressStatus : Type 0 where
  started progress completed failed skipped : ProgressStatus

pub record ProgressReport : Type 0 where
  pub phase : ProgressPhase
  pub status : ProgressStatus

abbrev repository_stage : ProgressStatus → ProgressStage
repository_stage started = ProgressStage.resolving_repository
repository_stage _ = ProgressStage.collecting_snapshot

abbrev analysis_stage : ProgressStatus → ProgressStage
analysis_stage completed = ProgressStage.scoring
analysis_stage _ = ProgressStage.running_rules

unfoldable pub stage_of : ProgressPhase → ProgressStatus → ProgressStage
stage_of repository status = repository_stage status
stage_of manifest status = ProgressStage.collecting_snapshot
stage_of package_metadata status = ProgressStage.collecting_metadata
stage_of vulnerability_data status = ProgressStage.collecting_metadata
stage_of analysis status = analysis_stage status

-- The phases are all there are, so the final `undefined` is not reached.
unfoldable pub durable_stage_for_progress : ProgressReport → Option ProgressStage
unfolding stage_of
durable_stage_for_progress p = some (stage_of p.phase p.status)

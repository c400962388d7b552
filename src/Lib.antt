-- ===== src/Lib.antt =====
-- StackLens analyses a JavaScript repository and reports on the health of its stack. This library
-- models the part of the service that must not lose or corrupt an analysis, and the code that
-- decides what a report says.
--
-- A web request submits an analysis: a row of the table `analysis` and a row of the outbox
-- `analysis_delivery`, in one transaction. A dispatcher claims rows of the outbox under a lease,
-- hands each to the job queue, and marks it delivered or puts it back. A worker runs a job: it
-- claims the analysis, records its progress, and ends it, or puts it back for the queue to try
-- again. A sweep deletes expired terminal analyses.
--
-- Base holds what the parts share: Boolean tests, lists over the native numbers, texts, tables
-- with unique keys as association lists, and sorting. A text is the list of its UTF-16 code
-- units, and a timestamp the number of its milliseconds, so its conversion to ISO notation is the
-- identity.
--
-- Contracts is packages/contracts/src: the parts of a report that storage and jobs read.
--
-- Analyzer is packages/analyzer-core/src: Types has the records that rules read and emit,
-- Validation the checks of a rule's result (rules.ts, priority.ts), Identifiers, References,
-- State, Pipeline and RuleSet `runRulePipeline` with its helpers (pipeline.ts). A rule is a
-- function into `Attempt`: a value, an `AnalyzerInvariantError`, or another error, with the
-- messages dropped. The `safeParse` of the schemas is the parameter `Schemas`. A set of
-- identifiers is that of the list it grows with, and the map of findings by identifier the list
-- of findings, whose identifiers are distinct.
--
-- Report is the validation of a report, `validateReport` of
-- packages/contracts/src/analysis-report.ts, for schema version 2.0.0: Issues and References and
-- Checks have its parts, with the path and the message of each issue, Validation puts them
-- together, Assembly joins them with the pipeline, and Run is `runAnalyzer`
-- (packages/analyzer-core/src/analyzer.ts). The schema of the fields is a parameter. The scores
-- are those of version 2.0.0, so a definition that leaves its version out, which makes the report
-- one of version 1.0.0, gets no report. The pipeline does not check everything that validation
-- asks: the evidence of the factors of a priority, the sources of limitations and failures, and
-- the limitations of a check are left to validation, which refuses the whole report.
--
-- Persistence is packages/persistence/src: the tables of schema.ts as the record `Store`, keyed
-- by their primary keys, and each operation of `DrizzleAnalysisRepository` (repository.ts) as a
-- function of the store with the name of its method: Submission
-- (`createQueuedRepositoryAnalysis`, `createQueuedRepositoryAnalysisWithDelivery`), Outbox
-- (`claimPendingRepositoryAnalysisDeliveries`, `markRepositoryAnalysisDeliveryDelivered`,
-- `retryRepositoryAnalysisDelivery`), Execution (`claimForExecution`, `updateProgress`,
-- `markRetryPending`, `complete`, `fail`), Retention (`purgeExpiredTerminalAnalyses`) and Records
-- (`findAnalysis`, `findReport`). An error that is thrown is a value, and a transaction that
-- throws leaves the store as it was. Statements run one after the other. The collation of the
-- database and the rows that another transaction has locked, which `SKIP LOCKED` passes over, are
-- arguments. Of the table constraints, `analysis_github_owner_pair` (migrate.ts) is modelled; the
-- columns of attempts are unbounded. Row-level security, `withOwner` and the reading of archives
-- without ownership columns are not modelled. History has the operations as data and any sequence
-- of them as the store it leaves.
--
-- Jobs is packages/repository-jobs/src: the payload and the job (job.ts, enqueue.ts), the
-- submission with the round of the dispatcher that it does not wait for
-- (`createRepositoryAnalysisJob`; the round runs to its end here, and how its promise ends is
-- part of the result), the round of the dispatcher, the retry delay and the timer loop
-- (delivery.ts), and the stages (progress.ts). The queue is not in the repository: it is the
-- parameter `JobQueue`. Of it is assumed what docs/design/journey.md and
-- docs/implementation/repository-jobs.md say of `unsafe_dedupe`: a call that resolved leaves some
-- job with its key, an earlier one where the new one is ignored as a duplicate; a call takes in
-- no other job than its own; and one with that mode replaces none. Each call of the queue or the
-- database may fail, the claim of a round included. The dispatches of a round, which the code
-- starts together, run one after the other.
--
-- Api is apps/api/src/repository-analysis.ts: what a request submits and what it is shown. The
-- reading of a repository's URL is an argument, and retention hours are whole numbers.
--
-- Worker is apps/worker/src: Task has `executeRepositoryAnalysisJob` (task.ts), and Sweep the
-- timer loop of `startAnalysisRetentionPump` (retention.ts). The analysis that a job runs is an
-- argument: the progress it reports, when the signal is aborted, and how it ends. A call of the
-- repository outside of the `try` block that rejects is not modelled. The two timer loops are
-- state machines whose steps are what can happen between two turns of the event loop.
--
-- Rules is packages/rules-javascript/src: versions (semver.ts), whose regular expression is read
-- from the left, which finds the same groups, and the priority of a finding (priority-policy.ts).
-- Scripts is the reading of a command and Trace the expansion of scripts (script-graph.ts): what
-- one command asks for is a list of acts that does not depend on the trace, and the depth, which
-- is at most 16, is the number of levels left, so the recursion needs no other bound. `minimatch`
-- is a parameter.
--
-- Scoring is packages/scoring/src/stack-health-scorer.ts: Checks and Category have
-- `categoryScore`, Advisories its groups of advisories, and Overall the overall score. A number
-- of a score, which the code computes in doubles, is the exact fraction before any rounding. The
-- texts `scope` and `rationale` are left out, and so is legacy-stack-health-scorer.ts.
--
-- Not modelled: the HTTP routes and the client (the rest of apps/api, apps/web), the providers of
-- data (packages/data-sources, packages/github-auth), the acquisition of a repository
-- (packages/analysis-orchestration), scores of version 1.0.0, and the other rules, which are
-- arguments or are not reached by what is modelled.
--
-- Two definitions run on fuel. The search for an unused identifier (Analyzer.Identifiers) has as
-- much as there are used ones, and of one more candidate than that one is not used; the digits of
-- a number (Base.Decimal) have the number itself. Every other loop is a recursion on a list or,
-- for scripts, on the levels left.
pub mod Base
pub mod Analyzer
pub mod Report
pub mod Api
pub mod Contracts
pub mod Persistence
pub mod Jobs
pub mod Worker
pub mod Rules
pub mod Scoring

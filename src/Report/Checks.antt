-- ===== src/Report/Checks.antt =====
-- The scores of a report (packages/contracts/src/analysis-report.ts, `validateReport`): the checks
-- that a score names, their counts, its status and its references.
pub mod Clear
use stack_lens.Base.Tests.{
  ℕ, suc, ◌+◌, Bool, true, false, not, ◌&&◌, ◌||◌, Option, none, some, List, [], ◌∷◌, ◌++◌, ◌==◌,
  ltb, if◌then◌else◌,
}
use stack_lens.Base.Text.{Text, text, ◌===◌}
use stack_lens.Base.Table.{mem}
use stack_lens.Contracts.{ScoreCategory}
use stack_lens.Scoring.Types.{
  CheckState, CheckDetails, CheckCounts, ScoreBase, AvailableScore, ScoreResult, is_category,
}
use stack_lens.Scoring.Overall.{Scores}
use stack_lens.Analyzer.Types.{Fact}
use stack_lens.Report.{PathPart, Issue}
use stack_lens.Report.Issues.{each, issue_if, reference_issues, references_issues}

-- `report.facts.find((item) => item.id === id)?.details`
unfoldable pub details_of : Text → List Fact → Option CheckDetails
unfolding ◌===◌
details_of id [] = none
details_of id (f ∷ fs) = if f.id === id then f.details else details_of id fs

abbrev category_text : ScoreCategory → Text
category_text ScoreCategory.dependencies = text "dependencies"
category_text ScoreCategory.security = text "security"
category_text ScoreCategory.maintainability = text "maintainability"
category_text ScoreCategory.testing = text "testing"
category_text ScoreCategory.tooling = text "tooling"

-- The path of the overall score, or of a category's.
abbrev pub score_path : Option ScoreCategory → List PathPart
score_path none = PathPart.field (text "scores") ∷ PathPart.field (text "overall") ∷ []
score_path (some c) =
    PathPart.field (text "scores")
    ∷ PathPart.field (text "categories")
    ∷ PathPart.field (category_text c)
    ∷ []

abbrev pub check_path : Option ScoreCategory → ℕ → List PathPart
check_path c n = score_path c ++ (PathPart.field (text "checkFactIds") ∷ PathPart.index n ∷ [])

abbrev pub is_of_category : Option ScoreCategory → CheckDetails → Bool
is_of_category none d = true
is_of_category (some c) d = is_category d.category c

-- One check that a score names: an unknown one, or one of another category.
abbrev pub check_issues : Option ScoreCategory → ℕ → Text → Option CheckDetails → List Issue
check_issues c n id none =
    issue_if true (check_path c n) (text "Unknown inspection check fact reference: " ++ id)
check_issues c n id (some d) =
    issue_if (not (is_of_category c d)) (check_path c n)
      (text "Inspection check belongs to another category")

-- The checks that a score names; `seen` are those before.
unfoldable pub checks_issues :
    Option ScoreCategory → List Fact → List Text → ℕ → List Text → List Issue
unfolding details_of
checks_issues c facts seen n [] = []
checks_issues c facts seen n (id ∷ ids) =
    issue_if (mem id seen) (check_path c n) (text "Duplicate inspection check reference")
    ++ (check_issues c n id (details_of id facts)
        ++ checks_issues c facts (seen ++ (id ∷ [])) (suc n) ids)

abbrev pub tally : Option CheckDetails → CheckCounts → CheckCounts
tally none counts = counts
tally (some d) counts = elim d.state [
  | CheckState.pass ↦ record counts { passed = suc counts.passed }
  | CheckState.fail ↦ record counts { failed = suc counts.failed }
  | CheckState.unknown ↦ record counts { unknown = suc counts.unknown }
  | CheckState.not_applicable ↦ record counts { not_applicable = suc counts.not_applicable }
]

-- `actual`: a check that is named twice counts twice.
unfoldable pub actual_counts : List Fact → List Text → CheckCounts
unfolding details_of
actual_counts facts [] = record { passed = 0; failed = 0; unknown = 0; not_applicable = 0 }
actual_counts facts (id ∷ ids) = tally (details_of id facts) (actual_counts facts ids)

abbrev pub count_issue : Option ScoreCategory → Text → ℕ → ℕ → List Issue
count_issue c name actual stated =
    issue_if (not (actual == stated))
      (score_path c ++ (PathPart.field (text "checkCounts") ∷ PathPart.field name ∷ []))
      (text "Check count disagrees with referenced inspection checks")

abbrev pub count_issues : Option ScoreCategory → CheckCounts → CheckCounts → List Issue
count_issues c actual stated =
    count_issue c (text "passed") actual.passed stated.passed
    ++ (count_issue c (text "failed") actual.failed stated.failed
        ++ (count_issue c (text "unknown") actual.unknown stated.unknown
            ++ count_issue c (text "notApplicable") actual.not_applicable stated.not_applicable))

-- The checks that apply.
abbrev pub applicable : CheckCounts → ℕ
applicable counts = counts.passed + counts.failed + counts.unknown

abbrev pub base_of : ScoreResult → ScoreBase
base_of (ScoreResult.insufficient_evidence base ids) = base
base_of (ScoreResult.no_check_applies base) = base
base_of (ScoreResult.available base score) = base

-- The issues that depend on the status.
abbrev pub status_issues : Option ScoreCategory → CheckCounts → ScoreResult → List Issue
status_issues c actual (ScoreResult.no_check_applies base) =
    issue_if (ltb 0 (applicable actual)) (score_path c ++ (PathPart.field (text "status") ∷ []))
      (text "Not-applicable scores cannot contain applicable checks")
status_issues c actual (ScoreResult.insufficient_evidence base ids) = []
status_issues c actual (ScoreResult.available base score) = []

abbrev pub score_reference_issues :
    Option ScoreCategory → List Text → List Text → ScoreResult → List Issue
score_reference_issues c contributions limitations (ScoreResult.available base score) =
    references_issues (score_path c ++ (PathPart.field (text "contributionIds") ∷ []))
      (text "score contribution") contributions score.contribution_ids
score_reference_issues c contributions limitations (ScoreResult.insufficient_evidence base ids) =
    references_issues (score_path c ++ (PathPart.field (text "limitationIds") ∷ []))
      (text "limitation") limitations ids
score_reference_issues c contributions limitations (ScoreResult.no_check_applies base) = []

-- One of `scoreEntries`.
abbrev pub score_issues :
    List Fact → List Text → List Text → Option ScoreCategory → ScoreResult → List Issue
score_issues facts contributions limitations c r =
    checks_issues c facts [] 0 (base_of r).check_fact_ids
    ++ (count_issues c (actual_counts facts (base_of r).check_fact_ids) (base_of r).check_counts
        ++ (status_issues c (actual_counts facts (base_of r).check_fact_ids) r
            ++ score_reference_issues c contributions limitations r))

-- The scores of the categories, in their order.
unfoldable pub categories_issues :
    List Fact → List Text → List Text → List (ScoreCategory × ScoreResult) → List Issue
unfolding checks_issues actual_counts references_issues
categories_issues facts contributions limitations [] = []
categories_issues facts contributions limitations ((c, r) ∷ rest) =
    score_issues facts contributions limitations (some c) r
    ++ categories_issues facts contributions limitations rest

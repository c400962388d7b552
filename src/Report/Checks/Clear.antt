-- ===== src/Report/Checks/Clear.antt =====
-- What it takes for the scores of a report to have no issue.
use stack_lens.Base.Tests.{
  ℕ, suc, ◌≡◌, refl, ◌∙◌, Bool, true, false, not, ◌&&◌, Option, none, some, List, [], ◌∷◌, ◌++◌,
  ◌==◌, ltb, arith,
}
use stack_lens.Base.Lists.{all}
use stack_lens.Base.Text.{Text, text}
use stack_lens.Base.Table.{mem}
use stack_lens.Base.Distinct.{are_new, are_within}
use stack_lens.Contracts.{ScoreCategory}
use stack_lens.Scoring.Types.{CheckDetails, CheckCounts, ScoreResult}
use stack_lens.Analyzer.Types.{Fact}
use stack_lens.Report.Issues.{
  issue_if, is_clear, is_clear-append, is_clear-issue_if, is_clear-references_issues, three_parts,
  four_parts,
}
use stack_lens.Report.Checks.{
  details_of, check_path, count_issue, is_of_category, check_issues, checks_issues, actual_counts,
  count_issues, applicable, base_of, status_issues, score_reference_issues, score_issues,
  categories_issues,
}

abbrev fits : Option ScoreCategory → Option CheckDetails → Bool
fits c none = false
fits c (some d) = is_of_category c d

abbrev are_equal : CheckCounts → CheckCounts → Bool
are_equal a b =
    a.passed == b.passed
    && a.failed == b.failed
    && a.unknown == b.unknown
    && a.not_applicable == b.not_applicable

abbrev has_status : CheckCounts → ScoreResult → Bool
has_status actual (ScoreResult.no_check_applies base) = applicable actual == 0
has_status actual (ScoreResult.insufficient_evidence base ids) = true
has_status actual (ScoreResult.available base score) = true

abbrev has_references : List Text → List Text → ScoreResult → Bool
has_references contributions limitations (ScoreResult.available base score) =
    are_within score.contribution_ids contributions
has_references contributions limitations (ScoreResult.insufficient_evidence base ids) =
    are_within ids limitations
has_references contributions limitations (ScoreResult.no_check_applies base) = true

-- A score names checks of its category, each once; its counts are theirs; no check applies when it
-- says so; and what else it names is known.
abbrev pub is_sound_score :
    List Fact → List Text → List Text → Option ScoreCategory → ScoreResult → Bool
is_sound_score facts contributions limitations c r =
    are_new [] (base_of r).check_fact_ids
    && all (λ id. fits c (details_of id facts)) (base_of r).check_fact_ids
    && are_equal (actual_counts facts (base_of r).check_fact_ids) (base_of r).check_counts
    && has_status (actual_counts facts (base_of r).check_fact_ids) r
    && has_references contributions limitations r

is_clear-check_issues :
    (c : Option ScoreCategory) (n : ℕ) (id : Text) (o : Option CheckDetails)
    → is_clear (check_issues c n id o) ≡ fits c o
is_clear-check_issues c n id none = refl
is_clear-check_issues c n id (some d) =
    is_clear-issue_if (not (is_of_category c d)) _ _ ∙ ground arith

is_clear-checks_issues :
    (c : Option ScoreCategory) (facts : List Fact) (seen : List Text) (n : ℕ) (ids : List Text)
    → is_clear (checks_issues c facts seen n ids)
      ≡ (are_new seen ids && all (λ id. fits c (details_of id facts)) ids)
unfolding checks_issues are_new
is_clear-checks_issues c facts seen n [] = refl
is_clear-checks_issues c facts seen n (id ∷ ids) =
    let twice =
      issue_if (mem id seen) (check_path c n) (text "Duplicate inspection check reference") in
    let one = check_issues c n id (details_of id facts) in
    let rest = checks_issues c facts (seen ++ (id ∷ [])) (suc n) ids in
    three_parts twice one rest
    ∙ ground (
      arith,
      is_clear-issue_if (mem id seen) (check_path c n)
          (text "Duplicate inspection check reference"),
      is_clear-check_issues c n id (details_of id facts),
      is_clear-checks_issues c facts (seen ++ (id ∷ [])) (suc n) ids,
    )

is_clear-count_issue :
    (c : Option ScoreCategory) (name : Text) (a b : ℕ)
    → is_clear (count_issue c name a b) ≡ (a == b)
is_clear-count_issue c name a b = is_clear-issue_if (not (a == b)) _ _ ∙ ground arith

is_clear-count_issues :
    (c : Option ScoreCategory) (a b : CheckCounts) → is_clear (count_issues c a b) ≡ are_equal a b
is_clear-count_issues c a b =
    four_parts (count_issue c (text "passed") a.passed b.passed)
      (count_issue c (text "failed") a.failed b.failed)
      (count_issue c (text "unknown") a.unknown b.unknown)
      (count_issue c (text "notApplicable") a.not_applicable b.not_applicable)
    ∙ ground (
      arith,
      is_clear-count_issue c (text "passed") a.passed b.passed,
      is_clear-count_issue c (text "failed") a.failed b.failed,
      is_clear-count_issue c (text "unknown") a.unknown b.unknown,
      is_clear-count_issue c (text "notApplicable") a.not_applicable b.not_applicable,
    )

is_clear-status_issues :
    (c : Option ScoreCategory) (a : CheckCounts) (r : ScoreResult)
    → is_clear (status_issues c a r) ≡ has_status a r
is_clear-status_issues c a (ScoreResult.no_check_applies base) =
    is_clear-issue_if (ltb 0 (applicable a)) _ _ ∙ ground arith
is_clear-status_issues c a (ScoreResult.insufficient_evidence base ids) = refl
is_clear-status_issues c a (ScoreResult.available base score) = refl

is_clear-score_reference_issues :
    (c : Option ScoreCategory) (contributions limitations : List Text) (r : ScoreResult)
    → is_clear (score_reference_issues c contributions limitations r)
      ≡ has_references contributions limitations r
is_clear-score_reference_issues c contributions limitations (ScoreResult.available base score) =
    is_clear-references_issues _ (text "score contribution") contributions score.contribution_ids
is_clear-score_reference_issues c contributions limitations
      (ScoreResult.insufficient_evidence base ids) =
    is_clear-references_issues _ (text "limitation") limitations ids
is_clear-score_reference_issues c contributions limitations (ScoreResult.no_check_applies base) =
    refl

reassociated : (a b c d e : Bool) → ((a && b) && (c && (d && e))) ≡ ((((a && b) && c) && d) && e)
reassociated a b c d e = ground arith

pub is_clear-score_issues :
    (facts : List Fact) (contributions limitations : List Text) (c : Option ScoreCategory)
    (r : ScoreResult)
    → is_clear (score_issues facts contributions limitations c r)
      ≡ is_sound_score facts contributions limitations c r
is_clear-score_issues facts contributions limitations c r =
    let ids = (base_of r).check_fact_ids in
    let actual = actual_counts facts ids in
    let stated = (base_of r).check_counts in
    let a = checks_issues c facts [] 0 ids in
    let b = count_issues c actual stated in
    let d = status_issues c actual r in
    let e = score_reference_issues c contributions limitations r in
    four_parts a b d e
    ∙ rw
        (
          is_clear-checks_issues c facts [] 0 ids,
          is_clear-count_issues c actual stated,
          is_clear-status_issues c actual r,
          is_clear-score_reference_issues c contributions limitations r,
        )
        (reassociated (are_new [] ids) _ _ _ _)

abbrev pub is_sound_category :
    List Fact → List Text → List Text → ScoreCategory × ScoreResult → Bool
is_sound_category facts contributions limitations (c, r) =
    is_sound_score facts contributions limitations (some c) r

pub is_clear-categories_issues :
    (facts : List Fact) (contributions limitations : List Text)
    (rs : List (ScoreCategory × ScoreResult))
    → is_clear (categories_issues facts contributions limitations rs)
      ≡ all (is_sound_category facts contributions limitations) rs
unfolding categories_issues
is_clear-categories_issues facts contributions limitations [] = refl
is_clear-categories_issues facts contributions limitations ((c, r) ∷ rest) =
    is_clear-append (score_issues facts contributions limitations (some c) r)
      (categories_issues facts contributions limitations rest)
    ∙ rw
        (
          is_clear-score_issues facts contributions limitations (some c) r,
          is_clear-categories_issues facts contributions limitations rest,
        )
        refl

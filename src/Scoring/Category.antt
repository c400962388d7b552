-- ===== src/Scoring/Category.antt =====
-- The score of a category (`categoryScore`), with the explanations that it adds.
pub mod Accounts
use stack_lens.Base.Tests.{
  ℕ, suc, ◌+◌, ◌-◌, ◌*◌, Bool, true, false, not, ◌&&◌, ◌||◌, Option, none, some, List, [], ◌∷◌,
  ◌++◌, map, ltb, ◌==◌, if◌then◌else◌,
}
use stack_lens.Base.Lists.{length, select, any}
use stack_lens.Base.Text.{Text, text, ◌===◌, text_lt}
use stack_lens.Base.Table.{mem}
use stack_lens.Base.Sort.{sort}
use stack_lens.Contracts.{ScoreCategory, LimitationKind, AnalysisLimitation}
use stack_lens.Scoring.Types.{
  RiskBand, CheckFact, Classification, Finding, Context, Fraction, whole, ExplanationKind,
  Explanation, CheckCounts, ScoreBase, ScoreResult, insufficient_evidence, no_check_applies,
  available, is_category, band_score,
}
use stack_lens.Scoring.Checks.{
  is_pass, is_fail, is_unknown, is_not_applicable, checks, counts, count_of, base_of, distinct,
  gather, explanation,
}
use stack_lens.Scoring.Advisories.{group_from}

-- A category that cannot be scored: the limitations missing is an error.
pub data Scored (A : Type 0) : Type 0 where
  scored : A → Scored A
  missing_limitations : Scored A

abbrev category_name : ScoreCategory → Text
category_name ScoreCategory.dependencies = text "dependencies"
category_name ScoreCategory.security = text "security"
category_name ScoreCategory.maintainability = text "maintainability"
category_name ScoreCategory.testing = text "testing"
category_name ScoreCategory.tooling = text "tooling"

abbrev is_dependencies : ScoreCategory → Bool
is_dependencies c = is_category c ScoreCategory.dependencies

abbrev is_security : ScoreCategory → Bool
is_security c = is_category c ScoreCategory.security

abbrev pub is_banded : ScoreCategory → Bool
is_banded c = is_dependencies c || is_security c

abbrev is_partial_failure : LimitationKind → Bool
is_partial_failure LimitationKind.partial_failure = true
is_partial_failure _ = false

-- `failedRules`
abbrev pub failed_rules : Context → List AnalysisLimitation
failed_rules context =
    select (λ l. is_partial_failure l.kind && mem (text "JS-INSPECTION-018") l.rule_ids)
      context.limitations

abbrev unknown_limitations : CheckFact → List Text
unknown_limitations f = if is_unknown f.details.state then f.details.limitation_ids else []

abbrev is_relevant : ScoreCategory → AnalysisLimitation → Bool
is_relevant c l = any (λ d. is_category d c) l.affected_categories || is_partial_failure l.kind

abbrev pub missing : Context → ScoreCategory → List CheckFact → List Text
missing context c facts = sort text_lt (
    distinct (
      gather unknown_limitations facts
      ++ map AnalysisLimitation.id (failed_rules context)
      ++ (if length facts == 0
          then map AnalysisLimitation.id (select (is_relevant c) context.limitations)
          else [])))

-- A required check is unknown, or none was made.
abbrev pub is_insufficient : Context → List CheckFact → Bool
is_insufficient context facts =
    ltb 0 (count_of is_unknown facts) || length facts == 0 || ltb 0 (length (failed_rules context))

abbrev pub applicable_of : List CheckFact → List CheckFact
applicable_of facts = select (λ f. not (is_not_applicable f.details.state)) facts

-- The loop over the severities.
unfoldable pub worst_from : RiskBand → List CheckFact → RiskBand
worst_from band [] = band
worst_from band (f ∷ rest) =
    worst_from
      (elim f.details.observed_severity [
        | none ↦ band
        | some s ↦ if ltb (band_score s) (band_score band) then s else band
      ])
      rest

abbrev pub band_of : ScoreCategory → List CheckFact → RiskBand
band_of c applicable =
    let first : RiskBand =
      if is_dependencies c && ltb 0 (length (select (λ f. is_fail f.details.state) applicable))
      then RiskBand.medium
      else RiskBand.none in
    if is_security c then worst_from first applicable else first

abbrev is_fact : Classification → Bool
is_fact Classification.fact = true
is_fact Classification.heuristic = false

abbrev findings_of : Context → ScoreCategory → List Finding
findings_of context c =
    select
      (λ f.
        is_category f.category c
        && is_fact f.classification
        && f.rule.id === (if is_dependencies c then text "JS-NPM-007" else text "JS-VULN-011"))
      context.findings

abbrev name_of : CheckFact → List Text
name_of f = elim f.details.package_name [ none ↦ [] | some n ↦ n ∷ [] ]

-- No check that is scored is unknown.
abbrev pub known_base : List CheckFact → ScoreBase
known_base facts = record (base_of facts) { check_counts = record (counts facts) { unknown = 0 } }

abbrev pub banded_score : Context → ScoreCategory → List CheckFact → ScoreResult × List Explanation
banded_score context c facts =
    let applicable = applicable_of facts in
    let band = band_of c applicable in
    let findings = findings_of context c in
    let id = text "score-v3-" ++ category_name c ++ text "-band" in
    let failed = select (λ f. is_fail f.details.state) applicable in
    (
      available (known_base facts) (record {
        value = whole (band_score band);
        band = some band;
        affected_package_count = some (length (distinct (gather name_of failed)));
        affected_advisory_count =
            if is_security c then some (length (group_from [] findings)) else none;
        contribution_ids = id ∷ [];
      }),
      explanation id c ExplanationKind.risk_band (whole (100 - band_score band)) applicable
            (map Finding.id findings)
          ∷ [],
    )

abbrev pub check_points : ℕ → CheckFact → Fraction
check_points n f = record {
  numerator = if is_pass f.details.state then 0 else 100;
  denominator = n;
}

abbrev pub check_explanation : ScoreCategory → ℕ → CheckFact → Explanation
check_explanation c n f =
    explanation (text "score-v3-" ++ f.id) c ExplanationKind.readiness_check (check_points n f)
      (f ∷ []) []

abbrev pub readiness_score : ScoreCategory → List CheckFact → ScoreResult × List Explanation
readiness_score c facts =
    let applicable = applicable_of facts in
    let n = length applicable in
    (
      available (known_base facts) (record {
        value = record { numerator = 100 * count_of is_pass facts; denominator = n };
        band = none;
        affected_package_count = none;
        affected_advisory_count = none;
        contribution_ids = map (λ f. text "score-v3-" ++ f.id) applicable;
      }),
      map (check_explanation c n) applicable,
    )

unfoldable pub score_checks :
    Context → ScoreCategory → List CheckFact → Scored (ScoreResult × List Explanation)
unfolding sort distinct gather select worst_from group_from
score_checks context c facts =
    if is_insufficient context facts
    then (if length (missing context c facts) == 0
        then missing_limitations
        else scored (insufficient_evidence (base_of facts) (missing context c facts), []))
    else if length (applicable_of facts) == 0
    then scored (no_check_applies (base_of facts), [])
    else if is_banded c
    then scored (banded_score context c facts)
    else scored (readiness_score c facts)

unfoldable pub category_score : Context → ScoreCategory → Scored (ScoreResult × List Explanation)
unfolding checks score_checks
category_score context c = score_checks context c (checks context c)

-- ===== src/Scoring/Examples.antt =====
-- The theorems about scores at a concrete report.
use stack_lens.Base.Tests.{◌≡◌, refl, none, some, List, [], ◌∷◌}
use stack_lens.Base.Lists.{All, length, select}
use stack_lens.Base.Text.{Text, text, ◌===◌, text_lt}
use stack_lens.Contracts.{ScoreCategory}
use stack_lens.Scoring.Types.{
  CheckState, Fact, Classification, Finding, Context, Fraction, whole, Explanation, ScoreResult,
  insufficient_evidence, no_check_applies, available,
}
use stack_lens.Scoring.Checks.{checks}
use stack_lens.Scoring.Advisories.{group_from}
use stack_lens.Scoring.Advisories.Apart.{AreApart}
use stack_lens.Scoring.Advisories.Together.{IsGrouped, group_from_lem}
use stack_lens.Scoring.Category.{Scored, scored, missing_limitations, category_score}
use stack_lens.Scoring.Category.Accounts.{IsSound, category_score-IsSound}
use stack_lens.Scoring.Overall.{Scores, score}
use stack_lens.Scoring.Overall.Allowed.{IsOverall}
use stack_lens.Scoring.Overall.Ceilings.{AreScored, five_categories, score-IsOverall}

abbrev check : Text → ScoreCategory → CheckState → Fact
check id category state = record {
  id = id;
  evidence_ids = text "e" ∷ [];
  details = some (record {
    key = id;
    package_path = text ".";
    category = category;
    state = state;
    observed_severity = none;
    package_name = some (text "app");
    limitation_ids = [];
  });
}

abbrev advisory : Text → Text → List Text → Finding
advisory id name aliases = record {
  id = id;
  category = ScoreCategory.security;
  classification = Classification.fact;
  rule = record { id = text "JS-VULN-011"; version = text "1" };
  details = some (record { advisory_id = name; aliases = aliases });
}

-- The third advisory joins the first two.
abbrev advisories : List Finding
advisories =
    advisory (text "f1") (text "CVE-1") []
    ∷ advisory (text "f2") (text "GHSA-2") (text "CVE-2" ∷ [])
    ∷ advisory (text "f3") (text "OSV-3") (text "CVE-1" ∷ text "CVE-2" ∷ [])
    ∷ advisory (text "f4") (text "CVE-4") []
    ∷ []

abbrev context : Context
context = record {
  facts =
      check (text "d") ScoreCategory.dependencies CheckState.fail
      ∷ check (text "s") ScoreCategory.security CheckState.pass
      ∷ check (text "m1") ScoreCategory.maintainability CheckState.pass
      ∷ check (text "m2") ScoreCategory.maintainability CheckState.fail
      ∷ check (text "m3") ScoreCategory.maintainability CheckState.pass
      ∷ check (text "t") ScoreCategory.testing CheckState.pass
      ∷ check (text "o") ScoreCategory.tooling CheckState.not_applicable
      ∷ [];
  findings = advisories;
  limitations = [];
}

abbrev result_or : {A : Type 0} → A → Scored A → A
result_or d (scored a) = a
result_or d missing_limitations = d

abbrev nothing : ScoreResult
nothing = no_check_applies (record {
  check_counts = record { passed = 0; failed = 0; unknown = 0; not_applicable = 0 };
  check_fact_ids = [];
})

abbrev value_of : ScoreResult → Fraction
value_of (insufficient_evidence b ids) = whole 0
value_of (no_check_applies b) = whole 0
value_of (available b a) = a.value

abbrev maintainability : ScoreResult × List Explanation
maintainability = result_or (nothing, []) (category_score context ScoreCategory.maintainability)

abbrev scores : Scores
scores =
    result_or (record { overall = nothing; categories = []; contributions = [] }) (score context)

two_advisories : length (group_from [] advisories) ≡ 2
unfolding group_from ◌===◌
two_advisories = refl

two_thirds : value_of maintainability.0 ≡ record { numerator = 200; denominator = 3 }
unfolding category_score text_lt ◌===◌ select
two_thirds = refl

maintainability_scored :
    category_score context ScoreCategory.maintainability ≡ scored maintainability
unfolding category_score text_lt ◌===◌ select
maintainability_scored = refl

overall_capped : value_of scores.overall ≡ whole 70
unfolding score text_lt ◌===◌ select
overall_capped = refl

all_scored : score context ≡ scored scores
unfolding score text_lt ◌===◌ select
all_scored = refl

group_from_lem_example :
    AreApart (group_from [] advisories) × All (IsGrouped (group_from [] advisories)) advisories
group_from_lem_example = group_from_lem advisories

category_score-IsSound_example :
    IsSound ScoreCategory.maintainability
      (checks context ScoreCategory.maintainability)
      maintainability.0
      maintainability.1
category_score-IsSound_example =
    category_score-IsSound context ScoreCategory.maintainability maintainability.0 maintainability.1
      maintainability_scored

score-IsOverall_example :
    AreScored context five_categories scores.categories × IsOverall scores.categories scores.overall
score-IsOverall_example = score-IsOverall context scores all_scored

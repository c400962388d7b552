-- ===== src/Scoring/Overall.antt =====
-- The overall score, and the scores of a report (`stackHealthScorer.score`).
pub mod Allowed
pub mod Ceilings
pub mod Least
use stack_lens.Base.Tests.{
  ℕ, Bool, true, false, ◌||◌, List, [], ◌∷◌, ◌++◌, map, ◌==◌, if◌then◌else◌, none,
}
use stack_lens.Base.Lists.{length, select, any}
use stack_lens.Base.Text.{Text, text, text_lt}
use stack_lens.Base.Sort.{sort}
use stack_lens.Contracts.{ScoreCategory}
use stack_lens.Scoring.Types.{
  CheckFact, Context, Fraction, whole, add, subtract, divide, is_at_most, ExplanationKind,
  Explanation, ScoreResult, insufficient_evidence, no_check_applies, available,
}
use stack_lens.Scoring.Checks.{checks, base_of, distinct, explanation}
use stack_lens.Scoring.Category.{
  Scored, scored, missing_limitations, is_banded, known_base, category_score,
}

-- `ORDER`
abbrev pub order : List ScoreCategory
order =
    ScoreCategory.dependencies ∷ ScoreCategory.security ∷ ScoreCategory.maintainability
    ∷ ScoreCategory.testing ∷ ScoreCategory.tooling ∷ []

abbrev pub Categories : Type 0
Categories = List (ScoreCategory × ScoreResult)

abbrev put :
    ScoreCategory
    → ScoreResult × List Explanation
    → Scored (Categories × List Explanation)
    → Scored (Categories × List Explanation)
put c (r, es) (scored (rs, fs)) = scored ((c, r) ∷ rs, es ++ fs)
put c (r, es) missing_limitations = missing_limitations

-- The scores of the categories in their order, with the contributions; the first error ends it.
unfoldable pub score_categories :
    Context → List ScoreCategory → Scored (Categories × List Explanation)
unfolding category_score
score_categories context [] = scored ([], [])
score_categories context (c ∷ cs) =
    let others = score_categories context cs in
    elim (category_score context c) [
      | missing_limitations ↦ missing_limitations
      | scored p ↦ put c p others
    ]

abbrev pub is_lacking : ScoreResult → Bool
is_lacking (insufficient_evidence b ids) = true
is_lacking (no_check_applies b) = false
is_lacking (available b a) = false

abbrev lacking_ids : ScoreResult → List Text
lacking_ids (insufficient_evidence b ids) = ids
lacking_ids (no_check_applies b) = []
lacking_ids (available b a) = []

unfoldable pub gather_lacking : Categories → List Text
gather_lacking [] = []
gather_lacking ((c, r) ∷ rest) = lacking_ids r ++ gather_lacking rest

-- `available`
unfoldable pub values_of : Categories → List (ScoreCategory × Fraction)
values_of [] = []
values_of ((c, insufficient_evidence b ids) ∷ rest) = values_of rest
values_of ((c, no_check_applies b) ∷ rest) = values_of rest
values_of ((c, available b a) ∷ rest) = (c, a.value) ∷ values_of rest

-- `reduce`
unfoldable pub sum_from : Fraction → List (ScoreCategory × Fraction) → Fraction
sum_from t [] = t
sum_from t ((c, v) ∷ rest) = sum_from (add t v) rest

abbrev pub mean_of : List (ScoreCategory × Fraction) → Fraction
mean_of values = divide (sum_from (whole 0) values) (length values)

abbrev pub ceilings_of : List (ScoreCategory × Fraction) → List (ScoreCategory × Fraction)
ceilings_of values = select (λ e. is_banded e.0) values

-- `Math.min` of a first value and others
unfoldable pub least_from : Fraction → List (ScoreCategory × Fraction) → Fraction
least_from v [] = v
least_from v ((c, w) ∷ rest) = least_from (if is_at_most v w then v else w) rest

-- `ceilings[0]?.category ?? available[0]!.category`, where `available` is not empty.
abbrev first_category : List (ScoreCategory × Fraction) → ScoreCategory → ScoreCategory
first_category [] c = c
first_category ((d, v) ∷ rest) c = d

unfoldable pub all_checks : Context → List ScoreCategory → List CheckFact
unfolding checks
all_checks context [] = []
all_checks context (c ∷ cs) = checks context c ++ all_checks context cs

abbrev ceiling_id : Text
ceiling_id = text "score-v3-overall-ceiling"

-- The overall score of the values, the first of which is of the given category.
abbrev pub capped :
    List CheckFact
    → ScoreCategory
    → List (ScoreCategory × Fraction)
    → ScoreResult × List Explanation
capped facts c values =
    let mean = mean_of values in
    let value = least_from mean (ceilings_of values) in
    (
      available (known_base facts) (record {
        value = value;
        band = none;
        affected_package_count = none;
        affected_advisory_count = none;
        contribution_ids = ceiling_id ∷ [];
      }),
      explanation ceiling_id (first_category (ceilings_of values) c) ExplanationKind.overall_ceiling
            (subtract mean value) facts []
          ∷ [],
    )

abbrev of_values : List CheckFact → List (ScoreCategory × Fraction) → ScoreResult × List Explanation
of_values facts [] = (no_check_applies (base_of facts), [])
of_values facts ((c, v) ∷ rest) = capped facts c ((c, v) ∷ rest)

unfoldable pub overall_score : List CheckFact → Categories → ScoreResult × List Explanation
unfolding gather_lacking values_of sum_from least_from distinct sort select
overall_score facts rs =
    if any (λ e. is_lacking e.1) rs
    then (insufficient_evidence (base_of facts) (sort text_lt (distinct (gather_lacking rs))), [])
    else of_values facts (values_of rs)

pub record Scores : Type 0 where
  pub overall : ScoreResult
  pub categories : Categories
  pub contributions : List Explanation

unfoldable pub score : Context → Scored Scores
unfolding score_categories overall_score all_checks
score context = elim (score_categories context order) [
  | missing_limitations ↦ missing_limitations
  | scored (rs, es) ↦
      let (overall, ceiling) = overall_score (all_checks context order) rs in
      scored (record { overall = overall; categories = rs; contributions = es ++ ceiling })
]

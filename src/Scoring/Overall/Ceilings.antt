-- ===== src/Scoring/Overall/Ceilings.antt =====
-- The overall score is the minimum of the mean and of the ceilings.
use stack_lens.Base.Tests.{
  ◌≤◌, ◌≡◌, refl, true, List, [], ◌∷◌, arith, Bool-cases, inl, inr, ◌⊎◌, ap, subst, sym, ◌++◌,
}
use native.Mathlib.Nat.{one-le-mul}
use stack_lens.Base.Lists.{length, any, All, All-select, All-imp}
use stack_lens.Contracts.{ScoreCategory}
use stack_lens.Scoring.Types.{
  CheckFact, Context, Fraction, whole, add, Explanation, ScoreResult, insufficient_evidence,
  no_check_applies, available,
}
use stack_lens.Scoring.Category.{Scored, scored, missing_limitations, is_banded, category_score}
use stack_lens.Scoring.Category.Accounts.{category_score_positive}
use stack_lens.Scoring.Overall.Allowed.{
  IsKnown, number_of, IsOverall, All-IsKnown, not-All-IsKnown, length-values_of, IsLeast-IsAllowed,
  IsLeast-greatest,
}
use stack_lens.Scoring.Overall.Least.{IsPositive, IsLeast, least_from-IsLeast}
use stack_lens.Scoring.Overall.{
  Categories, Scores, order, score_categories, is_lacking, values_of, sum_from, mean_of,
  ceilings_of, least_from, of_values, overall_score, all_checks, score,
}

sum_from-IsPositive :
    (t : Fraction) (ws : List (ScoreCategory × Fraction))
    → 1 ≤ t.denominator
    → All IsPositive ws
    → 1 ≤ (sum_from t ws).denominator
unfolding sum_from
sum_from-IsPositive t [] p ps = p
sum_from-IsPositive t ((c, w) ∷ ws) p ps = sum_from-IsPositive (add t w) ws (one-le-mul p ps.0) ps.1

values_of-IsPositive :
    (context : Context) (c : ScoreCategory) (r : ScoreResult) (es : List Explanation)
    (rs : Categories)
    → category_score context c ≡ scored (r, es)
    → All IsPositive (values_of rs)
    → All IsPositive (values_of ((c, r) ∷ rs))
unfolding values_of
values_of-IsPositive context c (insufficient_evidence b ids) es rs h ps = ps
values_of-IsPositive context c (no_check_applies b) es rs h ps = ps
values_of-IsPositive context c (available b a) es rs h ps =
    (category_score_positive context c b a es h, ps)

Scored-cases : {A : Type 0} (s : Scored A) → (s ≡ missing_limitations) ⊎ ((a : A) × (s ≡ scored a))
Scored-cases missing_limitations = inl refl
Scored-cases (scored a) = inr (a, refl)

abbrev result_or : {A : Type 0} → A → Scored A → A
result_or d (scored a) = a
result_or d missing_limitations = d

scored_inj : {A : Type 0} (a b : A) → scored a ≡ scored b → a ≡ b
scored_inj a b h = ap (result_or a) h

score_categories-IsPositive :
    (context : Context) (cs : List ScoreCategory) (p : Categories × List Explanation)
    → score_categories context cs ≡ scored p
    → All IsPositive (values_of p.0)
unfolding score_categories values_of
score_categories-IsPositive context [] p h =
    subst (λ p. All IsPositive (values_of p.0)) (scored_inj ([], []) p h) tt
score_categories-IsPositive context (c ∷ cs) p h = elim (Scored-cases (category_score context c)) [
  | inl e ↦ ground (arith, rw (e, score_categories) at h)
  | inr ((r, es), e) ↦ elim (Scored-cases (score_categories context cs)) [
    | inl e' ↦ ground (arith, rw (e, e', score_categories) at h)
    | inr ((rs, fs), e') ↦
        subst (λ p. All IsPositive (values_of p.0))
          (scored_inj ((c, r) ∷ rs, es ++ fs) p (rw (e, e', score_categories) at h))
          (values_of-IsPositive context c r es rs e
            (score_categories-IsPositive context cs (rs, fs) e'))
  ]
]

-- The categories are these, each with its own score.
abbrev pub AreScored : Context → List ScoreCategory → Categories → Type 0
AreScored context [] [] = Unit
AreScored context (c ∷ cs) ((d, r) ∷ rs) =
    ((d ≡ c) × (es : List Explanation) × (category_score context c ≡ scored (r, es)))
    × AreScored context cs rs
AreScored context [] (e ∷ rs) = ⊥
AreScored context (c ∷ cs) [] = ⊥

score_categories-AreScored :
    (context : Context) (cs : List ScoreCategory) (p : Categories × List Explanation)
    → score_categories context cs ≡ scored p
    → AreScored context cs p.0
unfolding score_categories
score_categories-AreScored context [] p h =
    subst (λ p. AreScored context [] p.0) (scored_inj ([], []) p h) tt
score_categories-AreScored context (c ∷ cs) p h = elim (Scored-cases (category_score context c)) [
  | inl e ↦ ground (arith, rw (e, score_categories) at h)
  | inr ((r, es), e) ↦ elim (Scored-cases (score_categories context cs)) [
    | inl e' ↦ ground (arith, rw (e, e', score_categories) at h)
    | inr ((rs, fs), e') ↦
        subst (λ p. AreScored context (c ∷ cs) p.0)
          (scored_inj ((c, r) ∷ rs, es ++ fs) p (rw (e, e', score_categories) at h))
          ((refl, es, e), score_categories-AreScored context cs (rs, fs) e')
  ]
]

abbrev pub five_categories : List ScoreCategory
five_categories =
    ScoreCategory.dependencies ∷ ScoreCategory.security ∷ ScoreCategory.maintainability
    ∷ ScoreCategory.testing ∷ ScoreCategory.tooling ∷ []

ceilings-IsPositive :
    (values : List (ScoreCategory × Fraction))
    → All IsPositive values
    → All IsPositive (ceilings_of values)
ceilings-IsPositive values ps =
    All-imp (λ e. IsPositive e × (is_banded e.0 ≡ true)) IsPositive (λ e h. h.0)
      (ceilings_of values) (All-select IsPositive (λ e. is_banded e.0) values ps)

mean-IsPositive :
    (values : List (ScoreCategory × Fraction))
    → 1 ≤ length values
    → All IsPositive values
    → 1 ≤ (mean_of values).denominator
mean-IsPositive values some_value ps =
    one-le-mul (sum_from-IsPositive (whole 0) values (omega arith) ps) some_value

of_values-IsOverall :
    (facts : List CheckFact) (rs : Categories) (values : List (ScoreCategory × Fraction))
    → All (λ e. IsKnown e.1) rs
    → values_of rs ≡ values
    → All IsPositive values
    → IsOverall rs (of_values facts values).0
unfolding IsOverall
of_values-IsOverall facts rs [] full e ps =
    (full, subst (λ v. number_of rs ≡ length v) e (sym (length-values_of rs)))
of_values-IsOverall facts rs ((c, v) ∷ rest) full e ps =
    let values = (c, v) ∷ rest in
    let value = least_from (mean_of values) (ceilings_of values) in
    let some_value : 1 ≤ number_of rs =
      subst (λ n. 1 ≤ n) (length-values_of rs) (subst (λ w. 1 ≤ length w) (sym e) (omega arith)) in
    let least : IsLeast value (mean_of (values_of rs)) (ceilings_of (values_of rs)) =
      subst (λ w. IsLeast value (mean_of w) (ceilings_of w)) (sym e)
        (least_from-IsLeast (mean_of values) (ceilings_of values)
          (mean-IsPositive values (omega arith) ps) (ceilings-IsPositive values ps)) in
    (full, some_value, IsLeast-IsAllowed value rs least, IsLeast-greatest value rs least)

overall_score-IsOverall :
    (facts : List CheckFact) (rs : Categories)
    → All IsPositive (values_of rs)
    → IsOverall rs (overall_score facts rs).0
unfolding overall_score IsOverall
overall_score-IsOverall facts rs ps = elim (Bool-cases (any (λ e. is_lacking e.1) rs)) [
  | inl e ↦ rw e (not-All-IsKnown rs e)
  | inr e ↦ rw e (of_values-IsOverall facts rs (values_of rs) (All-IsKnown rs e) refl ps)
]

-- Whatever the checks are, a report has the score of each of the five categories. It lacks an
-- overall score for want of evidence exactly when some category lacks evidence, and for want of a
-- check exactly when none lacks it and none has a value. Otherwise the overall score is the
-- greatest number that is at most the sum of the values over their number and at most the values
-- that Dependencies and Security have. The numbers are meant as exact quotients, before each is
-- rounded to a double.
pub score-IsOverall :
    (context : Context) (s : Scores)
    → score context ≡ scored s
    → AreScored context five_categories s.categories × IsOverall s.categories s.overall
unfolding score
score-IsOverall context s h = elim (Scored-cases (score_categories context order)) [
  | inl e ↦ ground (arith, rw (e, score) at h)
  | inr (p, e) ↦
      subst (λ s. AreScored context five_categories s.categories × IsOverall s.categories s.overall)
        (scored_inj _ s (rw (e, score) at h))
        (
          score_categories-AreScored context order p e,
          overall_score-IsOverall (all_checks context order) p.0
              (score_categories-IsPositive context order p e),
        )
]

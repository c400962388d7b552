-- ===== src/Scoring/Category/Accounts.antt =====
-- The points that a category loses and the ones it keeps.
use stack_lens.Base.Tests.{
  ℕ, ◌+◌, ◌*◌, ◌≤◌, ◌≡◌, refl, List, [], ◌∷◌, map, arith, ◌==◌, Bool-cases, inl, inr, ap, subst,
  ◌⊎◌, true, false, if◌then◌else◌,
}
use stack_lens.Base.Lists.{length, select, All}
use stack_lens.Contracts.{ScoreCategory}
use stack_lens.Scoring.Types.{
  RiskBand, CheckFact, Context, Fraction, Explanation, ScoreResult, ScoreBase, AvailableScore,
  insufficient_evidence, no_check_applies, available, band_score, whole,
}
use stack_lens.Scoring.Checks.{is_pass, is_unknown, checks, count_of}
use stack_lens.Scoring.Category.{
  Scored, scored, missing_limitations, applicable_of, is_insufficient, missing, is_banded, band_of,
  banded_score, readiness_score, check_explanation, score_checks, category_score,
}

-- The sum of the numerators.
pub total : List Explanation → ℕ
total [] = 0
total (e ∷ es) = e.points.numerator + total es

-- A value of a band: it and the deduction are whole numbers that make 100.
pub record IsWhole (value : Fraction) (es : List Explanation) : Type 0 where
  pub whole_value : value.denominator ≡ 1
  pub whole_points : All (λ e. e.points.denominator ≡ 1) es
  pub balanced : total es + value.numerator ≡ 100

-- A deduction that is nothing, or the `n`th part of 100.
abbrev IsPart : ℕ → Explanation → Type 0
IsPart n e = (e.points.denominator ≡ n) × ((e.points.numerator ≡ 0) ⊎ (e.points.numerator ≡ 100))

-- The number of deductions that are not nothing.
pub deducted : List Explanation → ℕ
deducted [] = 0
deducted (e ∷ es) = (if e.points.numerator == 0 then 0 else 1) + deducted es

-- The share of the checks that passed: the value is 100 times their number, divided by the number of
-- the checks, and every check deducts nothing or 100 divided by that number.
pub record IsShare (passed n : ℕ) (value : Fraction) (es : List Explanation) : Type 0 where
  pub divided : value.denominator ≡ n
  pub share : value.numerator ≡ 100 * passed
  pub each : length es ≡ n
  pub parts : All (IsPart n) es
  pub complete : deducted es + passed ≡ n

-- Dependencies and Security are scored by their band, the others by their share.
abbrev pub IsPriced : ScoreCategory → List CheckFact → Fraction → List Explanation → Type 0
IsPriced ScoreCategory.dependencies facts value es = IsWhole value es
IsPriced ScoreCategory.security facts value es = IsWhole value es
IsPriced ScoreCategory.maintainability facts value es =
    IsShare (count_of is_pass facts) (length (applicable_of facts)) value es
IsPriced ScoreCategory.testing facts value es =
    IsShare (count_of is_pass facts) (length (applicable_of facts)) value es
IsPriced ScoreCategory.tooling facts value es =
    IsShare (count_of is_pass facts) (length (applicable_of facts)) value es

banded-IsPriced :
    (c : ScoreCategory) (facts : List CheckFact) (value : Fraction) (es : List Explanation)
    → is_banded c ≡ true
    → IsWhole value es
    → IsPriced c facts value es
banded-IsPriced ScoreCategory.dependencies facts value es e h = h
banded-IsPriced ScoreCategory.security facts value es e h = h
banded-IsPriced ScoreCategory.maintainability facts value es e h = cc
banded-IsPriced ScoreCategory.testing facts value es e h = cc
banded-IsPriced ScoreCategory.tooling facts value es e h = cc

shared-IsPriced :
    (c : ScoreCategory) (facts : List CheckFact) (value : Fraction) (es : List Explanation)
    → is_banded c ≡ false
    → IsShare (count_of is_pass facts) (length (applicable_of facts)) value es
    → IsPriced c facts value es
shared-IsPriced ScoreCategory.dependencies facts value es e h = cc
shared-IsPriced ScoreCategory.security facts value es e h = cc
shared-IsPriced ScoreCategory.maintainability facts value es e h = h
shared-IsPriced ScoreCategory.testing facts value es e h = h
shared-IsPriced ScoreCategory.tooling facts value es e h = h

-- A category with a value has no unknown check and some that applies.
unfoldable pub IsSound : ScoreCategory → List CheckFact → ScoreResult → List Explanation → Type 0
IsSound c facts (insufficient_evidence base ids) es = (es ≡ []) × (1 ≤ length ids)
IsSound c facts (no_check_applies base) es = (es ≡ []) × (length (applicable_of facts) ≡ 0)
IsSound c facts (available base a) es =
    (count_of is_unknown facts ≡ 0)
    × (1 ≤ length (applicable_of facts))
    × IsPriced c facts a.value es

readiness_deducted :
    (c : ScoreCategory) (n : ℕ) (facts : List CheckFact)
    → deducted (map (check_explanation c n) (applicable_of facts)) + count_of is_pass facts
      ≡ length (applicable_of facts)
unfolding deducted select
readiness_deducted c n [] = refl
readiness_deducted c n (f ∷ facts) = ground (arith, readiness_deducted c n facts)

readiness_parts :
    (c : ScoreCategory) (n : ℕ) (facts : List CheckFact)
    → All (IsPart n) (map (check_explanation c n) facts)
readiness_parts c n [] = tt
readiness_parts c n (f ∷ facts) = elim (Bool-cases (is_pass f.details.state)) [
  | inl e ↦ ((refl, rw e (inl refl)), readiness_parts c n facts)
  | inr e ↦ ((refl, rw e (inr refl)), readiness_parts c n facts)
]

length-explanations :
    (c : ScoreCategory) (n : ℕ) (facts : List CheckFact)
    → length (map (check_explanation c n) facts) ≡ length facts
length-explanations c n [] = refl
length-explanations c n (f ∷ facts) = ground (arith, length-explanations c n facts)

band_score_le : (b : RiskBand) → band_score b ≤ 100
band_score_le b = ground arith

banded-IsWhole :
    (context : Context) (c : ScoreCategory) (facts : List CheckFact)
    → IsWhole
        (whole (band_score (band_of c (applicable_of facts))))
        (banded_score context c facts).1
unfolding total
banded-IsWhole context c facts =
    let low = band_score_le (band_of c (applicable_of facts)) in
    record { whole_value = refl; whole_points = (refl, tt); balanced = omega (arith, low) }

readiness-IsShare :
    (c : ScoreCategory) (facts : List CheckFact)
    → IsShare
        (count_of is_pass facts)
        (length (applicable_of facts))
        (record {
          numerator = 100 * count_of is_pass facts;
          denominator = length (applicable_of facts);
        })
        (readiness_score c facts).1
readiness-IsShare c facts =
    let n = length (applicable_of facts) in
    record {
      divided = refl;
      share = refl;
      each = length-explanations c n (applicable_of facts);
      parts = readiness_parts c n (applicable_of facts);
      complete = readiness_deducted c n facts;
    }

abbrev result_or : {A : Type 0} → A → Scored A → A
result_or d (scored a) = a
result_or d missing_limitations = d

same-IsSound :
    (c : ScoreCategory) (facts : List CheckFact) (p q : ScoreResult × List Explanation)
    → scored p ≡ scored q
    → IsSound c facts p.0 p.1
    → IsSound c facts q.0 q.1
same-IsSound c facts p q h sound = subst (λ p. IsSound c facts p.0 p.1) (ap (result_or p) h) sound

score_checks-IsSound :
    (context : Context) (c : ScoreCategory) (facts : List CheckFact) (r : ScoreResult)
    (es : List Explanation)
    → score_checks context c facts ≡ scored (r, es)
    → IsSound c facts r es
unfolding score_checks IsSound
score_checks-IsSound context c facts r es h = elim (Bool-cases (is_insufficient context facts)) [
  | inl lacking ↦ elim (Bool-cases (length (missing context c facts) == 0)) [
    | inl e ↦ ground (arith, rw (lacking, e) at h)
    | inr e ↦ same-IsSound c facts _ (r, es) (rw (lacking, e) at h) (refl, ground (arith, e))
  ]
  | inr complete ↦
      let known : count_of is_unknown facts ≡ 0 = ground (arith, complete) in
      elim (Bool-cases (length (applicable_of facts) == 0)) [
        | inl e ↦ same-IsSound c facts _ (r, es) (rw (complete, e) at h) (refl, ground (arith, e))
        | inr e ↦
            let apply : 1 ≤ length (applicable_of facts) = ground (arith, e) in
            elim (Bool-cases (is_banded c)) [
              | inl b ↦
                  same-IsSound c facts (banded_score context c facts) (r, es)
                    (rw (complete, e, b) at h)
                    (known, apply, banded-IsPriced c facts _ _ b (banded-IsWhole context c facts))
              | inr b ↦
                  same-IsSound c facts (readiness_score c facts) (r, es) (rw (complete, e, b) at h)
                    (known, apply, shared-IsPriced c facts _ _ b (readiness-IsShare c facts))
            ]
      ]
]

-- A category gets a value only when none of its checks is unknown and one applies. The value of
-- Dependencies and of Security and its deduction are whole numbers that make 100. The value of
-- another category is the quotient of 100 times the passed checks by the applicable ones, with one
-- deduction for each of these: nothing, or the quotient of 100 by their number, which as many
-- checks deduct as did not pass. Without a value nothing is deducted: no check applies, or the
-- limitations say what is missing. The quotients are meant before they are rounded to a double.
pub category_score-IsSound :
    (context : Context) (c : ScoreCategory) (r : ScoreResult) (es : List Explanation)
    → category_score context c ≡ scored (r, es)
    → IsSound c (checks context c) r es
unfolding category_score
category_score-IsSound context c r es h = score_checks-IsSound context c (checks context c) r es h

IsPriced-positive :
    (c : ScoreCategory) (facts : List CheckFact) (value : Fraction) (es : List Explanation)
    → 1 ≤ length (applicable_of facts)
    → IsPriced c facts value es
    → 1 ≤ value.denominator
IsPriced-positive ScoreCategory.dependencies facts value es apply p =
    (let d = p.whole_value in omega arith)
IsPriced-positive ScoreCategory.security facts value es apply p =
    (let d = p.whole_value in omega arith)
IsPriced-positive ScoreCategory.maintainability facts value es apply p =
    (let d = p.divided in omega arith)
IsPriced-positive ScoreCategory.testing facts value es apply p = (let d = p.divided in omega arith)
IsPriced-positive ScoreCategory.tooling facts value es apply p = (let d = p.divided in omega arith)

pub category_score_positive :
    (context : Context) (c : ScoreCategory) (base : ScoreBase) (a : AvailableScore)
    (es : List Explanation)
    → category_score context c ≡ scored (available base a, es)
    → 1 ≤ a.value.denominator
unfolding IsSound
category_score_positive context c base a es h =
    let (known, apply, priced) = category_score-IsSound context c (available base a) es h in
    IsPriced-positive c (checks context c) a.value es apply priced

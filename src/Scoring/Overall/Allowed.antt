-- ===== src/Scoring/Overall/Allowed.antt =====
-- What the overall score is of the categories, and that the least of the mean and the ceilings is it.
use stack_lens.Base.Tests.{
  ◌*◌, ◌≤◌, ◌≡◌, refl, true, false, [], ◌∷◌, arith, Bool-cases, inl, inr, ap, subst, sym, ℕ, suc,
  ◌∙◌,
}
use stack_lens.Base.Lists.{length, select, any, All}
use stack_lens.Contracts.{ScoreCategory}
use stack_lens.Scoring.Types.{
  Fraction, whole, divide, add, ScoreResult, insufficient_evidence, no_check_applies, available,
}
use stack_lens.Scoring.Category.{is_banded}
use stack_lens.Scoring.Overall.Least.{IsAtMost, IsLeast}
use stack_lens.Scoring.Overall.{Categories, is_lacking, values_of, sum_from, mean_of, ceilings_of}

-- A category that does not lack evidence.
unfoldable pub IsKnown : ScoreResult → Type 0
IsKnown (insufficient_evidence b ids) = ⊥
IsKnown (no_check_applies b) = Unit
IsKnown (available b a) = Unit

-- The sum of the values that the categories have, and their number.
unfoldable pub sum_of : Categories → Fraction
sum_of [] = whole 0
sum_of ((c, insufficient_evidence b ids) ∷ rest) = sum_of rest
sum_of ((c, no_check_applies b) ∷ rest) = sum_of rest
sum_of ((c, available b a) ∷ rest) = add a.value (sum_of rest)

unfoldable pub number_of : Categories → ℕ
number_of [] = 0
number_of ((c, insufficient_evidence b ids) ∷ rest) = number_of rest
number_of ((c, no_check_applies b) ∷ rest) = number_of rest
number_of ((c, available b a) ∷ rest) = suc (number_of rest)

-- Dependencies and Security are ceilings.
abbrev pub IsUnderCeiling : Fraction → ScoreCategory → Fraction → Type 0
IsUnderCeiling x ScoreCategory.dependencies v = IsAtMost x v
IsUnderCeiling x ScoreCategory.security v = IsAtMost x v
IsUnderCeiling x ScoreCategory.maintainability v = Unit
IsUnderCeiling x ScoreCategory.testing v = Unit
IsUnderCeiling x ScoreCategory.tooling v = Unit

abbrev pub IsUnder : Fraction → ScoreCategory × ScoreResult → Type 0
IsUnder x (c, insufficient_evidence b ids) = Unit
IsUnder x (c, no_check_applies b) = Unit
IsUnder x (c, available b a) = IsUnderCeiling x c a.value

-- The number is at most the sum of the values over their number, and at most each ceiling.
pub record IsAllowed (x : Fraction) (rs : Categories) : Type 0 where
  pub under_mean :
      x.numerator * ((sum_of rs).denominator * number_of rs) ≤ (sum_of rs).numerator * x.denominator
  pub under_ceilings : All (IsUnder x) rs

-- What the overall score says of the categories.
unfoldable pub IsOverall : Categories → ScoreResult → Type 0
IsOverall rs (insufficient_evidence b ids) = ¬ All (λ e. IsKnown e.1) rs
IsOverall rs (no_check_applies b) = All (λ e. IsKnown e.1) rs × (number_of rs ≡ 0)
IsOverall rs (available b a) =
    All (λ e. IsKnown e.1) rs
    × (1 ≤ number_of rs)
    × IsAllowed a.value rs
    × ((x : Fraction) → IsAllowed x rs → IsAtMost x a.value)

pub All-IsKnown :
    (rs : Categories) → any (λ e. is_lacking e.1) rs ≡ false → All (λ e. IsKnown e.1) rs
unfolding IsKnown
All-IsKnown [] h = tt
All-IsKnown ((c, insufficient_evidence b ids) ∷ rs) h = absurd (ground (arith, h))
All-IsKnown ((c, no_check_applies b) ∷ rs) h = (tt, All-IsKnown rs h)
All-IsKnown ((c, available b a) ∷ rs) h = (tt, All-IsKnown rs h)

pub not-All-IsKnown :
    (rs : Categories) → any (λ e. is_lacking e.1) rs ≡ true → ¬ All (λ e. IsKnown e.1) rs
unfolding IsKnown
not-All-IsKnown [] h k = cc
not-All-IsKnown ((c, insufficient_evidence b ids) ∷ rs) h k = k.0
not-All-IsKnown ((c, no_check_applies b) ∷ rs) h k = not-All-IsKnown rs h k.1
not-All-IsKnown ((c, available b a) ∷ rs) h k = not-All-IsKnown rs h k.1

pub length-values_of : (rs : Categories) → length (values_of rs) ≡ number_of rs
unfolding values_of number_of
length-values_of [] = refl
length-values_of ((c, insufficient_evidence b ids) ∷ rs) = length-values_of rs
length-values_of ((c, no_check_applies b) ∷ rs) = length-values_of rs
length-values_of ((c, available b a) ∷ rs) = ground (arith, length-values_of rs)

fraction_equal :
    (a b : Fraction) → a.numerator ≡ b.numerator → a.denominator ≡ b.denominator → a ≡ b
fraction_equal a b n d = λ i. record { numerator = n i; denominator = d i }

add_zero : (t : Fraction) → t ≡ add t (whole 0)
add_zero t = fraction_equal t (add t (whole 0)) (omega arith) (omega arith)

zero_add : (t : Fraction) → add (whole 0) t ≡ t
zero_add t = fraction_equal (add (whole 0) t) t (omega arith) (omega arith)

add_assoc : (t v w : Fraction) → add (add t v) w ≡ add t (add v w)
add_assoc t v w = fraction_equal (add (add t v) w) (add t (add v w)) (omega arith) (omega arith)

sum_from-sum_of : (t : Fraction) (rs : Categories) → sum_from t (values_of rs) ≡ add t (sum_of rs)
unfolding values_of sum_from sum_of
sum_from-sum_of t [] = add_zero t
sum_from-sum_of t ((c, insufficient_evidence b ids) ∷ rs) = sum_from-sum_of t rs
sum_from-sum_of t ((c, no_check_applies b) ∷ rs) = sum_from-sum_of t rs
sum_from-sum_of t ((c, available b a) ∷ rs) =
    sum_from-sum_of (add t a.value) rs ∙ add_assoc t a.value (sum_of rs)

under_one :
    (x : Fraction) (c : ScoreCategory) (v : Fraction)
    → (is_banded c ≡ true → IsAtMost x v)
    → IsUnderCeiling x c v
under_one x ScoreCategory.dependencies v h = h refl
under_one x ScoreCategory.security v h = h refl
under_one x ScoreCategory.maintainability v h = tt
under_one x ScoreCategory.testing v h = tt
under_one x ScoreCategory.tooling v h = tt

one_under :
    (x : Fraction) (c : ScoreCategory) (v : Fraction)
    → IsUnderCeiling x c v
    → is_banded c ≡ true
    → IsAtMost x v
one_under x ScoreCategory.dependencies v h e = h
one_under x ScoreCategory.security v h e = h
one_under x ScoreCategory.maintainability v h e = cc
one_under x ScoreCategory.testing v h e = cc
one_under x ScoreCategory.tooling v h e = cc

All-IsUnder :
    (x : Fraction) (rs : Categories)
    → All (λ e. IsAtMost x e.1) (ceilings_of (values_of rs))
    → All (IsUnder x) rs
unfolding values_of select
All-IsUnder x [] h = tt
All-IsUnder x ((c, insufficient_evidence b ids) ∷ rs) h = (tt, All-IsUnder x rs h)
All-IsUnder x ((c, no_check_applies b) ∷ rs) h = (tt, All-IsUnder x rs h)
All-IsUnder x ((c, available b a) ∷ rs) h = elim (Bool-cases (is_banded c)) [
  | inl e ↦
      let (first, others) : IsAtMost x a.value
          × All (λ e. IsAtMost x e.1) (ceilings_of (values_of rs)) =
        rw e at h in
      (under_one x c a.value (λ k. first), All-IsUnder x rs others)
  | inr e ↦
      let others : All (λ e. IsAtMost x e.1) (ceilings_of (values_of rs)) = rw e at h in
      (under_one x c a.value (λ k. absurd cc), All-IsUnder x rs others)
]

All-ceilings :
    (x : Fraction) (rs : Categories)
    → All (IsUnder x) rs
    → All (λ e. IsAtMost x e.1) (ceilings_of (values_of rs))
unfolding values_of select
All-ceilings x [] h = tt
All-ceilings x ((c, insufficient_evidence b ids) ∷ rs) h = All-ceilings x rs h.1
All-ceilings x ((c, no_check_applies b) ∷ rs) h = All-ceilings x rs h.1
All-ceilings x ((c, available b a) ∷ rs) h = elim (Bool-cases (is_banded c)) [
  | inl e ↦ rw e (one_under x c a.value h.0 e, All-ceilings x rs h.1)
  | inr e ↦ rw e (All-ceilings x rs h.1)
]

mean_of_lem : (rs : Categories) → mean_of (values_of rs) ≡ divide (sum_of rs) (number_of rs)
mean_of_lem rs =
    ap (λ t. divide t (length (values_of rs))) (sum_from-sum_of (whole 0) rs ∙ zero_add (sum_of rs))
    ∙ ap (λ n. divide (sum_of rs) n) (length-values_of rs)

pub IsLeast-IsAllowed :
    (value : Fraction) (rs : Categories)
    → IsLeast value (mean_of (values_of rs)) (ceilings_of (values_of rs))
    → IsAllowed value rs
unfolding IsAtMost
IsLeast-IsAllowed value rs least = record {
  under_mean = subst (IsAtMost value) (mean_of_lem rs) least.below_first;
  under_ceilings = All-IsUnder value rs least.below_others;
}

pub IsLeast-greatest :
    (value : Fraction) (rs : Categories)
    → IsLeast value (mean_of (values_of rs)) (ceilings_of (values_of rs))
    → (x : Fraction) → IsAllowed x rs
    → IsAtMost x value
unfolding IsAtMost
IsLeast-greatest value rs least x allowed =
    least.greatest x (subst (IsAtMost x) (sym (mean_of_lem rs)) allowed.under_mean)
      (All-ceilings x rs allowed.under_ceilings)

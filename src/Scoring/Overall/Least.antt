-- ===== src/Scoring/Overall/Least.antt =====
-- The order of the values of scores, and the least of several.
use stack_lens.Base.Tests.{
  ◌*◌, ◌≤◌, ◌≡◌, true, false, List, [], ◌∷◌, arith, Bool-cases, inl, inr, leb→le,
}
use native.Mathlib.Nat.{mul-le-mul_right, le_of_mul-le-mul_right}
use stack_lens.Base.Lists.{All}
use stack_lens.Contracts.{ScoreCategory}
use stack_lens.Scoring.Types.{Fraction, is_at_most}
use stack_lens.Scoring.Overall.{least_from}

unfoldable pub IsAtMost : Fraction → Fraction → Type 0
IsAtMost a b = a.numerator * b.denominator ≤ b.numerator * a.denominator

abbrev pub IsPositive : ScoreCategory × Fraction → Type 0
IsPositive e = 1 ≤ e.1.denominator

pub IsAtMost-refl : (a : Fraction) → IsAtMost a a
unfolding IsAtMost
IsAtMost-refl a = omega arith

IsAtMost-trans : (a b c : Fraction) → 1 ≤ b.denominator → IsAtMost a b → IsAtMost b c → IsAtMost a c
unfolding IsAtMost
IsAtMost-trans a b c positive h k =
    let left = mul-le-mul_right c.denominator h in
    let right = mul-le-mul_right a.denominator k in
    le_of_mul-le-mul_right {k = b.denominator} (omega (arith, left, right)) positive

IsAtMost-total : (a b : Fraction) → is_at_most a b ≡ false → IsAtMost b a
unfolding IsAtMost
IsAtMost-total a b h = ground (arith, h)

IsAtMost-tested : (a b : Fraction) → is_at_most a b ≡ true → IsAtMost a b
unfolding IsAtMost
IsAtMost-tested a b h = leb→le (a.numerator * b.denominator) (b.numerator * a.denominator) h

-- The greatest of the fractions that are at most the first one and each of the others.
pub record IsLeast (value first : Fraction) (others : List (ScoreCategory × Fraction))
    : Type 0 where
  pub below_first : IsAtMost value first
  pub below_others : All (λ e. IsAtMost value e.1) others
  pub greatest :
      (x : Fraction) → IsAtMost x first → All (λ e. IsAtMost x e.1) others → IsAtMost x value

pub least_from-IsLeast :
    (v : Fraction) (ws : List (ScoreCategory × Fraction))
    → 1 ≤ v.denominator
    → All IsPositive ws
    → IsLeast (least_from v ws) v ws
unfolding least_from
least_from-IsLeast v [] p ps = record {
  below_first = IsAtMost-refl v;
  below_others = tt;
  greatest = λ x h hs. h;
}
least_from-IsLeast v ((c, w) ∷ ws) p ps = elim (Bool-cases (is_at_most v w)) [
  | inl e ↦
      let rest = least_from-IsLeast v ws p ps.1 in
      rw e (record {
        below_first = rest.below_first;
        below_others = (
          IsAtMost-trans (least_from v ws) v w p rest.below_first (IsAtMost-tested v w e),
          rest.below_others,
        );
        greatest = λ x h hs. rest.greatest x h hs.1;
      })
  | inr e ↦
      let rest = least_from-IsLeast w ws ps.0 ps.1 in
      rw e (record {
        below_first =
            IsAtMost-trans (least_from w ws) w v ps.0 rest.below_first (IsAtMost-total v w e);
        below_others = (rest.below_first, rest.below_others);
        greatest = λ x h hs. rest.greatest x hs.0 hs.1;
      })
]

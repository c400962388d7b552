-- ===== src/Base/Decimal.antt =====
-- The decimal text of a number, as a template literal prints it.
use stack_lens.Base.Tests.{
  ℕ, zero, suc, ◌+◌, ◌-◌, ◌*◌, ◌/◌, ◌%◌, ◌≤◌, ◌<◌, ◌≡◌, refl, [], ◌∷◌, ◌++◌, arith, ltb, ◌==◌,
  if◌then◌else◌, Bool-cases, inl, inr, ◌∙◌, ◌^◌,
}
use stack_lens.Base.Lists.{length-append_one, length}
use stack_lens.Base.Text.{Text}

-- The digits, with as much fuel as the number is large.
unfoldable pub decimal_from : ℕ → ℕ → Text
decimal_from zero n = (48 + n) ∷ []
decimal_from (suc f) n =
    let higher = decimal_from f (n / 10) in
    if ltb n 10 then (48 + n) ∷ [] else higher ++ ((48 + n % 10) ∷ [])

unfoldable pub decimal : ℕ → Text
unfolding decimal_from
decimal n = decimal_from n n

-- The number of the digits after the last `#`.
unfoldable pub number_after : ℕ → Text → ℕ
number_after acc [] = acc
number_after acc (c ∷ s) = number_after (if c == 35 then 0 else 10 * acc + (c - 48)) s

number_after-append :
    (acc : ℕ) (s t : Text) → number_after acc (s ++ t) ≡ number_after (number_after acc s) t
unfolding number_after
number_after-append acc [] t = refl
number_after-append acc (c ∷ s) t =
    number_after-append (if c == 35 then 0 else 10 * acc + (c - 48)) s t

number_after-decimal_from : (f n : ℕ) → n ≤ f → number_after 0 (decimal_from f n) ≡ n
unfolding number_after decimal_from
number_after-decimal_from zero n h = ground arith
number_after-decimal_from (suc f) n h = elim (Bool-cases (ltb n 10)) [
  | inl e ↦ rw (e, decimal_from) (ground (arith, e))
  | inr e ↦
      rw (e, decimal_from)
        (rw (number_after-append 0 (decimal_from f (n / 10)) ((48 + n % 10) ∷ []))
          (ground (arith, e, number_after-decimal_from f (n / 10))))
]

-- The number is read back after a `#`, whatever stands before it.
pub number_after-decimal :
    (acc : ℕ) (s : Text) (n : ℕ) → number_after acc (s ++ (35 ∷ decimal n)) ≡ n
unfolding number_after decimal
number_after-decimal acc s n =
    number_after-append acc s (35 ∷ decimal n) ∙ number_after-decimal_from n n (omega arith)

length-decimal_from-le : (d f n : ℕ) → n < 10 ^ suc d → length (decimal_from f n) ≤ suc d
unfolding decimal_from
length-decimal_from-le d zero n h = omega arith
length-decimal_from-le zero (suc f) n h = ground arith
length-decimal_from-le (suc d) (suc f) n h = elim (Bool-cases (ltb n 10)) [
  | inl e ↦ rw (e, decimal_from) (omega arith)
  | inr e ↦
      rw (e, decimal_from, length-append_one (decimal_from f (n / 10)) (48 + n % 10))
        (omega (arith, length-decimal_from-le d f (n / 10) (omega arith)))
]

pub length-decimal-le : (d n : ℕ) → n < 10 ^ suc d → length (decimal n) ≤ suc d
unfolding decimal
length-decimal-le d n h = length-decimal_from-le d n n h

-- ===== src/Base/Orders.antt =====
-- Comparisons that answer negative, zero or positive, and what makes one an order.
use stack_lens.Base.Tests.{ℕ, ◌≡◌, refl, true, false, [], ◌∷◌, arith, ltb, ◌==◌, if◌then◌else◌}
use stack_lens.Base.Text.{Text, ◌===◌, ===_iff, ===_sym, text_lt}

-- The numbers -1, 0 and 1.
pub data Comparison : Type 0 where
  less same greater : Comparison

abbrev pub opposite : Comparison → Comparison
opposite less = greater
opposite same = same
opposite greater = less

-- Equal elements are the only ones that compare as the same, the other way round the answer is the
-- opposite, and `less` is transitive.
pub record IsOrder {ℓ} {A : Type ℓ} (compare : A → A → Comparison) : Type ℓ where
  pub reflexive : (a : A) → compare a a ≡ same
  pub separating : (a b : A) → compare a b ≡ same → a ≡ b
  pub opposed : (a b : A) → compare b a ≡ opposite (compare a b)
  pub transitive : (a b c : A) → compare a b ≡ less → compare b c ≡ less → compare a c ≡ less

-- `left === right ? 0 : left < right ? -1 : 1`
abbrev pub compare_number : ℕ → ℕ → Comparison
compare_number a b = if a == b then same else if ltb a b then less else greater

abbrev pub compare_text : Text → Text → Comparison
compare_text a b = if a === b then same else if text_lt a b then less else greater

pub compare_number-IsOrder : IsOrder compare_number
compare_number-IsOrder = record {
  reflexive = λ a. ground arith;
  separating = λ a b h. ground arith;
  opposed = λ a b. ground arith;
  transitive = λ a b c h k. ground arith;
}

pub text_lt_asym : (s t : Text) → text_lt s t ≡ true → text_lt t s ≡ false
unfolding text_lt
text_lt_asym [] [] h = cc
text_lt_asym [] (b ∷ t) h = refl
text_lt_asym (a ∷ s) [] h = cc
text_lt_asym (a ∷ s) (b ∷ t) h = ground (arith, text_lt_asym s t)

pub text_lt_total : (s t : Text) → (s === t) ≡ false → text_lt s t ≡ false → text_lt t s ≡ true
unfolding text_lt ◌===◌
text_lt_total [] [] n h = cc
text_lt_total [] (b ∷ t) n h = cc
text_lt_total (a ∷ s) [] n h = refl
text_lt_total (a ∷ s) (b ∷ t) n h = ground (arith, text_lt_total s t)

pub text_lt_irreflexive : (s : Text) → text_lt s s ≡ false
unfolding text_lt
text_lt_irreflexive [] = refl
text_lt_irreflexive (a ∷ s) = ground (arith, text_lt_irreflexive s)

pub text_lt_trans : (s t u : Text) → text_lt s t ≡ true → text_lt t u ≡ true → text_lt s u ≡ true
unfolding text_lt
text_lt_trans s [] [] h k = cc
text_lt_trans s (b ∷ t) [] h k = cc
text_lt_trans [] [] (c ∷ u) h k = refl
text_lt_trans (a ∷ s) [] (c ∷ u) h k = cc
text_lt_trans [] (b ∷ t) (c ∷ u) h k = refl
text_lt_trans (a ∷ s) (b ∷ t) (c ∷ u) h k = ground (arith, text_lt_trans s t u)

pub compare_text-IsOrder : IsOrder compare_text
compare_text-IsOrder = record {
  reflexive = λ a. ground (arith, ===_iff a a);
  separating = λ a b h. ground (arith, ===_iff a b);
  opposed = λ a b. ground (arith, ===_sym a b, text_lt_asym a b, text_lt_total a b);
  transitive = λ a b c h k. ground (arith, text_lt_trans a b c, ===_iff a c, text_lt_asym b c);
}

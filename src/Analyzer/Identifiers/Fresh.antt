-- ===== src/Analyzer/Identifiers/Fresh.antt =====
-- The loop of `allocateIdentifier` ends, with an identifier that is not used.
use stack_lens.Base.Tests.{
  ℕ, zero, suc, ◌+◌, ◌-◌, ◌≤◌, ◌<◌, ◌≡◌, refl, sym, ap, ◌∙◌, true, false, List, [], ◌∷◌, ◌++◌,
  arith, Bool-cases, inl, inr, ◌⊎◌, ◌^◌,
}
use stack_lens.Base.Lists.{length, take, length-take-le}
use stack_lens.Base.Text.{Text, ◌===◌, ===_iff}
use stack_lens.Base.Table.{mem}
use stack_lens.Base.Decimal.{number_after, number_after-decimal, length-decimal-le}
use stack_lens.Base.Distinct.{AreDistinct, are_within, length-le_of_within}
use stack_lens.Analyzer.Identifiers.{
  max_length, suffix, candidate_at, next_identifier, allocate_identifier,
}

-- Different counters give different candidates.
candidate_inj : (p : Text) (m n : ℕ) → candidate_at p m ≡ candidate_at p n → m ≡ n
candidate_inj p m n e =
    sym (number_after-decimal 0 (take (max_length - length (suffix m)) p) m)
    ∙ ap (number_after 0) e
    ∙ number_after-decimal 0 (take (max_length - length (suffix n)) p) n

-- The candidates of `n` counters from one on.
candidates : Text → ℕ → ℕ → List Text
candidates p zero counter = []
candidates p (suc n) counter = candidate_at p counter ∷ candidates p n (suc counter)

length-candidates : (p : Text) (n c : ℕ) → length (candidates p n c) ≡ n
unfolding candidates
length-candidates p zero c = refl
length-candidates p (suc n) c = ap suc (length-candidates p n (suc c))

later_candidates :
    (p : Text) (n c k : ℕ) → k < c → mem (candidate_at p k) (candidates p n c) ≡ false
unfolding candidates
later_candidates p zero c k h = refl
later_candidates p (suc n) c k h = elim (Bool-cases (candidate_at p c === candidate_at p k)) [
  | inl e ↦
      let same : c ≡ k =
        candidate_inj p c k ((===_iff (candidate_at p c) (candidate_at p k)).0 e) in
      absurd (omega (arith, same))
  | inr e ↦ rw e (later_candidates p n (suc c) k (omega arith))
]

candidates-AreDistinct : (p : Text) (n c : ℕ) → AreDistinct (candidates p n c)
unfolding candidates
candidates-AreDistinct p zero c = tt
candidates-AreDistinct p (suc n) c =
    (later_candidates p n (suc c) c (omega arith), candidates-AreDistinct p n (suc c))

-- The loop either ends with a candidate that is not used, or all of them are.
next_identifier_cases :
    (fuel : ℕ) (p : Text) (used : List Text) (c : ℕ)
    → (mem (next_identifier fuel p used c) used ≡ false)
      ⊎ (are_within (candidates p (suc fuel) c) used ≡ true)
unfolding next_identifier candidates
next_identifier_cases zero p used c = elim (Bool-cases (mem (candidate_at p c) used)) [
  | inl e ↦ inr (rw e refl)
  | inr e ↦ inl e
]
next_identifier_cases (suc fuel) p used c = elim (Bool-cases (mem (candidate_at p c) used)) [
  | inr e ↦ inl (rw (e, next_identifier) e)
  | inl e ↦ elim (next_identifier_cases fuel p used (suc c)) [
    | inl fresh ↦ inl (rw (e, next_identifier) fresh)
    | inr all_used ↦ inr (rw e all_used)
  ]
]

next_identifier_fresh :
    (p : Text) (used : List Text) (c : ℕ)
    → mem (next_identifier (length used) p used c) used ≡ false
next_identifier_fresh p used c = elim (next_identifier_cases (length used) p used c) [
  | inl fresh ↦ fresh
  | inr all_used ↦ absurd (
      omega (
        arith,
        length-candidates p (suc (length used)) c,
        length-le_of_within (candidates p (suc (length used)) c) used
            (candidates-AreDistinct p (suc (length used)) c) all_used,
      ))
]

length-append : (s t : Text) → length (s ++ t) ≡ length s + length t
length-append [] t = omega arith
length-append (a ∷ s) t = omega (arith, length-append s t)

length-candidate_at-le : (p : Text) (c : ℕ) → c < 10 ^ 199 → length (candidate_at p c) ≤ max_length
length-candidate_at-le p c h =
    let digits = length-decimal-le 198 c h in
    let cut = length-take-le (max_length - length (suffix c)) p in
    omega (arith, digits, cut, length-append (take (max_length - length (suffix c)) p) (suffix c))

length-next_identifier-le :
    (fuel : ℕ) (p : Text) (used : List Text) (c : ℕ)
    → c + fuel < 10 ^ 199
    → length (next_identifier fuel p used c) ≤ max_length
unfolding next_identifier
length-next_identifier-le zero p used c h = length-candidate_at-le p c (omega arith)
length-next_identifier-le (suc fuel) p used c h = elim (Bool-cases (mem (candidate_at p c) used)) [
  | inl e ↦ rw (e, next_identifier) (length-next_identifier-le fuel p used (suc c) (omega arith))
  | inr e ↦ rw (e, next_identifier) (length-candidate_at-le p c (omega arith))
]

pub allocate_identifier_fresh :
    (p : Text) (used : List Text) → mem (allocate_identifier p used) used ≡ false
unfolding allocate_identifier
allocate_identifier_fresh p used = elim (Bool-cases (mem (take max_length p) used)) [
  | inl e ↦ rw e (next_identifier_fresh p used 2)
  | inr e ↦ rw e e
]

-- The identifier that is allocated is not used, and, unless 10 to the power 199 are, has at most
-- 200 code units.
pub allocate_identifier_lem :
    (preferred : Text) (used : List Text)
    → length used + 2 < 10 ^ 199
    → (mem (allocate_identifier preferred used) used ≡ false)
      × (length (allocate_identifier preferred used) ≤ 200)
unfolding allocate_identifier
allocate_identifier_lem preferred used few = (allocate_identifier_fresh preferred used, short)
  where
    short : length (allocate_identifier preferred used) ≤ 200
    short = elim (Bool-cases (mem (take max_length preferred) used)) [
      | inl e ↦ rw e (length-next_identifier-le (length used) preferred used 2 (omega arith))
      | inr e ↦ rw e (length-take-le max_length preferred)
    ]

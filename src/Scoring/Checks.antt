-- ===== src/Scoring/Checks.antt =====
-- The checks of a category, and what they count.
use stack_lens.Base.Tests.{
  ℕ, ◌+◌, ◌≡◌, refl, Bool, true, false, not, none, some, List, [], ◌∷◌, ◌++◌, map, arith,
  if◌then◌else◌,
}
use stack_lens.Base.Lists.{length, select}
use stack_lens.Base.Text.{Text, ◌===◌, text_lt}
use stack_lens.Base.Sort.{sort}
use stack_lens.Contracts.{ScoreCategory}
use stack_lens.Scoring.Types.{
  CheckState, Fact, CheckFact, Context, CheckCounts, ScoreBase, ExplanationKind, Explanation,
  Fraction, is_category,
}

abbrev pub is_pass : CheckState → Bool
is_pass CheckState.pass = true
is_pass _ = false

abbrev pub is_fail : CheckState → Bool
is_fail CheckState.fail = true
is_fail _ = false

abbrev pub is_unknown : CheckState → Bool
is_unknown CheckState.unknown = true
is_unknown _ = false

abbrev pub is_not_applicable : CheckState → Bool
is_not_applicable CheckState.not_applicable = true
is_not_applicable _ = false

-- The filter of `checks`.
unfoldable pub checks_of : ScoreCategory → List Fact → List CheckFact
checks_of category [] = []
checks_of category (f ∷ rest) =
    let others = checks_of category rest in
    elim f.details [
      | none ↦ others
      | some d ↦
          if is_category d.category category
          then record { id = f.id; evidence_ids = f.evidence_ids; details = d } ∷ others
          else others
    ]

abbrev is_before : CheckFact → CheckFact → Bool
is_before a b = text_lt a.id b.id

unfoldable pub checks : Context → ScoreCategory → List CheckFact
unfolding checks_of sort
checks context category = sort is_before (checks_of category context.facts)

abbrev pub count_of : (CheckState → Bool) → List CheckFact → ℕ
count_of p facts = length (select (λ f. p f.details.state) facts)

abbrev pub counts : List CheckFact → CheckCounts
counts facts = record {
  passed = count_of is_pass facts;
  failed = count_of is_fail facts;
  unknown = count_of is_unknown facts;
  not_applicable = count_of is_not_applicable facts;
}

abbrev pub base_of : List CheckFact → ScoreBase
base_of facts = record { check_counts = counts facts; check_fact_ids = map CheckFact.id facts }

-- `[...new Set(ids)]`
unfoldable pub distinct : List Text → List Text
unfolding select
distinct [] = []
distinct (x ∷ xs) = x ∷ select (λ y. not (y === x)) (distinct xs)

unfoldable pub gather : (CheckFact → List Text) → List CheckFact → List Text
gather f [] = []
gather f (x ∷ xs) = f x ++ gather f xs

-- `explanation`
abbrev pub explanation :
    Text → ScoreCategory → ExplanationKind → Fraction → List CheckFact → List Text → Explanation
explanation id category kind points facts finding_ids = record {
  id = id;
  category = category;
  kind = kind;
  points = points;
  fact_ids = map CheckFact.id facts;
  finding_ids = finding_ids;
  evidence_ids = distinct (gather CheckFact.evidence_ids facts);
}

-- Every check is counted under one of the four states.
pub counts_lem :
    (facts : List CheckFact)
    → let c = counts facts in c.passed + c.failed + c.unknown + c.not_applicable ≡ length facts
unfolding select
counts_lem [] = refl
counts_lem (f ∷ facts) = ground (arith, counts_lem facts)

-- ===== src/Analyzer/Consistency.antt =====
-- The invariant of the pipeline's state: identifiers are unique and references are known.
pub mod Growth
pub mod Stages
pub mod Priorities
use stack_lens.Base.Tests.{
  ℕ, ◌≡◌, refl, subst, sym, ap, Bool, true, false, ◌&&◌, ◌||◌, Option, none, some, List, [], ◌∷◌,
  ◌++◌, map, arith, Bool-cases, inl, inr, Option-cases, &&-eq-true, is_some,
}
use stack_lens.Base.Lists.{map-append, All-of-all, All, All-append, All-imp, all, any}
use stack_lens.Base.Text.{Text, ===_iff, ◌===◌}
use stack_lens.Base.Table.{mem}
use stack_lens.Base.Distinct.{
  AreDistinct, are_within, are_within-append, are_new, are_new-AreDistinct,
}
use stack_lens.Contracts.{AnalysisLimitation, PartialFailure}
use stack_lens.Analyzer.Types.{Fact, Candidate, Finding, Recommendation}
use stack_lens.Analyzer.References.{
  cites, refers, recommends, find_finding, are_known, has_basis, names_heuristic,
}
use stack_lens.Analyzer.Pipeline.{
  State, fact_ids, candidate_ids, finding_ids, recommendation_ids, limitation_ids, failure_ids,
}

abbrev pub Refers : List Text → List Text → List Text → Candidate → Type 0
Refers evidence facts limitations c = refers evidence facts limitations c ≡ true

pub record IsConsistent (evidence : List Text) (s : State) : Type 0 where
  pub unique_facts : AreDistinct (fact_ids s.facts)
  pub unique_candidates : AreDistinct (candidate_ids s.candidates)
  pub unique_findings : AreDistinct (finding_ids s.findings)
  pub unique_recommendations : AreDistinct (recommendation_ids s.recommendations)
  pub unique_limitations : AreDistinct (limitation_ids s.limitations)
  pub unique_failures : AreDistinct (failure_ids s.partial_failures)
  pub facts_cite : All (λ f. cites evidence f ≡ true) s.facts
  pub candidates_refer :
      All (Refers evidence (fact_ids s.facts) (limitation_ids s.limitations)) s.candidates
  pub findings_refer :
      All
        (λ f. Refers evidence (fact_ids s.facts) (limitation_ids s.limitations) f.candidate)
        s.findings
  pub recommendations_refer :
      All (λ r. recommends evidence (fact_ids s.facts) s.findings r ≡ true) s.recommendations

-- The identifiers of a list that grew by new ones are unique.
pub grow-AreDistinct {ℓ} :
    {A : Type ℓ} (id : A → Text) (xs ys : List A)
    → AreDistinct (map id xs)
    → are_new (map id xs) (map id ys) ≡ true
    → AreDistinct (map id (xs ++ ys))
grow-AreDistinct id xs ys d new =
    subst AreDistinct (sym (map-append id xs ys))
      (are_new-AreDistinct (map id xs) (map id ys) d new)

-- ===== src/Analyzer/Consistency/Growth.antt =====
-- Consistency as the lists of the state grow.
use stack_lens.Base.Tests.{
  ℕ, ◌≡◌, refl, subst, sym, ap, true, false, Option, List, [], ◌∷◌, ◌++◌, arith, Bool-cases, inl,
  inr, is_some,
}
use stack_lens.Base.Lists.{map-append, All-of-all, All, All-append, All-imp, all, any}
use stack_lens.Base.Text.{Text, ◌===◌}
use stack_lens.Base.Table.{mem}
use stack_lens.Base.Distinct.{are_within-append, are_new}
use stack_lens.Contracts.{AnalysisLimitation, PartialFailure}
use stack_lens.Analyzer.Types.{RuleDefinition, Fact, Candidate, Finding, Recommendation}
use stack_lens.Analyzer.References.{
  cites, recommends, find_finding, are_known, names_heuristic, is_found_heuristic, confidence_of,
}
use stack_lens.Analyzer.Identifiers.Fresh.{allocate_identifier_fresh}
use stack_lens.Analyzer.Pipeline.{
  State, FailureCode, fact_ids, candidate_ids, finding_id, finding_ids, recommendation_ids,
  limitation_ids, failure_ids, failure_limitation, partial_failure_of, add_failure,
}
use stack_lens.Analyzer.Consistency.{Refers, IsConsistent, grow-AreDistinct}

find_finding-append :
    (i : Text) (xs ys : List Finding)
    → is_some (find_finding i xs) ≡ true
    → find_finding i (xs ++ ys) ≡ find_finding i xs
unfolding find_finding
find_finding-append i [] ys h = cc
find_finding-append i (f ∷ xs) ys h = elim (Bool-cases (f.candidate.id === i)) [
  | inl e ↦ rw (e, find_finding) refl
  | inr e ↦ rw (e, find_finding) (find_finding-append i xs ys (rw (e, find_finding) at h))
]

are_known-append :
    (ids : List Text) (xs ys : List Finding)
    → are_known xs ids ≡ true
    → (are_known (xs ++ ys) ids ≡ true)
      × (any (λ i. names_heuristic (xs ++ ys) i) ids ≡ any (λ i. names_heuristic xs i) ids)
are_known-append [] xs ys h = (refl, refl)
are_known-append (i ∷ ids) xs ys h =
    let known : is_some (find_finding i xs) ≡ true = ground (arith, h) in
    let (rest, same) = are_known-append ids xs ys (ground (arith, h)) in
    let found = find_finding-append i xs ys known in
    let head : names_heuristic (xs ++ ys) i ≡ names_heuristic xs i = ap is_found_heuristic found in
    (rw found (ground (arith, known, rest)), ground (arith, head, same))

-- More facts, or more findings, keep the references of a recommendation.
recommends-facts :
    (evidence : List Text) (facts more : List Fact) (findings : List Finding) (r : Recommendation)
    → recommends evidence (fact_ids facts) findings r ≡ true
    → recommends evidence (fact_ids (facts ++ more)) findings r ≡ true
recommends-facts evidence facts more findings r h =
    subst (λ l. recommends evidence l findings r ≡ true) (sym (map-append Fact.id facts more))
      (ground
        (arith, h, are_within-append (confidence_of r.basis) (fact_ids facts) (fact_ids more)))

recommends-findings :
    (evidence facts : List Text) (findings others : List Finding) (r : Recommendation)
    → recommends evidence facts findings r ≡ true
    → recommends evidence facts (findings ++ others) r ≡ true
recommends-findings evidence facts findings others r h =
    let known : are_known findings r.finding_ids ≡ true = ground (arith, h) in
    let (known', same) = are_known-append r.finding_ids findings others known in
    ground (arith, h, known', same)

Refers-facts :
    (evidence : List Text) (facts more : List Fact) (limitations : List Text) (c : Candidate)
    → Refers evidence (fact_ids facts) limitations c
    → Refers evidence (fact_ids (facts ++ more)) limitations c
Refers-facts evidence facts more limitations c h =
    subst (λ l. Refers evidence l limitations c) (sym (map-append Fact.id facts more))
      (ground (arith, h, are_within-append c.fact_ids (fact_ids facts) (fact_ids more)))

pub Refers-limitations :
    (evidence facts : List Text) (ls more : List AnalysisLimitation) (c : Candidate)
    → Refers evidence facts (limitation_ids ls) c
    → Refers evidence facts (limitation_ids (ls ++ more)) c
Refers-limitations evidence facts ls more c h =
    subst (λ l. Refers evidence facts l c) (sym (map-append AnalysisLimitation.id ls more))
      (ground
        (arith, h, are_within-append c.limitation_ids (limitation_ids ls) (limitation_ids more)))

module _ (evidence : List Text) (s : State) (v : IsConsistent evidence s) where
  pub grow_facts :
      (facts : List Fact)
      → are_new (fact_ids s.facts) (fact_ids facts) ≡ true
      → all (cites evidence) facts ≡ true
      → IsConsistent evidence (record s { facts = s.facts ++ facts })
  grow_facts facts new cited = record {
    unique_facts = grow-AreDistinct Fact.id s.facts facts v.unique_facts new;
    unique_candidates = v.unique_candidates;
    unique_findings = v.unique_findings;
    unique_recommendations = v.unique_recommendations;
    unique_limitations = v.unique_limitations;
    unique_failures = v.unique_failures;
    facts_cite =
        All-append (λ f. cites evidence f ≡ true) s.facts facts v.facts_cite
          (All-of-all (cites evidence) facts cited);
    candidates_refer =
        All-imp _ (Refers evidence (fact_ids (s.facts ++ facts)) (limitation_ids s.limitations))
          (Refers-facts evidence s.facts facts (limitation_ids s.limitations)) s.candidates
          v.candidates_refer;
    findings_refer =
        All-imp _
          (λ f.
            Refers evidence (fact_ids (s.facts ++ facts)) (limitation_ids s.limitations)
              f.candidate)
          (λ f. Refers-facts evidence s.facts facts (limitation_ids s.limitations) f.candidate)
          s.findings v.findings_refer;
    recommendations_refer =
        All-imp _ (λ r. recommends evidence (fact_ids (s.facts ++ facts)) s.findings r ≡ true)
          (recommends-facts evidence s.facts facts s.findings) s.recommendations
          v.recommendations_refer;
  }

  pub grow_limitations :
      (ls : List AnalysisLimitation)
      → are_new (limitation_ids s.limitations) (limitation_ids ls) ≡ true
      → IsConsistent evidence (record s { limitations = s.limitations ++ ls })
  grow_limitations ls fresh = record {
    unique_facts = v.unique_facts;
    unique_candidates = v.unique_candidates;
    unique_findings = v.unique_findings;
    unique_recommendations = v.unique_recommendations;
    unique_limitations =
        grow-AreDistinct AnalysisLimitation.id s.limitations ls v.unique_limitations fresh;
    unique_failures = v.unique_failures;
    facts_cite = v.facts_cite;
    candidates_refer =
        All-imp _ (Refers evidence (fact_ids s.facts) (limitation_ids (s.limitations ++ ls)))
          (Refers-limitations evidence (fact_ids s.facts) s.limitations ls) s.candidates
          v.candidates_refer;
    findings_refer =
        All-imp _
          (λ f.
            Refers evidence (fact_ids s.facts) (limitation_ids (s.limitations ++ ls)) f.candidate)
          (λ f. Refers-limitations evidence (fact_ids s.facts) s.limitations ls f.candidate)
          s.findings v.findings_refer;
    recommendations_refer = v.recommendations_refer;
  }

  pub grow_failures :
      (fs : List PartialFailure)
      → are_new (failure_ids s.partial_failures) (failure_ids fs) ≡ true
      → IsConsistent evidence (record s { partial_failures = s.partial_failures ++ fs })
  grow_failures fs fresh = record {
    unique_facts = v.unique_facts;
    unique_candidates = v.unique_candidates;
    unique_findings = v.unique_findings;
    unique_recommendations = v.unique_recommendations;
    unique_limitations = v.unique_limitations;
    facts_cite = v.facts_cite;
    candidates_refer = v.candidates_refer;
    findings_refer = v.findings_refer;
    recommendations_refer = v.recommendations_refer;
    unique_failures =
        grow-AreDistinct PartialFailure.id s.partial_failures fs v.unique_failures fresh;
  }

  pub grow_candidates :
      (cs : List Candidate)
      → are_new (candidate_ids s.candidates) (candidate_ids cs) ≡ true
      → All (Refers evidence (fact_ids s.facts) (limitation_ids s.limitations)) cs
      → IsConsistent evidence (record s { candidates = s.candidates ++ cs })
  grow_candidates cs new refer = record {
    unique_facts = v.unique_facts;
    unique_findings = v.unique_findings;
    unique_recommendations = v.unique_recommendations;
    unique_limitations = v.unique_limitations;
    unique_failures = v.unique_failures;
    facts_cite = v.facts_cite;
    findings_refer = v.findings_refer;
    recommendations_refer = v.recommendations_refer;
    unique_candidates = grow-AreDistinct Candidate.id s.candidates cs v.unique_candidates new;
    candidates_refer =
        All-append (Refers evidence (fact_ids s.facts) (limitation_ids s.limitations)) s.candidates
          cs v.candidates_refer refer;
  }

  pub grow_findings :
      (f : Finding)
      → are_new (finding_ids s.findings) (finding_id f ∷ []) ≡ true
      → Refers evidence (fact_ids s.facts) (limitation_ids s.limitations) f.candidate
      → IsConsistent evidence (record s { findings = s.findings ++ (f ∷ []) })
  grow_findings f new refer = record {
    unique_facts = v.unique_facts;
    unique_candidates = v.unique_candidates;
    unique_recommendations = v.unique_recommendations;
    unique_limitations = v.unique_limitations;
    unique_failures = v.unique_failures;
    facts_cite = v.facts_cite;
    candidates_refer = v.candidates_refer;
    unique_findings = grow-AreDistinct finding_id s.findings (f ∷ []) v.unique_findings new;
    findings_refer =
        All-append
          (λ f. Refers evidence (fact_ids s.facts) (limitation_ids s.limitations) f.candidate)
          s.findings (f ∷ []) v.findings_refer (refer, tt);
    recommendations_refer =
        All-imp _ (λ r. recommends evidence (fact_ids s.facts) (s.findings ++ (f ∷ [])) r ≡ true)
          (recommends-findings evidence (fact_ids s.facts) s.findings (f ∷ [])) s.recommendations
          v.recommendations_refer;
  }

  pub grow_recommendations :
      (rs : List Recommendation)
      → are_new (recommendation_ids s.recommendations) (recommendation_ids rs) ≡ true
      → all (recommends evidence (fact_ids s.facts) s.findings) rs ≡ true
      → IsConsistent evidence (record s { recommendations = s.recommendations ++ rs })
  grow_recommendations rs new refer = record {
    unique_facts = v.unique_facts;
    unique_candidates = v.unique_candidates;
    unique_findings = v.unique_findings;
    unique_limitations = v.unique_limitations;
    unique_failures = v.unique_failures;
    facts_cite = v.facts_cite;
    candidates_refer = v.candidates_refer;
    findings_refer = v.findings_refer;
    unique_recommendations =
        grow-AreDistinct Recommendation.id s.recommendations rs v.unique_recommendations new;
    recommendations_refer =
        All-append (λ r. recommends evidence (fact_ids s.facts) s.findings r ≡ true)
          s.recommendations rs v.recommendations_refer
          (All-of-all (recommends evidence (fact_ids s.facts) s.findings) rs refer);
  }

new_one : (x : Text) (used : List Text) → mem x used ≡ false → are_new used (x ∷ []) ≡ true
unfolding are_new
new_one x used h = ground (arith, h)

-- A failure has fresh identifiers.
pub add_failure-IsConsistent :
    (evidence : List Text) (rule : RuleDefinition) (at : ℕ) (code : FailureCode)
    (subject : Option Candidate) (s : State)
    → IsConsistent evidence s
    → IsConsistent evidence (add_failure rule at code subject s)
add_failure-IsConsistent evidence rule at code subject s v =
    let l = failure_limitation rule code subject (limitation_ids s.limitations) in
    let f = partial_failure_of rule at code subject (failure_ids s.partial_failures) in
    let t : State = record s { limitations = s.limitations ++ (l ∷ []) } in
    grow_failures evidence t
      (grow_limitations evidence s v (l ∷ []) (
        new_one l.id (limitation_ids s.limitations)
          (allocate_identifier_fresh _ (limitation_ids s.limitations))))
      (f ∷ [])
      (new_one f.id (failure_ids s.partial_failures)
        (allocate_identifier_fresh _ (failure_ids s.partial_failures)))

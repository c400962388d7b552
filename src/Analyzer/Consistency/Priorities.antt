-- ===== src/Analyzer/Consistency/Priorities.antt =====
-- The priority stage: consistency, and what becomes of every candidate.
use stack_lens.Base.Tests.{ℕ, ◌≡◌, refl, subst, some, List, [], ◌∷◌, ◌++◌, arith}
use stack_lens.Base.Lists.{All, All-imp}
use stack_lens.Base.Distinct.{AreDistinct, are_new}
use stack_lens.Analyzer.Types.{
  Fact, Candidate, Finding, Attempt, done, invariant_broken, crashed, Context, Prioritizer, RuleSet,
  FactRule, FindingRule, RecommendationRule, Schemas,
}
use stack_lens.Analyzer.Validation.{finding_of}
use stack_lens.Analyzer.Pipeline.{
  State, FailureCode, fact_ids, finding_id, finding_ids, limitation_ids, failure_ids, settle,
  evidence_ids, stage_context, try_priority, run_priorities, initial_state, sorted_rules,
  fact_stage, finding_stage, priority_stage, run_stages,
}
use stack_lens.Analyzer.RuleSet.{run_rule_pipeline}
use stack_lens.Analyzer.Consistency.{Refers, IsConsistent}
use stack_lens.Analyzer.Consistency.Growth.{Refers-limitations}
use stack_lens.Analyzer.Consistency.Stages.{
  bind_done, ensure_done, done_inj, settle-IsConsistent, run_fact_rules-IsConsistent,
  run_finding_rules-IsConsistent, run_recommendation_rules-IsConsistent, try_priority-IsConsistent,
}

module _ (schemas : Schemas) {Project Metadata : Type 0} (context : Context Project Metadata)
    (at : ℕ) where
  -- A priority that succeeds adds the finding and nothing else.
  try_priority_lem :
      (stage : Context Project Metadata) (facts : List Fact) (cs : List Candidate)
      (p : Prioritizer Project Metadata) (c : Candidate) (s t : State)
      → try_priority schemas context at stage facts cs p c s ≡ done t
      → (f : Finding) × (record s { findings = s.findings ++ (f ∷ []) } ≡ t)
  unfolding try_priority
  try_priority_lem stage facts cs p c s t h =
      let (emitted, _, h1) = bind_done (p.prioritize stage facts cs c) _ t h in
      let (f, _, h2) = bind_done (finding_of schemas p.definition c emitted) _ t h1 in
      let (_, h3) = ensure_done (are_new (finding_ids s.findings) (finding_id f ∷ [])) _ t h2 in
      (f, done_inj _ t h3)

  abbrev AreReferring : State → List Candidate → Type 0
  AreReferring s cs =
      All (Refers (evidence_ids context) (fact_ids s.facts) (limitation_ids s.limitations)) cs

  settle-AreReferring :
      (stage : Context Project Metadata) (facts : List Fact) (all_candidates : List Candidate)
      (p : Prioritizer Project Metadata) (c : Candidate) (s : State) (cs : List Candidate)
      (outcome : Attempt State)
      → try_priority schemas context at stage facts all_candidates p c s ≡ outcome
      → AreReferring s cs
      → AreReferring
          (settle p.definition at FailureCode.priority_output_invalid
            FailureCode.priority_evaluation_failed
            (some c)
            s
            outcome)
          cs
  settle-AreReferring stage facts ac p c s cs (done t) h refer =
      let (f, e) = try_priority_lem stage facts ac p c s t h in
      subst (λ t. AreReferring t cs) e refer
  settle-AreReferring stage facts ac p c s cs invariant_broken h refer =
      All-imp _ _ (Refers-limitations (evidence_ids context) (fact_ids s.facts) s.limitations _) cs
        refer
  settle-AreReferring stage facts ac p c s cs crashed h refer =
      All-imp _ _ (Refers-limitations (evidence_ids context) (fact_ids s.facts) s.limitations _) cs
        refer

  run_priorities-IsConsistent :
      (stage : Context Project Metadata) (facts : List Fact) (ac : List Candidate)
      (p : Prioritizer Project Metadata) (cs : List Candidate) (s : State)
      → IsConsistent (evidence_ids context) s
      → AreReferring s cs
      → IsConsistent
          (evidence_ids context)
          (run_priorities schemas context at stage facts ac p cs s)
  unfolding run_priorities
  run_priorities-IsConsistent stage facts ac p [] s v refer = v
  run_priorities-IsConsistent stage facts ac p (c ∷ cs) s v refer =
      run_priorities-IsConsistent stage facts ac p cs _
        (settle-IsConsistent (evidence_ids context) p.definition at
          FailureCode.priority_output_invalid FailureCode.priority_evaluation_failed (some c) s
          (try_priority schemas context at stage facts ac p c s) v
          (λ t h. try_priority-IsConsistent schemas context at stage facts ac p c s t v refer.0 h))
        (settle-AreReferring stage facts ac p c s cs _ refl refer.1)

  run_stages-IsConsistent :
      (rules : RuleSet Project Metadata)
      → AreDistinct (limitation_ids context.limitations)
      → AreDistinct (failure_ids context.partial_failures)
      → IsConsistent (evidence_ids context) (run_stages schemas context at rules)
  unfolding run_stages
  run_stages-IsConsistent rules unique_limitations unique_failures =
      let start : IsConsistent (evidence_ids context) (initial_state context) = record {
        unique_facts = tt;
        unique_candidates = tt;
        unique_findings = tt;
        unique_recommendations = tt;
        unique_limitations = unique_limitations;
        unique_failures = unique_failures;
        facts_cite = tt;
        candidates_refer = tt;
        findings_refer = tt;
        recommendations_refer = tt;
      } in
      let fact_rules = sorted_rules FactRule.definition rules.fact_rules in
      let finding_rules = sorted_rules FindingRule.definition rules.finding_rules in
      let s1 = fact_stage schemas context at fact_rules in
      let v1 : IsConsistent (evidence_ids context) s1 =
        run_fact_rules-IsConsistent schemas context at
          (stage_context context (initial_state context)) fact_rules (initial_state context)
          start in
      let s2 = finding_stage schemas context at finding_rules s1 in
      let v2 : IsConsistent (evidence_ids context) s2 =
        run_finding_rules-IsConsistent schemas context at (stage_context context s1) s1.facts
          finding_rules s1 v1 in
      let s3 = priority_stage schemas context at rules.prioritizer s2 in
      let v3 : IsConsistent (evidence_ids context) s3 =
        run_priorities-IsConsistent (stage_context context s2) s2.facts s2.candidates
          rules.prioritizer s2.candidates s2 v2 v2.candidates_refer in
      run_recommendation_rules-IsConsistent schemas context at (stage_context context s3) s3.facts
        s3.findings (sorted_rules RecommendationRule.definition rules.recommendation_rules) s3 v3

-- When the limitations and the failures that come with the input have unique identifiers, the
-- result of an accepted rule set is consistent, whatever its rules emit and whichever throw: the
-- identifiers of its facts, findings, recommendations, limitations and failures are unique; facts
-- cite known evidence; findings refer to known evidence, facts and limitations, and are confident
-- in facts of theirs; and recommendations refer to known evidence, facts and findings, with a
-- heuristic finding exactly if they are heuristic.
pub run_rule_pipeline-IsConsistent :
    (schemas : Schemas) {Project Metadata : Type 0} (context : Context Project Metadata)
    (rules : RuleSet Project Metadata) (at : ℕ) (s : State)
    → AreDistinct (limitation_ids context.limitations)
    → AreDistinct (failure_ids context.partial_failures)
    → run_rule_pipeline schemas context rules at ≡ some s
    → IsConsistent (evidence_ids context) s
unfolding run_rule_pipeline
run_rule_pipeline-IsConsistent schemas context rules at s limits failures h =
    subst (IsConsistent (evidence_ids context)) (ground (arith, h))
      (run_stages-IsConsistent schemas context at rules limits failures)

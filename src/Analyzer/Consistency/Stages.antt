-- ===== src/Analyzer/Consistency/Stages.antt =====
-- Every stage of the pipeline keeps the state consistent.
use stack_lens.Base.Tests.{
  ℕ, ◌≡◌, refl, subst, sym, ap, Bool, true, false, Option, none, List, [], ◌∷◌, ◌++◌,
}
use stack_lens.Base.Lists.{map-append, All-of-all, All, all}
use stack_lens.Base.Text.{Text}
use stack_lens.Base.Distinct.{are_new}
use stack_lens.Contracts.{AnalysisLimitation}
use stack_lens.Rules.Priority.{FindingPriority}
use stack_lens.Analyzer.Types.{
  parsed, RuleDefinition, Fact, Candidate, Finding, Attempt, done, invariant_broken, crashed, ◌>>=◌,
  ensure, Context, FactRule, FindingRule, Prioritizer, RecommendationRule, Schemas,
}
use stack_lens.Analyzer.Validation.{
  validate_fact_rule_result, validate_finding_rule_result, validate_recommendation_rule_result,
  finding_of, is_of_rule,
}
use stack_lens.Analyzer.References.{cites, refers, recommends}
use stack_lens.Analyzer.Pipeline.{
  State, FailureCode, fact_ids, candidate_ids, finding_id, finding_ids, recommendation_ids,
  limitation_ids, settle, evidence_ids, try_fact_rule, run_fact_rules, try_finding_rule,
  run_finding_rules, try_priority, try_recommendation_rule, run_recommendation_rules,
}
use stack_lens.Analyzer.Consistency.{Refers, IsConsistent}
use stack_lens.Analyzer.Consistency.Growth.{
  grow_facts, grow_limitations, grow_candidates, grow_findings, grow_recommendations,
  add_failure-IsConsistent,
}

pub bind_done :
    {A B : Type 0} (m : Attempt A) (f : A → Attempt B) (b : B)
    → (m >>= f) ≡ done b
    → (a : A) × (m ≡ done a) × (f a ≡ done b)
bind_done (done a) f b h = (a, refl, h)
bind_done invariant_broken f b h = cc
bind_done crashed f b h = cc

pub ensure_done :
    {B : Type 0} (t : Bool) (f : Unit {0} → Attempt B) (b : B)
    → (ensure t >>= f) ≡ done b
    → (t ≡ true) × (f tt ≡ done b)
ensure_done true f b h = (refl, h)
ensure_done false f b h = cc

abbrev value_or : {A : Type 0} → A → Attempt A → A
value_or d (done a) = a
value_or d invariant_broken = d
value_or d crashed = d

pub done_inj : {A : Type 0} (a b : A) → done a ≡ done b → a ≡ b
done_inj a b h = ap (value_or a) h

pub settle-IsConsistent :
    (evidence : List Text) (rule : RuleDefinition) (at : ℕ) (invalid failed : FailureCode)
    (subject : Option Candidate) (s : State) (outcome : Attempt State)
    → IsConsistent evidence s
    → ((t : State) → outcome ≡ done t → IsConsistent evidence t)
    → IsConsistent evidence (settle rule at invalid failed subject s outcome)
settle-IsConsistent evidence rule at invalid failed subject s (done t) v keeps = keeps t refl
settle-IsConsistent evidence rule at invalid failed subject s invariant_broken v keeps =
    add_failure-IsConsistent evidence rule at invalid subject s v
settle-IsConsistent evidence rule at invalid failed subject s crashed v keeps =
    add_failure-IsConsistent evidence rule at failed subject s v

module _ (schemas : Schemas) {Project Metadata : Type 0} (context : Context Project Metadata)
    (at : ℕ) where
  try_fact_rule-IsConsistent :
      (stage : Context Project Metadata) (rule : FactRule Project Metadata) (s t : State)
      → IsConsistent (evidence_ids context) s
      → try_fact_rule schemas context at stage rule s ≡ done t
      → IsConsistent (evidence_ids context) t
  unfolding try_fact_rule
  try_fact_rule-IsConsistent stage rule s t v h =
      let (emitted, _, h1) = bind_done (rule.evaluate stage) _ t h in
      let (r, _, h2) =
        bind_done (validate_fact_rule_result schemas rule.definition emitted) _ t h1 in
      let (new, h3) = ensure_done (are_new (fact_ids s.facts) (fact_ids r.facts)) _ t h2 in
      let (cited, h4) = ensure_done (all (cites (evidence_ids context)) r.facts) _ t h3 in
      let (fresh, h5) =
        ensure_done (are_new (limitation_ids s.limitations) (limitation_ids r.limitations)) _ t
          h4 in
      let with_facts : State = record s { facts = s.facts ++ r.facts } in
      subst (IsConsistent (evidence_ids context)) (done_inj _ t h5) (
        grow_limitations (evidence_ids context) with_facts
          (grow_facts (evidence_ids context) s v r.facts new cited) r.limitations fresh)

  pub run_fact_rules-IsConsistent :
      (stage : Context Project Metadata) (rules : List (FactRule Project Metadata)) (s : State)
      → IsConsistent (evidence_ids context) s
      → IsConsistent (evidence_ids context) (run_fact_rules schemas context at stage rules s)
  unfolding run_fact_rules
  run_fact_rules-IsConsistent stage [] s v = v
  run_fact_rules-IsConsistent stage (rule ∷ rest) s v = run_fact_rules-IsConsistent stage rest _ (
      settle-IsConsistent (evidence_ids context) rule.definition at FailureCode.rule_output_invalid
        FailureCode.rule_evaluation_failed none s (try_fact_rule schemas context at stage rule s) v
        (λ t h. try_fact_rule-IsConsistent stage rule s t v h))

  try_finding_rule-IsConsistent :
      (stage : Context Project Metadata) (facts : List Fact) (rule : FindingRule Project Metadata)
      (s t : State)
      → IsConsistent (evidence_ids context) s
      → try_finding_rule schemas context at stage facts rule s ≡ done t
      → IsConsistent (evidence_ids context) t
  unfolding try_finding_rule
  try_finding_rule-IsConsistent stage facts rule s t v h =
      let (emitted, _, h1) = bind_done (rule.evaluate stage facts) _ t h in
      let (r, _, h2) =
        bind_done (validate_finding_rule_result schemas rule.definition emitted) _ t h1 in
      let (new, h3) =
        ensure_done (are_new (candidate_ids s.candidates) (candidate_ids r.findings)) _ t h2 in
      let (fresh, h4) =
        ensure_done (are_new (limitation_ids s.limitations) (limitation_ids r.limitations)) _ t
          h3 in
      let visible = limitation_ids s.limitations ++ limitation_ids r.limitations in
      let (refer, h5) =
        ensure_done (all (refers (evidence_ids context) (fact_ids s.facts) visible) r.findings) _ t
          h4 in
      let limited : State = record s { limitations = s.limitations ++ r.limitations } in
      subst (IsConsistent (evidence_ids context)) (done_inj _ t h5) (
        grow_candidates (evidence_ids context) limited
          (grow_limitations (evidence_ids context) s v r.limitations fresh) r.findings new
          (subst (λ l. All (Refers (evidence_ids context) (fact_ids s.facts) l) r.findings)
            (sym (map-append AnalysisLimitation.id s.limitations r.limitations))
            (All-of-all (refers (evidence_ids context) (fact_ids s.facts) visible) r.findings
              refer)))

  pub run_finding_rules-IsConsistent :
      (stage : Context Project Metadata) (facts : List Fact)
      (rules : List (FindingRule Project Metadata)) (s : State)
      → IsConsistent (evidence_ids context) s
      → IsConsistent
          (evidence_ids context)
          (run_finding_rules schemas context at stage facts rules s)
  unfolding run_finding_rules
  run_finding_rules-IsConsistent stage facts [] s v = v
  run_finding_rules-IsConsistent stage facts (rule ∷ rest) s v =
      run_finding_rules-IsConsistent stage facts rest _ (
        settle-IsConsistent (evidence_ids context) rule.definition at
          FailureCode.rule_output_invalid FailureCode.rule_evaluation_failed none s
          (try_finding_rule schemas context at stage facts rule s) v
          (λ t h. try_finding_rule-IsConsistent stage facts rule s t v h))

  finding_of_candidate :
      (rule : RuleDefinition) (c : Candidate) (priority : FindingPriority) (f : Finding)
      → finding_of schemas rule c priority ≡ done f
      → c ≡ f.candidate
  unfolding finding_of
  finding_of_candidate rule c priority f h =
      let (read, _, h1) = bind_done (parsed (schemas.read_priority priority)) _ f h in
      let (_, h2) = ensure_done (is_of_rule rule read.rule) _ f h1 in
      ap Finding.candidate (done_inj _ f h2)

  pub try_priority-IsConsistent :
      (stage : Context Project Metadata) (facts : List Fact) (cs : List Candidate)
      (p : Prioritizer Project Metadata) (c : Candidate) (s t : State)
      → IsConsistent (evidence_ids context) s
      → Refers (evidence_ids context) (fact_ids s.facts) (limitation_ids s.limitations) c
      → try_priority schemas context at stage facts cs p c s ≡ done t
      → IsConsistent (evidence_ids context) t
  unfolding try_priority
  try_priority-IsConsistent stage facts cs p c s t v refer h =
      let (emitted, _, h1) = bind_done (p.prioritize stage facts cs c) _ t h in
      let (f, e, h2) = bind_done (finding_of schemas p.definition c emitted) _ t h1 in
      let (new, h3) = ensure_done (are_new (finding_ids s.findings) (finding_id f ∷ [])) _ t h2 in
      subst (IsConsistent (evidence_ids context)) (done_inj _ t h3) (
        grow_findings (evidence_ids context) s v f new (
          subst (Refers (evidence_ids context) (fact_ids s.facts) (limitation_ids s.limitations))
            (finding_of_candidate p.definition c emitted f e) refer))

  try_recommendation_rule-IsConsistent :
      (stage : Context Project Metadata) (facts : List Fact) (findings : List Finding)
      (rule : RecommendationRule Project Metadata) (s t : State)
      → IsConsistent (evidence_ids context) s
      → try_recommendation_rule schemas context at stage facts findings rule s ≡ done t
      → IsConsistent (evidence_ids context) t
  unfolding try_recommendation_rule
  try_recommendation_rule-IsConsistent stage facts findings rule s t v h =
      let (emitted, _, h1) = bind_done (rule.evaluate stage facts findings) _ t h in
      let (r, _, h2) =
        bind_done (validate_recommendation_rule_result schemas rule.definition emitted) _ t h1 in
      let (new, h3) =
        ensure_done
          (are_new (recommendation_ids s.recommendations) (recommendation_ids r.recommendations)) _
          t h2 in
      let (fresh, h4) =
        ensure_done (are_new (limitation_ids s.limitations) (limitation_ids r.limitations)) _ t
          h3 in
      let (refer, h5) =
        ensure_done
          (all (recommends (evidence_ids context) (fact_ids s.facts) s.findings) r.recommendations)
          _ t h4 in
      let recommended : State = record s {
        recommendations = s.recommendations ++ r.recommendations;
      } in
      subst (IsConsistent (evidence_ids context)) (done_inj _ t h5) (
        grow_limitations (evidence_ids context) recommended
          (grow_recommendations (evidence_ids context) s v r.recommendations new refer)
          r.limitations fresh)

  pub run_recommendation_rules-IsConsistent :
      (stage : Context Project Metadata) (facts : List Fact) (findings : List Finding)
      (rules : List (RecommendationRule Project Metadata)) (s : State)
      → IsConsistent (evidence_ids context) s
      → IsConsistent
          (evidence_ids context)
          (run_recommendation_rules schemas context at stage facts findings rules s)
  unfolding run_recommendation_rules
  run_recommendation_rules-IsConsistent stage facts findings [] s v = v
  run_recommendation_rules-IsConsistent stage facts findings (rule ∷ rest) s v =
      run_recommendation_rules-IsConsistent stage facts findings rest _ (
        settle-IsConsistent (evidence_ids context) rule.definition at
          FailureCode.rule_output_invalid FailureCode.rule_evaluation_failed none s
          (try_recommendation_rule schemas context at stage facts findings rule s) v
          (λ t h. try_recommendation_rule-IsConsistent stage facts findings rule s t v h))

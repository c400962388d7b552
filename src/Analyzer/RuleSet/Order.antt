-- ===== src/Analyzer/RuleSet/Order.antt =====
-- The order in which a rule set lists its rules.
use mathlib.Core.List.{Permᴰ}
use stack_lens.Base.Tests.{
  Bool-cases, inl, inr, ℕ, ◌≡◌, refl, subst, ap, ◌∙◌, true, some, List, [], map, arith,
}
use stack_lens.Base.Lists.{map-append, map-map}
use stack_lens.Base.Distinct.{
  AreDistinct, are_new, are_new-AreDistinct, AreDistinct-are_new, AreDistinct-left,
  AreDistinct-right,
}
use stack_lens.Base.Permute.{
  Permᴰ_sym, append_left-Permᴰ, append_right-Permᴰ, map-Permᴰ, all-permute, AreDistinct-permute,
  sort-permute,
}
use stack_lens.Analyzer.Types.{
  RuleDefinition, Context, FactRule, FindingRule, Prioritizer, RecommendationRule, RuleSet, Schemas,
}
use stack_lens.Analyzer.Pipeline.{
  run_stages, fact_stage, finding_stage, priority_stage, recommendation_stage, sorted_rules,
}
use stack_lens.Analyzer.RuleSet.{is_definition, definitions, is_accepted, run_rule_pipeline}

sorted_rules-permute :
    {A : Type 0} (definition : A → RuleDefinition) (xs ys : List A)
    → AreDistinct (map RuleDefinition.id (map definition xs))
    → Permᴰ xs ys
    → sorted_rules definition xs ≡ sorted_rules definition ys
sorted_rules-permute definition xs ys d p =
    sort-permute (λ r. (definition r).id) p
      (subst AreDistinct (map-map definition RuleDefinition.id xs) d)

module _ {Project Metadata : Type 0} where
  -- The rule set `rules` with its lists of rules in another order.
  abbrev reordered :
      RuleSet Project Metadata
      → List (FactRule Project Metadata)
      → List (FindingRule Project Metadata)
      → List (RecommendationRule Project Metadata)
      → RuleSet Project Metadata
  reordered rules fs gs rs = record rules {
    fact_rules = fs;
    finding_rules = gs;
    recommendation_rules = rs;
  }

  definitions-Permᴰ :
      (rules : RuleSet Project Metadata) (fs : List (FactRule Project Metadata))
      (gs : List (FindingRule Project Metadata)) (rs : List (RecommendationRule Project Metadata))
      → Permᴰ rules.fact_rules fs
      → Permᴰ rules.finding_rules gs
      → Permᴰ rules.recommendation_rules rs
      → Permᴰ (definitions rules) (definitions (reordered rules fs gs rs))
  definitions-Permᴰ rules fs gs rs p q r =
      Permᴰ.trans
        (append_right-Permᴰ (definitions (record rules { fact_rules = [] }))
          (map-Permᴰ FactRule.definition p))
        (append_left-Permᴰ (map FactRule.definition fs) (
          Permᴰ.trans
            (append_right-Permᴰ (definitions (record rules { fact_rules = []; finding_rules = [] }))
              (map-Permᴰ FindingRule.definition q))
            (append_left-Permᴰ (map FindingRule.definition gs)
              (Permᴰ.cons refl (map-Permᴰ RecommendationRule.definition r)))))

  accepted_distinct :
      (schemas : Schemas) (rules : RuleSet Project Metadata)
      → is_accepted schemas rules ≡ true
      → AreDistinct (map RuleDefinition.id (definitions rules))
  unfolding is_accepted
  accepted_distinct schemas rules h =
      let new : are_new [] (map RuleDefinition.id (definitions rules)) ≡ true = ground (arith, h) in
      are_new-AreDistinct [] (map RuleDefinition.id (definitions rules)) tt new

  is_accepted-permute :
      (schemas : Schemas) (rules others : RuleSet Project Metadata)
      → rules.version ≡ others.version
      → rules.prioritizer ≡ others.prioritizer
      → Permᴰ (definitions rules) (definitions others)
      → is_accepted schemas rules ≡ true
      → is_accepted schemas others ≡ true
  unfolding is_accepted
  is_accepted-permute schemas rules others version prioritizer p h =
      let new =
        AreDistinct-are_new [] (map RuleDefinition.id (definitions others)) (
          AreDistinct-permute (map-Permᴰ RuleDefinition.id p)
            (accepted_distinct schemas rules h)) in
      ground (
        arith,
        h,
        all-permute (is_definition schemas) p,
        new,
        ap schemas.is_identifier version,
        ap Prioritizer.is_priority prioritizer,
      )

  run_stages-permute :
      (schemas : Schemas) (context : Context Project Metadata) (at : ℕ)
      (rules : RuleSet Project Metadata) (fs : List (FactRule Project Metadata))
      (gs : List (FindingRule Project Metadata)) (rs : List (RecommendationRule Project Metadata))
      → AreDistinct (map RuleDefinition.id (definitions rules))
      → Permᴰ rules.fact_rules fs
      → Permᴰ rules.finding_rules gs
      → Permᴰ rules.recommendation_rules rs
      → run_stages schemas context at rules
        ≡ run_stages schemas context at (reordered rules fs gs rs)
  unfolding run_stages
  run_stages-permute schemas context at rules fs gs rs d p q r =
      let f_ids = map FactRule.definition rules.fact_rules in
      let g_ids = map FindingRule.definition rules.finding_rules in
      let r_ids = map RecommendationRule.definition rules.recommendation_rules in
      let split = subst AreDistinct (map-append RuleDefinition.id f_ids _) d in
      let after = AreDistinct-right (map RuleDefinition.id f_ids) _ split in
      let split' = subst AreDistinct (map-append RuleDefinition.id g_ids _) after in
      let f_sorted =
        sorted_rules-permute FactRule.definition rules.fact_rules fs
          (AreDistinct-left (map RuleDefinition.id f_ids) _ split) p in
      let g_sorted =
        sorted_rules-permute FindingRule.definition rules.finding_rules gs
          (AreDistinct-left (map RuleDefinition.id g_ids) _ split') q in
      let r_sorted =
        sorted_rules-permute RecommendationRule.definition rules.recommendation_rules rs
          (AreDistinct-right (map RuleDefinition.id g_ids) _ split').1 r in
      let priorities = priority_stage schemas context at rules.prioritizer in
      let findings = finding_stage schemas context at in
      ap
        (λ l.
          recommendation_stage schemas context at
            (sorted_rules RecommendationRule.definition rules.recommendation_rules)
            (priorities (
              findings (sorted_rules FindingRule.definition rules.finding_rules)
                (fact_stage schemas context at l))))
        f_sorted
      ∙ ap
          (λ l.
            recommendation_stage schemas context at
              (sorted_rules RecommendationRule.definition rules.recommendation_rules)
              (priorities
                (findings l (fact_stage schemas context at (sorted_rules FactRule.definition fs)))))
          g_sorted
      ∙ ap
          (λ l. recommendation_stage schemas context at l (
            priorities (
              findings (sorted_rules FindingRule.definition gs)
                (fact_stage schemas context at (sorted_rules FactRule.definition fs)))))
          r_sorted

-- The order in which a rule set lists its fact rules, its finding rules and its recommendation
-- rules decides nothing: neither whether it is accepted nor anything of the result.
pub run_rule_pipeline-permute :
    (schemas : Schemas) {Project Metadata : Type 0} (context : Context Project Metadata)
    (rules : RuleSet Project Metadata) (at : ℕ) (fact_rules : List (FactRule Project Metadata))
    (finding_rules : List (FindingRule Project Metadata))
    (recommendation_rules : List (RecommendationRule Project Metadata))
    → Permᴰ rules.fact_rules fact_rules
    → Permᴰ rules.finding_rules finding_rules
    → Permᴰ rules.recommendation_rules recommendation_rules
    → run_rule_pipeline schemas context rules at
      ≡ run_rule_pipeline schemas context
          (record rules {
            fact_rules = fact_rules;
            finding_rules = finding_rules;
            recommendation_rules = recommendation_rules;
          })
          at
unfolding run_rule_pipeline
run_rule_pipeline-permute schemas context rules at fs gs rs p q r =
    let others = reordered rules fs gs rs in
    let d = definitions-Permᴰ rules fs gs rs p q r in
    let there = is_accepted-permute schemas rules others refl refl d in
    let back = is_accepted-permute schemas others rules refl refl (Permᴰ_sym d) in
    elim (Bool-cases (is_accepted schemas rules)) [
      | inl e ↦
          rw (e, there e)
            (ap some (
              run_stages-permute schemas context at rules fs gs rs
                (accepted_distinct schemas rules e) p q r))
      | inr e ↦ elim (Bool-cases (is_accepted schemas others)) [
        | inl e' ↦ ground (arith, back e', e)
        | inr e' ↦ rw (e, e') refl
      ]
    ]

-- ===== src/Report/Assembly.antt =====
-- The report of a run of the rules (packages/analyzer-core/src/pipeline.ts and report.ts with
-- packages/contracts/src/analysis-report.ts).
use stack_lens.Base.Tests.{
  ℕ, ◌≡◌, refl, ap, ◌∙◌, sym, subst, true, false, not, ◌||◌, Option, none, some, List, [], ◌∷◌,
  is_some, arith, if◌then◌else◌, Bool-cases, inl, inr, Option-cases,
}
use stack_lens.Base.Lists.{All, all, any}
use stack_lens.Base.Text.{Text, ◌===◌, ===_iff, ===_sym}
use stack_lens.Base.Table.{mem}
use stack_lens.Base.Distinct.{AreDistinct, are_within}
use stack_lens.Analyzer.Types.{Basis, Finding, Recommendation, Context, RuleSet, Schemas}
use stack_lens.Analyzer.References.{
  find_finding, names_heuristic, are_known, has_basis, recommends, refers, is_heuristic,
}
use stack_lens.Analyzer.Pipeline.{finding_ids, fact_ids, limitation_ids, failure_ids}
use stack_lens.Analyzer.RuleSet.{run_rule_pipeline}
use stack_lens.Analyzer.Consistency.{IsConsistent}
use stack_lens.Analyzer.Consistency.Priorities.{run_rule_pipeline-IsConsistent}
use stack_lens.Report.{SchemaVersion, ReportForValidation}
use stack_lens.Report.References.{
  otherwise, last_with, finding_with, referenced, is_heuristic_finding,
}
use stack_lens.Report.References.Clear.{is_sound_finding, has_source}
use stack_lens.Report.References.Recommendations.{
  is_sound_recommendation, are_known_findings, is_based,
}
use stack_lens.Report.References.Scopes.{is_of_known_scope, has_limitations}
use stack_lens.Report.Checks.Clear.{is_sound_score, is_sound_category}
use stack_lens.Report.Validation.{
  Assembly, report_of, refined, parse_report, assemble_analysis_report, source_ids, known_evidence,
  contribution_ids,
}
use stack_lens.Report.Validation.Soundness.{
  IsSound, is_sound_contribution, validate_report_iff, all_of_All,
}

-- Without repeated identifiers the first finding with one is the last.
no_last : (i : Text) (fs : List Finding) → mem i (finding_ids fs) ≡ false → finding_with fs i ≡ none
unfolding last_with
no_last i [] h = refl
no_last i (f ∷ fs) h = ground (arith, no_last i fs, ===_sym i f.candidate.id, h)

otherwise_none : (o : Option Finding) → otherwise o none ≡ o
otherwise_none none = refl
otherwise_none (some f) = refl

finding_with_lem :
    (i : Text) (fs : List Finding)
    → AreDistinct (finding_ids fs)
    → finding_with fs i ≡ find_finding i fs
unfolding last_with find_finding
finding_with_lem i [] d = refl
finding_with_lem i (f ∷ fs) d = elim (Bool-cases (f.candidate.id === i)) [
  | inl e ↦
      let absent =
        no_last i fs
          (subst (λ k. mem k (finding_ids fs) ≡ false) ((===_iff f.candidate.id i).0 e) d.0) in
      rw (absent, e) refl
  | inr e ↦ rw (finding_with_lem i fs d.1, e) (otherwise_none (find_finding i fs))
]

any_heuristic :
    (fs : List Finding) (ids : List Text)
    → AreDistinct (finding_ids fs)
    → any is_heuristic_finding (referenced fs ids) ≡ any (λ i. names_heuristic fs i) ids
unfolding referenced
any_heuristic fs [] d = refl
any_heuristic fs (i ∷ ids) d =
    let same = finding_with_lem i fs d in
    elim (Option-cases (find_finding i fs)) [
      | inl e ↦ rw (same, e, referenced) (any_heuristic fs ids d)
      | inr (f, e) ↦
          rw (same, e, referenced) (ap (λ b. is_heuristic_finding f || b) (any_heuristic fs ids d))
    ]

are_known_same :
    (fs : List Finding) (ids : List Text)
    → AreDistinct (finding_ids fs)
    → are_known_findings fs ids ≡ are_known fs ids
are_known_same fs [] d = refl
are_known_same fs (i ∷ ids) d =
    ground (arith, ap is_some (finding_with_lem i fs d), are_known_same fs ids d)

is_based_of_has_basis :
    (fs : List Finding) (basis : Basis) (ids : List Text)
    → AreDistinct (finding_ids fs)
    → (if is_heuristic basis
        then any (λ i. names_heuristic fs i) ids
        else not (any (λ i. names_heuristic fs i) ids))
      ≡ true
    → is_based fs basis ids ≡ true
is_based_of_has_basis fs Basis.fact ids d h = ap not (any_heuristic fs ids d) ∙ h
is_based_of_has_basis fs (Basis.heuristic facts) ids d h =
    ground (arith, any_heuristic fs ids d ∙ h)

-- What the pipeline asks of a recommendation is what the report asks.
recommends-is_sound :
    (evidence facts : List Text) (fs : List Finding)
    → AreDistinct (finding_ids fs)
    → (rs : List Recommendation) → All (λ r. recommends evidence facts fs r ≡ true) rs
    → all (is_sound_recommendation evidence facts fs) rs ≡ true
recommends-is_sound evidence facts fs d [] h = refl
recommends-is_sound evidence facts fs d (r ∷ rs) h =
    let recommended : recommends evidence facts fs r ≡ true = h.0 in
    let based : has_basis fs r ≡ true = ground (arith, recommended) in
    ground (
      arith,
      recommended,
      are_known_same fs r.finding_ids d,
      is_based_of_has_basis fs r.basis r.finding_ids d based,
      recommends-is_sound evidence facts fs d rs h.1,
    )

refers-is_sound :
    (evidence facts limitations : List Text) (fs : List Finding)
    → All (λ f. refers evidence facts limitations f.candidate ≡ true) fs
    → all (λ f. all (λ factor. are_within factor.evidence_ids evidence) f.priority.factors) fs
      ≡ true
    → all (is_sound_finding evidence facts limitations) fs ≡ true
refers-is_sound evidence facts limitations [] h k = refl
refers-is_sound evidence facts limitations (f ∷ fs) h k =
    let first = h.0 in ground (arith, first, k, refers-is_sound evidence facts limitations fs h.1)

-- What a report needs besides a result of the rules: its version, and what is asked of the sources, the evidence, the factors of
-- the priorities, the sources and limitations that the result names, and the scores.
pub record IsCompleted (a : Assembly) : Type 0 where
  pub version : a.schema_version ≡ some SchemaVersion.version_2
  pub unique_sources : AreDistinct (source_ids a.sources)
  pub unique_evidence : AreDistinct (known_evidence a.evidence)
  pub unique_contributions : AreDistinct (contribution_ids a.scores.contributions)
  pub evidence_has_sources : all (has_source a.sources) a.evidence ≡ true
  pub factors_cite :
      all
        (λ f.
          all
            (λ factor. are_within factor.evidence_ids (known_evidence a.evidence))
            f.priority.factors)
        a.rule_result.findings
      ≡ true
  pub contributions_refer :
      all
        (is_sound_contribution
          (known_evidence a.evidence)
          (finding_ids a.rule_result.findings)
          (fact_ids a.rule_result.facts))
        a.scores.contributions
      ≡ true
  pub overall_is_sound :
      is_sound_score a.rule_result.facts
        (contribution_ids a.scores.contributions)
        (limitation_ids a.rule_result.limitations)
        none
        a.scores.overall
      ≡ true
  pub categories_are_sound :
      all
        (is_sound_category a.rule_result.facts
          (contribution_ids a.scores.contributions)
          (limitation_ids a.rule_result.limitations))
        a.scores.categories
      ≡ true
  pub limitations_have_sources :
      all (λ l. are_within l.source_ids (source_ids a.sources)) a.rule_result.limitations ≡ true
  pub failures_have_sources :
      all (is_of_known_scope (source_ids a.sources)) a.rule_result.partial_failures ≡ true
  pub checks_have_limitations :
      all (has_limitations (limitation_ids a.rule_result.limitations)) a.rule_result.facts ≡ true

report_of-IsSound :
    (a : Assembly)
    → IsConsistent (known_evidence a.evidence) a.rule_result
    → IsCompleted a
    → IsSound (report_of a)
report_of-IsSound a v c = record {
  unique_sources = c.unique_sources;
  unique_evidence = c.unique_evidence;
  unique_facts = v.unique_facts;
  unique_findings = v.unique_findings;
  unique_recommendations = v.unique_recommendations;
  unique_limitations = v.unique_limitations;
  unique_failures = v.unique_failures;
  unique_contributions = c.unique_contributions;
  evidence_has_sources = c.evidence_has_sources;
  facts_cite = all_of_All _ a.rule_result.facts v.facts_cite;
  findings_refer = refers-is_sound _ _ _ a.rule_result.findings v.findings_refer c.factors_cite;
  recommendations_refer =
      recommends-is_sound _ _ a.rule_result.findings v.unique_findings a.rule_result.recommendations
        v.recommendations_refer;
  contributions_refer = c.contributions_refer;
  overall_is_sound = c.overall_is_sound;
  categories_are_sound = c.categories_are_sound;
  limitations_have_sources = c.limitations_have_sources;
  failures_have_sources = c.failures_have_sources;
  checks_have_limitations = c.checks_have_limitations;
}

pub parse_report-refined :
    (read : ReportForValidation → Option ReportForValidation) (r : ReportForValidation)
    → r.schema_version ≡ SchemaVersion.version_2
    → parse_report read r ≡ refined (read r)
unfolding parse_report
parse_report-refined read r e = rw e refl

-- The result of an accepted rule set, run on evidence and on limitations and failures with unique
-- identifiers, is assembled to a report: if the schema of the fields gives the report back and the
-- rest of it is complete, with version 2.0.0 asked for, validation throws nothing over the result,
-- whatever the rules emit.
pub assemble_analysis_report_lem :
    (schemas : Schemas) {Project Metadata : Type 0} (context : Context Project Metadata)
    (rules : RuleSet Project Metadata) (at : ℕ)
    (read : ReportForValidation → Option ReportForValidation) (a : Assembly)
    → AreDistinct (limitation_ids context.limitations)
    → AreDistinct (failure_ids context.partial_failures)
    → run_rule_pipeline schemas context rules at ≡ some a.rule_result
    → a.evidence ≡ context.evidence
    → IsCompleted a
    → read (report_of a) ≡ some (report_of a)
    → assemble_analysis_report read a ≡ some (report_of a)
unfolding assemble_analysis_report refined
assemble_analysis_report_lem schemas context rules at read a limits failures run same complete
      kept =
    let consistent =
      run_rule_pipeline-IsConsistent schemas context rules at a.rule_result limits failures run in
    let sound =
      report_of-IsSound a
        (subst (λ es. IsConsistent (known_evidence es) a.rule_result) (sym same) consistent)
        complete in
    let accepted : refined (read (report_of a)) ≡ some (report_of a) =
      rw (kept, refined, (validate_report_iff (report_of a)).1 sound) refl in
    parse_report-refined read (report_of a) (rw complete.version refl) ∙ accepted

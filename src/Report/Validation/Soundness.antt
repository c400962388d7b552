-- ===== src/Report/Validation/Soundness.antt =====
-- The reports that validation accepts are the sound ones.
use stack_lens.Base.Tests.{
  ◌≡◌, ◌↔◌, refl, ap, ◌∙◌, sym, Bool, true, ◌&&◌, none, List, [], ◌∷◌, arith,
}
use stack_lens.Base.Lists.{All, all, All-of-all}
use stack_lens.Base.Text.{Text, text}
use stack_lens.Base.Distinct.{AreDistinct, are_new-AreDistinct, AreDistinct-are_new, are_within}
use stack_lens.Scoring.Types.{Explanation}
use stack_lens.Analyzer.References.{cites}
use stack_lens.Analyzer.Pipeline.{
  fact_ids, finding_ids, recommendation_ids, limitation_ids, failure_ids,
}
use stack_lens.Report.{ReportForValidation, Issue}
use stack_lens.Report.Issues.{
  each, duplicate_issues, is_clear, is_clear-append, is_clear-each, is_clear_iff,
  is_clear-duplicate_issues,
}
use stack_lens.Report.References.{
  evidence_issues, fact_issues, finding_issues, recommendation_issues, contribution_issues,
  limitation_issues, failure_issues, fact_limitation_issues,
}
use stack_lens.Report.References.Clear.{
  has_source, is_sound_finding, is_clear-evidence_issues, is_clear-fact_issues,
  is_clear-finding_issues,
}
use stack_lens.Report.References.Recommendations.{
  is_sound_recommendation, is_clear-recommendation_issues,
}
use stack_lens.Report.References.Scopes.{
  is_of_known_scope, has_limitations, is_clear-contribution_issues, is_clear-limitation_issues,
  is_clear-failure_issues, is_clear-fact_limitation_issues,
}
use stack_lens.Report.Checks.Clear.{
  is_sound_score, is_sound_category, is_clear-score_issues, is_clear-categories_issues,
}
use stack_lens.Report.Validation.{
  source_ids, known_evidence, contribution_ids, concat, sections, validate_report,
}

abbrev pub is_sound_contribution : List Text → List Text → List Text → Explanation → Bool
is_sound_contribution evidence findings facts c =
    are_within c.evidence_ids evidence
    && (are_within c.finding_ids findings && are_within c.fact_ids facts)

-- Identifiers are unique and references known; the scores agree with the checks.
pub record IsSound (r : ReportForValidation) : Type 0 where
  pub unique_sources : AreDistinct (source_ids r.sources)
  pub unique_evidence : AreDistinct (known_evidence r.evidence)
  pub unique_facts : AreDistinct (fact_ids r.facts)
  pub unique_findings : AreDistinct (finding_ids r.findings)
  pub unique_recommendations : AreDistinct (recommendation_ids r.recommendations)
  pub unique_limitations : AreDistinct (limitation_ids r.limitations)
  pub unique_failures : AreDistinct (failure_ids r.partial_failures)
  pub unique_contributions : AreDistinct (contribution_ids r.scores.contributions)
  pub evidence_has_sources : all (has_source r.sources) r.evidence ≡ true
  pub facts_cite : all (cites (known_evidence r.evidence)) r.facts ≡ true
  pub findings_refer :
      all
        (is_sound_finding
          (known_evidence r.evidence)
          (fact_ids r.facts)
          (limitation_ids r.limitations))
        r.findings
      ≡ true
  pub recommendations_refer :
      all
        (is_sound_recommendation (known_evidence r.evidence) (fact_ids r.facts) r.findings)
        r.recommendations
      ≡ true
  pub contributions_refer :
      all
        (is_sound_contribution
          (known_evidence r.evidence)
          (finding_ids r.findings)
          (fact_ids r.facts))
        r.scores.contributions
      ≡ true
  pub overall_is_sound :
      is_sound_score r.facts
        (contribution_ids r.scores.contributions)
        (limitation_ids r.limitations)
        none
        r.scores.overall
      ≡ true
  pub categories_are_sound :
      all
        (is_sound_category r.facts
          (contribution_ids r.scores.contributions)
          (limitation_ids r.limitations))
        r.scores.categories
      ≡ true
  pub limitations_have_sources :
      all (λ l. are_within l.source_ids (source_ids r.sources)) r.limitations ≡ true
  pub failures_have_sources :
      all (is_of_known_scope (source_ids r.sources)) r.partial_failures ≡ true
  pub checks_have_limitations : all (has_limitations (limitation_ids r.limitations)) r.facts ≡ true

is_clear-concat : (xss : List (List Issue)) → is_clear (concat xss) ≡ all is_clear xss
is_clear-concat [] = refl
is_clear-concat (xs ∷ xss) =
    is_clear-append xs (concat xss) ∙ ap (λ b. is_clear xs && b) (is_clear-concat xss)

duplicates_iff :
    (collection : Text) (ids : List Text)
    → (is_clear (duplicate_issues collection [] 0 ids) ≡ true) ↔ AreDistinct ids
duplicates_iff collection ids =
    let same = is_clear-duplicate_issues collection [] 0 ids in
    (λ h. are_new-AreDistinct [] ids tt (sym same ∙ h), λ d. same ∙ AreDistinct-are_new [] ids d)

pub all_of_All {ℓ} :
    {A : Type ℓ} (p : A → Bool) (xs : List A) → All (λ x. p x ≡ true) xs → all p xs ≡ true
all_of_All p [] h = refl
all_of_All p (x ∷ xs) h = ground (arith, h.0, all_of_All p xs h.1)

-- Each part of the validation is clear exactly if one field of `IsSound` holds.
module _ (r : ReportForValidation) where
  abbrev evidence : List Text
  evidence = known_evidence r.evidence

  abbrev facts : List Text
  facts = fact_ids r.facts

  abbrev limitations : List Text
  limitations = limitation_ids r.limitations

  abbrev contributions : List Text
  contributions = contribution_ids r.scores.contributions

  evidence_same :
      is_clear (each (evidence_issues r.sources) 0 r.evidence)
      ≡ all (has_source r.sources) r.evidence
  evidence_same =
      is_clear-each (evidence_issues r.sources) (has_source r.sources)
        (is_clear-evidence_issues r.sources) 0 r.evidence

  facts_same : is_clear (each (fact_issues evidence) 0 r.facts) ≡ all (cites evidence) r.facts
  facts_same =
      is_clear-each (fact_issues evidence) (cites evidence) (is_clear-fact_issues evidence) 0
        r.facts

  findings_same :
      is_clear (each (finding_issues evidence facts limitations) 0 r.findings)
      ≡ all (is_sound_finding evidence facts limitations) r.findings
  findings_same =
      is_clear-each (finding_issues evidence facts limitations)
        (is_sound_finding evidence facts limitations)
        (is_clear-finding_issues evidence facts limitations) 0 r.findings

  recommendations_same :
      is_clear (each (recommendation_issues evidence facts r.findings) 0 r.recommendations)
      ≡ all (is_sound_recommendation evidence facts r.findings) r.recommendations
  recommendations_same =
      is_clear-each (recommendation_issues evidence facts r.findings)
        (is_sound_recommendation evidence facts r.findings)
        (is_clear-recommendation_issues evidence facts r.findings) 0 r.recommendations

  contributions_same :
      is_clear (
        each (contribution_issues evidence (finding_ids r.findings) facts) 0 r.scores.contributions)
      ≡ all (is_sound_contribution evidence (finding_ids r.findings) facts) r.scores.contributions
  contributions_same =
      is_clear-each (contribution_issues evidence (finding_ids r.findings) facts)
        (is_sound_contribution evidence (finding_ids r.findings) facts)
        (is_clear-contribution_issues evidence (finding_ids r.findings) facts) 0
        r.scores.contributions

  limitations_same :
      is_clear (each (limitation_issues (source_ids r.sources)) 0 r.limitations)
      ≡ all (λ l. are_within l.source_ids (source_ids r.sources)) r.limitations
  limitations_same =
      is_clear-each (limitation_issues (source_ids r.sources))
        (λ l. are_within l.source_ids (source_ids r.sources))
        (is_clear-limitation_issues (source_ids r.sources)) 0 r.limitations

  failures_same :
      is_clear (each (failure_issues (source_ids r.sources)) 0 r.partial_failures)
      ≡ all (is_of_known_scope (source_ids r.sources)) r.partial_failures
  failures_same =
      is_clear-each (failure_issues (source_ids r.sources))
        (is_of_known_scope (source_ids r.sources)) (is_clear-failure_issues (source_ids r.sources))
        0 r.partial_failures

  checks_same :
      is_clear (each (fact_limitation_issues limitations) 0 r.facts)
      ≡ all (has_limitations limitations) r.facts
  checks_same =
      is_clear-each (fact_limitation_issues limitations) (has_limitations limitations)
        (is_clear-fact_limitation_issues limitations) 0 r.facts

  sections-IsSound : All (λ is. is_clear is ≡ true) (sections r) → IsSound r
  unfolding sections
  sections-IsSound
        (
          a,
          (b, (c, (d, (e, (f, (g, (h, (i, (j, (k, (l, (m, (n, (o, (p, (q, (s, _))))))))))))))))),
        ) =
      record {
        unique_sources = (duplicates_iff (text "sources") (source_ids r.sources)).0 a;
        unique_evidence = (duplicates_iff (text "evidence") evidence).0 b;
        unique_facts = (duplicates_iff (text "facts") facts).0 c;
        unique_findings = (duplicates_iff (text "findings") (finding_ids r.findings)).0 d;
        unique_recommendations =
            (duplicates_iff (text "recommendations") (recommendation_ids r.recommendations)).0 e;
        unique_limitations = (duplicates_iff (text "limitations") limitations).0 f;
        unique_failures =
            (duplicates_iff (text "partialFailures") (failure_ids r.partial_failures)).0 g;
        unique_contributions = (duplicates_iff (text "contributions") contributions).0 h;
        evidence_has_sources = sym evidence_same ∙ i;
        facts_cite = sym facts_same ∙ j;
        findings_refer = sym findings_same ∙ k;
        recommendations_refer = sym recommendations_same ∙ l;
        contributions_refer = sym contributions_same ∙ m;
        overall_is_sound =
            sym (is_clear-score_issues r.facts contributions limitations none r.scores.overall) ∙ n;
        categories_are_sound =
            sym (is_clear-categories_issues r.facts contributions limitations r.scores.categories)
            ∙ o;
        limitations_have_sources = sym limitations_same ∙ p;
        failures_have_sources = sym failures_same ∙ q;
        checks_have_limitations = sym checks_same ∙ s;
      }

  sections-clear : IsSound r → All (λ is. is_clear is ≡ true) (sections r)
  unfolding sections
  sections-clear v = (
    (duplicates_iff (text "sources") (source_ids r.sources)).1 v.unique_sources,
    (
      (duplicates_iff (text "evidence") evidence).1 v.unique_evidence,
      (
        (duplicates_iff (text "facts") facts).1 v.unique_facts,
        (
          (duplicates_iff (text "findings") (finding_ids r.findings)).1 v.unique_findings,
          (
            (duplicates_iff (text "recommendations") (recommendation_ids r.recommendations)).1
                v.unique_recommendations,
            (
              (duplicates_iff (text "limitations") limitations).1 v.unique_limitations,
              (
                (duplicates_iff (text "partialFailures") (failure_ids r.partial_failures)).1
                    v.unique_failures,
                (
                  (duplicates_iff (text "contributions") contributions).1 v.unique_contributions,
                  (
                    evidence_same ∙ v.evidence_has_sources,
                    (
                      facts_same ∙ v.facts_cite,
                      (
                        findings_same ∙ v.findings_refer,
                        (
                          recommendations_same ∙ v.recommendations_refer,
                          (
                            contributions_same ∙ v.contributions_refer,
                            (
                              is_clear-score_issues r.facts contributions limitations none
                                    r.scores.overall
                                  ∙ v.overall_is_sound,
                              (
                                is_clear-categories_issues r.facts contributions limitations
                                      r.scores.categories
                                    ∙ v.categories_are_sound,
                                (
                                  limitations_same ∙ v.limitations_have_sources,
                                  (
                                    failures_same ∙ v.failures_have_sources,
                                    (checks_same ∙ v.checks_have_limitations, tt),
                                  ),
                                ),
                              ),
                            ),
                          ),
                        ),
                      ),
                    ),
                  ),
                ),
              ),
            ),
          ),
        ),
      ),
    ),
  )

-- Validation adds no issue to a report exactly if the report is sound: the identifiers of each of
-- its eight lists are unique, every reference is known, external evidence is of a source that is
-- available, a finding is confident in facts of its own, recommendations have the findings that
-- their basis wants, and every score counts the checks that it names.
pub validate_report_iff : (r : ReportForValidation) → (validate_report r ≡ []) ↔ IsSound r
unfolding validate_report
validate_report_iff r = (
  λ h.
      sections-IsSound r
        (All-of-all is_clear (sections r) (sym (is_clear-concat (sections r)) ∙ ap is_clear h)),
  λ v.
      is_clear_iff (concat (sections r))
        (is_clear-concat (sections r) ∙ all_of_All is_clear (sections r) (sections-clear r v)),
)

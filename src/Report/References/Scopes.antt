-- ===== src/Report/References/Scopes.antt =====
-- What it takes for the contributions, limitations and failures of a report, and for the
-- limitations of its checks, to have no issue.
use stack_lens.Base.Tests.{ℕ, ◌≡◌, refl, ◌∙◌, Bool, true, ◌&&◌, Option, none, some, List}
use stack_lens.Base.Text.{Text, text}
use stack_lens.Base.Table.{mem}
use stack_lens.Base.Distinct.{are_within}
use stack_lens.Contracts.{AnalysisLimitation, FailureScope, PartialFailure}
use stack_lens.Scoring.Types.{Explanation, CheckDetails}
use stack_lens.Analyzer.Types.{Fact}
use stack_lens.Report.Issues.{
  references_issues, is_clear, is_clear-reference_issues, is_clear-references_issues, three_parts,
}
use stack_lens.Report.References.{
  of_entity, contribution_path, contribution_issues, limitation_issues, scope_issues,
  failure_issues, check_limitation_issues, fact_limitation_issues,
}

pub is_clear-contribution_issues :
    (evidence findings facts : List Text) (n : ℕ) (c : Explanation)
    → is_clear (contribution_issues evidence findings facts n c) ≡ (
        are_within c.evidence_ids evidence
        && (are_within c.finding_ids findings && are_within c.fact_ids facts))
is_clear-contribution_issues evidence findings facts n c =
    three_parts
      (references_issues (contribution_path n (text "evidenceIds")) (text "evidence") evidence
        c.evidence_ids)
      (references_issues (contribution_path n (text "findingIds")) (text "finding") findings
        c.finding_ids)
      (references_issues (contribution_path n (text "factIds")) (text "fact") facts c.fact_ids)
    ∙ rw
        (
          is_clear-references_issues _ _ evidence c.evidence_ids,
          is_clear-references_issues _ _ findings c.finding_ids,
          is_clear-references_issues _ _ facts c.fact_ids,
        )
        refl

-- A limitation's sources, the source of a failure and the limitations of a check are known.
pub is_clear-limitation_issues :
    (sources : List Text) (n : ℕ) (l : AnalysisLimitation)
    → is_clear (limitation_issues sources n l) ≡ are_within l.source_ids sources
is_clear-limitation_issues sources n l = is_clear-references_issues _ _ sources l.source_ids

abbrev is_scoped : List Text → FailureScope → Bool
is_scoped sources (FailureScope.of_source id) = mem id sources
is_scoped sources (FailureScope.of_rule rule) = true
is_scoped sources FailureScope.of_acquisition = true

abbrev pub is_of_known_scope : List Text → PartialFailure → Bool
is_of_known_scope sources f = is_scoped sources f.scope

is_clear-scope_issues :
    (sources : List Text) (n : ℕ) (scope : FailureScope)
    → is_clear (scope_issues sources n scope) ≡ is_scoped sources scope
is_clear-scope_issues sources n (FailureScope.of_source id) =
    is_clear-reference_issues (of_entity (text "partialFailures") n (text "sourceId"))
      (text "source") sources id
is_clear-scope_issues sources n (FailureScope.of_rule rule) = refl
is_clear-scope_issues sources n FailureScope.of_acquisition = refl

pub is_clear-failure_issues :
    (sources : List Text) (n : ℕ) (f : PartialFailure)
    → is_clear (failure_issues sources n f) ≡ is_of_known_scope sources f
is_clear-failure_issues sources n f = is_clear-scope_issues sources n f.scope

abbrev is_limited : List Text → Option CheckDetails → Bool
is_limited limitations none = true
is_limited limitations (some d) = are_within d.limitation_ids limitations

abbrev pub has_limitations : List Text → Fact → Bool
has_limitations limitations f = is_limited limitations f.details

is_clear-check_limitation_issues :
    (limitations : List Text) (n : ℕ) (o : Option CheckDetails)
    → is_clear (check_limitation_issues limitations n o) ≡ is_limited limitations o
is_clear-check_limitation_issues limitations n none = refl
is_clear-check_limitation_issues limitations n (some d) =
    is_clear-references_issues _ _ limitations d.limitation_ids

pub is_clear-fact_limitation_issues :
    (limitations : List Text) (n : ℕ) (f : Fact)
    → is_clear (fact_limitation_issues limitations n f) ≡ has_limitations limitations f
is_clear-fact_limitation_issues limitations n f =
    is_clear-check_limitation_issues limitations n f.details

-- ===== src/Report/References.antt =====
-- The references of the entities of a report (packages/contracts/src/analysis-report.ts,
-- `validateReport`). `Map` keeps the last of the entries with one key.
pub mod Clear
pub mod Recommendations
pub mod Scopes
use stack_lens.Base.Tests.{
  ℕ, suc, Bool, true, false, not, ◌&&◌, ◌||◌, Option, none, some, List, [], ◌∷◌, ◌++◌, ◌==◌,
  if◌then◌else◌,
}
use stack_lens.Base.Lists.{all, any, length}
use stack_lens.Base.Text.{Text, text, ◌===◌}
use stack_lens.Base.Table.{mem}
use stack_lens.Contracts.{AnalysisLimitation, FailureScope, PartialFailure}
use stack_lens.Scoring.Types.{Explanation, CheckDetails}
use stack_lens.Rules.Priority.{Factor}
use stack_lens.Analyzer.Types.{Source, Evidence, Fact, Basis, Candidate, Finding, Recommendation}
use stack_lens.Analyzer.References.{confidence_of, is_heuristic}
use stack_lens.Report.{PathPart, Issue}
use stack_lens.Report.Issues.{each, issue_if, reference_issues, references_issues}

abbrev pub otherwise {ℓ} : {A : Type ℓ} → Option A → Option A → Option A
otherwise none o = o
otherwise (some x) o = some x

-- `Map.get`
unfoldable pub last_with {ℓ} : {A : Type ℓ} → (A → Bool) → List A → Option A
last_with p [] = none
last_with p (x ∷ xs) = otherwise (last_with p xs) (if p x then some x else none)

abbrev pub of_entity : Text → ℕ → Text → List PathPart
of_entity collection n name =
    PathPart.field collection ∷ PathPart.index n ∷ PathPart.field name ∷ []

abbrev unavailable_message : Text → Text
unavailable_message id = text "External evidence cannot reference unavailable source: " ++ id

abbrev pub source_issues : List PathPart → Text → Option Source → List Issue
source_issues path id none = issue_if true path (text "Unknown source reference: " ++ id)
source_issues path id (some s) = issue_if s.is_unavailable path (unavailable_message id)

abbrev pub cited_issues : List Source → List PathPart → Option Text → List Issue
cited_issues sources path none = []
cited_issues sources path (some id) = source_issues path id (last_with (λ s. s.id === id) sources)

abbrev pub evidence_issues : List Source → ℕ → Evidence → List Issue
evidence_issues sources n e =
    cited_issues sources (of_entity (text "evidence") n (text "sourceId")) e.source_id

abbrev pub fact_issues : List Text → ℕ → Fact → List Issue
fact_issues evidence n f =
    references_issues (of_entity (text "facts") n (text "evidenceIds")) (text "evidence") evidence
      f.evidence_ids

abbrev pub factor_issues : List Text → ℕ → ℕ → Factor → List Issue
factor_issues evidence n k factor =
    references_issues
      (of_entity (text "findings") n (text "priority")
        ++ of_entity (text "factors") k (text "evidenceIds"))
      (text "evidence") evidence factor.evidence_ids

abbrev pub confidence_path : Text → ℕ → ℕ → List PathPart
confidence_path collection n k =
    of_entity collection n (text "confidence")
    ++ (PathPart.field (text "factIds") ∷ PathPart.index k ∷ [])

abbrev pub confidence_issues : List Text → List Text → ℕ → ℕ → Text → List Issue
confidence_issues facts own n k id =
    if mem id facts
    then issue_if (not (mem id own)) (confidence_path (text "findings") n k)
        (text "Confidence fact must also be listed in finding.factIds: " ++ id)
    else reference_issues (confidence_path (text "findings") n k) (text "fact") facts id

abbrev pub finding_issues : List Text → List Text → List Text → ℕ → Finding → List Issue
finding_issues evidence facts limitations n f =
    references_issues (of_entity (text "findings") n (text "evidenceIds")) (text "evidence")
      evidence f.candidate.evidence_ids
    ++ (references_issues (of_entity (text "findings") n (text "factIds")) (text "fact") facts
          f.candidate.fact_ids
        ++ (references_issues (of_entity (text "findings") n (text "limitationIds"))
              (text "limitation") limitations f.candidate.limitation_ids
            ++ (each (factor_issues evidence n) 0 f.priority.factors
                ++ each (confidence_issues facts f.candidate.fact_ids n) 0
                    (confidence_of f.candidate.basis))))

-- `findingsById.get`
abbrev pub finding_with : List Finding → Text → Option Finding
finding_with findings id = last_with (λ f. f.candidate.id === id) findings

abbrev pub found : Option Finding → List Finding → List Finding
found none fs = fs
found (some f) fs = f ∷ fs

unfoldable pub referenced : List Finding → List Text → List Finding
unfolding last_with ◌===◌
referenced findings [] = []
referenced findings (id ∷ ids) = found (finding_with findings id) (referenced findings ids)

abbrev pub known_finding_issues : List PathPart → Text → Option Finding → List Issue
known_finding_issues path id none = issue_if true path (text "Unknown finding reference: " ++ id)
known_finding_issues path id (some f) = []

abbrev pub is_heuristic_finding : Finding → Bool
is_heuristic_finding f = is_heuristic f.candidate.basis

abbrev basis_path : ℕ → List PathPart
basis_path n = of_entity (text "recommendations") n (text "basis")

abbrev pub basis_issues : ℕ → Basis → List Finding → List Issue
basis_issues n Basis.fact findings =
    issue_if (any is_heuristic_finding findings) (basis_path n)
      (text "A fact-based recommendation cannot reference heuristic findings")
basis_issues n (Basis.heuristic ids) findings =
    issue_if (not (length findings == 0) && all (λ f. not (is_heuristic_finding f)) findings)
      (basis_path n)
      (text "A heuristic recommendation must reference at least one heuristic finding")

abbrev pub recommendation_issues :
    List Text → List Text → List Finding → ℕ → Recommendation → List Issue
recommendation_issues evidence facts findings n r =
    each
      (λ k id.
        known_finding_issues
          (of_entity (text "recommendations") n (text "findingIds") ++ (PathPart.index k ∷ [])) id
          (finding_with findings id))
      0 r.finding_ids
    ++ (basis_issues n r.basis (referenced findings r.finding_ids)
        ++ (references_issues (of_entity (text "recommendations") n (text "evidenceIds"))
              (text "evidence") evidence r.evidence_ids
            ++ each
                (λ k id.
                  reference_issues (confidence_path (text "recommendations") n k) (text "fact")
                    facts id)
                0 (confidence_of r.basis)))

abbrev pub contribution_path : ℕ → Text → List PathPart
contribution_path n name = PathPart.field (text "scores") ∷ of_entity (text "contributions") n name

abbrev pub contribution_issues : List Text → List Text → List Text → ℕ → Explanation → List Issue
contribution_issues evidence findings facts n c =
    references_issues (contribution_path n (text "evidenceIds")) (text "evidence") evidence
      c.evidence_ids
    ++ (references_issues (contribution_path n (text "findingIds")) (text "finding") findings
          c.finding_ids
        ++ references_issues (contribution_path n (text "factIds")) (text "fact") facts c.fact_ids)

abbrev pub limitation_issues : List Text → ℕ → AnalysisLimitation → List Issue
limitation_issues sources n l =
    references_issues (of_entity (text "limitations") n (text "sourceIds")) (text "source") sources
      l.source_ids

abbrev pub scope_issues : List Text → ℕ → FailureScope → List Issue
scope_issues sources n (FailureScope.of_source id) =
    reference_issues (of_entity (text "partialFailures") n (text "sourceId")) (text "source")
      sources id
scope_issues sources n (FailureScope.of_rule rule) = []
scope_issues sources n FailureScope.of_acquisition = []

abbrev pub failure_issues : List Text → ℕ → PartialFailure → List Issue
failure_issues sources n f = scope_issues sources n f.scope

abbrev pub check_limitation_issues : List Text → ℕ → Option CheckDetails → List Issue
check_limitation_issues limitations n none = []
check_limitation_issues limitations n (some d) =
    references_issues
      (of_entity (text "facts") n (text "details") ++ (PathPart.field (text "limitationIds") ∷ []))
      (text "limitation") limitations d.limitation_ids

abbrev pub fact_limitation_issues : List Text → ℕ → Fact → List Issue
fact_limitation_issues limitations n f = check_limitation_issues limitations n f.details

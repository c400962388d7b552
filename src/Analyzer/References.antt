-- ===== src/Analyzer/References.antt =====
-- What the entities of a result may refer to (packages/analyzer-core/src/pipeline.ts,
-- `assertEvidenceReferences`, `assertFindingReferences`, `assertRecommendationReferences`).
use stack_lens.Base.Tests.{
  Bool, true, false, not, ◌&&◌, Option, none, some, List, [], ◌∷◌, is_some, if◌then◌else◌,
}
use stack_lens.Base.Lists.{all, any}
use stack_lens.Base.Text.{Text, ◌===◌}
use stack_lens.Base.Distinct.{are_within}
use stack_lens.Analyzer.Types.{Fact, Basis, Candidate, Finding, Recommendation}

-- The facts of the confidence.
abbrev pub confidence_of : Basis → List Text
confidence_of Basis.fact = []
confidence_of (Basis.heuristic ids) = ids

abbrev pub is_heuristic : Basis → Bool
is_heuristic Basis.fact = false
is_heuristic (Basis.heuristic ids) = true

abbrev pub cites : List Text → Fact → Bool
cites evidence f = are_within f.evidence_ids evidence

-- Known evidence, facts and limitations, and a confidence in facts of the finding itself.
abbrev pub refers : List Text → List Text → List Text → Candidate → Bool
refers evidence facts limitations c =
    are_within c.evidence_ids evidence
    && are_within c.fact_ids facts
    && are_within c.limitation_ids limitations
    && are_within (confidence_of c.basis) c.fact_ids

-- `findingsById.get`
unfoldable pub find_finding : Text → List Finding → Option Finding
unfolding ◌===◌
find_finding i [] = none
find_finding i (f ∷ fs) = if f.candidate.id === i then some f else find_finding i fs

abbrev pub is_found_heuristic : Option Finding → Bool
is_found_heuristic none = false
is_found_heuristic (some f) = is_heuristic f.candidate.basis

-- Whether a known finding is a heuristic.
abbrev pub names_heuristic : List Finding → Text → Bool
names_heuristic findings i = is_found_heuristic (find_finding i findings)

abbrev pub are_known : List Finding → List Text → Bool
are_known findings ids = all (λ i. is_some (find_finding i findings)) ids

-- A factual recommendation has no heuristic finding, and a heuristic one has some.
abbrev pub has_basis : List Finding → Recommendation → Bool
has_basis findings r =
    if is_heuristic r.basis
    then any (λ i. names_heuristic findings i) r.finding_ids
    else not (any (λ i. names_heuristic findings i) r.finding_ids)

abbrev pub recommends : List Text → List Text → List Finding → Recommendation → Bool
recommends evidence facts findings r =
    are_within r.evidence_ids evidence
    && are_known findings r.finding_ids
    && has_basis findings r
    && are_within (confidence_of r.basis) facts

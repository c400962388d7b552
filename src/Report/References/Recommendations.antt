-- ===== src/Report/References/Recommendations.antt =====
-- What it takes for a recommendation of a report to have no issue.
use stack_lens.Base.Tests.{
  ℕ, ◌≡◌, refl, ap, ◌∙◌, Bool, true, false, not, ◌&&◌, ◌||◌, Option, none, some, List, [], ◌∷◌,
  ◌++◌, ◌==◌, is_some, arith, Option-cases, inl, inr,
}
use stack_lens.Base.Lists.{all, any, length}
use stack_lens.Base.Text.{Text, text}
use stack_lens.Base.Table.{mem}
use stack_lens.Base.Distinct.{are_within}
use stack_lens.Analyzer.Types.{Basis, Finding, Recommendation}
use stack_lens.Analyzer.References.{confidence_of}
use stack_lens.Report.{PathPart}
use stack_lens.Report.Issues.{
  each, reference_issues, references_issues, is_clear, is_clear-each, is_clear-issue_if,
  is_clear-reference_issues, is_clear-references_issues, four_parts,
}
use stack_lens.Report.References.{
  of_entity, confidence_path, finding_with, referenced, known_finding_issues, is_heuristic_finding,
  basis_issues, recommendation_issues,
}

abbrev pub are_known_findings : List Finding → List Text → Bool
are_known_findings findings ids = all (λ id. is_some (finding_with findings id)) ids

found_some :
    (findings : List Finding) (ids : List Text)
    → are_known_findings findings ids ≡ true
    → (length (referenced findings ids) == 0) ≡ (length ids == 0)
unfolding referenced
found_some findings [] h = refl
found_some findings (id ∷ ids) h = elim (Option-cases (finding_with findings id)) [
  | inl e ↦ ground (arith, h, ap is_some e)
  | inr (f, e) ↦ rw (e, referenced) (ground arith)
]

-- A factual recommendation has no heuristic finding, and one that is heuristic and has findings
-- has a heuristic one.
abbrev pub is_based : List Finding → Basis → List Text → Bool
is_based findings Basis.fact ids = not (any is_heuristic_finding (referenced findings ids))
is_based findings (Basis.heuristic facts) ids =
    length ids == 0 || any is_heuristic_finding (referenced findings ids)

abbrev pub is_sound_recommendation : List Text → List Text → List Finding → Recommendation → Bool
is_sound_recommendation evidence facts findings r =
    are_known_findings findings r.finding_ids
    && is_based findings r.basis r.finding_ids
    && are_within r.evidence_ids evidence
    && are_within (confidence_of r.basis) facts

every_fact :
    (fs : List Finding)
    → all (λ f. not (is_heuristic_finding f)) fs ≡ not (any is_heuristic_finding fs)
every_fact [] = refl
every_fact (f ∷ fs) = ground (arith, every_fact fs)

is_clear-basis_issues :
    (findings : List Finding) (n : ℕ) (basis : Basis) (ids : List Text)
    → are_known_findings findings ids ≡ true
    → is_clear (basis_issues n basis (referenced findings ids)) ≡ is_based findings basis ids
is_clear-basis_issues findings n Basis.fact ids h = is_clear-issue_if _ _ _
is_clear-basis_issues findings n (Basis.heuristic facts) ids h =
    is_clear-issue_if
      (not (length (referenced findings ids) == 0)
        && all (λ f. not (is_heuristic_finding f)) (referenced findings ids))
      _ _
    ∙ ground (arith, found_some findings ids h, every_fact (referenced findings ids))

is_clear-known_finding_issues :
    (path : List PathPart) (id : Text) (o : Option Finding)
    → is_clear (known_finding_issues path id o) ≡ is_some o
is_clear-known_finding_issues path id none = refl
is_clear-known_finding_issues path id (some f) = refl

based_parts :
    (a b c d based : Bool)
    → (a ≡ true → b ≡ based)
    → (a && (b && (c && d))) ≡ (((a && based) && c) && d)
based_parts true b c d based h = ground (arith, h)
based_parts false b c d based h = refl

pub is_clear-recommendation_issues :
    (evidence facts : List Text) (findings : List Finding) (n : ℕ) (r : Recommendation)
    → is_clear (recommendation_issues evidence facts findings n r)
      ≡ is_sound_recommendation evidence facts findings r
is_clear-recommendation_issues evidence facts findings n r =
    let ids = confidence_of r.basis in
    let path : ℕ → List PathPart =
      λ k. of_entity (text "recommendations") n (text "findingIds") ++ (PathPart.index k ∷ []) in
    let at : ℕ → List PathPart = λ k. confidence_path (text "recommendations") n k in
    let a =
      each (λ k id. known_finding_issues (path k) id (finding_with findings id)) 0 r.finding_ids in
    let b = basis_issues n r.basis (referenced findings r.finding_ids) in
    let c =
      references_issues (of_entity (text "recommendations") n (text "evidenceIds"))
        (text "evidence") evidence r.evidence_ids in
    let d = each (λ k id. reference_issues (at k) (text "fact") facts id) 0 ids in
    let a' : is_clear a ≡ are_known_findings findings r.finding_ids =
      is_clear-each (λ k id. known_finding_issues (path k) id (finding_with findings id))
        (λ id. is_some (finding_with findings id))
        (λ k id. is_clear-known_finding_issues (path k) id (finding_with findings id)) 0
        r.finding_ids in
    let c' : is_clear c ≡ are_within r.evidence_ids evidence =
      is_clear-references_issues _ _ evidence r.evidence_ids in
    let d' : is_clear d ≡ are_within ids facts =
      is_clear-each (λ k id. reference_issues (at k) (text "fact") facts id) (λ id. mem id facts)
        (λ k id. is_clear-reference_issues (at k) (text "fact") facts id) 0 ids in
    four_parts a b c d
    ∙ rw (a', c', d')
        (based_parts _ _ (are_within r.evidence_ids evidence) (are_within ids facts) _
          (is_clear-basis_issues findings n r.basis r.finding_ids))

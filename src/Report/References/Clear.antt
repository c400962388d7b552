-- ===== src/Report/References/Clear.antt =====
-- What it takes for external evidence, facts and findings of a report to have no issue.
use stack_lens.Base.Tests.{
  ℕ, ◌≡◌, refl, ◌∙◌, Bool, true, false, not, ◌&&◌, Option, none, some, List, [], ◌∷◌, ◌++◌, arith,
  Bool-cases, inl, inr,
}
use stack_lens.Base.Lists.{all}
use stack_lens.Base.Text.{Text, text, ◌===◌, ===_sym}
use stack_lens.Base.Table.{mem, mem_same}
use stack_lens.Base.Distinct.{are_within}
use stack_lens.Analyzer.Types.{Source, Evidence, Fact, Finding}
use stack_lens.Analyzer.References.{confidence_of, refers, cites}
use stack_lens.Report.{PathPart, Issue}
use stack_lens.Report.Issues.{
  each, references_issues, is_clear, is_clear-append, is_clear-each, is_clear-issue_if,
  is_clear-references_issues,
}
use stack_lens.Report.References.{
  of_entity, last_with, source_issues, cited_issues, evidence_issues, fact_issues, factor_issues,
  confidence_issues, finding_issues,
}

-- External evidence is of a source that is known and available.
abbrev is_available : Option Source → Bool
is_available none = false
is_available (some s) = not s.is_unavailable

abbrev is_cited : List Source → Option Text → Bool
is_cited sources none = true
is_cited sources (some id) = is_available (last_with (λ s. s.id === id) sources)

abbrev pub has_source : List Source → Evidence → Bool
has_source sources e = is_cited sources e.source_id

is_clear-source_issues :
    (path : List PathPart) (id : Text) (o : Option Source)
    → is_clear (source_issues path id o) ≡ is_available o
is_clear-source_issues path id none = refl
is_clear-source_issues path id (some s) = is_clear-issue_if s.is_unavailable path _

is_clear-cited_issues :
    (sources : List Source) (path : List PathPart) (o : Option Text)
    → is_clear (cited_issues sources path o) ≡ is_cited sources o
is_clear-cited_issues sources path none = refl
is_clear-cited_issues sources path (some id) = is_clear-source_issues path id _

pub is_clear-evidence_issues :
    (sources : List Source) (n : ℕ) (e : Evidence)
    → is_clear (evidence_issues sources n e) ≡ has_source sources e
is_clear-evidence_issues sources n e = is_clear-cited_issues sources _ e.source_id

pub is_clear-fact_issues :
    (evidence : List Text) (n : ℕ) (f : Fact)
    → is_clear (fact_issues evidence n f) ≡ cites evidence f
is_clear-fact_issues evidence n f = is_clear-references_issues _ _ evidence f.evidence_ids

mem-within :
    (x : Text) (xs ys : List Text) → are_within xs ys ≡ true → mem x xs ≡ true → mem x ys ≡ true
mem-within x [] ys w h = cc
mem-within x (a ∷ xs) ys w h =
    ground (arith, mem_same x a ys, mem_same a x ys, ===_sym a x, mem-within x xs ys, w, h)

-- The confidence is in known facts of the finding itself.
all_within :
    (ids own facts : List Text)
    → are_within own facts ≡ true
    → all (λ id. mem id facts && mem id own) ids ≡ are_within ids own
all_within [] own facts w = refl
all_within (id ∷ ids) own facts w =
    ground (arith, mem-within id own facts, all_within ids own facts, w)

five_parts :
    (a b c d e : List Issue)
    → is_clear (a ++ (b ++ (c ++ (d ++ e))))
      ≡ (is_clear a && (is_clear b && (is_clear c && (is_clear d && is_clear e))))
five_parts a b c d e = ground (
  arith,
  is_clear-append a (b ++ (c ++ (d ++ e))),
  is_clear-append b (c ++ (d ++ e)),
  is_clear-append c (d ++ e),
  is_clear-append d e,
)

shuffled :
    (a b c d e own : Bool)
    → (b ≡ true → e ≡ own)
    → (a && (b && (c && (d && e)))) ≡ ((((a && b) && c) && own) && d)
shuffled true true c true e own h = ground (arith, h)
shuffled true true c false e own h = ground (arith, h)
shuffled true false c d e own h = refl
shuffled false b c d e own h = refl

is_clear-confidence_issues :
    (facts own : List Text) (n k : ℕ) (id : Text)
    → is_clear (confidence_issues facts own n k id) ≡ (mem id facts && mem id own)
is_clear-confidence_issues facts own n k id = elim (Bool-cases (mem id facts)) [
  | inl e ↦ rw e (is_clear-issue_if (not (mem id own)) _ _ ∙ ground arith)
  | inr e ↦ rw e refl
]

-- A finding's references, those of the factors of its priority included.
abbrev pub is_sound_finding : List Text → List Text → List Text → Finding → Bool
is_sound_finding evidence facts limitations f =
    refers evidence facts limitations f.candidate
    && all (λ factor. are_within factor.evidence_ids evidence) f.priority.factors

pub is_clear-finding_issues :
    (evidence facts limitations : List Text) (n : ℕ) (f : Finding)
    → is_clear (finding_issues evidence facts limitations n f)
      ≡ is_sound_finding evidence facts limitations f
is_clear-finding_issues evidence facts limitations n f =
    let own = f.candidate.fact_ids in
    let ids = confidence_of f.candidate.basis in
    let factors = each (factor_issues evidence n) 0 f.priority.factors in
    let confidence = each (confidence_issues facts own n) 0 ids in
    let a =
      references_issues (of_entity (text "findings") n (text "evidenceIds")) (text "evidence")
        evidence f.candidate.evidence_ids in
    let b =
      references_issues (of_entity (text "findings") n (text "factIds")) (text "fact") facts own in
    let c =
      references_issues (of_entity (text "findings") n (text "limitationIds")) (text "limitation")
        limitations f.candidate.limitation_ids in
    let a' : is_clear a ≡ are_within f.candidate.evidence_ids evidence =
      is_clear-references_issues _ _ evidence f.candidate.evidence_ids in
    let b' : is_clear b ≡ are_within own facts = is_clear-references_issues _ _ facts own in
    let c' : is_clear c ≡ are_within f.candidate.limitation_ids limitations =
      is_clear-references_issues _ _ limitations f.candidate.limitation_ids in
    let d' : is_clear factors
        ≡ all (λ factor. are_within factor.evidence_ids evidence) f.priority.factors =
      is_clear-each (factor_issues evidence n) (λ factor. are_within factor.evidence_ids evidence)
        (λ k factor. is_clear-references_issues _ _ evidence factor.evidence_ids) 0
        f.priority.factors in
    let e' : is_clear confidence ≡ all (λ id. mem id facts && mem id own) ids =
      is_clear-each (confidence_issues facts own n) (λ id. mem id facts && mem id own)
        (is_clear-confidence_issues facts own n) 0 ids in
    let w = all_within ids own facts in
    five_parts a b c factors confidence ∙ rw (a', b', c', d', e') (shuffled _ _ _ _ _ _ w)

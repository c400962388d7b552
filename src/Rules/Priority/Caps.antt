-- ===== src/Rules/Priority/Caps.antt =====
-- Uncertainty lowers a priority, and never raises it.
use stack_lens.Base.Tests.{
  ◌≤◌, ◌≡◌, refl, ap, ◌∙◌, some, Bool, true, false, not, leb, Bool-cases, Option-cases, inl, inr,
  List, [], ◌∷◌, arith,
}
use stack_lens.Base.Lists.{All}
use stack_lens.Base.Text.{Text, ◌===◌}
use stack_lens.Base.Table.{Table, lookup}
use stack_lens.Contracts.{ScoreCategory}
use stack_lens.Rules.Priority.{
  PriorityLevel, Descriptor, priority_by_rule, advisory_descriptor, fallback, ConfidenceLevel,
  Severity, Standing, fact, heuristic, Candidate, level_order, final_level, descriptor_for,
  prioritize, strength_factor,
}

-- The level that a descriptor's level becomes: the same for facts and sure heuristics, and at most
-- medium and low for heuristics of medium and low confidence.
pub IsLevelFor : Standing → PriorityLevel → PriorityLevel → Type 0
IsLevelFor fact d l = l ≡ d
IsLevelFor (heuristic ConfidenceLevel.high) d l = l ≡ d
IsLevelFor (heuristic ConfidenceLevel.medium) d l = level_order l ≤ 1
IsLevelFor (heuristic ConfidenceLevel.low) d l = level_order l ≡ 0

-- The priority of a candidate is at most the descriptor's, is limited by its confidence, and every
-- factor cites the evidence.
pub record IsCapped (f : Candidate) : Type 0 where
  pub at_most : level_order (prioritize f).level ≤ level_order (descriptor_for f).level
  pub limited : IsLevelFor f.standing (descriptor_for f).level (prioritize f).level
  pub cited : All (λ k. k.evidence_ids ≡ f.evidence_ids) (prioritize f).factors

final_level_lem : (s : Standing) (d : PriorityLevel) → level_order (final_level s d) ≤ level_order d
final_level_lem fact d = omega arith
final_level_lem (heuristic c) d = ground arith

final_level-IsLevelFor : (s : Standing) (d : PriorityLevel) → IsLevelFor s d (final_level s d)
unfolding IsLevelFor
final_level-IsLevelFor fact d = refl
final_level-IsLevelFor (heuristic ConfidenceLevel.high) d = ground arith
final_level-IsLevelFor (heuristic ConfidenceLevel.medium) d = ground arith
final_level-IsLevelFor (heuristic ConfidenceLevel.low) d = ground arith

checked_row :
    (p : Descriptor → Bool) (t : Table Descriptor)
    → All (λ e. p e.1 ≡ true) t
    → (id : Text) (d : Descriptor) → lookup id t ≡ some d
    → p d ≡ true
unfolding lookup
checked_row p [] h id d found = cc
checked_row p ((k, r) ∷ t) h id d found = elim (Bool-cases (k === id)) [
  | inl e ↦ ground (arith, rw e at found, h.0)
  | inr e ↦ checked_row p t h.1 id d (rw e at found)
]

abbrev is_urgent : Descriptor → Bool
is_urgent d = leb 3 (level_order d.level)

-- No rule of the table is critical.
table_lem :
    (id : Text) (d : Descriptor) → lookup id priority_by_rule ≡ some d → not (is_urgent d) ≡ true
table_lem id d found =
    checked_row (λ d. not (is_urgent d)) priority_by_rule
      (refl, (refl, (refl, (refl, (refl, (refl, tt)))))) id d found

advisory_lem : (s : Severity) → is_urgent (advisory_descriptor s) ≡ true → s ≡ Severity.critical
advisory_lem s h = ground arith

fallback_lem : (c : ScoreCategory) → is_urgent (fallback c) ≡ false
fallback_lem c = ground arith

urgent_descriptor :
    (f : Candidate) → is_urgent (descriptor_for f) ≡ true → f.severity ≡ some Severity.critical
unfolding descriptor_for
urgent_descriptor f h = elim (Option-cases f.severity) [
  | inr (s, e) ↦ e ∙ ap some (advisory_lem s (rw (e, descriptor_for) at h))
  | inl e ↦ elim (Option-cases (lookup f.rule.id priority_by_rule)) [
    | inr (d, k) ↦ ground (arith, table_lem f.rule.id d k, rw (e, k, descriptor_for) at h)
    | inl k ↦ ground (arith, fallback_lem f.category, rw (e, k, descriptor_for) at h)
  ]
]

urgent_level :
    (s : Standing) (d : PriorityLevel)
    → final_level s d ≡ PriorityLevel.critical
    → leb 3 (level_order d) ≡ true
urgent_level s d h = ground arith

strength_cited :
    (s : Standing) (evidence : List Text)
    → All (λ k. k.evidence_ids ≡ evidence) (strength_factor s evidence)
strength_cited fact evidence = tt
strength_cited (heuristic c) evidence = (refl, tt)

-- The priority of a finding is at most that of its rule or of its advisory's severity, which facts
-- and heuristics of high confidence get whole; heuristics of medium and low confidence get at most
-- medium and low; and every factor cites the evidence of the finding.
pub prioritize-IsCapped : (f : Candidate) → IsCapped f
unfolding prioritize
prioritize-IsCapped f = record {
  at_most = final_level_lem f.standing (descriptor_for f).level;
  limited = final_level-IsLevelFor f.standing (descriptor_for f).level;
  cited = (refl, strength_cited f.standing f.evidence_ids);
}

-- A finding whose priority is critical is an advisory of critical severity.
pub prioritize_critical :
    (f : Candidate)
    → (prioritize f).level ≡ PriorityLevel.critical
    → f.severity ≡ some Severity.critical
unfolding prioritize
prioritize_critical f h = urgent_descriptor f (urgent_level f.standing (descriptor_for f).level h)

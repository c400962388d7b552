-- ===== src/Scoring/Advisories/Together.antt =====
-- The identifiers of a finding stay in one group, and no two groups share one.
use stack_lens.Base.Tests.{
  ◌≡◌, refl, Bool, true, ◌||◌, some, List, [], ◌∷◌, ◌++◌, arith, Bool-cases, Option-cases, inl, inr,
  subst, sym, ◌∙◌,
}
use mathlib.Core.Option.{some-injective}
use stack_lens.Base.Lists.{any, all, All}
use stack_lens.Base.Text.{Text, ===_refl}
use stack_lens.Base.Table.{mem}
use stack_lens.Scoring.Types.{Finding, AdvisoryDetails}
use stack_lens.Scoring.Advisories.{union, meets, absorb, place, group_from, advisory_ids}
use stack_lens.Scoring.Advisories.Apart.{AreApart, group_from-AreApart, mem-union}

abbrev is_within_group : List Text → List Text → Bool
is_within_group ids g = all (λ x. mem x g) ids

-- One group has all the identifiers.
abbrev pub are_together : List Text → List (List Text) → Bool
are_together ids groups = any (λ g. is_within_group ids g) groups

within-union_left :
    (ids group g : List Text)
    → is_within_group ids group ≡ true
    → is_within_group ids (union group g) ≡ true
within-union_left [] group g h = refl
within-union_left (x ∷ ids) group g h =
    ground (arith, mem-union x group g, within-union_left ids group g)

within-union_right :
    (ids group g : List Text)
    → is_within_group ids g ≡ true
    → is_within_group ids (union group g) ≡ true
within-union_right [] group g h = refl
within-union_right (x ∷ ids) group g h =
    ground (arith, mem-union x group g, within-union_right ids group g)

within_larger :
    (x : Text) (ids g : List Text)
    → is_within_group ids g ≡ true
    → is_within_group ids (x ∷ g) ≡ true
within_larger x [] g h = refl
within_larger x (y ∷ ids) g h = ground (arith, within_larger x ids g)

within_self : (ids : List Text) → is_within_group ids ids ≡ true
within_self [] = refl
within_self (x ∷ ids) = ground (arith, ===_refl x, within_larger x ids ids (within_self ids))

absorb_within :
    (ids : List Text) (gs : List (List Text)) → is_within_group ids (absorb ids gs).0 ≡ true
unfolding absorb
absorb_within ids [] = within_self ids
absorb_within ids (g ∷ gs) = elim (Bool-cases (meets g (absorb ids gs).0)) [
  | inl e ↦ rw e (within-union_left ids (absorb ids gs).0 g (absorb_within ids gs))
  | inr e ↦ rw e (absorb_within ids gs)
]

absorb_together :
    (js ids : List Text) (gs : List (List Text))
    → are_together js gs ≡ true
    → (is_within_group js (absorb ids gs).0 || are_together js (absorb ids gs).1) ≡ true
unfolding absorb
absorb_together js ids [] h = cc
absorb_together js ids (g ∷ gs) h =
    let grown = (absorb ids gs).0 in
    elim (Bool-cases (meets g grown)) [
      | inl e ↦ rw e (
          ground (
            arith,
            h,
            absorb_together js ids gs,
            within-union_left js grown g,
            within-union_right js grown g,
          ))
      | inr e ↦ rw e (ground (arith, h, absorb_together js ids gs))
    ]

append_together :
    (js : List Text) (gs : List (List Text)) (g : List Text)
    → are_together js (gs ++ (g ∷ [])) ≡ (are_together js gs || is_within_group js g)
append_together js [] g = ground arith
append_together js (h ∷ gs) g = ground (arith, append_together js gs g)

place_together :
    (js ids : List Text) (gs : List (List Text))
    → are_together js gs ≡ true
    → are_together js (place gs ids) ≡ true
unfolding place
place_together js ids gs h =
    ground
      (arith, absorb_together js ids gs h, append_together js (absorb ids gs).1 (absorb ids gs).0)

place_joins : (ids : List Text) (gs : List (List Text)) → are_together ids (place gs ids) ≡ true
unfolding place
place_joins ids gs =
    ground (arith, absorb_within ids gs, append_together ids (absorb ids gs).1 (absorb ids gs).0)

group_from_keeps :
    (js : List Text) (groups : List (List Text)) (findings : List Finding)
    → are_together js groups ≡ true
    → are_together js (group_from groups findings) ≡ true
unfolding group_from
group_from_keeps js groups [] h = h
group_from_keeps js groups (f ∷ rest) h = elim (Option-cases f.details) [
  | inl e ↦ rw (e, group_from) (group_from_keeps js groups rest h)
  | inr (d, e) ↦
      rw (e, group_from)
        (group_from_keeps js (place groups (advisory_ids d)) rest
          (place_together js (advisory_ids d) groups h))
]

-- The identifiers of a finding are in one group.
pub IsGrouped : List (List Text) → Finding → Type 0
IsGrouped groups f =
    (d : AdvisoryDetails) → f.details ≡ some d → are_together (advisory_ids d) groups ≡ true

group_from-IsGrouped :
    (groups : List (List Text)) (findings : List Finding)
    → All (IsGrouped (group_from groups findings)) findings
unfolding group_from IsGrouped
group_from-IsGrouped groups [] = tt
group_from-IsGrouped groups (f ∷ rest) = elim (Option-cases f.details) [
  | inl e ↦
      let same : group_from groups rest ≡ group_from groups (f ∷ rest) = rw (e, group_from) refl in
      (λ d has. cc, subst (λ g. All (IsGrouped g) rest) same (group_from-IsGrouped groups rest))
  | inr (d, e) ↦
      let placed = place groups (advisory_ids d) in
      let same : group_from placed rest ≡ group_from groups (f ∷ rest) = rw (e, group_from) refl in
      let joined : are_together (advisory_ids d) (group_from groups (f ∷ rest)) ≡ true =
        subst (λ g. are_together (advisory_ids d) g ≡ true) same
          (group_from_keeps (advisory_ids d) placed rest (place_joins (advisory_ids d) groups)) in
      (
        λ d' has.
            subst (λ k. are_together (advisory_ids k) (group_from groups (f ∷ rest)) ≡ true)
              (some-injective _ _ (sym e ∙ has)) joined,
        subst (λ g. All (IsGrouped g) rest) same (group_from-IsGrouped placed rest),
      )
]

-- However the advisories of the findings name each other, no identifier is in two groups, and the
-- identifier and the aliases of a finding are all in one.
pub group_from_lem :
    (findings : List Finding)
    → AreApart (group_from [] findings) × All (IsGrouped (group_from [] findings)) findings
unfolding AreApart
group_from_lem findings = (group_from-AreApart [] findings tt, group_from-IsGrouped [] findings)

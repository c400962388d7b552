-- ===== src/Scoring/Advisories.antt =====
-- The advisories that a score counts: findings with an identifier or an alias in common are one
-- (the loop over `groups`). A set is the list of its elements.
pub mod Apart
pub mod Together
use stack_lens.Base.Tests.{
  ℕ, ◌≡◌, refl, Bool, true, false, not, ◌&&◌, ◌||◌, none, some, List, [], ◌∷◌, ◌++◌, arith,
  if◌then◌else◌, Bool-cases, &&-eq-true, inl, inr,
}
use stack_lens.Base.Lists.{select, any, all, All, All-imp}
use stack_lens.Base.Text.{Text, ◌===◌, ===_iff}
use stack_lens.Base.Table.{mem, mem_same}
use stack_lens.Scoring.Types.{Finding, AdvisoryDetails}
use stack_lens.Scoring.Checks.{distinct}

-- `for (const alias of g) group.add(alias)`
abbrev pub union : List Text → List Text → List Text
union group g = group ++ select (λ a. not (mem a group)) g

abbrev pub meets : List Text → List Text → Bool
meets g group = any (λ a. mem a group) g

-- The inner loop, from the last group to the first: the grown group, and the groups that are left.
unfoldable pub absorb : List Text → List (List Text) → List Text × List (List Text)
unfolding select
absorb group [] = (group, [])
absorb group (g ∷ gs) =
    let (grown, kept) = absorb group gs in
    if meets g grown then (union grown g, kept) else (grown, g ∷ kept)

unfoldable pub place : List (List Text) → List Text → List (List Text)
unfolding absorb
place groups ids = let (grown, kept) = absorb ids groups in kept ++ (grown ∷ [])

abbrev pub advisory_ids : AdvisoryDetails → List Text
advisory_ids d = distinct (d.advisory_id ∷ d.aliases)

-- The outer loop, from the groups so far.
unfoldable pub group_from : List (List Text) → List Finding → List (List Text)
unfolding place distinct
group_from groups [] = groups
group_from groups (f ∷ rest) = elim f.details [
  | none ↦ group_from groups rest
  | some d ↦ group_from (place groups (advisory_ids d)) rest
]

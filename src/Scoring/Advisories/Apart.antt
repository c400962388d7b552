-- ===== src/Scoring/Advisories/Apart.antt =====
-- The groups of advisories have no identifier in common, and none is lost.
use stack_lens.Base.Tests.{
  ◌≡◌, refl, Bool, true, false, not, ◌||◌, List, [], ◌∷◌, ◌++◌, arith, Bool-cases, Option-cases,
  inl, inr,
}
use stack_lens.Base.Lists.{select, All}
use stack_lens.Base.Text.{Text, ◌===◌}
use stack_lens.Base.Table.{mem, mem_same}
use stack_lens.Scoring.Types.{Finding}
use stack_lens.Scoring.Advisories.{union, meets, absorb, place, group_from, advisory_ids}

pub IsApart : List Text → List Text → Type 0
IsApart g h = (x : Text) → mem x g ≡ true → mem x h ≡ false

-- No text is in two groups.
unfoldable pub AreApart : List (List Text) → Type 0
AreApart [] = Unit
AreApart (g ∷ gs) = All (IsApart g) gs × AreApart gs

IsApart-sym : (g h : List Text) → IsApart g h → IsApart h g
unfolding IsApart
IsApart-sym g h apart x in_h = elim (Bool-cases (mem x g)) [
  | inl e ↦ ground (arith, apart x e)
  | inr e ↦ e
]

mem-append : (x : Text) (g h : List Text) → mem x (g ++ h) ≡ (mem x g || mem x h)
mem-append x [] h = refl
mem-append x (a ∷ g) h = ground (arith, mem-append x g h)

mem-select :
    (x : Text) (p : Text → Bool) (g : List Text) → mem x (select p g) ≡ true → mem x g ≡ true
unfolding select
mem-select x p [] h = h
mem-select x p (a ∷ g) h = elim (Bool-cases (p a)) [
  | inl e ↦ ground (arith, rw e at h, mem-select x p g)
  | inr e ↦ ground (arith, rw e at h, mem-select x p g)
]

mem_kept :
    (x : Text) (group g : List Text)
    → mem x g ≡ true
    → mem x group ≡ false
    → mem x (select (λ a. not (mem a group)) g) ≡ true
unfolding select
mem_kept x group [] h k = h
mem_kept x group (a ∷ g) h k = elim (Bool-cases (mem a group)) [
  | inl e ↦ rw e (mem_kept x group g (ground (arith, mem_same x a group)) k)
  | inr e ↦ rw e (ground (arith, mem_kept x group g))
]

pub mem-union : (x : Text) (group g : List Text) → mem x (union group g) ≡ (mem x group || mem x g)
mem-union x group g = ground (
  arith,
  mem-append x group (select (λ a. not (mem a group)) g),
  mem-select x (λ a. not (mem a group)) g,
  mem_kept x group g,
)

union-IsApart : (group g h : List Text) → IsApart group h → IsApart g h → IsApart (union group g) h
unfolding IsApart
union-IsApart group g h p q x e = ground (arith, mem-union x group g, p x, q x)

unmet-IsApart : (g group : List Text) → meets g group ≡ false → IsApart g group
unfolding IsApart
unmet-IsApart [] group e x h = cc
unmet-IsApart (a ∷ g) group e x h = elim (Bool-cases (a === x)) [
  | inl same ↦ ground (arith, mem_same x a group same, e)
  | inr other ↦ unmet-IsApart g group (ground arith) x (ground arith)
]

absorb-All {κ} :
    (P : List Text → Type κ) (ids : List Text) (gs : List (List Text))
    → All P gs
    → All P (absorb ids gs).1
unfolding absorb
absorb-All P ids [] h = tt
absorb-All P ids (g ∷ gs) h = elim (Bool-cases (meets g (absorb ids gs).0)) [
  | inl e ↦ rw e (absorb-All P ids gs h.1)
  | inr e ↦ rw e (h.0, absorb-All P ids gs h.1)
]

absorb-AreApart :
    (ids : List Text) (gs : List (List Text))
    → AreApart gs
    → AreApart (absorb ids gs).1 × All (λ h. IsApart h (absorb ids gs).0) (absorb ids gs).1
unfolding absorb AreApart
absorb-AreApart ids [] apart = (tt, tt)
absorb-AreApart ids (g ∷ gs) apart =
    let (grown, kept) = absorb ids gs in
    let (kept_apart, from_grown) = absorb-AreApart ids gs apart.1 in
    let from_g = absorb-All (IsApart g) ids gs apart.0 in
    elim (Bool-cases (meets g grown)) [
      | inl e ↦ rw e (kept_apart, both kept from_grown from_g)
      | inr e ↦ rw e ((from_g, kept_apart), (unmet-IsApart g grown e, from_grown))
    ]
  where
    both :
        (kept : List (List Text))
        → All (λ h. IsApart h (absorb ids gs).0) kept
        → All (IsApart g) kept
        → All (λ h. IsApart h (union (absorb ids gs).0 g)) kept
    both [] p q = tt
    both (h ∷ kept) p q = (
      IsApart-sym (union (absorb ids gs).0 g) h
          (union-IsApart (absorb ids gs).0 g h (IsApart-sym h (absorb ids gs).0 p.0) q.0),
      both kept p.1 q.1,
    )

append-AreApart :
    (gs : List (List Text)) (g : List Text)
    → AreApart gs
    → All (λ h. IsApart h g) gs
    → AreApart (gs ++ (g ∷ []))
unfolding AreApart
append-AreApart [] g p q = (tt, tt)
append-AreApart (h ∷ gs) g p q = (last gs p.0 q.0, append-AreApart gs g p.1 q.1)
  where
    last :
        (gs : List (List Text))
        → All (IsApart h) gs
        → IsApart h g
        → All (IsApart h) (gs ++ (g ∷ []))
    last [] p q = (q, tt)
    last (k ∷ gs) p q = (p.0, last gs p.1 q)

place-AreApart : (gs : List (List Text)) (ids : List Text) → AreApart gs → AreApart (place gs ids)
unfolding place
place-AreApart gs ids apart =
    let (p, q) = absorb-AreApart ids gs apart in
    append-AreApart (absorb ids gs).1 (absorb ids gs).0 p q

pub group_from-AreApart :
    (groups : List (List Text)) (findings : List Finding)
    → AreApart groups
    → AreApart (group_from groups findings)
unfolding group_from
group_from-AreApart groups [] p = p
group_from-AreApart groups (f ∷ rest) p = elim (Option-cases f.details) [
  | inl e ↦ rw (e, group_from) (group_from-AreApart groups rest p)
  | inr (d, e) ↦
      rw (e, group_from)
        (group_from-AreApart (place groups (advisory_ids d)) rest
          (place-AreApart groups (advisory_ids d) p))
]

-- ===== src/Persistence/Outbox/Claims.antt =====
-- Which deliveries a claim chooses.
use stack_lens.Base.Tests.{
  ℕ, ◌≤◌, ◌≡◌, Bool, true, false, some, List, inl, inr, arith, Option-cases,
}
use stack_lens.Base.Lists.{All, All-take, All-select, length, length-take-le}
use stack_lens.Base.Text.{Text}
use stack_lens.Base.Table.{lookup, lookup_self, mem, keys, test_of_key, HasDistinctKeys}
use stack_lens.Base.Sort.{sort-All}
use stack_lens.Persistence.Types.{Analysis, Delivery, Store, is_delivered}
use stack_lens.Persistence.Outbox.{candidates, is_candidate, is_served_before, is_claimable}

-- A chosen row stands in the table under its key, and passes the tests of the statement.
abbrev pub IsChosen : Store → ℕ → List Text → Text × Delivery → Type 0
IsChosen s now locked e =
    (lookup e.0 s.deliveries ≡ some e.1) × (is_candidate s now locked e ≡ true)

module _ (collate : Text → Text → Bool) (locked : List Text) (limit now : ℕ) (s : Store) where
  pub candidates-IsChosen :
      HasDistinctKeys s.deliveries
      → All (IsChosen s now locked) (candidates collate locked limit now s)
  unfolding candidates
  candidates-IsChosen h = All-take (IsChosen s now locked) limit _ (
      sort-All (is_served_before collate) (IsChosen s now locked) _ (
        All-select (λ e. lookup e.0 s.deliveries ≡ some e.1) (is_candidate s now locked)
          s.deliveries (lookup_self s.deliveries h)))

  -- The row of a chosen key passes the tests.
  pub candidate_of_key :
      HasDistinctKeys s.deliveries
      → (j : Text) (d : Delivery) → mem j (keys (candidates collate locked limit now s)) ≡ true
      → lookup j s.deliveries ≡ some d
      → is_candidate s now locked (j, d) ≡ true
  candidate_of_key h j d m found =
      test_of_key (is_candidate s now locked) s.deliveries (candidates collate locked limit now s) j
        (candidates-IsChosen h) m d found

  pub length-candidates-le : length (candidates collate locked limit now s) ≤ limit
  unfolding candidates
  length-candidates-le = length-take-le limit _

-- A candidate is joined to an analysis that waits, and is due.
pub candidate_parts :
    (s : Store) (now : ℕ) (locked : List Text) (j : Text) (d : Delivery)
    → is_candidate s now locked (j, d) ≡ true
    → (a : Analysis) × (lookup j s.analyses ≡ some a)
      × (is_claimable now a d ≡ true)
      × (mem j locked ≡ false)
candidate_parts s now locked j d h = elim (Option-cases (lookup j s.analyses)) [
  | inl missing ↦ absurd (ground arith)
  | inr (a, found) ↦ (a, found, ground arith, ground arith)
]

pub candidate_not_delivered :
    (s : Store) (now : ℕ) (locked : List Text) (j : Text) (d : Delivery)
    → is_candidate s now locked (j, d) ≡ true
    → is_delivered d.status ≡ false
candidate_not_delivered s now locked j d h =
    let (a, found, due, free) = candidate_parts s now locked j d h in ground arith

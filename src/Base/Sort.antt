-- ===== src/Base/Sort.antt =====
-- A stable sort by a comparison: `ORDER BY` and `toSorted`.
use stack_lens.Base.Tests.{Bool, List, [], ◌∷◌, if◌then◌else◌, Bool-cases, inl, inr}
use stack_lens.Base.Lists.{All}

module _ {ℓ} {A : Type ℓ} (before : A → A → Bool) where
  -- `x` goes in front of the first element that it is before, so equal elements keep their order.
  unfoldable pub insert_sorted : A → List A → List A
  insert_sorted x [] = x ∷ []
  insert_sorted x (y ∷ ys) = if before y x then y ∷ insert_sorted x ys else x ∷ y ∷ ys

  unfoldable pub sort : List A → List A
  unfolding insert_sorted
  sort [] = []
  sort (x ∷ xs) = insert_sorted x (sort xs)

  module _ {κ} (P : A → Type κ) where
    insert_sorted-All : (x : A) (xs : List A) → P x → All P xs → All P (insert_sorted x xs)
    unfolding insert_sorted
    insert_sorted-All x [] p h = (p, tt)
    insert_sorted-All x (y ∷ ys) p h = elim (Bool-cases (before y x)) [
      | inl e ↦ rw e (h.0, insert_sorted-All x ys p h.1)
      | inr e ↦ rw e (p, h)
    ]

    pub sort-All : (xs : List A) → All P xs → All P (sort xs)
    unfolding sort
    sort-All [] h = tt
    sort-All (x ∷ xs) h = insert_sorted-All x (sort xs) h.0 (sort-All xs h.1)

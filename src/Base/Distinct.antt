-- ===== src/Base/Distinct.antt =====
-- Lists of texts without repetition, and membership.
use stack_lens.Base.Tests.{
  suc, ◌≤◌, ◌≡◌, refl, Bool, true, false, not, ◌&&◌, ◌||◌, List, [], ◌∷◌, ◌++◌, arith,
  if◌then◌else◌, ap, subst, sym,
}
use stack_lens.Base.Lists.{length, all}
use stack_lens.Base.Text.{Text, ◌===◌, ===_iff, ===_refl, ===_sym}
use stack_lens.Base.Table.{mem}

abbrev pub AreDistinct : List Text → Type 0
AreDistinct [] = Unit
AreDistinct (x ∷ xs) = (mem x xs ≡ false) × AreDistinct xs

pub mem-append : (x : Text) (xs ys : List Text) → mem x (xs ++ ys) ≡ (mem x xs || mem x ys)
mem-append x [] ys = refl
mem-append x (a ∷ xs) ys = ground (arith, mem-append x xs ys)

-- `xs` is within `ys`.
abbrev pub are_within : List Text → List Text → Bool
are_within xs ys = all (λ x. mem x ys) xs

pub are_within-append :
    (xs ys zs : List Text) → are_within xs ys ≡ true → are_within xs (ys ++ zs) ≡ true
are_within-append [] ys zs h = refl
are_within-append (x ∷ xs) ys zs h = ground (arith, mem-append x ys zs, are_within-append xs ys zs)

-- Whether none of `xs` is in `ys`, and no two are the same.
unfoldable pub are_new : List Text → List Text → Bool
are_new ys [] = true
are_new ys (x ∷ xs) = not (mem x ys) && are_new (ys ++ (x ∷ [])) xs

pub append-AreDistinct_one :
    (ys : List Text) (x : Text) → AreDistinct ys → mem x ys ≡ false → AreDistinct (ys ++ (x ∷ []))
append-AreDistinct_one [] x d h = (refl, tt)
append-AreDistinct_one (y ∷ ys) x d h = (
  ground (arith, d.0, mem-append y ys (x ∷ []), ===_sym x y),
  append-AreDistinct_one ys x d.1 (ground arith),
)

append_step : (ys xs : List Text) (x : Text) → (ys ++ (x ∷ [])) ++ xs ≡ ys ++ (x ∷ xs)
append_step [] xs x = refl
append_step (y ∷ ys) xs x = ap (λ l. y ∷ l) (append_step ys xs x)

pub are_new-AreDistinct :
    (ys xs : List Text) → AreDistinct ys → are_new ys xs ≡ true → AreDistinct (ys ++ xs)
unfolding are_new
are_new-AreDistinct ys [] d h = subst AreDistinct (sym (append_nil ys)) d
  where
    append_nil : (l : List Text) → l ++ [] ≡ l
    append_nil [] = refl
    append_nil (a ∷ l) = ap (λ k. a ∷ k) (append_nil l)
are_new-AreDistinct ys (x ∷ xs) d h = subst AreDistinct (append_step ys xs x) (
    are_new-AreDistinct (ys ++ (x ∷ [])) xs (append-AreDistinct_one ys x d (ground arith))
      (ground arith))

AreDistinct-mem : (ys xs : List Text) (x : Text) → AreDistinct (ys ++ (x ∷ xs)) → mem x ys ≡ false
AreDistinct-mem [] xs x d = refl
AreDistinct-mem (y ∷ ys) xs x d =
    ground (arith, d.0, mem-append y ys (x ∷ xs), ===_sym x y, AreDistinct-mem ys xs x d.1)

pub AreDistinct-are_new : (ys xs : List Text) → AreDistinct (ys ++ xs) → are_new ys xs ≡ true
unfolding are_new
AreDistinct-are_new ys [] d = refl
AreDistinct-are_new ys (x ∷ xs) d = ground (
  arith,
  AreDistinct-mem ys xs x d,
  AreDistinct-are_new (ys ++ (x ∷ [])) xs (subst AreDistinct (sym (append_step ys xs x)) d),
)

pub AreDistinct-left : (xs ys : List Text) → AreDistinct (xs ++ ys) → AreDistinct xs
AreDistinct-left [] ys d = tt
AreDistinct-left (x ∷ xs) ys d =
    (ground (arith, d.0, mem-append x xs ys), AreDistinct-left xs ys d.1)

pub AreDistinct-right : (xs ys : List Text) → AreDistinct (xs ++ ys) → AreDistinct ys
AreDistinct-right [] ys d = d
AreDistinct-right (x ∷ xs) ys d = AreDistinct-right xs ys d.1

-- One element fewer.
remove : Text → List Text → List Text
remove x [] = []
remove x (y ∷ ys) = if y === x then ys else y ∷ remove x ys

length-remove :
    (x : Text) (ys : List Text) → mem x ys ≡ true → suc (length (remove x ys)) ≡ length ys
unfolding remove
length-remove x [] h = cc
length-remove x (y ∷ ys) h = ground (arith, length-remove x ys)

mem-remove :
    (x z : Text) (ys : List Text) → (z === x) ≡ false → mem z ys ≡ true → mem z (remove x ys) ≡ true
unfolding remove
mem-remove x z [] d h = h
mem-remove x z (y ∷ ys) d h =
    ground (arith, mem-remove x z ys, ===_iff y x, ===_iff y z, ===_iff z x, ===_refl z)

within_remove :
    (x : Text) (xs ys : List Text)
    → mem x xs ≡ false
    → are_within xs ys ≡ true
    → are_within xs (remove x ys) ≡ true
within_remove x [] ys n h = refl
within_remove x (z ∷ xs) ys n h = ground (arith, mem-remove x z ys, within_remove x xs ys)

-- Distinct elements of a list are no more than it has.
pub length-le_of_within :
    (xs ys : List Text) → AreDistinct xs → are_within xs ys ≡ true → length xs ≤ length ys
length-le_of_within [] ys d h = omega arith
length-le_of_within (x ∷ xs) ys d h =
    let smaller =
      length-le_of_within xs (remove x ys) d.1 (within_remove x xs ys d.0 (ground arith)) in
    ground (arith, smaller, length-remove x ys)

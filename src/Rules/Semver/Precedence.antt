-- ===== src/Rules/Semver/Precedence.antt =====
-- The precedence of versions, and what a newer version is newer in.
use stack_lens.Base.Tests.{◌<◌, ◌≡◌, refl, ap, ◌↔◌, some, List, [], ◌∷◌, arith}
use stack_lens.Base.Orders.{less, same, opposite, compare_number-IsOrder, compare_text-IsOrder}
use stack_lens.Rules.Semver.{
  Identifier, number, word, Version, Difference, compare_prerelease_identifier, compare_identifiers,
  compare_prerelease, compare_semantic_versions, newer_version_difference,
}

identifier_reflexive : (x : Identifier) → compare_prerelease_identifier x x ≡ same
identifier_reflexive (number a) = compare_number-IsOrder.reflexive a
identifier_reflexive (word s) = compare_text-IsOrder.reflexive s

identifier_separating : (x y : Identifier) → compare_prerelease_identifier x y ≡ same → x ≡ y
identifier_separating (number a) (number b) h = ap number (compare_number-IsOrder.separating a b h)
identifier_separating (number a) (word t) h = cc
identifier_separating (word s) (number b) h = cc
identifier_separating (word s) (word t) h = ap word (compare_text-IsOrder.separating s t h)

identifier_opposed :
    (x y : Identifier)
    → compare_prerelease_identifier y x ≡ opposite (compare_prerelease_identifier x y)
identifier_opposed (number a) (number b) = compare_number-IsOrder.opposed a b
identifier_opposed (number a) (word t) = refl
identifier_opposed (word s) (number b) = refl
identifier_opposed (word s) (word t) = compare_text-IsOrder.opposed s t

identifier_transitive :
    (x y z : Identifier)
    → compare_prerelease_identifier x y ≡ less
    → compare_prerelease_identifier y z ≡ less
    → compare_prerelease_identifier x z ≡ less
identifier_transitive (number a) (number b) (number c) h k =
    compare_number-IsOrder.transitive a b c h k
identifier_transitive (number a) y (word u) h k = refl
identifier_transitive (number a) (word t) (number c) h k = cc
identifier_transitive (word s) (number b) z h k = cc
identifier_transitive (word s) (word t) (number c) h k = cc
identifier_transitive (word s) (word t) (word u) h k = compare_text-IsOrder.transitive s t u h k

identifiers_reflexive : (xs : List Identifier) → compare_identifiers xs xs ≡ same
unfolding compare_identifiers
identifiers_reflexive [] = refl
identifiers_reflexive (x ∷ xs) =
    rw (identifier_reflexive x, compare_identifiers) (identifiers_reflexive xs)

-- The same prerelease identifiers are the only ones that compare as the same.
identifiers_separating : (xs ys : List Identifier) → compare_identifiers xs ys ≡ same → xs ≡ ys
unfolding compare_identifiers
identifiers_separating [] [] h = refl
identifiers_separating [] (y ∷ ys) h = cc
identifiers_separating (x ∷ xs) [] h = cc
identifiers_separating (x ∷ xs) (y ∷ ys) h =
    ground (arith, identifier_separating x y, identifiers_separating xs ys)

identifiers_opposed :
    (xs ys : List Identifier) → compare_identifiers ys xs ≡ opposite (compare_identifiers xs ys)
unfolding compare_identifiers
identifiers_opposed [] [] = refl
identifiers_opposed [] (y ∷ ys) = refl
identifiers_opposed (x ∷ xs) [] = refl
identifiers_opposed (x ∷ xs) (y ∷ ys) =
    ground (arith, identifier_opposed x y, identifiers_opposed xs ys)

identifiers_transitive :
    (xs ys zs : List Identifier)
    → compare_identifiers xs ys ≡ less
    → compare_identifiers ys zs ≡ less
    → compare_identifiers xs zs ≡ less
unfolding compare_identifiers
identifiers_transitive [] [] [] h k = cc
identifiers_transitive [] (y ∷ ys) [] h k = cc
identifiers_transitive [] ys (z ∷ zs) h k = refl
identifiers_transitive (x ∷ xs) [] zs h k = cc
identifiers_transitive (x ∷ xs) (y ∷ ys) [] h k = cc
identifiers_transitive (x ∷ xs) (y ∷ ys) (z ∷ zs) h k = ground (
  arith,
  identifier_transitive x y z,
  identifiers_transitive xs ys zs,
  identifier_separating x y,
  identifier_separating y z,
)

-- The prereleases of versions with the same numbers.
prerelease_reflexive : (xs : List Identifier) → compare_prerelease xs xs ≡ same
prerelease_reflexive [] = refl
prerelease_reflexive (x ∷ xs) = identifiers_reflexive (x ∷ xs)

prerelease_separating : (xs ys : List Identifier) → compare_prerelease xs ys ≡ same → xs ≡ ys
prerelease_separating [] [] h = refl
prerelease_separating [] (y ∷ ys) h = cc
prerelease_separating (x ∷ xs) [] h = cc
prerelease_separating (x ∷ xs) (y ∷ ys) h = identifiers_separating (x ∷ xs) (y ∷ ys) h

prerelease_opposed :
    (xs ys : List Identifier) → compare_prerelease ys xs ≡ opposite (compare_prerelease xs ys)
prerelease_opposed [] [] = refl
prerelease_opposed [] (y ∷ ys) = refl
prerelease_opposed (x ∷ xs) [] = refl
prerelease_opposed (x ∷ xs) (y ∷ ys) = identifiers_opposed (x ∷ xs) (y ∷ ys)

prerelease_transitive :
    (xs ys zs : List Identifier)
    → compare_prerelease xs ys ≡ less
    → compare_prerelease ys zs ≡ less
    → compare_prerelease xs zs ≡ less
prerelease_transitive [] [] zs h k = cc
prerelease_transitive [] (y ∷ ys) zs h k = cc
prerelease_transitive (x ∷ xs) ys [] h k = refl
prerelease_transitive (x ∷ xs) [] (z ∷ zs) h k = cc
prerelease_transitive (x ∷ xs) (y ∷ ys) (z ∷ zs) h k =
    identifiers_transitive (x ∷ xs) (y ∷ ys) (z ∷ zs) h k

-- The same precedence: the numbers and the prerelease, but neither the text nor the build.
pub record HasSamePrecedence (u v : Version) : Type 0 where
  pub majors : u.major ≡ v.major
  pub minors : u.minor ≡ v.minor
  pub patches : u.patch ≡ v.patch
  pub prereleases : u.prerelease ≡ v.prerelease

-- The comparison of versions answers 0 exactly for two versions of the same precedence, and the
-- opposite when they are swapped.
pub compare_semantic_versions_lem :
    (u v : Version)
    → ((compare_semantic_versions u v ≡ same) ↔ HasSamePrecedence u v)
      × (compare_semantic_versions v u ≡ opposite (compare_semantic_versions u v))
unfolding compare_semantic_versions
compare_semantic_versions_lem u v =
    let back = prerelease_opposed u.prerelease v.prerelease in
    (
      (
        λ h. record {
          majors = ground arith;
          minors = ground arith;
          patches = ground arith;
          prereleases = ground (arith, prerelease_separating u.prerelease v.prerelease);
        },
        λ h. ground (
          arith,
          h.majors,
          h.minors,
          h.patches,
          h.prereleases,
          prerelease_reflexive u.prerelease,
          prerelease_reflexive v.prerelease,
        ),
      ),
      ground (arith, back),
    )

-- A version that comes before a second one, which comes before a third, comes before the third.
pub compare_semantic_versions_trans :
    (u v w : Version)
    → compare_semantic_versions u v ≡ less
    → compare_semantic_versions v w ≡ less
    → compare_semantic_versions u w ≡ less
unfolding compare_semantic_versions
compare_semantic_versions_trans u v w h k =
    ground (arith, prerelease_transitive u.prerelease v.prerelease w.prerelease)

-- The highest part in which the second version is newer than the first.
pub IsNewerBy : Difference → Version → Version → Type 0
IsNewerBy Difference.major d c = d.major < c.major
IsNewerBy Difference.minor d c = (d.major ≡ c.major) × (d.minor < c.minor)
IsNewerBy Difference.patch d c = (d.major ≡ c.major) × (d.minor ≡ c.minor) × (d.patch < c.patch)
IsNewerBy Difference.prerelease d c =
    (d.major ≡ c.major)
    × (d.minor ≡ c.minor)
    × (d.patch ≡ c.patch)
    × (compare_prerelease d.prerelease c.prerelease ≡ less)

-- The difference that is reported is the highest part in which the other version is newer than the
-- declared one, and one is reported whenever there is such a part.
pub newer_version_difference_lem :
    (k : Difference) (declared comparison : Version)
    → (newer_version_difference declared comparison ≡ some k) ↔ IsNewerBy k declared comparison
unfolding newer_version_difference compare_semantic_versions IsNewerBy
newer_version_difference_lem Difference.major d c =
    let back = prerelease_opposed d.prerelease c.prerelease in
    (λ h. ground (arith, back), λ h. ground (arith, back))
newer_version_difference_lem Difference.minor d c =
    let back = prerelease_opposed d.prerelease c.prerelease in
    (λ h. ground (arith, back), λ h. ground (arith, back))
newer_version_difference_lem Difference.patch d c =
    let back = prerelease_opposed d.prerelease c.prerelease in
    (λ h. ground (arith, back), λ h. ground (arith, back))
newer_version_difference_lem Difference.prerelease d c =
    let back = prerelease_opposed d.prerelease c.prerelease in
    (λ h. ground (arith, back), λ h. ground (arith, back))

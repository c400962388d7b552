-- ===== src/Rules/Semver/Parsing.antt =====
-- What a version that was read is made of.
use stack_lens.Base.Tests.{
  ℕ, ◌≤◌, ◌≡◌, refl, ap, subst, inl, inr, ◌==◌, true, false, Option, none, some, List, [], ◌∷◌,
  arith, max_safe_integer, Bool-cases, &&-eq-true,
}
use mathlib.Core.Option.{some-injective}
use stack_lens.Base.Lists.{All, all}
use stack_lens.Base.Text.{Text}
use stack_lens.Rules.Semver.{
  ◌>>=◌, Identifier, number, word, Version, is_digit, is_identifier_character, is_filled,
  split_identifiers, read_numeral, expect, read_identifiers, read_prerelease, read_build,
  safe_number, identifier, identifiers, Match, match_version, version_of,
  parse_exact_semantic_version,
}

-- A number is safe; a word is not empty, has only the characters of identifiers, and not only
-- digits.
pub IsWellFormed : Identifier → Type 0
IsWellFormed (number n) = n ≤ max_safe_integer
IsWellFormed (word s) =
    (is_filled s ≡ true) × (all is_identifier_character s ≡ true) × (all is_digit s ≡ false)

bind_some :
    {A B : Type 0} (m : Option A) (f : A → Option B) (b : B)
    → (m >>= f) ≡ some b
    → (a : A) × (m ≡ some a) × (f a ≡ some b)
bind_some none f b h = cc
bind_some (some a) f b h = (a, refl, h)

split_identifiers_lem :
    (s : Text)
    → let (first, others, rest) = split_identifiers s in
      All (λ w. all is_identifier_character w ≡ true) (first ∷ others)
unfolding split_identifiers
split_identifiers_lem [] = (refl, tt)
split_identifiers_lem (c ∷ s) =
    let (here, there) = split_identifiers_lem s in
    elim (Bool-cases (is_identifier_character c)) [
      | inl e ↦ rw e (ground (arith, here, e), there)
      | inr e ↦ elim (Bool-cases (c == 46)) [
        | inl p ↦ rw (e, p) (refl, (here, there))
        | inr p ↦ rw (e, p) (refl, tt)
      ]
    ]

safe_number_lem : (s : Text) (n : ℕ) → safe_number s ≡ some n → n ≤ max_safe_integer
safe_number_lem s n h = ground arith

IsPart : Text → Type 0
IsPart w = (is_filled w ≡ true) × (all is_identifier_character w ≡ true)

identifier-IsWellFormed :
    (s : Text) (i : Identifier) → IsPart s → identifier s ≡ some i → IsWellFormed i
unfolding IsWellFormed IsPart
identifier-IsWellFormed s (number n) p h = ground arith
identifier-IsWellFormed s (word w) p h = elim (Bool-cases (all is_digit s)) [
  | inl e ↦ ground (arith, rw e at h, e)
  | inr e ↦
      let same : s ≡ w = ground (arith, rw e at h) in
      (ground (arith, p.0, same), ground (arith, p.1, same), ground (arith, e, same))
]

identifiers-IsWellFormed :
    (words : List Text) (is : List Identifier)
    → All IsPart words
    → identifiers words ≡ some is
    → All IsWellFormed is
unfolding identifiers
identifiers-IsWellFormed [] is p h = subst (All IsWellFormed) (some-injective _ _ h) tt
identifiers-IsWellFormed (w ∷ words) is p h =
    let (i, first, h1) = bind_some (identifier w) _ is h in
    let (rest, others, h2) = bind_some (identifiers words) _ is h1 in
    subst (All IsWellFormed) (some-injective _ _ h2)
      (identifier-IsWellFormed w i p.0 first, identifiers-IsWellFormed words rest p.1 others)

parts_of :
    (words : List Text)
    → all is_filled words ≡ true
    → All (λ w. all is_identifier_character w ≡ true) words
    → All IsPart words
unfolding IsPart
parts_of [] f c = tt
parts_of (w ∷ words) f c =
    let (here, there) = &&-eq-true (is_filled w) (all is_filled words) f in
    ((here, c.0), parts_of words there c.1)

read_identifiers_lem :
    (s rest : Text) (words : List Text) → read_identifiers s ≡ some (words, rest) → All IsPart words
read_identifiers_lem s rest words h =
    let (first, others, left) = split_identifiers s in
    elim (Bool-cases (all is_filled (first ∷ others))) [
      | inl e ↦
          subst (All IsPart) (ap (λ p. p.0) (some-injective _ _ (rw e at h)))
            (parts_of (first ∷ others) e (split_identifiers_lem s))
      | inr e ↦ ground (arith, rw e at h)
    ]

read_prerelease_lem :
    (s rest : Text) (words : List Text) → read_prerelease s ≡ some (words, rest) → All IsPart words
read_prerelease_lem [] rest words h = subst (All IsPart) (ap (λ p. p.0) (some-injective _ _ h)) tt
read_prerelease_lem (c ∷ s) rest words h = elim (Bool-cases (c == 45)) [
  | inl e ↦ read_identifiers_lem s rest words (rw e at h)
  | inr e ↦ subst (All IsPart) (ap (λ p. p.0) (some-injective _ _ (rw e at h))) tt
]

match_version-IsPart :
    (value : Text) (m : Match) → match_version value ≡ some m → All IsPart m.words
unfolding match_version
match_version-IsPart value m h =
    let (major, _, h1) = bind_some (read_numeral value) _ m h in
    let (r2, _, h2) = bind_some (expect 46 major.1) _ m h1 in
    let (minor, _, h3) = bind_some (read_numeral r2) _ m h2 in
    let (r4, _, h4) = bind_some (expect 46 minor.1) _ m h3 in
    let (patch, _, h5) = bind_some (read_numeral r4) _ m h4 in
    let (pre, e6, h6) = bind_some (read_prerelease patch.1) _ m h5 in
    let (_, _, h7) = bind_some (read_build pre.1) _ m h6 in
    subst (λ m. All IsPart m.words) (some-injective _ _ h7)
      (read_prerelease_lem patch.1 pre.1 pre.0 e6)

-- What a version that was read from a text is made of.
pub record IsReadFrom (value : Text) (v : Version) : Type 0 where
  pub text_kept : v.raw ≡ value
  pub safe_major : v.major ≤ max_safe_integer
  pub safe_minor : v.minor ≤ max_safe_integer
  pub safe_patch : v.patch ≤ max_safe_integer
  pub well_formed : All IsWellFormed v.prerelease

version_of-IsReadFrom :
    (value : Text) (m : Match) (v : Version)
    → All IsPart m.words
    → version_of value m ≡ some v
    → IsReadFrom value v
unfolding version_of
version_of-IsReadFrom value m v parts h =
    let (major, e1, h1) = bind_some (safe_number m.major_digits) _ v h in
    let (minor, e2, h2) = bind_some (safe_number m.minor_digits) _ v h1 in
    let (patch, e3, h3) = bind_some (safe_number m.patch_digits) _ v h2 in
    let (is, e4, h4) = bind_some (identifiers m.words) _ v h3 in
    subst (IsReadFrom value) (some-injective _ _ h4) (record {
      text_kept = refl;
      safe_major = safe_number_lem m.major_digits major e1;
      safe_minor = safe_number_lem m.minor_digits minor e2;
      safe_patch = safe_number_lem m.patch_digits patch e3;
      well_formed = identifiers-IsWellFormed m.words is parts e4;
    })

-- A version that was read keeps the text it was read from, its numbers are safe integers, and each
-- prerelease identifier is a safe integer or a word: not empty, of the characters of identifiers,
-- and not only of digits.
pub parse-IsReadFrom :
    (value : Text) (v : Version) → parse_exact_semantic_version value ≡ some v → IsReadFrom value v
unfolding parse_exact_semantic_version
parse-IsReadFrom value v h =
    let (m, e, h1) = bind_some (match_version value) _ v h in
    version_of-IsReadFrom value m v (match_version-IsPart value m e) h1

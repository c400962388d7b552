-- ===== src/Rules/Semver.antt =====
-- Semantic versions (packages/rules-javascript/src/semver.ts). The regular expression is read from
-- the left: three numerals, and then what may follow them.
pub mod Precedence
pub mod Parsing
use stack_lens.Base.Tests.{
  max_safe_integer, ℕ, ◌+◌, ◌-◌, ◌*◌, Bool, true, false, not, ◌&&◌, ◌||◌, Option, none, some, List,
  [], ◌∷◌, ltb, leb, ◌==◌, if◌then◌else◌,
}
use stack_lens.Base.Lists.{length, all}
use stack_lens.Base.Text.{Text, text}
use stack_lens.Base.Orders.{Comparison, less, same, greater, compare_number, compare_text}

infixl 5 ◌>>=◌ ◌>>◌
abbrev pub ◌>>=◌ : {A B : Type 0} → Option A → (A → Option B) → Option B
none >>= f = none
some a >>= f = f a

abbrev ◌>>◌ : {B : Type 0} → Option (Unit {0}) → Option B → Option B
m >> k = m >>= λ _. k

pub data Identifier : Type 0 where
  number : ℕ → Identifier
  word : Text → Identifier

-- `ParsedSemanticVersion`
pub record Version : Type 0 where
  pub raw : Text
  pub major : ℕ
  pub minor : ℕ
  pub patch : ℕ
  pub prerelease : List Identifier

pub data Difference : Type 0 where
  major minor patch prerelease : Difference

abbrev pub is_digit : ℕ → Bool
is_digit c = leb 48 c && leb c 57

-- `[0-9A-Za-z-]`
abbrev pub is_identifier_character : ℕ → Bool
is_identifier_character c =
    is_digit c || (leb 65 c && leb c 90) || (leb 97 c && leb c 122) || c == 45

-- The longest prefix whose characters pass the test, with the rest.
unfoldable pub span : (ℕ → Bool) → Text → Text × Text
span f [] = ([], [])
span f (c ∷ s) = let (taken, left) = span f s in if f c then (c ∷ taken, left) else ([], c ∷ s)

-- `0|[1-9]\d*`
abbrev pub is_numeral : Text → Bool
is_numeral [] = false
is_numeral (c ∷ []) = is_digit c
is_numeral (c ∷ d ∷ s) = is_digit c && not (c == 48) && all is_digit (d ∷ s)

unfoldable pub value_from : ℕ → Text → ℕ
value_from n [] = n
value_from n (c ∷ s) = value_from (10 * n + (c - 48)) s

-- `Number` of a numeral, where it is a safe integer; past 2 ^ 53 a rounded one is none either.
abbrev pub safe_number : Text → Option ℕ
safe_number s = let n = value_from 0 s in if leb n max_safe_integer then some n else none

-- A numeral with the rest of the text.
abbrev pub read_numeral : Text → Option (Text × Text)
read_numeral s =
    let (digits, rest) = span is_digit s in if is_numeral digits then some (digits, rest) else none

abbrev pub expect : ℕ → Text → Option Text
expect c [] = none
expect c (d ∷ s) = if c == d then some s else none

-- `[0-9A-Za-z-]+(?:\.[0-9A-Za-z-]+)*`: the first identifier, the ones after a point, and the rest.
unfoldable pub split_identifiers : Text → Text × List Text × Text
split_identifiers [] = ([], [], [])
split_identifiers (c ∷ s) =
    let (first, others, rest) = split_identifiers s in
    if is_identifier_character c
    then (c ∷ first, others, rest)
    else if c == 46
    then ([], first ∷ others, rest)
    else ([], [], c ∷ s)

abbrev pub is_filled : Text → Bool
is_filled s = not (length s == 0)

abbrev pub read_identifiers : Text → Option (List Text × Text)
read_identifiers s =
    let (first, others, rest) = split_identifiers s in
    if all is_filled (first ∷ others) then some (first ∷ others, rest) else none

-- `(?:-(...))?`
abbrev pub read_prerelease : Text → Option (List Text × Text)
read_prerelease [] = some ([], [])
read_prerelease (c ∷ s) = if c == 45 then read_identifiers s else some ([], c ∷ s)

-- `(?:\+...)?$`
abbrev pub read_build : Text → Option (Unit {0})
read_build [] = some tt
read_build (c ∷ s) =
    if c == 43
    then elim (read_identifiers s) [
      | none ↦ none
      | some (words, []) ↦ some tt
      | some (words, _ ∷ _) ↦ none
    ]
    else none

-- An identifier of digits is a number, which has no leading zero and is safe.
abbrev pub identifier : Text → Option Identifier
identifier s =
    if all is_digit s
    then (if is_numeral s
        then elim (safe_number s) [ none ↦ none | some n ↦ some (number n) ]
        else none)
    else some (word s)

unfoldable pub identifiers : List Text → Option (List Identifier)
identifiers [] = some []
identifiers (s ∷ rest) = do i ← identifier s; is ← identifiers rest; some (i ∷ is)

-- The groups of the regular expression; the identifiers of the prerelease are split already.
pub record Match : Type 0 where
  pub major_digits : Text
  pub minor_digits : Text
  pub patch_digits : Text
  pub words : List Text

unfoldable pub match_version : Text → Option Match
unfolding span split_identifiers
match_version value = do
  (major_digits, after_major) ← read_numeral value
  minor_part ← expect 46 after_major
  (minor_digits, after_minor) ← read_numeral minor_part
  patch_part ← expect 46 after_minor
  (patch_digits, after_patch) ← read_numeral patch_part
  (words, after_words) ← read_prerelease after_patch
  read_build after_words
  some (record {
    major_digits = major_digits;
    minor_digits = minor_digits;
    patch_digits = patch_digits;
    words = words;
  })

unfoldable pub version_of : Text → Match → Option Version
unfolding value_from identifiers
version_of value m = do
  major_read ← safe_number m.major_digits
  minor_read ← safe_number m.minor_digits
  patch_read ← safe_number m.patch_digits
  prerelease_read ← identifiers m.words
  some (record {
    raw = value;
    major = major_read;
    minor = minor_read;
    patch = patch_read;
    prerelease = prerelease_read;
  })

unfoldable pub parse_exact_semantic_version : Text → Option Version
unfolding match_version version_of
parse_exact_semantic_version value = do m ← match_version value; version_of value m

-- `comparePrereleaseIdentifier`
abbrev pub compare_prerelease_identifier : Identifier → Identifier → Comparison
compare_prerelease_identifier (number a) (number b) = compare_number a b
compare_prerelease_identifier (number a) (word t) = less
compare_prerelease_identifier (word s) (number b) = greater
compare_prerelease_identifier (word s) (word t) = compare_text s t

-- The loop over the identifiers, from an index on.
unfoldable pub compare_identifiers : List Identifier → List Identifier → Comparison
compare_identifiers [] [] = same
compare_identifiers [] (y ∷ ys) = less
compare_identifiers (x ∷ xs) [] = greater
compare_identifiers (x ∷ xs) (y ∷ ys) =
    let rest = compare_identifiers xs ys in
    elim (compare_prerelease_identifier x y) [ less ↦ less | same ↦ rest | greater ↦ greater ]

-- A version without a prerelease comes after those with one.
abbrev pub compare_prerelease : List Identifier → List Identifier → Comparison
compare_prerelease [] [] = same
compare_prerelease [] (y ∷ ys) = greater
compare_prerelease (x ∷ xs) [] = less
compare_prerelease (x ∷ xs) (y ∷ ys) = compare_identifiers (x ∷ xs) (y ∷ ys)

unfoldable pub compare_semantic_versions : Version → Version → Comparison
unfolding compare_identifiers
compare_semantic_versions l r =
    if not (l.major == r.major)
    then (if ltb l.major r.major then less else greater)
    else if not (l.minor == r.minor)
    then (if ltb l.minor r.minor then less else greater)
    else if not (l.patch == r.patch)
    then (if ltb l.patch r.patch then less else greater)
    else compare_prerelease l.prerelease r.prerelease

abbrev is_greater : Comparison → Bool
is_greater less = false
is_greater same = false
is_greater greater = true

unfoldable pub newer_version_difference : Version → Version → Option Difference
unfolding compare_semantic_versions
newer_version_difference declared comparison =
    if not (is_greater (compare_semantic_versions comparison declared))
    then none
    else if not (comparison.major == declared.major)
    then some Difference.major
    else if not (comparison.minor == declared.minor)
    then some Difference.minor
    else if not (comparison.patch == declared.patch)
    then some Difference.patch
    else some Difference.prerelease

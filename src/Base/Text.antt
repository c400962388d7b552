-- ===== src/Base/Text.antt =====
-- The strings of the source: a JavaScript string is the list of its UTF-16 code units.
use Prim.Native.Char.{code}
use Prim.Native.String.{String}
use stack_lens.Base.Tests.{
  ℕ, ◌≡◌, refl, ◌↔◌, Bool, true, false, ◌&&◌, ◌||◌, Option, none, some, List, [], ◌∷◌, arith, ◌==◌,
  ltb,
}

abbrev pub Text : Type 0
Text = List ℕ

-- The text of an ASCII literal.
abbrev pub text : String → Text
text String.[] = []
text (String.◌∷◌ c s) = code c ∷ text s

infix 50 ◌===◌ ◌=?=◌
unfoldable pub ◌===◌ : Text → Text → Bool
[] === [] = true
(a ∷ s) === (b ∷ t) = a == b && s === t
_ === _ = false

pub ===_iff : (s t : Text) → ((s === t) ≡ true) ↔ (s ≡ t)
unfolding ◌===◌
===_iff [] [] = ground arith
===_iff [] (b ∷ t) = ground arith
===_iff (a ∷ s) [] = ground arith
===_iff (a ∷ s) (b ∷ t) = ground (arith, ===_iff s t)

pub ===_refl : (s : Text) → (s === s) ≡ true
===_refl s = (===_iff s s).1 refl

pub ===_sym : (s t : Text) → (s === t) ≡ (t === s)
===_sym s t = ground (arith, ===_iff s t, ===_iff t s)

-- `===` on values that may be `undefined`.
abbrev pub ◌=?=◌ : Option Text → Option Text → Bool
none =?= none = true
some s =?= some t = s === t
_ =?= _ = false

pub =?=_iff : (s t : Option Text) → ((s =?= t) ≡ true) ↔ (s ≡ t)
=?=_iff none none = ground arith
=?=_iff none (some t) = ground arith
=?=_iff (some s) none = ground arith
=?=_iff (some s) (some t) = ground (arith, ===_iff s t)

-- `left < right`: by code units, a proper prefix first.
unfoldable pub text_lt : Text → Text → Bool
text_lt [] [] = false
text_lt [] (b ∷ t) = true
text_lt (a ∷ s) [] = false
text_lt (a ∷ s) (b ∷ t) = ltb a b || (a == b && text_lt s t)

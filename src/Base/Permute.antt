-- ===== src/Base/Permute.antt =====
-- What a rearrangement of a list keeps, and that sorting by distinct keys undoes it.
use mathlib.Core.List.{Permᴰ}
use stack_lens.Base.Tests.{
  ◌≡◌, refl, subst, sym, ap, ◌∙◌, Bool, true, false, List, [], ◌∷◌, ◌++◌, map, arith, Bool-cases,
  inl, inr,
}
use stack_lens.Base.Lists.{all}
use stack_lens.Base.Text.{Text, ◌===◌, ===_iff, ===_sym, text_lt}
use stack_lens.Base.Table.{mem}
use stack_lens.Base.Distinct.{AreDistinct}
use stack_lens.Base.Orders.{text_lt_asym, text_lt_total, text_lt_trans}
use stack_lens.Base.Sort.{sort, insert_sorted}

pub map-Permᴰ {ℓ κ} :
    {A : Type ℓ} {B : Type κ} (f : A → B) {xs ys : List A}
    → Permᴰ xs ys
    → Permᴰ (map f xs) (map f ys)
map-Permᴰ f Permᴰ.nil = Permᴰ.nil
map-Permᴰ f (Permᴰ.cons e p) = Permᴰ.cons (ap f e) (map-Permᴰ f p)
map-Permᴰ f (Permᴰ.swap e k) = Permᴰ.swap (ap f e) (ap f k)
map-Permᴰ f (Permᴰ.trans p q) = Permᴰ.trans (map-Permᴰ f p) (map-Permᴰ f q)

pub Permᴰ_refl {ℓ} : {A : Type ℓ} (xs : List A) → Permᴰ xs xs
Permᴰ_refl [] = Permᴰ.nil
Permᴰ_refl (x ∷ xs) = Permᴰ.cons refl (Permᴰ_refl xs)

pub Permᴰ_sym {ℓ} : {A : Type ℓ} {xs ys : List A} → Permᴰ xs ys → Permᴰ ys xs
Permᴰ_sym Permᴰ.nil = Permᴰ.nil
Permᴰ_sym (Permᴰ.cons e p) = Permᴰ.cons (sym e) (Permᴰ_sym p)
Permᴰ_sym (Permᴰ.swap e k) = Permᴰ.swap (sym k) (sym e)
Permᴰ_sym (Permᴰ.trans p q) = Permᴰ.trans (Permᴰ_sym q) (Permᴰ_sym p)

pub append_right-Permᴰ {ℓ} :
    {A : Type ℓ} {xs ys : List A} (zs : List A) → Permᴰ xs ys → Permᴰ (xs ++ zs) (ys ++ zs)
append_right-Permᴰ zs Permᴰ.nil = Permᴰ_refl zs
append_right-Permᴰ zs (Permᴰ.cons e p) = Permᴰ.cons e (append_right-Permᴰ zs p)
append_right-Permᴰ zs (Permᴰ.swap e k) = Permᴰ.swap e k
append_right-Permᴰ zs (Permᴰ.trans p q) =
    Permᴰ.trans (append_right-Permᴰ zs p) (append_right-Permᴰ zs q)

pub append_left-Permᴰ {ℓ} :
    {A : Type ℓ} {xs ys : List A} (zs : List A) → Permᴰ xs ys → Permᴰ (zs ++ xs) (zs ++ ys)
append_left-Permᴰ [] p = p
append_left-Permᴰ (z ∷ zs) p = Permᴰ.cons refl (append_left-Permᴰ zs p)

pub all-permute {ℓ} :
    {A : Type ℓ} (p : A → Bool) {xs ys : List A} → Permᴰ xs ys → all p xs ≡ all p ys
all-permute p Permᴰ.nil = refl
all-permute p (Permᴰ.cons {a = a} {b = b} e d) = ground (arith, ap p e, all-permute p d)
all-permute p (Permᴰ.swap e k) = ground (arith, ap p e, ap p k)
all-permute p (Permᴰ.trans d d') = all-permute p d ∙ all-permute p d'

pub mem-permute : (x : Text) {xs ys : List Text} → Permᴰ xs ys → mem x xs ≡ mem x ys
mem-permute x Permᴰ.nil = refl
mem-permute x (Permᴰ.cons e d) =
    ground (arith, ap (λ a. x === a) e, ap (λ a. a === x) e, mem-permute x d)
mem-permute x (Permᴰ.swap e k) =
    ground
      (arith, ap (λ a. x === a) e, ap (λ a. a === x) e, ap (λ a. x === a) k, ap (λ a. a === x) k)
mem-permute x (Permᴰ.trans d d') = mem-permute x d ∙ mem-permute x d'

pub AreDistinct-permute : {xs ys : List Text} → Permᴰ xs ys → AreDistinct xs → AreDistinct ys
AreDistinct-permute Permᴰ.nil h = h
AreDistinct-permute (Permᴰ.cons {a = a} {b = b} {l₁ = l} {l₂ = m} e d) h =
    (subst (λ x. mem x m ≡ false) e (sym (mem-permute a d) ∙ h.0), AreDistinct-permute d h.1)
AreDistinct-permute (Permᴰ.swap {a = a} {b = b} {a' = c} {b' = d} {l = l} e k) h = (
  ground (arith, ===_iff d c, ===_iff c d, h, e, k, ===_iff a b, ===_iff b a),
  (subst (λ x. mem x l ≡ false) e (ground (arith, h.0)), ground (arith, h)),
)
AreDistinct-permute (Permᴰ.trans d d') h = AreDistinct-permute d' (AreDistinct-permute d h)

lt_of_not_lt : (s t u : Text) → text_lt s u ≡ true → text_lt s t ≡ false → text_lt t u ≡ true
lt_of_not_lt s t u h n = elim (Bool-cases (s === t)) [
  | inl e ↦ subst (λ v. text_lt v u ≡ true) ((===_iff s t).0 e) h
  | inr e ↦ text_lt_trans t s u (text_lt_total s t e n) h
]

module _ {ℓ} {A : Type ℓ} (key : A → Text) where
  abbrev pub precedes : A → A → Bool
  precedes a b = text_lt (key a) (key b)

  insert_sorted_comm :
      (x y : A) (l : List A)
      → (key x === key y) ≡ false
      → insert_sorted precedes x (insert_sorted precedes y l)
        ≡ insert_sorted precedes y (insert_sorted precedes x l)
  unfolding insert_sorted
  insert_sorted_comm x y [] d =
      ground (arith, text_lt_asym (key x) (key y), text_lt_total (key x) (key y))
  insert_sorted_comm x y (z ∷ l) d = elim (Bool-cases (precedes z x)) [
    | inl e ↦ elim (Bool-cases (precedes z y)) [
      | inl e' ↦ rw (e, e', e) (ap (λ r. z ∷ r) (insert_sorted_comm x y l d))
      | inr e' ↦ rw (e, e', lt_of_not_lt (key z) (key y) (key x) e e', e) refl
    ]
    | inr e ↦ elim (Bool-cases (precedes z y)) [
      | inl e' ↦ rw (e, e', lt_of_not_lt (key z) (key x) (key y) e' e, e) refl
      | inr e' ↦ ground (arith, text_lt_asym (key x) (key y), text_lt_total (key x) (key y))
    ]
  ]

  -- Lists with the same elements sort to the same list when no two elements have one key.
  pub sort-permute :
      {xs ys : List A}
      → Permᴰ xs ys
      → AreDistinct (map key xs)
      → sort precedes xs ≡ sort precedes ys
  unfolding sort
  sort-permute Permᴰ.nil d = refl
  sort-permute (Permᴰ.cons {a = a} {b = b} {l₁ = l} e p) d =
      ap (λ x. insert_sorted precedes x (sort precedes l)) e
      ∙ ap (insert_sorted precedes b) (sort-permute p d.1)
  sort-permute (Permᴰ.swap {a = a} {b = b} {a' = c} {b' = f} {l = l} e k) d =
      insert_sorted_comm a b (sort precedes l) (ground (arith, d.0, ===_sym (key a) (key b)))
      ∙ ap (λ x. insert_sorted precedes b (insert_sorted precedes x (sort precedes l))) e
      ∙ ap (λ x. insert_sorted precedes x (insert_sorted precedes f (sort precedes l))) k
  sort-permute (Permᴰ.trans p q) d =
      sort-permute p d ∙ sort-permute q (AreDistinct-permute (map-Permᴰ key p) d)

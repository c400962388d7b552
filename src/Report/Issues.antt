-- ===== src/Report/Issues.antt =====
-- How issues are added (packages/contracts/src/analysis-report.ts): `addMissingReferenceIssue`,
-- `validateUniqueIds` and the loops over references.
use stack_lens.Base.Tests.{
  ℕ, suc, ◌≡◌, refl, Bool, true, false, not, ◌&&◌, List, [], ◌∷◌, ◌++◌, arith, Bool-cases, inl, inr,
  ◌∙◌,
}
use stack_lens.Base.Lists.{all}
use stack_lens.Base.Text.{Text, text}
use stack_lens.Base.Table.{mem}
use stack_lens.Base.Distinct.{are_new, are_within}
use stack_lens.Report.{PathPart, Issue}

-- `items.forEach((item, index) => …)`
unfoldable pub each {ℓ} : {A : Type ℓ} → (ℕ → A → List Issue) → ℕ → List A → List Issue
each f n [] = []
each f n (x ∷ xs) = f n x ++ each f (suc n) xs

abbrev pub issue_if : Bool → List PathPart → Text → List Issue
issue_if true path message = record { path = path; message = message } ∷ []
issue_if false path message = []

abbrev missing_message : Text → Text → Text
missing_message kind id = text "Unknown " ++ (kind ++ (text " reference: " ++ id))

-- One reference, and a list of them.
abbrev pub reference_issues : List PathPart → Text → List Text → Text → List Issue
reference_issues path kind known id = issue_if (not (mem id known)) path (missing_message kind id)

unfoldable pub references_issues : List PathPart → Text → List Text → List Text → List Issue
unfolding each
references_issues path kind known ids =
    each (λ n id. reference_issues (path ++ (PathPart.index n ∷ [])) kind known id) 0 ids

abbrev duplicate_message : Text → Text → Text
duplicate_message collection id = text "Duplicate " ++ (collection ++ (text " id: " ++ id))

-- The texts that were seen before; `seen` are those before the list, and `n` counts them.
unfoldable pub duplicate_issues : Text → List Text → ℕ → List Text → List Issue
duplicate_issues collection seen n [] = []
duplicate_issues collection seen n (id ∷ ids) =
    issue_if (mem id seen)
      (PathPart.field collection ∷ PathPart.index n ∷ PathPart.field (text "id") ∷ [])
      (duplicate_message collection id)
    ++ duplicate_issues collection (seen ++ (id ∷ [])) (suc n) ids

-- Whether there is no issue.
abbrev pub is_clear : List Issue → Bool
is_clear [] = true
is_clear (i ∷ is) = false

pub is_clear-append : (is js : List Issue) → is_clear (is ++ js) ≡ (is_clear is && is_clear js)
is_clear-append [] js = refl
is_clear-append (i ∷ is) js = refl

pub is_clear-issue_if :
    (b : Bool) (path : List PathPart) (message : Text) → is_clear (issue_if b path message) ≡ not b
is_clear-issue_if true path message = refl
is_clear-issue_if false path message = refl

pub is_clear_iff : (is : List Issue) → is_clear is ≡ true → is ≡ []
is_clear_iff [] h = refl
is_clear_iff (i ∷ is) h = cc

pub is_clear-each {ℓ} :
    {A : Type ℓ} (f : ℕ → A → List Issue) (p : A → Bool)
    → ((n : ℕ) (x : A) → is_clear (f n x) ≡ p x)
    → (n : ℕ) (xs : List A) → is_clear (each f n xs) ≡ all p xs
unfolding each
is_clear-each f p same n [] = refl
is_clear-each f p same n (x ∷ xs) =
    is_clear-append (f n x) (each f (suc n) xs)
    ∙ ground (arith, same n x, is_clear-each f p same (suc n) xs)

pub is_clear-references_issues :
    (path : List PathPart) (kind : Text) (known ids : List Text)
    → is_clear (references_issues path kind known ids) ≡ are_within ids known
unfolding references_issues
is_clear-references_issues path kind known ids =
    is_clear-each (λ n id. reference_issues (path ++ (PathPart.index n ∷ [])) kind known id)
      (λ id. mem id known)
      (λ n id. ground (
        arith,
        is_clear-issue_if (not (mem id known)) (path ++ (PathPart.index n ∷ []))
            (missing_message kind id),
      ))
      0 ids

pub is_clear-duplicate_issues :
    (collection : Text) (seen : List Text) (n : ℕ) (ids : List Text)
    → is_clear (duplicate_issues collection seen n ids) ≡ are_new seen ids
unfolding duplicate_issues are_new
is_clear-duplicate_issues collection seen n [] = refl
is_clear-duplicate_issues collection seen n (id ∷ ids) = elim (Bool-cases (mem id seen)) [
  | inl e ↦ rw (e, are_new) refl
  | inr e ↦ rw (e, are_new) (is_clear-duplicate_issues collection (seen ++ (id ∷ [])) (suc n) ids)
]

pub three_parts :
    (a b c : List Issue) → is_clear (a ++ (b ++ c)) ≡ (is_clear a && (is_clear b && is_clear c))
three_parts a b c = ground (arith, is_clear-append a (b ++ c), is_clear-append b c)

pub four_parts :
    (a b c d : List Issue)
    → is_clear (a ++ (b ++ (c ++ d))) ≡ (is_clear a && (is_clear b && (is_clear c && is_clear d)))
four_parts a b c d = ground (arith, is_clear-append a (b ++ (c ++ d)), three_parts b c d)

pub is_clear-reference_issues :
    (path : List PathPart) (kind : Text) (known : List Text) (id : Text)
    → is_clear (reference_issues path kind known id) ≡ mem id known
is_clear-reference_issues path kind known id =
    is_clear-issue_if (not (mem id known)) _ _ ∙ ground arith

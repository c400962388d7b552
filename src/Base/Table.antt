-- ===== src/Base/Table.antt =====
-- A database table as the list of its rows, each behind its primary key, and the queries by key.
use stack_lens.Base.Tests.{
  ◌≡◌, refl, subst, Bool, true, false, Option, none, some, List, [], ◌∷◌, arith, if◌then◌else◌,
  is_some, or_else, Bool-cases, inl, inr, Option-cases,
}
use stack_lens.Base.Lists.{All, All-imp, any}
use stack_lens.Base.Text.{Text, ◌===◌, ===_iff, ===_refl}
use mathlib.Core.Option

abbrev pub Table {ℓ} : Type ℓ → Type ℓ
Table V = List (Text × V)

abbrev pub mem : Text → List Text → Bool
mem j ks = any (λ k. k === j) ks

pub mem_same : (j k : Text) (ks : List Text) → (k === j) ≡ true → mem k ks ≡ mem j ks
mem_same j k [] e = refl
mem_same j k (i ∷ ks) e = ground (arith, ===_iff k j, ===_iff i k, ===_iff i j, mem_same j k ks e)

module _ {ℓ} {V : Type ℓ} where
  -- `SELECT … WHERE key = k LIMIT 1`
  unfoldable pub lookup : Text → Table V → Option V
  lookup j [] = none
  lookup j ((k, v) ∷ t) = if k === j then some v else lookup j t

  -- `INSERT … ON CONFLICT DO NOTHING`
  unfoldable pub insert_new : Text → V → Table V → Table V
  insert_new k v [] = (k, v) ∷ []
  insert_new k v ((j, w) ∷ t) = if j === k then (j, w) ∷ t else (j, w) ∷ insert_new k v t

  -- `INSERT … ON CONFLICT DO UPDATE`
  unfoldable pub upsert : Text → V → Table V → Table V
  upsert k v [] = (k, v) ∷ []
  upsert k v ((j, w) ∷ t) = if j === k then (k, v) ∷ t else (j, w) ∷ upsert k v t

  -- `UPDATE … WHERE key IN ks`
  unfoldable pub adjust_keys : List Text → (V → V) → Table V → Table V
  adjust_keys ks f [] = []
  adjust_keys ks f ((k, v) ∷ t) = (k, if mem k ks then f v else v) ∷ adjust_keys ks f t

  -- `UPDATE … SET f WHERE key = k AND test`
  unfoldable pub update_where : Text → (V → Bool) → (V → V) → Table V → Table V
  unfolding adjust_keys
  update_where k test f t = adjust_keys (k ∷ []) (λ v. if test v then f v else v) t

  -- whether that update returns a row
  abbrev pub is_matched : Text → (V → Bool) → Table V → Bool
  is_matched k test t = elim (lookup k t) [ none ↦ false | some v ↦ test v ]

  -- `DELETE … WHERE key IN ks`
  unfoldable pub delete_keys : List Text → Table V → Table V
  delete_keys ks [] = []
  delete_keys ks ((k, v) ∷ t) = if mem k ks then delete_keys ks t else (k, v) ∷ delete_keys ks t

  abbrev pub keys : List (Text × V) → List Text
  keys [] = []
  keys ((k, v) ∷ t) = k ∷ keys t

  -- The primary key: no two rows share it.
  abbrev pub HasDistinctKeys : Table V → Type 0
  HasDistinctKeys [] = Unit
  HasDistinctKeys ((k, v) ∷ t) = (is_some (lookup k t) ≡ false) × HasDistinctKeys t

  pub lookup-insert_new :
      (j k : Text) (v : V) (t : Table V)
      → lookup j (insert_new k v t)
        ≡ (if k === j then some (or_else (lookup k t) v) else lookup j t)
  unfolding lookup insert_new
  lookup-insert_new j k v [] = refl
  lookup-insert_new j k v ((i, w) ∷ t) =
      ground (arith, ===_iff k j, ===_iff i k, ===_iff i j, lookup-insert_new j k v t)

  pub insert_new_present :
      (k : Text) (v : V) (t : Table V) → is_some (lookup k t) ≡ true → insert_new k v t ≡ t
  unfolding insert_new lookup
  insert_new_present k v [] h = cc
  insert_new_present k v ((j, w) ∷ t) h = ground (arith, insert_new_present k v t)

  pub lookup-upsert :
      (j k : Text) (v : V) (t : Table V)
      → lookup j (upsert k v t) ≡ (if k === j then some v else lookup j t)
  unfolding lookup upsert
  lookup-upsert j k v [] = refl
  lookup-upsert j k v ((i, w) ∷ t) =
      ground (arith, ===_iff k j, ===_iff i k, ===_iff i j, lookup-upsert j k v t)

  pub lookup-adjust_keys :
      (j : Text) (ks : List Text) (f : V → V) (t : Table V)
      → lookup j (adjust_keys ks f t) ≡ (if mem j ks then Option.map f (lookup j t) else lookup j t)
  unfolding lookup adjust_keys
  lookup-adjust_keys j ks f [] = ground arith
  lookup-adjust_keys j ks f ((i, w) ∷ t) =
      ground (arith, mem_same j i ks, lookup-adjust_keys j ks f t)

  pub lookup-update_where :
      (j k : Text) (test : V → Bool) (f : V → V) (t : Table V)
      → lookup j (update_where k test f t)
        ≡ (if k === j then Option.map (λ v. if test v then f v else v) (lookup j t) else lookup j t)
  unfolding update_where
  lookup-update_where j k test f t =
      ground (arith, lookup-adjust_keys j (k ∷ []) (λ v. if test v then f v else v) t)

  pub lookup-delete_keys :
      (j : Text) (ks : List Text) (t : Table V)
      → lookup j (delete_keys ks t) ≡ (if mem j ks then none else lookup j t)
  unfolding lookup delete_keys
  lookup-delete_keys j ks [] = ground arith
  lookup-delete_keys j ks ((i, w) ∷ t) = ground (arith, mem_same j i ks, lookup-delete_keys j ks t)

  pub insert_new-HasDistinctKeys :
      (k : Text) (v : V) (t : Table V) → HasDistinctKeys t → HasDistinctKeys (insert_new k v t)
  unfolding insert_new lookup
  insert_new-HasDistinctKeys k v [] h = (refl, tt)
  insert_new-HasDistinctKeys k v ((j, w) ∷ t) h = ground (
    arith,
    insert_new-HasDistinctKeys k v t h.1,
    lookup-insert_new j k v t,
    ===_iff k j,
    ===_iff j k,
  )

  pub upsert-HasDistinctKeys :
      (k : Text) (v : V) (t : Table V) → HasDistinctKeys t → HasDistinctKeys (upsert k v t)
  unfolding upsert lookup
  upsert-HasDistinctKeys k v [] h = (refl, tt)
  upsert-HasDistinctKeys k v ((j, w) ∷ t) h =
      ground
        (arith, upsert-HasDistinctKeys k v t h.1, lookup-upsert j k v t, ===_iff k j, ===_iff j k)

  pub adjust_keys-HasDistinctKeys :
      (ks : List Text) (f : V → V) (t : Table V)
      → HasDistinctKeys t
      → HasDistinctKeys (adjust_keys ks f t)
  unfolding adjust_keys
  adjust_keys-HasDistinctKeys ks f [] h = tt
  adjust_keys-HasDistinctKeys ks f ((j, w) ∷ t) h =
      ground (arith, adjust_keys-HasDistinctKeys ks f t h.1, lookup-adjust_keys j ks f t)

  pub update_where-HasDistinctKeys :
      (k : Text) (test : V → Bool) (f : V → V) (t : Table V)
      → HasDistinctKeys t
      → HasDistinctKeys (update_where k test f t)
  unfolding update_where
  update_where-HasDistinctKeys k test f t h = adjust_keys-HasDistinctKeys (k ∷ []) _ t h

  pub delete_keys-HasDistinctKeys :
      (ks : List Text) (t : Table V) → HasDistinctKeys t → HasDistinctKeys (delete_keys ks t)
  unfolding delete_keys
  delete_keys-HasDistinctKeys ks [] h = tt
  delete_keys-HasDistinctKeys ks ((j, w) ∷ t) h =
      ground (arith, delete_keys-HasDistinctKeys ks t h.1, lookup-delete_keys j ks t)

  lookup_later :
      (j : Text) (w : V) (e : Text × V) (t : Table V)
      → is_some (lookup j t) ≡ false
      → lookup e.0 t ≡ some e.1
      → lookup e.0 ((j, w) ∷ t) ≡ some e.1
  unfolding lookup
  lookup_later j w (k, v) t fresh found = elim (Bool-cases (j === k)) [
    | inl same ↦
        let e : j ≡ k = (===_iff j k).0 same in
        ground (arith, subst (λ i. is_some (lookup i t) ≡ false) e fresh)
    | inr other ↦ rw other found
  ]

  -- Where keys are distinct, every row is the one that its key finds.
  pub lookup_self : (t : Table V) → HasDistinctKeys t → All (λ e. lookup e.0 t ≡ some e.1) t
  unfolding lookup
  lookup_self [] h = tt
  lookup_self ((j, w) ∷ t) h = (
    rw (===_refl j) refl,
    All-imp (λ e. lookup e.0 t ≡ some e.1) (λ e. lookup e.0 ((j, w) ∷ t) ≡ some e.1)
        (λ e found. lookup_later j w e t h.0 found) t (lookup_self t h.1),
  )

  -- If each of these rows is the one that its key finds and passes a test, then the row of a key
  -- among theirs passes it.
  pub test_of_key :
      (p : Text × V → Bool) (t : Table V) (xs : List (Text × V)) (j : Text)
      → All (λ e. (lookup e.0 t ≡ some e.1) × (p e ≡ true)) xs
      → mem j (keys xs) ≡ true
      → (v : V) → lookup j t ≡ some v
      → p (j, v) ≡ true
  test_of_key p t [] j h m v found = cc
  test_of_key p t ((k, w) ∷ xs) j h m v found = elim (Bool-cases (k === j)) [
    | inl same ↦
        subst (λ i. (v' : V) → lookup i t ≡ some v' → p (i, v') ≡ true) ((===_iff k j).0 same)
          (λ v' found'. subst (λ v'. p (k, v') ≡ true) (cc) h.0.1) v found
    | inr other ↦ test_of_key p t xs j h.1 (ground arith) v found
  ]

  -- What holds of every row that a key finds.
  abbrev pub Holds {κ} : (V → Type κ) → Table V → Type (ℓ ⊔ κ)
  Holds P t = (j : Text) (v : V) → lookup j t ≡ some v → P v

  module _ {κ} (P : V → Type κ) where
    pub insert_new-Holds :
        (k : Text) (v : V) (t : Table V) → P v → Holds P t → Holds P (insert_new k v t)
    insert_new-Holds k v t p h j w e =
        ground (arith, h j w, lookup-insert_new j k v t, p, ===_iff k j)

    pub update_where-Holds :
        (k : Text) (test : V → Bool) (f : V → V) (t : Table V)
        → ((v : V) → P v → test v ≡ true → P (f v))
        → Holds P t
        → Holds P (update_where k test f t)
    update_where-Holds k test f t keep h j w e = elim (Option-cases (lookup j t)) [
      | inl missing ↦ ground (arith, lookup-update_where j k test f t)
      | inr (v, found) ↦
          ground (arith, lookup-update_where j k test f t, h j v found, keep v (h j v found))
    ]

    pub upsert-Holds : (k : Text) (v : V) (t : Table V) → P v → Holds P t → Holds P (upsert k v t)
    upsert-Holds k v t p h j w e = ground (arith, h j w, lookup-upsert j k v t, p)

    pub adjust_keys-Holds :
        (ks : List Text) (f : V → V) (t : Table V)
        → ((j : Text) (v : V) → mem j ks ≡ true → lookup j t ≡ some v → P v → P (f v))
        → Holds P t
        → Holds P (adjust_keys ks f t)
    adjust_keys-Holds ks f t keep h j w e = elim (Option-cases (lookup j t)) [
      | inl missing ↦ ground (arith, lookup-adjust_keys j ks f t)
      | inr (v, found) ↦ elim (Bool-cases (mem j ks)) [
        | inl listed ↦
            ground (arith, lookup-adjust_keys j ks f t, keep j v listed found (h j v found))
        | inr other ↦ ground (arith, lookup-adjust_keys j ks f t, h j v found)
      ]
    ]

    pub delete_keys-Holds : (ks : List Text) (t : Table V) → Holds P t → Holds P (delete_keys ks t)
    delete_keys-Holds ks t h j w e = ground (arith, h j w, lookup-delete_keys j ks t)

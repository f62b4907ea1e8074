-- ===== src/Prelude/Dict.antt =====
-- Go maps: association lists without repeated keys. The order of the entries stands for the
-- unspecified order of a `range` loop.
use mathlib.Core.Path.{◌≡◌, refl, subst}
use mathlib.Core.Logic.{inl, inr}
use mathlib.Core.Bool.{Bool, true, false, ◌||◌}
use mathlib.Core.List.{List, [], ◌∷◌}
use mathlib.Core.Option.{Option, none, some}
use native.Mathlib.Omega.{arith}
use ocifuse.Prelude.Tests.{Comparable, ◌==◌, if◌then◌else◌, Bool-cases}
use ocifuse.Prelude.Lists.{All, All-map, any, Any}

abbrev pub Dict {ℓ κ} : Type ℓ → Type κ → Type (ℓ ⊔ κ)
Dict K V = List (K × V)

unfoldable pub keys {ℓ κ} : {K : Type ℓ} {V : Type κ} → Dict K V → List K
keys [] = []
keys ((k, v) ∷ m) = k ∷ keys m

-- The keys that pass the test are deleted: a `range` loop that calls `delete`.
unfoldable pub delete_where {ℓ κ} : {K : Type ℓ} {V : Type κ} → (K → Bool) → Dict K V → Dict K V
delete_where p [] = []
delete_where p ((k, v) ∷ m) = let rest = delete_where p m in if p k then rest else (k, v) ∷ rest

module _ {ℓ κ} {K : Type ℓ} {V : Type κ} ⦃c : Comparable K⦄ where
  -- m[key], with `none` for a key that is not there
  unfoldable pub lookup : K → Dict K V → Option V
  lookup key [] = none
  lookup key ((x, v) ∷ rest) = if x == key then some v else lookup key rest

  pub lookup-delete_where :
      (p : K → Bool) (j : K) (m : Dict K V)
      → lookup j (delete_where p m) ≡ (if p j then none else lookup j m)
  unfolding lookup delete_where
  lookup-delete_where p j [] = ground arith
  lookup-delete_where p j ((i, w) ∷ m) = ground (arith, lookup-delete_where p j m, c.equal_iff i j)

  -- delete(m, key)
  unfoldable pub delete : K → Dict K V → Dict K V
  delete key = delete_where (λ x. x == key)

  -- m[key] = v
  unfoldable pub insert : K → V → Dict K V → Dict K V
  insert key v [] = (key, v) ∷ []
  insert key v ((x, w) ∷ rest) = if x == key then (key, v) ∷ rest else (x, w) ∷ insert key v rest

  pub lookup-insert :
      (key other : K) (v : V) (m : Dict K V)
      → lookup other (insert key v m) ≡ (if key == other then some v else lookup other m)
  unfolding insert lookup
  lookup-insert key other v [] = refl
  lookup-insert key other v ((x, w) ∷ rest) = ground (
    arith,
    lookup-insert key other v rest,
    c.equal_iff x key,
    c.equal_iff x other,
    c.equal_iff key other,
  )

  pub lookup-delete :
      (k j : K) (m : Dict K V) → lookup j (delete k m) ≡ (if j == k then none else lookup j m)
  unfolding delete
  lookup-delete k j m = lookup-delete_where (λ i. i == k) j m

abbrev pub is_some {ℓ} : {A : Type ℓ} → Option A → Bool
is_some none = false
is_some (some a) = true

module _ {ℓ κ} {K : Type ℓ} {V : Type κ} ⦃c : Comparable K⦄ where
  -- _, ok := m[k]
  unfoldable pub has : K → Dict K V → Bool
  unfolding lookup
  has k m = is_some (lookup k m)

  pub has-insert : (k j : K) (v : V) (m : Dict K V) → has j (insert k v m) ≡ (k == j || has j m)
  unfolding has
  has-insert k j v m = ground (arith, lookup-insert k j v m)

  pub has-keys : (k : K) (m : Dict K V) → has k m ≡ any (λ j. j == k) (keys m)
  unfolding has keys
  has-keys k [] = refl
  has-keys k ((j, v) ∷ m) = ground (arith, has-keys k m)

  -- What holds of all keys holds of one that is there.
  pub All-has : (P : K → Type 0) (k : K) (m : Dict K V) → All P (keys m) → has k m ≡ true → P k
  unfolding has keys
  All-has P k [] h t = cc
  All-has P k ((j, v) ∷ m) h t = elim (Bool-cases (j == k)) [
    | inl same ↦ subst P ((c.equal_iff j k).0 same) h.0
    | inr other ↦ All-has P k m h.1 (ground (arith, other))
  ]

  pub All-keys-insert :
      (P : K → Type 0) (k : K) (v : V) (m : Dict K V)
      → P k
      → All P (keys m)
      → All P (keys (insert k v m))
  unfolding insert keys
  All-keys-insert P k v [] p h = (p, tt)
  All-keys-insert P k v ((j, w) ∷ m) p h = elim (Bool-cases (j == k)) [
    | inl same ↦ rw same (p, h.1)
    | inr other ↦ rw other (h.0, All-keys-insert P k v m p h.1)
  ]

  pub All-keys-delete_where :
      (P : K → Type 0) (p : K → Bool) (m : Dict K V)
      → All P (keys m)
      → All P (keys (delete_where p m))
  unfolding delete_where keys
  All-keys-delete_where P p [] h = tt
  All-keys-delete_where P p ((j, w) ∷ m) h = elim (Bool-cases (p j)) [
    | inl gone ↦ rw gone (All-keys-delete_where P p m h.1)
    | inr kept ↦ rw kept (h.0, All-keys-delete_where P p m h.1)
  ]

  -- What holds of all entries of a map.
  pub All-insert :
      (P : K × V → Type 0) (k : K) (v : V) (m : Dict K V)
      → P (k, v)
      → All P m
      → All P (insert k v m)
  unfolding insert
  All-insert P k v [] p h = (p, tt)
  All-insert P k v ((j, w) ∷ m) p h = elim (Bool-cases (j == k)) [
    | inl same ↦ rw same (p, h.1)
    | inr other ↦ rw other (h.0, All-insert P k v m p h.1)
  ]

  pub All-delete_where :
      (P : K × V → Type 0) (p : K → Bool) (m : Dict K V) → All P m → All P (delete_where p m)
  unfolding delete_where
  All-delete_where P p [] h = tt
  All-delete_where P p ((j, w) ∷ m) h = elim (Bool-cases (p j)) [
    | inl gone ↦ rw gone (All-delete_where P p m h.1)
    | inr kept ↦ rw kept (h.0, All-delete_where P p m h.1)
  ]

  pub All-lookup :
      (P : K × V → Type 0) (k : K) (v : V) (m : Dict K V) → All P m → lookup k m ≡ some v → P (k, v)
  unfolding lookup
  All-lookup P k v [] h t = cc
  All-lookup P k v ((j, w) ∷ m) h t = elim (Bool-cases (j == k)) [
    | inl same ↦
        let same_value : w ≡ v = ground (arith, same) in
        subst (λ x. P (k, x)) same_value (subst (λ i. P (i, w)) ((c.equal_iff j k).0 same) h.0)
    | inr other ↦ All-lookup P k v m h.1 (ground (arith, other))
  ]

  pub All-keys : (P : K → Type 0) (m : Dict K V) → All (λ (k, v). P k) m → All P (keys m)
  unfolding keys
  All-keys P [] h = tt
  All-keys P ((k, v) ∷ m) h = (h.0, All-keys P m h.1)

  has_later : (k j : K) (v : V) (m : Dict K V) → has k m ≡ true → has k ((j, v) ∷ m) ≡ true
  unfolding has lookup
  has_later k j v m h = ground arith

  -- Every key of the list of keys is found.
  pub All-keys-has : (m : Dict K V) → All (λ k. has k m ≡ true) (keys m)
  unfolding keys has lookup
  All-keys-has [] = tt
  All-keys-has ((k, v) ∷ m) = (
    rw ((c.equal_iff k k).1 refl),
    All-map (λ j h. has_later j k v m h) (keys m) (All-keys-has m),
  )

module _ {ℓ κ} {K : Type ℓ} {V : Type κ} ⦃c : Comparable K⦄ where
  -- No key occurs twice.
  abbrev pub Unique : Dict K V → Type κ
  Unique [] = Unit
  Unique ((k, v) ∷ m) = (lookup k m ≡ none) × Unique m

  pub Unique-insert : (k : K) (v : V) (m : Dict K V) → Unique m → Unique (insert k v m)
  unfolding insert lookup
  Unique-insert k v [] u = (refl, tt)
  Unique-insert k v ((j, w) ∷ m) u = elim (Bool-cases (j == k)) [
    | inl t ↦ rw t (ground (arith, (c.equal_iff j k).0 t, u.0), u.1)
    | inr f ↦ rw f (
      ground (arith, lookup-insert k j v m, c.equal_iff k j, c.equal_iff j k, f, u.0),
      Unique-insert k v m u.1,
    )
  ]

  pub Unique-delete : (k : K) (m : Dict K V) → Unique m → Unique (delete k m)
  unfolding delete delete_where
  Unique-delete k [] u = tt
  Unique-delete k ((j, w) ∷ m) u = elim (Bool-cases (j == k)) [
    | inl t ↦ rw t (Unique-delete k m u.1)
    | inr f ↦ rw f (ground (arith, lookup-delete k j m, f, u.0), Unique-delete k m u.1)
  ]

module _ {κ} {K : Type 0} {V : Type κ} ⦃c : Comparable K⦄ where
  pub Any-keys : (k : K) (m : Dict K V) → has k m ≡ true → Any (λ j. j ≡ k) (keys m)
  unfolding has keys
  Any-keys k [] h = cc
  Any-keys k ((j, v) ∷ m) h = elim (Bool-cases (j == k)) [
    | inl same ↦ inl ((c.equal_iff j k).0 same)
    | inr other ↦ inr (Any-keys k m (ground (arith, other)))
  ]

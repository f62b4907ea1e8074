-- ===== src/Prelude/Sort.antt =====
-- Go's `sort.Slice` and `sort.Strings`: a stable insertion sort by the same test.
use mathlib.Core.Path.{◌≡◌}
use mathlib.Core.Logic.{◌⊎◌, inl, inr}
use mathlib.Core.Bool.{Bool, true, false}
use mathlib.Core.List.{List, [], ◌∷◌}
use ocifuse.Prelude.Tests.{if◌then◌else◌, Bool-cases}
use ocifuse.Prelude.Lists.{All, Any, All-map}

module _ {ℓ} {A : Type ℓ} (less : A → A → Bool) where
  unfoldable pub insert_sorted : A → List A → List A
  insert_sorted x [] = x ∷ []
  insert_sorted x (y ∷ ys) = if less y x then y ∷ insert_sorted x ys else x ∷ y ∷ ys

  unfoldable pub sort : List A → List A
  unfolding insert_sorted
  sort [] = []
  sort (x ∷ xs) = insert_sorted x (sort xs)

  -- No member is less than one before it.
  abbrev pub IsSorted : List A → Type 0
  IsSorted [] = Unit
  IsSorted (x ∷ xs) = All (λ y. less y x ≡ false) xs × IsSorted xs

-- What the sorts need of the test: a strict weak order.
pub record IsOrder {ℓ} {A : Type ℓ} (less : A → A → Bool) : Type ℓ where
  pub asym : (a b : A) → less a b ≡ true → less b a ≡ false
  pub neg_trans : (a b c : A) → less b a ≡ false → less c b ≡ false → less c a ≡ false

module _ {ℓ} {A : Type ℓ} (less : A → A → Bool) where
  pub All-insert_sorted :
      (P : A → Type 0) (x : A) (ys : List A) → P x → All P ys → All P (insert_sorted less x ys)
  unfolding insert_sorted
  All-insert_sorted P x [] px h = (px, tt)
  All-insert_sorted P x (y ∷ ys) px h = elim (Bool-cases (less y x)) [
    | inl e ↦ rw e (h.0, All-insert_sorted P x ys px h.1)
    | inr e ↦ rw e (px, h)
  ]

  -- What holds of every member holds of every member of the sorted list.
  pub All-sort : (P : A → Type 0) (xs : List A) → All P xs → All P (sort less xs)
  unfolding sort
  All-sort P [] h = tt
  All-sort P (x ∷ xs) h = All-insert_sorted P x (sort less xs) h.0 (All-sort P xs h.1)

  Any-insert_sorted :
      (P : A → Type 0) (x : A) (ys : List A) → P x ⊎ Any P ys → Any P (insert_sorted less x ys)
  unfolding insert_sorted
  Any-insert_sorted P x [] h = h
  Any-insert_sorted P x (y ∷ ys) h =
      let below = Any-insert_sorted P x ys in
      elim (Bool-cases (less y x)) [
        | inl e ↦ rw e (elim h [
          | inl px ↦ inr (below (inl px))
          | inr t ↦ elim t [ inl py ↦ inl py | inr r ↦ inr (below (inr r)) ]
        ])
        | inr e ↦ rw e h
      ]

  pub Any-sort : (P : A → Type 0) (xs : List A) → Any P xs → Any P (sort less xs)
  unfolding sort
  Any-sort P [] h = h
  Any-sort P (x ∷ xs) (inl p) = Any-insert_sorted P x (sort less xs) (inl p)
  Any-sort P (x ∷ xs) (inr t) = Any-insert_sorted P x (sort less xs) (inr (Any-sort P xs t))

  module _ (o : IsOrder less) where
    All-not_less_trans :
        (x y : A) (ys : List A)
        → less y x ≡ false
        → All (λ z. less z y ≡ false) ys
        → All (λ z. less z x ≡ false) ys
    All-not_less_trans x y ys h all = All-map (λ z k. o.neg_trans x y z h k) ys all

    insert_sorted-IsSorted :
        (x : A) (ys : List A) → IsSorted less ys → IsSorted less (insert_sorted less x ys)
    unfolding insert_sorted
    insert_sorted-IsSorted x [] h = (tt, tt)
    insert_sorted-IsSorted x (y ∷ ys) h = elim (Bool-cases (less y x)) [
      | inl e ↦ rw e (
        All-insert_sorted (λ z. less z y ≡ false) x ys (o.asym y x e) h.0,
        insert_sorted-IsSorted x ys h.1,
      )
      | inr e ↦ rw e ((e, All-not_less_trans x y ys e h.0), h)
    ]

    pub sort-IsSorted : (xs : List A) → IsSorted less (sort less xs)
    unfolding sort
    sort-IsSorted [] = tt
    sort-IsSorted (x ∷ xs) = insert_sorted-IsSorted x (sort less xs) (sort-IsSorted xs)

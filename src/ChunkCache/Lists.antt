-- ===== src/ChunkCache/Lists.antt =====
-- internal/layer/chunkcache.go: lists of cache entries with distinct keys.
use mathlib.Core.Path.{subst}
use ocifuse.Prelude.{
  ℕ, ◌+◌, ◌≡◌, refl, none, some, List, [], ◌∷◌, ◌++◌, Comparable, ◌==◌, All, Bool-cases,
  Option-cases, inl, inr, if◌then◌else◌, arith,
}
use ocifuse.ChunkCache.{
  ChunkKey, LruEntry, find_key, without_key, move_to_front, split_back, chunk_key_eq, key_equal_iff,
}

module _ {H : Type 0} where
  -- The bytes that the entries hold.
  unfoldable pub total : List (LruEntry H) → ℕ
  total [] = 0
  total (e ∷ es) = e.chunk.len + total es

  pub total-append_last :
      (es : List (LruEntry H)) (e : LruEntry H) → total (es ++ e ∷ []) ≡ total es + e.chunk.len
  unfolding total
  total-append_last [] e = omega arith
  total-append_last (x ∷ es) e = omega (arith, total-append_last es e)

module _ {H : Type 0} ⦃c : Comparable H⦄ where
  -- No other entry has the key of one.
  abbrev pub Distinct : List (LruEntry H) → Type 0
  Distinct [] = Unit
  Distinct (e ∷ es) = (find_key e.key es ≡ none) × Distinct es

  pub key-find_key :
      (k : ChunkKey H) (es : List (LruEntry H)) (e : LruEntry H)
      → find_key k es ≡ some e
      → e.key ≡ k
  unfolding find_key
  key-find_key k [] e h = cc
  key-find_key k (x ∷ es) e h = elim (Bool-cases (x.key == k)) [
    | inl t ↦ let same : x ≡ e = ground (arith, t) in cc (same, (key_equal_iff x.key k).0 t)
    | inr t ↦ key-find_key k es e (ground (arith, t))
  ]

  pub find_key-without_key :
      (k j : ChunkKey H) (es : List (LruEntry H))
      → Distinct es
      → find_key j (without_key k es) ≡ (if k == j then none else find_key j es)
  unfolding find_key without_key
  find_key-without_key k j [] d = ground arith
  find_key-without_key k j (x ∷ es) d = ground (
    arith,
    find_key-without_key k j es d.1,
    key_equal_iff x.key k,
    key_equal_iff x.key j,
    key_equal_iff k j,
    d.0,
  )

  pub Distinct-without_key :
      (k : ChunkKey H) (es : List (LruEntry H)) → Distinct es → Distinct (without_key k es)
  unfolding without_key
  Distinct-without_key k [] d = tt
  Distinct-without_key k (x ∷ es) d = elim (Bool-cases (x.key == k)) [
    | inl t ↦ rw t d.1
    | inr t ↦
        rw t
          (ground (arith, find_key-without_key k x.key es d.1, d.0), Distinct-without_key k es d.1)
  ]

  pub All-without_key :
      (P : LruEntry H → Type 0) (k : ChunkKey H) (es : List (LruEntry H))
      → All P es
      → All P (without_key k es)
  unfolding without_key
  All-without_key P k [] h = tt
  All-without_key P k (x ∷ es) h = elim (Bool-cases (x.key == k)) [
    | inl t ↦ rw t h.1
    | inr t ↦ rw t (h.0, All-without_key P k es h.1)
  ]

  pub All-find_key :
      (P : LruEntry H → Type 0) (k : ChunkKey H) (es : List (LruEntry H)) (e : LruEntry H)
      → All P es
      → find_key k es ≡ some e
      → P e
  unfolding find_key
  All-find_key P k [] e h f = cc
  All-find_key P k (x ∷ es) e h f = elim (Bool-cases (x.key == k)) [
    | inl t ↦ let same : x ≡ e = ground (arith, t) in subst P same h.0
    | inr t ↦ All-find_key P k es e h.1 (ground (arith, t))
  ]

  total-without_key :
      (k : ChunkKey H) (es : List (LruEntry H)) (e : LruEntry H)
      → find_key k es ≡ some e
      → e.chunk.len + total (without_key k es) ≡ total es
  unfolding find_key without_key total
  total-without_key k [] e h = cc
  total-without_key k (x ∷ es) e h = ground (arith, total-without_key k es e)

  -- Moving an entry to the front changes nothing but the order.
  pub find_key-move_to_front :
      (k j : ChunkKey H) (es : List (LruEntry H))
      → Distinct es
      → find_key j (move_to_front k es) ≡ find_key j es
  unfolding move_to_front find_key
  find_key-move_to_front k j es d = elim (Option-cases (find_key k es)) [
    | inl e ↦ rw (e, move_to_front)
    | inr (x, e) ↦
        rw (e, move_to_front)
          (ground (
            arith,
            find_key-without_key k j es d,
            key-find_key k es x e,
            key_equal_iff x.key j,
            key_equal_iff k j,
          ))
  ]

  pub total-move_to_front :
      (k : ChunkKey H) (es : List (LruEntry H)) → total (move_to_front k es) ≡ total es
  unfolding move_to_front total
  total-move_to_front k es = elim (Option-cases (find_key k es)) [
    | inl e ↦ rw (e, move_to_front)
    | inr (x, e) ↦ rw (e, move_to_front) (total-without_key k es x e)
  ]

  pub Distinct-move_to_front :
      (k : ChunkKey H) (es : List (LruEntry H)) → Distinct es → Distinct (move_to_front k es)
  unfolding move_to_front
  Distinct-move_to_front k es d = elim (Option-cases (find_key k es)) [
    | inl e ↦ rw (e, move_to_front) d
    | inr (x, e) ↦
        rw (e, move_to_front)
          (
            ground (
              arith,
              find_key-without_key k x.key es d,
              key-find_key k es x e,
              key_equal_iff k x.key,
            ),
            Distinct-without_key k es d,
          )
  ]

  pub All-move_to_front :
      (P : LruEntry H → Type 0) (k : ChunkKey H) (es : List (LruEntry H))
      → All P es
      → All P (move_to_front k es)
  unfolding move_to_front
  All-move_to_front P k es h = elim (Option-cases (find_key k es)) [
    | inl e ↦ rw (e, move_to_front) h
    | inr (x, e) ↦ rw (e, move_to_front) (All-find_key P k es x h e, All-without_key P k es h)
  ]

  -- Taking the last entry off.
  pub split_back-eq-none : (es : List (LruEntry H)) → split_back es ≡ none → es ≡ []
  unfolding split_back
  split_back-eq-none [] h = refl
  split_back-eq-none (e ∷ es) h = absurd (ground arith)

  pub split_back-eq-some :
      (es front : List (LruEntry H)) (o : LruEntry H)
      → split_back es ≡ some (front, o)
      → es ≡ front ++ o ∷ []
  unfolding split_back
  split_back-eq-some [] front o h = cc
  split_back-eq-some (e ∷ es) front o h = elim (Option-cases (split_back es)) [
    | inl n ↦ ground (arith, n, split_back-eq-none es n)
    | inr ((f, p), n) ↦ ground (arith, n, split_back-eq-some es f p n)
  ]

  find_key-append :
      (j : ChunkKey H) (front back : List (LruEntry H))
      → find_key j (front ++ back)
        ≡ elim (find_key j front) [ some e ↦ some e | none ↦ find_key j back ]
  unfolding find_key
  find_key-append j [] back = refl
  find_key-append j (e ∷ front) back = ground (arith, find_key-append j front back)

  -- The last entry's key is not before it.
  find_key-last :
      (front : List (LruEntry H)) (o : LruEntry H)
      → Distinct (front ++ o ∷ [])
      → find_key o.key front ≡ none
  unfolding find_key
  find_key-last [] o d = refl
  find_key-last (e ∷ front) o d = ground (
    arith,
    find_key-last front o d.1,
    find_key-append e.key front (o ∷ []),
    d.0,
    key_equal_iff e.key o.key,
    key_equal_iff o.key e.key,
  )

  pub find_key-front :
      (j : ChunkKey H) (front : List (LruEntry H)) (o : LruEntry H)
      → Distinct (front ++ o ∷ [])
      → find_key j front ≡ (if j == o.key then none else find_key j (front ++ o ∷ []))
  unfolding find_key
  find_key-front j front o d = ground (
    arith,
    find_key-last front o d,
    find_key-append j front (o ∷ []),
    key_equal_iff j o.key,
    key_equal_iff o.key j,
  )

  pub Distinct-front :
      (front : List (LruEntry H)) (o : LruEntry H) → Distinct (front ++ o ∷ []) → Distinct front
  unfolding find_key
  Distinct-front [] o d = tt
  Distinct-front (e ∷ front) o d =
      (ground (arith, find_key-append e.key front (o ∷ []), d.0), Distinct-front front o d.1)

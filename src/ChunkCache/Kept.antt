-- ===== src/ChunkCache/Kept.antt =====
-- internal/layer/chunkcache.go: the chunk size, and what holds of all entries, over the steps.
use mathlib.Core.Path.{subst}
use ocifuse.Prelude.{
  ℕ, zero, suc, nonpositive, exceeds, ◌≡◌, refl, sym, ◌∙◌, some, [], ◌∷◌, Comparable, length, All,
  All-append_left, Bool-cases, Option-cases, inl, inr, arith,
}
use ocifuse.Prelude.Dict.{lookup}
use ocifuse.ChunkCache.{
  ChunkKey, Chunk, LruEntry, ChunkCache, chunk_key_eq, find_key, get, split_back, evict, push, put,
}
use ocifuse.ChunkCache.Lists.{All-find_key, key-find_key, All-move_to_front, split_back-eq-some}
use ocifuse.ChunkCache.Valid.{IsValid}

module _ {H : Type 0} ⦃c : Comparable H⦄ where
  -- What holds of all entries before a step holds of all after it.
  All-evict :
      (P : LruEntry H → Type 0) (fuel : ℕ) (g : ChunkCache H)
      → All P g.lru
      → All P (evict fuel g).lru
  unfolding evict
  All-evict P zero g a = a
  All-evict P (suc fuel) g a = elim (Bool-cases (exceeds g.used g.cap)) [
    | inr f ↦ rw (f, evict) a
    | inl t ↦ elim (Option-cases (split_back g.lru)) [
      | inl n ↦ rw (t, n, evict) a
      | inr ((front, o), s) ↦
          rw (t, s, evict)
            (All-evict P fuel _ (
              All-append_left P front (o ∷ [])
                (subst (All P) (split_back-eq-some g.lru front o s) a)))
    ]
  ]

  pub All-get :
      (P : LruEntry H → Type 0) (g : ChunkCache H) (k : ChunkKey H)
      → All P g.lru
      → All P (get g k).0.lru
  unfolding get
  All-get P g k a = elim (Option-cases (lookup k g.items)) [
    | inl n ↦ rw (n, get) a
    | inr (e, s) ↦ rw (s, get) (All-move_to_front P e.key g.lru a)
  ]

  pub All-put :
      (P : LruEntry H → Type 0) (g : ChunkCache H) (k : ChunkKey H) (chunk : Chunk)
      → All P g.lru
      → P (record { key = k; chunk = chunk })
      → All P (put g k chunk).lru
  unfolding put push
  All-put P g k chunk a new = elim (Option-cases (lookup k g.items)) [
    | inr (e, s) ↦ rw (s, put) (All-move_to_front P e.key g.lru a)
    | inl n ↦ elim (Bool-cases (nonpositive g.cap)) [
      | inl p ↦ rw (n, p, put) (new, a)
      | inr p ↦ rw (n, p, put) (All-evict P (length (push g k chunk).lru) (push g k chunk) (new, a))
    ]
  ]

  pub chunk_size-get : (g : ChunkCache H) (k : ChunkKey H) → (get g k).0.chunk_size ≡ g.chunk_size
  unfolding get
  chunk_size-get g k = elim (Option-cases (lookup k g.items)) [
    | inl n ↦ rw (n, get) refl
    | inr (e, s) ↦ rw (s, get) refl
  ]

  chunk_size-evict : (fuel : ℕ) (g : ChunkCache H) → (evict fuel g).chunk_size ≡ g.chunk_size
  unfolding evict
  chunk_size-evict zero g = refl
  chunk_size-evict (suc fuel) g = elim (Bool-cases (exceeds g.used g.cap)) [
    | inr f ↦ rw (f, evict) refl
    | inl t ↦ elim (Option-cases (split_back g.lru)) [
      | inl n ↦ rw (t, n, evict) refl
      | inr ((front, o), s) ↦ rw (t, s, evict) (chunk_size-evict fuel _)
    ]
  ]

  pub chunk_size-put :
      (g : ChunkCache H) (k : ChunkKey H) (chunk : Chunk)
      → (put g k chunk).chunk_size ≡ g.chunk_size
  unfolding put push
  chunk_size-put g k chunk = elim (Option-cases (lookup k g.items)) [
    | inr (e, s) ↦ rw (s, put) refl
    | inl n ↦ elim (Bool-cases (nonpositive g.cap)) [
      | inl p ↦ rw (n, p, put) refl
      | inr p ↦ rw (n, p, put) (chunk_size-evict (length (push g k chunk).lru) (push g k chunk))
    ]
  ]

  -- What a lookup finds stands in the list, under that key.
  pub get-eq-some :
      (P : LruEntry H → Type 0) (g : ChunkCache H) (k : ChunkKey H) (chunk : Chunk)
      → IsValid g
      → All P g.lru
      → (get g k).1 ≡ some chunk
      → P (record { key = k; chunk = chunk })
  unfolding get
  get-eq-some P g k chunk v a h = elim (Option-cases (lookup k g.items)) [
    | inl n ↦ absurd (ground (arith, n, h))
    | inr (e, s) ↦
        let found : find_key k g.lru ≡ some e = sym (v.linked.agrees k) ∙ s in
        let same : e ≡ record { key = k; chunk = chunk } =
          ground (arith, s, h, key-find_key k g.lru e found) in
        subst P same (All-find_key P k g.lru e a found)
  ]

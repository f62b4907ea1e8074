-- ===== src/ChunkCache.antt =====
-- internal/layer/chunkcache.go, the cache: compressed chunks shared by all layers, held under a
-- byte limit by evicting the least recently used ones. The type of layer digests is a parameter.
pub mod Lists
pub mod Valid
pub mod Kept
pub mod Eviction
use ocifuse.Prelude.{
  ℕ, zero, suc, ◌+◌, ◌-◌, ◌^◌, ℤ, pos, negsuc, nonpositive, exceeds, ◌≡◌, ◌↔◌, Bool, true, false,
  ◌&&◌, Option, none, some, List, [], ◌∷◌, Bytes, Comparable, ◌==◌, nat_eq, length, if◌then◌else◌,
  arith,
}
use ocifuse.Prelude.Dict.{Dict, lookup, insert, delete}

pub record ChunkKey (H : Type 0) : Type 0 where
  pub layer : H
  pub idx : ℕ

-- A Go byte slice: the buffer behind it, up to its capacity, and its length.
pub record Chunk : Type 0 where
  pub buf : Bytes
  pub len : ℕ

-- The pointer to the list element is left out: an entry is found in the list by its key.
pub record LruEntry (H : Type 0) : Type 0 where
  pub key : ChunkKey H
  pub chunk : Chunk

-- `lru` has the most recently used entry first.
pub record ChunkCache (H : Type 0) : Type 0 where
  pub cap : ℤ
  pub chunk_size : ℕ
  pub used : ℕ
  pub items : Dict (ChunkKey H) (LruEntry H)
  pub lru : List (LruEntry H)

unfoldable pub chunk_size_of : ℤ → ℕ
chunk_size_of (pos (suc n)) = suc n
chunk_size_of (pos zero) = 2 ^ 20
chunk_size_of (negsuc n) = 2 ^ 20

unfoldable pub new_chunk_cache : {H : Type 0} → ℤ → ℤ → ChunkCache H
unfolding chunk_size_of
new_chunk_cache cap_bytes chunk_size = record {
  cap = cap_bytes;
  chunk_size = chunk_size_of chunk_size;
  used = 0;
  items = [];
  lru = [];
}

module _ {H : Type 0} ⦃c : Comparable H⦄ where
  abbrev pub key_equal : ChunkKey H → ChunkKey H → Bool
  key_equal a b = a.layer == b.layer && a.idx == b.idx

  pub key_equal_iff : (a b : ChunkKey H) → (key_equal a b ≡ true) ↔ (a ≡ b)
  key_equal_iff a b = ground (arith, c.equal_iff a.layer b.layer)

  instance abbrev pub chunk_key_eq : Comparable (ChunkKey H)
  chunk_key_eq = record { equal = key_equal; equal_iff = key_equal_iff }

  -- The list element of the entry with this key.
  unfoldable pub find_key : ChunkKey H → List (LruEntry H) → Option (LruEntry H)
  find_key k [] = none
  find_key k (e ∷ es) = if e.key == k then some e else find_key k es

  -- lru.Remove(elem)
  unfoldable pub without_key : ChunkKey H → List (LruEntry H) → List (LruEntry H)
  without_key k [] = []
  without_key k (e ∷ es) = if e.key == k then es else e ∷ without_key k es

  -- lru.MoveToFront(elem)
  unfoldable pub move_to_front : ChunkKey H → List (LruEntry H) → List (LruEntry H)
  unfolding find_key without_key
  move_to_front k es = elim (find_key k es) [ some e ↦ e ∷ without_key k es | none ↦ es ]

  unfoldable pub get : ChunkCache H → ChunkKey H → ChunkCache H × Option Chunk
  get g k = elim (lookup k g.items) [
    | none ↦ (g, none)
    | some e ↦ (record g { lru = move_to_front e.key g.lru }, some e.chunk)
  ]

  -- lru.Back(), and the list without it
  unfoldable pub split_back : List (LruEntry H) → Option (List (LruEntry H) × LruEntry H)
  split_back [] = none
  split_back (e ∷ es) = elim (split_back es) [
    | none ↦ some ([], e)
    | some (front, oldest) ↦ some (e ∷ front, oldest)
  ]

  -- The loop of `put`: each round removes an element of the list, so its length is fuel enough.
  unfoldable pub evict : ℕ → ChunkCache H → ChunkCache H
  evict zero g = g
  evict (suc fuel) g = elim (exceeds g.used g.cap) [
    | false ↦ g
    | true ↦ elim (split_back g.lru) [
      | none ↦ g
      | some (front, oldest) ↦ evict fuel (record g {
        used = g.used - oldest.chunk.len;
        items = delete oldest.key g.items;
        lru = front;
      })
    ]
  ]

  -- A new entry, before the limit is enforced.
  unfoldable pub push : ChunkCache H → ChunkKey H → Chunk → ChunkCache H
  push g k chunk =
      let e : LruEntry H = record { key = k; chunk = chunk } in
      record g { used = g.used + chunk.len; items = insert k e g.items; lru = e ∷ g.lru }

  unfoldable pub put : ChunkCache H → ChunkKey H → Chunk → ChunkCache H
  unfolding evict push
  put g k chunk = elim (lookup k g.items) [
    | some existing ↦ record g { lru = move_to_front existing.key g.lru }
    | none ↦
        let pushed = push g k chunk in
        if nonpositive g.cap then pushed else evict (length pushed.lru) pushed
  ]

-- ===== src/ChunkCache/Valid.antt =====
-- internal/layer/chunkcache.go: how the map, the list and the byte count belong together.
use ocifuse.Prelude.{
  ℕ, zero, suc, ◌-◌, ◌≤◌, ℤ, pos, negsuc, nonpositive, exceeds, ◌≡◌, refl, sym, ◌∙◌, ap, false,
  none, some, List, [], ◌∷◌, ◌++◌, Comparable, length, length-append, length-eq-zero, Bool-cases,
  Option-cases, inl, inr, arith,
}
use mathlib.Core.Path.{subst}
use ocifuse.Prelude.Dict.{lookup, delete, lookup-insert, lookup-delete}
use ocifuse.ChunkCache.{
  ChunkKey, Chunk, LruEntry, ChunkCache, new_chunk_cache, chunk_key_eq, find_key, move_to_front,
  get, split_back, evict, push, put,
}
use ocifuse.ChunkCache.Lists.{
  total, total-append_last, Distinct, find_key-move_to_front, total-move_to_front,
  Distinct-move_to_front, split_back-eq-none, split_back-eq-some, find_key-front, Distinct-front,
}

empty_fits : (cap : ℤ) → nonpositive cap ≡ false → exceeds 0 cap ≡ false
empty_fits (pos n) p = ground arith
empty_fits (negsuc n) p = absurd (ground arith)

module _ {H : Type 0} ⦃c : Comparable H⦄ where
  -- The invariant, but for the limit.
  pub record IsLinked (g : ChunkCache H) : Type 0 where
    pub distinct : Distinct g.lru
    pub agrees : (k : ChunkKey H) → lookup k g.items ≡ find_key k g.lru
    pub counted : g.used ≡ total g.lru

  pub record IsValid (g : ChunkCache H) : Type 0 where
    pub linked : IsLinked g
    pub within : nonpositive g.cap ≡ false → exceeds g.used g.cap ≡ false

  pub IsLinked-moved :
      (g : ChunkCache H) (k : ChunkKey H)
      → IsLinked g
      → IsLinked (record g { lru = move_to_front k g.lru })
  IsLinked-moved g k v = record {
    distinct = Distinct-move_to_front k g.lru v.distinct;
    agrees = λ j. v.agrees j ∙ sym (find_key-move_to_front k j g.lru v.distinct);
    counted = v.counted ∙ sym (total-move_to_front k g.lru);
  }

  pub IsLinked-push :
      (g : ChunkCache H) (k : ChunkKey H) (chunk : Chunk)
      → IsLinked g
      → lookup k g.items ≡ none
      → IsLinked (push g k chunk)
  unfolding push find_key total
  IsLinked-push g k chunk v fresh = record {
    distinct = (sym (v.agrees k) ∙ fresh, v.distinct);
    agrees = λ j.
        ground (arith, v.agrees j, lookup-insert k j (record { key = k; chunk = chunk }) g.items);
    counted = omega (arith, v.counted);
  }

  -- One round of the loop.
  pub IsLinked-popped :
      (g : ChunkCache H) (front : List (LruEntry H)) (o : LruEntry H)
      → IsLinked g
      → split_back g.lru ≡ some (front, o)
      → IsLinked
          (record g { used = g.used - o.chunk.len; items = delete o.key g.items; lru = front })
  IsLinked-popped g front o v h =
      let e : g.lru ≡ front ++ o ∷ [] = split_back-eq-some g.lru front o h in
      let d : Distinct (front ++ o ∷ []) = subst Distinct e v.distinct in
      record {
        distinct = Distinct-front front o d;
        agrees = λ j. ground (
          arith,
          lookup-delete o.key j g.items,
          v.agrees j,
          ap (find_key j) e,
          find_key-front j front o d,
        );
        counted = omega (arith, v.counted, ap total e, total-append_last front o);
      }

  pub IsLinked-evict : (fuel : ℕ) (g : ChunkCache H) → IsLinked g → IsLinked (evict fuel g)
  unfolding evict
  IsLinked-evict zero g v = v
  IsLinked-evict (suc fuel) g v = elim (Bool-cases (exceeds g.used g.cap)) [
    | inr f ↦ rw (f, evict) v
    | inl t ↦ elim (Option-cases (split_back g.lru)) [
      | inl n ↦ rw (t, n, evict) v
      | inr ((front, o), s) ↦
          rw (t, s, evict) (IsLinked-evict fuel _ (IsLinked-popped g front o v s))
    ]
  ]

  pub cap-evict : (fuel : ℕ) (g : ChunkCache H) → (evict fuel g).cap ≡ g.cap
  unfolding evict
  cap-evict zero g = refl
  cap-evict (suc fuel) g = elim (Bool-cases (exceeds g.used g.cap)) [
    | inr f ↦ rw (f, evict) refl
    | inl t ↦ elim (Option-cases (split_back g.lru)) [
      | inl n ↦ rw (t, n, evict) refl
      | inr ((front, o), s) ↦ rw (t, s, evict) (cap-evict fuel _)
    ]
  ]

  -- No entries hold no bytes, which is under a limit.
  empty-within :
      (g : ChunkCache H)
      → IsLinked g
      → g.lru ≡ []
      → nonpositive g.cap ≡ false
      → exceeds g.used g.cap ≡ false
  unfolding total
  empty-within g v e p =
      let z : g.used ≡ 0 = v.counted ∙ ap total e in
      subst (λ u. exceeds u g.cap ≡ false) (sym z) (empty_fits g.cap p)

  -- As many rounds as there are entries are enough.
  pub within-evict :
      (fuel : ℕ) (g : ChunkCache H)
      → IsLinked g
      → length g.lru ≤ fuel
      → nonpositive g.cap ≡ false
      → exceeds (evict fuel g).used g.cap ≡ false
  unfolding evict total
  within-evict zero g v enough p = empty-within g v (length-eq-zero g.lru enough) p
  within-evict (suc fuel) g v enough p = elim (Bool-cases (exceeds g.used g.cap)) [
    | inr f ↦ rw (f, evict) f
    | inl t ↦ elim (Option-cases (split_back g.lru)) [
      | inl n ↦ rw (t, n, evict) (empty-within g v (split_back-eq-none g.lru n) p)
      | inr ((front, o), s) ↦
          rw (t, s, evict)
            (within-evict fuel _ (IsLinked-popped g front o v s)
              (omega (
                arith,
                enough,
                ap length (split_back-eq-some g.lru front o s),
                length-append front (o ∷ []),
              ))
              p)
    ]
  ]

  pub IsValid-get : (g : ChunkCache H) (k : ChunkKey H) → IsValid g → IsValid (get g k).0
  unfolding get
  IsValid-get g k v = elim (Option-cases (lookup k g.items)) [
    | inl n ↦ rw (n, get) v
    | inr (e, s) ↦
        rw (s, get) (record { linked = IsLinked-moved g e.key v.linked; within = v.within })
  ]

  pub IsValid-put :
      (g : ChunkCache H) (k : ChunkKey H) (chunk : Chunk) → IsValid g → IsValid (put g k chunk)
  unfolding put
  IsValid-put g k chunk v = elim (Option-cases (lookup k g.items)) [
    | inr (e, s) ↦
        rw (s, put) (record { linked = IsLinked-moved g e.key v.linked; within = v.within })
    | inl n ↦
        let l = IsLinked-push g k chunk v.linked n in
        elim (Bool-cases (nonpositive g.cap)) [
          | inl p ↦
              rw (n, p, put) (record { linked = l; within = λ f. absurd (ground (arith, p, f)) })
          | inr p ↦
              let fuel = length (push g k chunk).lru in
              let pushed = push g k chunk in
              rw (n, p, put)
                (record {
                  linked = IsLinked-evict fuel pushed l;
                  within = λ _.
                      subst (λ z. exceeds (evict fuel pushed).used z ≡ false)
                        (sym (cap-evict fuel pushed)) (within-evict fuel pushed l (omega arith) p);
                })
        ]
  ]

  pub IsValid-new_chunk_cache : (cap size : ℤ) → IsValid (new_chunk_cache {H = H} cap size)
  unfolding new_chunk_cache lookup find_key total
  IsValid-new_chunk_cache cap size = record {
    linked = record { distinct = tt; agrees = λ k. refl; counted = refl };
    within = empty_fits cap;
  }

  -- The states that lookups and insertions lead to from a new cache.
  pub data Reachable (cap size : ℤ) : ChunkCache H → Type 0 where
    started : Reachable cap size (new_chunk_cache cap size)
    looked_up :
        {g : ChunkCache H}
        → Reachable cap size g
        → (k : ChunkKey H) → Reachable cap size (get g k).0
    stored :
        {g : ChunkCache H}
        → Reachable cap size g
        → (k : ChunkKey H) (chunk : Chunk) → Reachable cap size (put g k chunk)

  -- In every state that lookups and insertions lead to from a new cache, the keys of the list
  -- are distinct, the map and the list have the same entries, `used` is the sum of the
  -- lengths, and it is at most a positive limit.
  pub IsValid-Reachable : {cap size : ℤ} (g : ChunkCache H) → Reachable cap size g → IsValid g
  IsValid-Reachable g started = IsValid-new_chunk_cache _ _
  IsValid-Reachable g (looked_up {g = h} r k) = IsValid-get h k (IsValid-Reachable h r)
  IsValid-Reachable g (stored {g = h} r k chunk) = IsValid-put h k chunk (IsValid-Reachable h r)

-- ===== src/ChunkCache/Eviction.antt =====
-- internal/layer/chunkcache.go: which entries an insertion leaves.
use ocifuse.Prelude.{
  ℕ, zero, suc, ◌-◌, ◌≤◌, pos, nonpositive, exceeds, leb, ◌≡◌, refl, sym, ◌∙◌, ap, false, none,
  List, [], ◌∷◌, ◌++◌, Comparable, length, length-append, length-eq-zero, Bool-cases, Option-cases,
  inl, inr, if◌then◌else◌, arith,
}
use ocifuse.Prelude.Dict.{lookup}
use ocifuse.ChunkCache.{
  ChunkKey, Chunk, LruEntry, ChunkCache, chunk_key_eq, split_back, evict, push, put,
}
use ocifuse.ChunkCache.Lists.{total, split_back-eq-none, split_back-eq-some}
use ocifuse.ChunkCache.Valid.{IsLinked, IsValid, IsLinked-push, IsLinked-popped}

module _ {H : Type 0} where
  -- The longest front part of a list of entries that holds at most `room` bytes.
  abbrev pub fit : ℕ → List (LruEntry H) → List (LruEntry H)
  fit room [] = []
  fit room (e ∷ es) =
      let rest = fit (room - e.chunk.len) es in if leb e.chunk.len room then e ∷ rest else []

  fit-all : (room : ℕ) (es : List (LruEntry H)) → total es ≤ room → fit room es ≡ es
  unfolding total
  fit-all room [] h = refl
  fit-all room (e ∷ es) h = ground (arith, fit-all (room - e.chunk.len) es)

  fit-append_last :
      (room : ℕ) (es : List (LruEntry H)) (o : LruEntry H)
      → suc room ≤ total (es ++ o ∷ [])
      → fit room (es ++ o ∷ []) ≡ fit room es
  unfolding total
  fit-append_last room [] o h = ground arith
  fit-append_last room (e ∷ es) o h = ground (arith, fit-append_last (room - e.chunk.len) es o)

module _ {H : Type 0} ⦃c : Comparable H⦄ where
  lru-evict :
      (room fuel : ℕ) (g : ChunkCache H)
      → g.cap ≡ pos room
      → IsLinked g
      → length g.lru ≤ fuel
      → (evict fuel g).lru ≡ fit room g.lru
  unfolding evict total
  lru-evict room zero g limit v enough = rw (length-eq-zero g.lru enough) refl
  lru-evict room (suc fuel) g limit v enough = elim (Bool-cases (exceeds g.used g.cap)) [
    | inr f ↦ rw (f, evict) (sym (fit-all room g.lru (ground (arith, v.counted, limit, f))))
    | inl t ↦ elim (Option-cases (split_back g.lru)) [
      | inl n ↦ rw (t, n, evict) (rw (split_back-eq-none g.lru n) refl)
      | inr ((front, o), s) ↦
          let e = split_back-eq-some g.lru front o s in
          let over : suc room ≤ total (front ++ o ∷ []) =
            ground (arith, v.counted, limit, t, ap total e) in
          rw (t, s, evict)
            (lru-evict room fuel _ limit (IsLinked-popped g front o v s)
                (omega (arith, enough, ap length e, length-append front (o ∷ [])))
              ∙ sym (fit-append_last room front o over)
              ∙ sym (ap (fit room) e))
    ]
  ]

  -- Inserting a key that a valid cache with a positive limit lacks leaves the longest front
  -- part of the list, the new entry first, whose bytes the limit allows.
  pub lru-put :
      (g : ChunkCache H) (k : ChunkKey H) (chunk : Chunk) (room : ℕ)
      → IsValid g
      → g.cap ≡ pos (suc room)
      → lookup k g.items ≡ none
      → (put g k chunk).lru ≡ fit (suc room) (record { key = k; chunk = chunk } ∷ g.lru)
  unfolding put push
  lru-put g k chunk room v limit n =
      let pushed = push g k chunk in
      let bounded : nonpositive g.cap ≡ false = ap nonpositive limit in
      rw (n, bounded, put)
        (lru-evict (suc room) (length pushed.lru) pushed limit (IsLinked-push g k chunk v.linked n)
          (omega arith))

-- ===== src/LayerView/Reads.antt =====
-- internal/layer/chunkcache.go: what a read should return, and fetchChunk.
use ocifuse.Prelude.{
  ℕ, ◌+◌, ◌-◌, ◌*◌, ◌/◌, ◌≤◌, ◌<◌, min, none, some, Bytes, Comparable, length, take, drop, ◌≡◌,
  refl, ◌∙◌, ◌⊎◌, inl, inr, All, Option-cases, arith,
}
use ocifuse.ChunkCache.{ChunkKey, Chunk, LruEntry, ChunkCache, get, put}
use ocifuse.ChunkCache.Valid.{IsValid, IsValid-get, IsValid-put}
use ocifuse.ChunkCache.Kept.{All-get, All-put, chunk_size-get, chunk_size-put, get-eq-some}
use ocifuse.LayerView.{
  eof, failed, Reading, Fetched, fetched, fetch_failed, Answer, returned, panicked, LayerView,
  State, fetched_of, cache_fetched, fetch_chunk,
}

-- The reader underneath serves ranges of the content: all the bytes, perhaps with io.EOF, or an
-- error.
abbrev pub IsFaithful : {W : Type 0} → (W → ℕ → ℕ → Reading × W) → Bytes → Type 0
IsFaithful {W} read_under content =
    (w : W) (start len : ℕ)
    → start + len ≤ length content
    → let r = (read_under w start len).0 in
      ((r.buf ≡ take len (drop start content))
        × (r.n ≡ len)
        × ((r.err ≡ none) ⊎ (r.err ≡ some eof)))
      ⊎ ((code : ℕ) × (r.err ≡ some (failed code)))

-- The end of chunk `idx` in a content of `total` bytes, and the bytes of the chunk.
abbrev pub chunk_end : ℕ → ℕ → ℕ → ℕ
chunk_end size total idx = min (idx * size + size) total

abbrev pub window : ℕ → Bytes → ℕ → Bytes
window size content idx =
    take (chunk_end size (length content) idx - idx * size) (drop (idx * size) content)

-- The call that left the reader underneath in this state asked for chunk `idx`, and failed so.
abbrev pub FailsAt : {W : Type 0} → (W → ℕ → ℕ → Reading × W) → ℕ → Bytes → ℕ → ℕ → W → Type 0
FailsAt {W} read_under size content idx code after =
    (w : W) × (let r =
        read_under w (idx * size) (chunk_end size (length content) idx - idx * size) in
      (r.0.err ≡ some (failed code)) × (r.1 ≡ after))

-- A read of `room` bytes at `off`: all of them; or all that there are, with io.EOF; or those that
-- stand before a byte, with the error of the reader underneath for the chunk of this byte, in the
-- last call of the read. `after` is the state of that reader then.
abbrev pub IsRight :
    {W : Type 0} → (W → ℕ → ℕ → Reading × W) → ℕ → Bytes → ℕ → ℕ → Answer → W → Type 0
IsRight read_under size content off room (returned bytes none) after =
    (bytes ≡ take room (drop off content)) × (length bytes ≡ room)
IsRight read_under size content off room (returned bytes (some eof)) after =
    (bytes ≡ take room (drop off content)) × ((length bytes < room) ⊎ (length content ≤ off))
IsRight read_under size content off room (returned bytes (some (failed code))) after =
    (n : ℕ) × (n < room)
    × (off + n < length content)
    × (bytes ≡ take n (drop off content))
    × FailsAt read_under size content ((off + n) / size) code after
IsRight read_under size content off room panicked after = ⊥

module _ {H : Type 0} ⦃c : Comparable H⦄ (contents : H → Bytes) (size : ℕ) where
  -- The cached chunk is the one of its layer's content.
  abbrev pub Holds : LruEntry H → Type 0
  Holds e = e.chunk.buf ≡ window size (contents e.key.layer) e.key.idx

  pub record IsSound (g : ChunkCache H) : Type 0 where
    pub valid : IsValid g
    pub holds : All Holds g.lru
    pub sized : g.chunk_size ≡ size

  IsSound-get : (g : ChunkCache H) (k : ChunkKey H) → IsSound g → IsSound (get g k).0
  IsSound-get g k sound = record {
    valid = IsValid-get g k sound.valid;
    holds = All-get Holds g k sound.holds;
    sized = chunk_size-get g k ∙ sound.sized;
  }

  IsSound-put :
      (g : ChunkCache H) (k : ChunkKey H) (chunk : Chunk)
      → IsSound g
      → chunk.buf ≡ window size (contents k.layer) k.idx
      → IsSound (put g k chunk)
  IsSound-put g k chunk sound b = record {
    valid = IsValid-put g k chunk sound.valid;
    holds = All-put Holds g k chunk sound.holds b;
    sized = chunk_size-put g k chunk ∙ sound.sized;
  }

module _ {W : Type 0} (read_under : W → ℕ → ℕ → Reading × W) (content : Bytes) (size : ℕ) where
  -- The outcome of fetching chunk `idx`.
  abbrev pub IsChunk : ℕ → Fetched → W → Type 0
  IsChunk idx (fetched chunk) after = chunk.buf ≡ window size content idx
  IsChunk idx (fetch_failed code) after = FailsAt read_under size content idx code after

  fetched_of_lem :
      IsFaithful read_under content
      → (w : W) (idx : ℕ) → idx * size ≤ length content
      → let r = read_under w (idx * size) (chunk_end size (length content) idx - idx * size) in
        IsChunk idx (fetched_of r.0) r.1
  fetched_of_lem faithful w idx h =
      elim (faithful w (idx * size) (chunk_end size (length content) idx - idx * size)
        (omega (arith, h))) [
          | inl (b, n, inl e) ↦ rw e b
          | inl (b, n, inr e) ↦ rw e b
          | inr (code, e) ↦ rw e (w, (e, refl))
        ]

module _ {W H : Type 0} ⦃c : Comparable H⦄ (contents : H → Bytes) (v : LayerView H) (size : ℕ) where
  cache_fetched_lem :
      (read_under : W → ℕ → ℕ → Reading × W) (idx : ℕ) (w : W) (g : ChunkCache H) (f : Fetched)
      → IsChunk read_under (contents v.layer) size idx f w
      → IsSound contents size g
      → let out = cache_fetched (record { layer = v.layer; idx = idx }) w g f in
        IsChunk read_under (contents v.layer) size idx out.0 out.1.world
        × IsSound contents size out.1.cache
  cache_fetched_lem read_under idx w g (fetched chunk) i sound =
      (i, IsSound-put contents size g _ chunk sound i)
  cache_fetched_lem read_under idx w g (fetch_failed code) i sound = (i, sound)

  pub fetch_chunk_lem :
      (read_under : W → ℕ → ℕ → Reading × W) (idx : ℕ) (s : State W H)
      → IsFaithful read_under (contents v.layer)
      → idx * size ≤ length (contents v.layer)
      → IsSound contents size s.cache
      → let out =
          fetch_chunk read_under v idx
            (idx * size)
            (chunk_end size (length (contents v.layer)) idx)
            s in
        IsChunk read_under (contents v.layer) size idx out.0 out.1.world
        × IsSound contents size out.1.cache
  unfolding fetch_chunk
  fetch_chunk_lem read_under idx s faithful h sound =
      let key : ChunkKey H = record { layer = v.layer; idx = idx } in
      let looked = IsSound-get contents size s.cache key sound in
      elim (Option-cases (get s.cache key).1) [
        | inr (chunk, e) ↦
            rw (e, fetch_chunk)
              (
                get-eq-some (Holds contents size) s.cache key chunk sound.valid sound.holds e,
                looked,
              )
        | inl n ↦
            rw (n, fetch_chunk)
              (cache_fetched_lem read_under idx _ (get s.cache key).0 _
                (fetched_of_lem read_under (contents v.layer) size faithful s.world idx h) looked)
      ]

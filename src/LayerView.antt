-- ===== src/LayerView.antt =====
-- internal/layer/chunkcache.go, the reader of a layer: ranges of its compressed bytes, from the
-- chunk cache where it has them. The reader underneath (an HTTP reader with range requests) is a
-- parameter; what it depends on is a state of a type of its own.
pub mod Reads
pub mod Loop
pub mod Ends
pub mod Shared
use ocifuse.Prelude.{
  ℕ, zero, suc, ◌+◌, ◌-◌, ◌*◌, ◌/◌, min, ℤ, true, false, pos, negsuc, ◌&&◌, Option, none, some, [],
  ◌++◌, Bytes, Comparable, length, take, drop, ltb, leb, if◌then◌else◌,
}
use ocifuse.ChunkCache.{ChunkKey, Chunk, ChunkCache, get, put}

-- io.EOF, or another error by a code.
pub data ReadError : Type 0 where
  eof : ReadError
  failed : ℕ → ReadError

-- What a call of the reader underneath leaves in the buffer, how many bytes it says it read, and
-- its error.
pub record Reading : Type 0 where
  pub buf : Bytes
  pub n : ℕ
  pub err : Option ReadError

pub data Fetched : Type 0 where
  fetched : Chunk → Fetched
  fetch_failed : ℕ → Fetched

-- The bytes written to the front of the caller's buffer, with the error; or a slice bounds panic.
pub data Answer : Type 0 where
  returned : Bytes → Option ReadError → Answer
  panicked : Answer

-- chunk[lo:hi]: Go's bound for `hi` is the capacity of the slice, not its length.
abbrev pub slice : Chunk → ℕ → ℕ → Option Bytes
slice chunk lo hi =
    if leb lo hi && leb hi (length chunk.buf)
    then some (take (hi - lo) (drop lo chunk.buf))
    else none

pub record LayerView (H : Type 0) : Type 0 where
  pub layer : H
  pub size : ℕ

-- The end of the function: fewer bytes than the caller's buffer has are reported as the end of
-- the file.
abbrev pub finish : ℕ → Bytes → Answer
finish room written = returned written (if ltb (length written) room then some eof else none)

-- The shared cache, and what the reader underneath depends on.
pub record State (W H : Type 0) : Type 0 where
  pub world : W
  pub cache : ChunkCache H

-- The buffer is cut to what was read, which leaves its capacity.
abbrev pub fetched_of : Reading → Fetched
fetched_of r = elim r.err [
  | some (failed code) ↦ fetch_failed code
  | some eof ↦ fetched (record { buf = r.buf; len = r.n })
  | none ↦ fetched (record { buf = r.buf; len = r.n })
]

module _ {W H : Type 0} ⦃c : Comparable H⦄ where
  abbrev pub cache_fetched : ChunkKey H → W → ChunkCache H → Fetched → Fetched × State W H
  cache_fetched key world cache (fetch_failed code) =
      (fetch_failed code, record { world = world; cache = cache })
  cache_fetched key world cache (fetched chunk) =
      (fetched chunk, record { world = world; cache = put cache key chunk })

module _ {W H : Type 0} ⦃c : Comparable H⦄ (read_under : W → ℕ → ℕ → Reading × W) where
  unfoldable pub fetch_chunk : LayerView H → ℕ → ℕ → ℕ → State W H → Fetched × State W H
  fetch_chunk v idx start end s =
      let key : ChunkKey H = record { layer = v.layer; idx = idx } in
      let (cache, cached) = get s.cache key in
      elim cached [
        | some chunk ↦ (fetched chunk, record s { cache = cache })
        | none ↦
            let (reading, world) = read_under s.world start (end - start) in
            cache_fetched key world cache (fetched_of reading)
      ]

  -- The loop, for a read of `room` bytes at `off`: each round copies at least one byte, so the
  -- number of bytes to copy is fuel enough. `written` is all that was copied before `cur`.
  unfoldable pub read_loop :
      LayerView H → ℕ → ℕ → ℕ → ℕ → ℕ → Bytes → State W H → Answer × State W H
  read_loop v off room end zero cur written s = (finish room written, s)
  read_loop v off room end (suc fuel) cur written s = elim (ltb cur end) [
    | false ↦ (finish room written, s)
    | true ↦
        let size = s.cache.chunk_size in
        let idx = cur / size in
        let chunk_start = idx * size in
        let chunk_end = min (chunk_start + size) v.size in
        let (result, after) = fetch_chunk v idx chunk_start chunk_end s in
        elim result [
          | fetch_failed code ↦ (returned written (some (failed code)), after)
          | fetched chunk ↦
              elim (slice chunk (cur - chunk_start) (min chunk_end end - chunk_start)) [
                | none ↦ (panicked, after)
                | some bytes ↦
                    let copied = take (room - (cur - off)) bytes in
                    elim (length copied) [
                      | zero ↦ (finish room written, after)
                      | suc n ↦
                          read_loop v off room end fuel (cur + suc n) (written ++ copied) after
                    ]
              ]
        ]
  ]

  -- A read into a buffer of `room` bytes.
  unfoldable pub read_at : LayerView H → ℕ → ℤ → State W H → Answer × State W H
  read_at v room (negsuc n) s = (returned [] (some eof), s)
  read_at v room (pos off) s =
      let end = min (off + room) v.size in
      if leb v.size off
      then (returned [] (some eof), s)
      else read_loop v off room end (end - off) off [] s

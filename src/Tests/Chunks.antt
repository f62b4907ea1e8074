-- ===== src/Tests/Chunks.antt =====
-- Runs of internal/layer/chunkcache.go, and its theorems at concrete states.
use ocifuse.Prelude.{
  ℕ, ◌+◌, pos, negsuc, ◌≡◌, inl, inr, refl, none, some, List, [], ◌∷◌, Bytes, nat_eq, length, take,
  drop, map, All, arith, Bool-cases, nat_beq, if◌then◌else◌,
}
use ocifuse.Prelude.Dict.{lookup, insert, delete, delete_where}
use ocifuse.ChunkCache.{
  ChunkKey, Chunk, LruEntry, ChunkCache, new_chunk_cache, chunk_size_of, find_key, without_key,
  move_to_front, get, split_back, evict, push, put,
}
use ocifuse.ChunkCache.Lists.{total}
use ocifuse.ChunkCache.Valid.{IsValid, Reachable, started, looked_up, stored, IsValid-Reachable}
use ocifuse.ChunkCache.Eviction.{fit, lru-put}
use ocifuse.LayerView.{
  eof, failed, Reading, Answer, returned, LayerView, State, fetch_chunk, read_loop, read_at,
}
use ocifuse.LayerView.Ends.{read_loop-enough}
use ocifuse.LayerView.Reads.{IsFaithful}
use ocifuse.LayerView.Shared.{Request, IsAnswer, read_all, read_all-new_chunk_cache}

program : Unit {0}
unfolding lookup insert delete delete_where new_chunk_cache chunk_size_of find_key without_key
    move_to_front get split_back evict push put total fetch_chunk read_loop read_at read_all
program = tt

abbrev key : ℕ → ChunkKey ℕ
key idx = record { layer = 7; idx = idx }

abbrev chunk : ℕ → Chunk
chunk len = record { buf = []; len = len }

-- Three chunks, of which the first was used again.
abbrev fresh : ChunkCache ℕ
fresh = new_chunk_cache (pos 10) (pos 4)

abbrev filled : ChunkCache ℕ
filled = put (put (put fresh (key 0) (chunk 4)) (key 1) (chunk 3)) (key 2) (chunk 2)

abbrev used_again : ChunkCache ℕ
used_again = (get filled (key 0)).0

in_use : ChunkCache ℕ → List ℕ
in_use g = map (λ (e : LruEntry ℕ). e.key.idx) g.lru

eviction_order : in_use (put used_again (key 3) (chunk 4)) ≡ 3 ∷ 0 ∷ 2 ∷ []
unfolding in_use program
eviction_order = refl

reached : Reachable (pos 10) (pos 4) used_again
reached =
    looked_up
      (stored (stored (stored started (key 0) (chunk 4)) (key 1) (chunk 3)) (key 2) (chunk 2))
      (key 0)

IsValid-Reachable_example : IsValid used_again
IsValid-Reachable_example = IsValid-Reachable used_again reached

lru-put_example :
    (put used_again (key 3) (chunk 4)).lru
    ≡ fit 10 (record { key = key 3; chunk = chunk 4 } ∷ used_again.lru)
unfolding program
lru-put_example =
    lru-put used_again (key 3) (chunk 4) 9 (IsValid-Reachable used_again reached) refl refl

-- A server of one content for every layer, which reports the end of the file early, and fails when
-- it is called for the third time.
abbrev content : Bytes
content = 10 ∷ 11 ∷ 12 ∷ 13 ∷ 14 ∷ 15 ∷ 16 ∷ []

abbrev serve : ℕ → ℕ → ℕ → Reading × ℕ
serve w start len = (
  if nat_beq w 2
      then record { buf = []; n = 0; err = some (failed 7) }
      else record { buf = take len (drop start content); n = len; err = some eof },
  w + 1,
)

serve-IsFaithful : IsFaithful serve content
serve-IsFaithful w start len h = elim (Bool-cases (nat_beq w 2)) [
  | inl t ↦ rw t (inr (7, refl))
  | inr f ↦ rw f (inl (refl, refl, inr refl))
]

abbrev requests : List (Request ℕ)
requests =
    record { layer = 1; room = 3; off = pos 2 }
    ∷ record { layer = 2; room = 9; off = pos 5 }
    ∷ record { layer = 1; room = 2; off = negsuc 0 }
    ∷ record { layer = 1; room = 4; off = pos 3 }
    ∷ []

abbrev shared : List (Request ℕ × Answer × ℕ) × State ℕ ℕ
shared =
    read_all (λ layer. serve) (λ layer. length content) requests
      (record { world = 0; cache = new_chunk_cache (pos 5) (pos 4) })

-- The fourth read finds a chunk that the first one fetched and fetches the other again.
answers :
    map (λ (qa : Request ℕ × Answer × ℕ). qa.1) shared.0
    ≡ returned (12 ∷ 13 ∷ 14 ∷ []) none
      ∷ returned [] (some (failed 7))
      ∷ returned [] (some eof)
      ∷ returned (13 ∷ 14 ∷ 15 ∷ 16 ∷ []) none
      ∷ []
unfolding program
answers = refl

-- A blob that ends before its layer does, at 3 bytes of 4: the byte that was not read is returned
-- as if it was.
abbrev short : ℕ → ℕ → ℕ → Reading × ℕ
short w start len = (record { buf = 10 ∷ 11 ∷ 12 ∷ 0 ∷ []; n = 3; err = some eof }, w)

short_read :
    (read_at {H = ℕ} short
      (record { layer = 1; size = 4 })
      4
      (pos 0)
      (record { world = 0; cache = new_chunk_cache (pos 5) (pos 4) })).0
    ≡ returned (10 ∷ 11 ∷ 12 ∷ 0 ∷ []) none
unfolding program
short_read = refl

read_all-new_chunk_cache_example :
    All
      (λ (qa : Request ℕ × Answer × ℕ). IsAnswer serve 4 content qa.0.room qa.0.off qa.1 qa.2)
      shared.0
unfolding chunk_size_of
read_all-new_chunk_cache_example =
    read_all-new_chunk_cache (λ layer. content) (λ layer. serve) (pos 5) (pos 4) 0 requests
      (λ layer. serve-IsFaithful)

abbrev view : LayerView ℕ
view = record { layer = 1; size = 7 }

abbrev start : State ℕ ℕ
start = record { world = 0; cache = new_chunk_cache (pos 5) (pos 4) }

read_loop-enough_example :
    read_loop serve view 2 5 7 5 2 [] start ≡ read_loop serve view 2 5 7 9 2 [] start
read_loop-enough_example =
    read_loop-enough serve view 2 5 7 5 9 2 [] start (omega arith) (omega arith)

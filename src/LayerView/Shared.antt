-- ===== src/LayerView/Shared.antt =====
-- internal/layer/chunkcache.go: reads of several layers, one after the other, through one cache.
use ocifuse.Prelude.{
  ℕ, zero, suc, ◌+◌, ◌-◌, ◌≤◌, ◌<◌, min, ℤ, pos, negsuc, some, List, [], ◌∷◌, Bytes, Comparable,
  length, take, drop, leb, ◌≡◌, refl, sym, ap, ◌∙◌, inl, inr, All, length-drop, take-all,
  length-eq-zero, Bool-cases, arith,
}
use ocifuse.ChunkCache.{new_chunk_cache, chunk_size_of}
use ocifuse.ChunkCache.Valid.{IsValid-new_chunk_cache}
use ocifuse.LayerView.{eof, Reading, Answer, returned, LayerView, State, read_at}
use ocifuse.LayerView.Reads.{IsFaithful, IsRight, IsSound}
use ocifuse.LayerView.Loop.{read_loop_lem}

-- A read at a negative offset only reports the end of the file.
abbrev pub IsAnswer :
    {W : Type 0} → (W → ℕ → ℕ → Reading × W) → ℕ → Bytes → ℕ → ℤ → Answer → W → Type 0
IsAnswer read_under size content room (negsuc n) answer after = answer ≡ returned [] (some eof)
IsAnswer read_under size content room (pos off) answer after =
    IsRight read_under size content off room answer after

-- ForLayer, then ReadAt into a buffer of `room` bytes.
pub record Request (H : Type 0) : Type 0 where
  pub layer : H
  pub room : ℕ
  pub off : ℤ

module _ {W H : Type 0} ⦃c : Comparable H⦄ (read_under : H → W → ℕ → ℕ → Reading × W)
    (sizes : H → ℕ) where
  unfoldable pub read_all : List (Request H) → State W H → List (Request H × Answer × W) × State W H
  read_all [] s = ([], s)
  read_all (q ∷ qs) s =
      let v : LayerView H = record { layer = q.layer; size = sizes q.layer } in
      let (answer, after) = read_at (read_under q.layer) v q.room q.off s in
      let (answers, last) = read_all qs after in ((q, answer, after.world) ∷ answers, last)

module _ {W H : Type 0} ⦃c : Comparable H⦄ (contents : H → Bytes) (size : ℕ) where
  pub read_at_lem :
      (read_under : W → ℕ → ℕ → Reading × W) (layer : H) (room : ℕ) (off : ℤ) (s : State W H)
      → IsFaithful read_under (contents layer)
      → 0 < size
      → IsSound contents size s.cache
      → let out =
          read_at read_under
            (record { layer = layer; size = length (contents layer) })
            room
            off
            s in
        IsAnswer read_under size (contents layer) room off out.0 out.1.world
        × IsSound contents size out.1.cache
  unfolding read_at
  read_at_lem read_under layer room (negsuc n) s faithful positive sound = (refl, sound)
  read_at_lem read_under layer room (pos off) s faithful positive sound =
      let content = contents layer in
      elim (Bool-cases (leb (length content) off)) [
        | inl t ↦
            let past : length content ≤ off = ground (arith, t) in
            let there : length (drop off content) ≡ 0 =
              omega (arith, length-drop off content, past) in
            let nothing : [] ≡ take room (drop off content) =
              sym (length-eq-zero (drop off content) (omega (arith, there)))
              ∙ sym (take-all room (drop off content) (omega (arith, there))) in
            rw (t, read_at) ((nothing, inr past), sound)
        | inr f ↦
            let before : off < length content = ground (arith, f) in
            let nowhere : off - off ≡ 0 = omega arith in
            let none_yet : [] ≡ take (off - off) (drop off content) =
              sym (ap (λ n. take n (drop off content)) nowhere) in
            rw (f, read_at)
              (read_loop_lem read_under contents layer size off room faithful positive (omega arith)
                (min (off + room) (length content) - off) off [] s (omega arith) (omega arith)
                (omega arith) none_yet sound)
      ]

  read_all_lem :
      (read_under : H → W → ℕ → ℕ → Reading × W) (qs : List (Request H)) (s : State W H)
      → ((layer : H) → IsFaithful (read_under layer) (contents layer))
      → 0 < size
      → IsSound contents size s.cache
      → All
          (λ (qa : Request H × Answer × W).
            IsAnswer
              (read_under qa.0.layer)
              size
              (contents qa.0.layer)
              qa.0.room
              qa.0.off
              qa.1
              qa.2)
          (read_all read_under (λ layer. length (contents layer)) qs s).0
  unfolding read_all
  read_all_lem read_under [] s faithful positive sound = tt
  read_all_lem read_under (q ∷ qs) s faithful positive sound =
      let (right, after) =
        read_at_lem (read_under q.layer) q.layer q.room q.off s (faithful q.layer) positive sound in
      (right, read_all_lem read_under qs _ faithful positive after)

chunk_size_of_lem : (z : ℤ) → 0 < chunk_size_of z
unfolding chunk_size_of
chunk_size_of_lem (pos (suc n)) = omega arith
chunk_size_of_lem (pos zero) = omega arith
chunk_size_of_lem (negsuc n) = omega arith

-- Every one of a sequence of reads of layers through a new chunk cache is answered from the
-- content of its layer, whatever the limit and the chunk size, if the reader underneath serves
-- ranges of the content or fails: all the bytes asked for; or all that there are, with io.EOF;
-- or a front part, with the error of the last call of the reader underneath, which asked for
-- the chunk of the byte that comes next; and no slice is out of bounds.
pub read_all-new_chunk_cache :
    {W H : Type 0} ⦃c : Comparable H⦄ (contents : H → Bytes)
    (read_under : H → W → ℕ → ℕ → Reading × W) (cap size : ℤ) (w : W) (qs : List (Request H))
    → ((layer : H) → IsFaithful (read_under layer) (contents layer))
    → All
        (λ (qa : Request H × Answer × W).
          IsAnswer
            (read_under qa.0.layer)
            (chunk_size_of size)
            (contents qa.0.layer)
            qa.0.room
            qa.0.off
            qa.1
            qa.2)
        (read_all read_under
          (λ layer. length (contents layer))
          qs
          (record { world = w; cache = new_chunk_cache cap size })).0
unfolding new_chunk_cache
read_all-new_chunk_cache contents read_under cap size w qs faithful =
    read_all_lem contents (chunk_size_of size) read_under qs _ faithful (chunk_size_of_lem size)
      (record { valid = IsValid-new_chunk_cache cap size; holds = tt; sized = refl })

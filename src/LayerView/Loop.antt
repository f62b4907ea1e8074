-- ===== src/LayerView/Loop.antt =====
-- internal/layer/chunkcache.go: the loop of ReadAt.
use mathlib.Core.Path.{subst}
use native.Mathlib.Nat.{div-mul-le_self, lt-div-mul-add}
use ocifuse.Prelude.{
  ℕ, zero, suc, ◌+◌, ◌-◌, ◌*◌, ◌/◌, ◌≤◌, ◌<◌, min, true, some, ◌++◌, Bytes, Comparable, length,
  take, drop, ltb, leb, ◌≡◌, refl, sym, ap, ◌∙◌, ◌⊎◌, inl, inr, length-take, length-drop, drop-drop,
  drop-take, take-take, take-split, take-all, Bool-cases, arith,
}
use ocifuse.ChunkCache.{Chunk}
use ocifuse.LayerView.{
  Reading, Fetched, fetched, fetch_failed, Answer, slice, LayerView, finish, State, fetch_chunk,
  read_loop,
}
use ocifuse.LayerView.Reads.{
  IsFaithful, IsRight, FailsAt, IsSound, IsChunk, chunk_end, fetch_chunk_lem,
}

pub Fetched-cases :
    (f : Fetched) → ((chunk : Chunk) × (f ≡ fetched chunk)) ⊎ ((code : ℕ) × (f ≡ fetch_failed code))
Fetched-cases (fetched chunk) = inl (chunk, refl)
Fetched-cases (fetch_failed code) = inr (code, refl)

slice_lem :
    (content : Bytes) (chunk : Chunk) (start stop cur hi : ℕ)
    → start ≤ cur
    → cur ≤ hi
    → hi ≤ stop
    → stop ≤ length content
    → chunk.buf ≡ take (stop - start) (drop start content)
    → slice chunk (cur - start) (hi - start) ≡ some (take (hi - cur) (drop cur content))
slice_lem content chunk start stop cur hi a b d e h =
    let held : length chunk.buf ≡ stop - start = omega (
      arith,
      ap length h,
      length-take (stop - start) (drop start content),
      length-drop start content,
      a,
      b,
      d,
      e,
    ) in
    let low : leb (cur - start) (hi - start) ≡ true = ground arith in
    let high : leb (hi - start) (length chunk.buf) ≡ true = ground arith in
    let bytes : take (hi - start - (cur - start)) (drop (cur - start) chunk.buf)
        ≡ take (hi - cur) (drop cur content) =
      ap (λ b. take (hi - start - (cur - start)) (drop (cur - start) b)) h
      ∙ ap (take (hi - start - (cur - start)))
          (drop-take (cur - start) (stop - start) (drop start content))
      ∙ take-take _ (stop - start - (cur - start)) (drop (cur - start) (drop start content))
          (omega arith)
      ∙ ap (λ n. take n (drop (cur - start) (drop start content))) (omega arith)
      ∙ ap (take (hi - cur)) (drop-drop (cur - start) start content)
      ∙ ap (λ n. take (hi - cur) (drop n content)) (omega arith) in
    rw (low, high, bytes) refl

-- The caller's buffer is filled as far as the content goes.
finish_lem :
    {W : Type 0} (after : W) (read_under : W → ℕ → ℕ → Reading × W) (size : ℕ)
    (content written : Bytes) (off room : ℕ)
    → off ≤ length content
    → written ≡ take (min (off + room) (length content) - off) (drop off content)
    → IsRight read_under size content off room (finish room written) after
finish_lem after read_under size content written off room h w =
    let held : length written ≡ min (off + room) (length content) - off = omega (
      arith,
      ap length w,
      length-take (min (off + room) (length content) - off) (drop off content),
      length-drop off content,
    ) in
    let there : length (drop off content) ≡ length content - off = length-drop off content in
    elim (Bool-cases (ltb (length written) room)) [
      | inl t ↦
          let short : length written < room = ground (arith, t) in
          rw t (
            w
                ∙ take-all _ (drop off content) (omega arith)
                ∙ sym (take-all room (drop off content) (omega arith)),
            inl short,
          )
      | inr f ↦
          let full : length written ≡ room = ground (arith, f, held) in
          rw f (w ∙ ap (λ n. take n (drop off content)) (omega arith), full)
    ]

append_lem :
    (content : Bytes) (off cur hi : ℕ) (written : Bytes)
    → written ≡ take (cur - off) (drop off content)
    → off ≤ cur
    → cur < hi
    → written ++ take (hi - cur) (drop cur content)
      ≡ take (cur + suc (hi - cur - 1) - off) (drop off content)
append_lem content off cur hi written w a b =
    let there : drop cur content ≡ drop (cur - off) (drop off content) =
      ap (λ n. drop n content) (omega arith) ∙ sym (drop-drop (cur - off) off content) in
    ap (λ b. b ++ take (hi - cur) (drop cur content)) w
    ∙ ap (λ b. take (cur - off) (drop off content) ++ take (hi - cur) b) there
    ∙ take-split (cur - off) (hi - cur) (drop off content)
    ∙ ap (λ n. take n (drop off content)) (omega arith)

module _ {W H : Type 0} ⦃c : Comparable H⦄ (read_under : W → ℕ → ℕ → Reading × W)
    (contents : H → Bytes) (layer : H) (size off room : ℕ) where
  abbrev pub content : Bytes
  content = contents layer

  abbrev pub view : LayerView H
  view = record { layer = layer; size = length content }

  -- The read is right, and leaves a cache that the next one can use.
  abbrev pub IsGood : Answer × State W H → Type 0
  IsGood out =
      IsRight read_under size content off room out.0 out.1.world × IsSound contents size out.1.cache

  module _ (faithful : IsFaithful read_under content) (positive : 0 < size)
      (inside : off ≤ length content) where
    abbrev pub end : ℕ
    end = min (off + room) (length content)

    pub read_loop_lem :
        (fuel cur : ℕ) (written : Bytes) (s : State W H)
        → off ≤ cur
        → cur ≤ end
        → end ≤ cur + fuel
        → written ≡ take (cur - off) (drop off content)
        → IsSound contents size s.cache
        → IsGood (read_loop read_under view off room end fuel cur written s)
    unfolding read_loop
    read_loop_lem zero cur written s a b enough w sound = (
      finish_lem s.world read_under size content written off room inside
          (w ∙ ap (λ n. take (n - off) (drop off content)) (omega arith)),
      sound,
    )
    read_loop_lem (suc fuel) cur written s a b enough w sound = elim (Bool-cases (ltb cur end)) [
      | inr f ↦
          let last : cur - off ≡ end - off = ground (arith, f) in
          rw (f, read_loop)
            (
              finish_lem s.world read_under size content written off room inside
                  (w ∙ ap (λ n. take n (drop off content)) last),
              sound,
            )
      | inl t ↦
          let before : cur < end = ground (arith, t) in
          let sz = s.cache.chunk_size in
          let here = subst (λ n. IsSound contents n s.cache) (sym sound.sized) sound in
          let idx = cur / sz in
          let start = idx * sz in
          let low : start ≤ cur = div-mul-le_self cur sz in
          let high : cur < start + sz = lt-div-mul-add (omega (arith, positive, sound.sized)) in
          let stop = chunk_end sz (length content) idx in
          let out = fetch_chunk read_under view idx start stop s in
          let (result, after) =
            fetch_chunk_lem contents view sz read_under idx s faithful (omega arith) here in
          let ok = subst (λ n. IsSound contents n out.1.cache) sound.sized after in
          elim (Fetched-cases out.0) [
            | inr (code, e) ↦
                let fails : FailsAt read_under size content (cur / size) code out.1.world =
                  subst (λ n. FailsAt read_under n content (cur / n) code out.1.world) sound.sized
                    (subst (λ f. IsChunk read_under content sz idx f out.1.world) e result) in
                let at : cur ≡ off + (cur - off) = omega arith in
                rw (t, e, read_loop)
                  (
                    (
                      cur - off,
                      omega arith,
                      omega arith,
                      w,
                      subst (λ n. FailsAt read_under size content (n / size) code out.1.world) at
                          fails,
                    ),
                    ok,
                  )
            | inl (chunk, e) ↦
                let hi = min stop end in
                let bytes = take (hi - cur) (drop cur content) in
                let cut =
                  slice_lem content chunk start stop cur hi low (omega arith) (omega arith)
                    (omega arith)
                    (subst (λ f. IsChunk read_under content sz idx f out.1.world) e result) in
                let held : length bytes ≡ suc (hi - cur - 1) =
                  omega
                    (arith, length-take (hi - cur) (drop cur content), length-drop cur content) in
                let whole : take (room - (cur - off)) bytes ≡ bytes =
                  take-all _ bytes (omega (arith, held)) in
                let joined : written ++ bytes
                    ≡ take (cur + suc (hi - cur - 1) - off) (drop off content) =
                  append_lem content off cur hi written w a (omega arith) in
                rw (t, e, cut, whole, held, whole, read_loop)
                  (read_loop_lem fuel (cur + suc (hi - cur - 1)) (written ++ bytes) out.1
                    (omega arith) (omega arith) (omega arith) joined ok)
          ]
    ]

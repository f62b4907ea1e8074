-- ===== src/LayerView/Ends.antt =====
-- internal/layer/chunkcache.go: the loop of ReadAt ends, whatever the reader underneath does.
use ocifuse.Prelude.{
  ℕ, zero, suc, ◌+◌, ◌-◌, ◌*◌, ◌/◌, ◌≤◌, min, false, Bytes, Comparable, length, take, ltb, ◌++◌,
  ◌≡◌, refl, ◌⊎◌, inl, inr, Bool-cases, Option-cases, arith,
}
use ocifuse.LayerView.{Reading, slice, LayerView, State, fetch_chunk, read_loop}
use ocifuse.LayerView.Loop.{Fetched-cases}

zero-or-suc : (n : ℕ) → (n ≡ 0) ⊎ ((m : ℕ) × (n ≡ suc m))
zero-or-suc zero = inl refl
zero-or-suc (suc m) = inr (m, refl)

module _ {W H : Type 0} ⦃c : Comparable H⦄ (read_under : W → ℕ → ℕ → Reading × W) where
  -- The loop of ReadAt has ended when as many rounds were made as there are bytes from its
  -- position to the end of the read, whatever the reader underneath answers: any two amounts
  -- of fuel that are not below that number give the same result.
  pub read_loop-enough :
      (v : LayerView H) (off room end n m cur : ℕ) (written : Bytes) (s : State W H)
      → end ≤ cur + n
      → end ≤ cur + m
      → read_loop read_under v off room end n cur written s
        ≡ read_loop read_under v off room end m cur written s
  unfolding read_loop
  read_loop-enough v off room end zero zero cur written s a b = refl
  read_loop-enough v off room end zero (suc m) cur written s a b =
      let over : ltb cur end ≡ false = ground arith in rw (over, read_loop) refl
  read_loop-enough v off room end (suc n) zero cur written s a b =
      let over : ltb cur end ≡ false = ground arith in rw (over, read_loop) refl
  read_loop-enough v off room end (suc n) (suc m) cur written s a b =
      elim (Bool-cases (ltb cur end)) [
        | inr f ↦ rw (f, read_loop) refl
        | inl t ↦
            let size = s.cache.chunk_size in
            let start = cur / size * size in
            let stop = min (start + size) v.size in
            let out = fetch_chunk read_under v (cur / size) start stop s in
            elim (Fetched-cases out.0) [
              | inr (code, e) ↦ rw (t, e, read_loop) refl
              | inl (chunk, e) ↦
                  elim (Option-cases (slice chunk (cur - start) (min stop end - start))) [
                    | inl p ↦ rw (t, e, p, read_loop) refl
                    | inr (bytes, p) ↦
                        let copied = take (room - (cur - off)) bytes in
                        elim (zero-or-suc (length copied)) [
                          | inl z ↦ rw (t, e, p, z, read_loop) refl
                          | inr (k, z) ↦
                              rw (t, e, p, z, read_loop)
                                (read_loop-enough v off room end n m (cur + suc k)
                                  (written ++ copied) out.1 (omega arith) (omega arith))
                        ]
                  ]
            ]
      ]

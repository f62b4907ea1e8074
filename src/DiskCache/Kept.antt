-- ===== src/DiskCache/Kept.antt =====
-- internal/cache/cache.go: what a write leaves at each path. Eviction removes files, and changes
-- none.
use ocifuse.Prelude.{
  ℕ, ◌≡◌, ◌⊎◌, ◌==◌, inl, inr, refl, ◌∙◌, none, some, Option, List, [], ◌∷◌, Bytes, bytes_eq,
  length, nonpositive, above, Result, ok, Bool-cases, Option-cases,
}
use ocifuse.Prelude.Dict.{lookup, insert, delete, lookup-delete}
use ocifuse.DiskCache.{
  Disk, DiskCache, IoError, Faults, Candidate, path_of, evict_loop, evict, counted, account, write,
  old_size_of,
}
use ocifuse.DiskCache.Writes.{write-cases}
use ocifuse.DiskCache.RoundTrip.{dir-write}

-- The path has the file that it had, or none.
abbrev pub IsKept : Bytes → Disk → Disk → Type 0
IsKept q before after = (lookup q after ≡ none) ⊎ (lookup q after ≡ lookup q before)

IsKept-trans : (q : Bytes) (a b c : Disk) → IsKept q a b → IsKept q b c → IsKept q a c
IsKept-trans q a b c h (inl n) = inl n
IsKept-trans q a b c (inl n) (inr e) = inl (e ∙ n)
IsKept-trans q a b c (inr d) (inr e) = inr (e ∙ d)

IsKept-delete : (q p : Bytes) (disk : Disk) → IsKept q disk (delete p disk)
IsKept-delete q p disk = elim (Bool-cases (q == p)) [
  | inl t ↦ inl (lookup-delete p q disk ∙ rw t refl)
  | inr f ↦ inr (lookup-delete p q disk ∙ rw f refl)
]

IsKept-evict_loop :
    (faults : Faults) (es : List Candidate) (c : DiskCache) (disk : Disk) (q : Bytes)
    → IsKept q disk (evict_loop faults es c disk).1
unfolding evict_loop
IsKept-evict_loop faults [] c disk q = inr refl
IsKept-evict_loop faults (e ∷ es) c disk q = elim (Bool-cases (above c.size c.cap)) [
  | inr f ↦ rw (f, evict_loop) (inr refl)
  | inl t ↦ elim (Bool-cases (faults.not_removed e.path)) [
    | inl stuck ↦ rw (t, stuck, evict_loop) (IsKept-evict_loop faults es c disk q)
    | inr gone ↦
        rw (t, gone, evict_loop)
          (IsKept-trans q disk (delete e.path disk) _ (IsKept-delete q e.path disk)
            (IsKept-evict_loop faults es _ (delete e.path disk) q))
  ]
]

IsKept-account :
    (faults : Faults) (old_size new_size : ℕ) (c : DiskCache) (disk : Disk) (q : Bytes)
    → IsKept q disk (account faults old_size new_size c disk).1.1
unfolding evict
IsKept-account faults old_size new_size c disk q = elim (Bool-cases (nonpositive c.cap)) [
  | inl p ↦ rw p (inr refl)
  | inr p ↦ elim (Option-cases faults.stat_after) [
    | inr (e, s) ↦ rw (p, s) (inr refl)
    | inl s ↦ elim (Bool-cases (above (counted c new_size old_size).size c.cap)) [
      | inr f ↦ rw (p, s, f) (inr refl)
      | inl t ↦ rw (p, s, t) (IsKept-evict_loop faults _ (counted c new_size old_size) disk q)
    ]
  ]
]

-- After a write of these bytes, each path has what it had with them at the path of the key, or
-- nothing.
pub record HasWritten (c : DiskCache) (key bytes : Bytes) (disk : Disk) (c' : DiskCache)
    (disk' : Disk) : Type 0 where
  pub dir : c'.dir ≡ c.dir
  pub stamp : ℕ
  pub kept :
      (q : Bytes)
      → IsKept q (insert (path_of c key) (record { content = bytes; mtime = stamp }) disk) disk'

abbrev pub Writes :
    DiskCache → Bytes → Result IoError Bytes → Disk → Option IoError × (DiskCache × Disk) → Type 0
Writes c key output disk (some e, s) = Unit
Writes c key output disk (none, (c', disk')) =
    (bytes : Bytes) × (output ≡ ok bytes) × HasWritten c key bytes disk c' disk'

Writes-intro :
    (c : DiskCache) (key bytes : Bytes) (now : ℕ) (output : Result IoError Bytes) (disk : Disk)
    (r : Option IoError × (DiskCache × Disk))
    → output ≡ ok bytes
    → r.1.0.dir ≡ c.dir
    → ((q : Bytes)
        → IsKept q (insert (path_of c key) (record { content = bytes; mtime = now }) disk) r.1.1)
    → Writes c key output disk r
Writes-intro c key bytes now output disk (some e, s) o d k = tt
Writes-intro c key bytes now output disk (none, (c', disk')) o d k =
    (bytes, o, record { dir = d; stamp = now; kept = k })

-- A write that succeeds.
pub write-Writes :
    (faults : Faults) (now : ℕ) (c : DiskCache) (key : Bytes) (output : Result IoError Bytes)
    (disk : Disk)
    → Writes c key output disk (write faults now c key output disk)
write-Writes faults now c key output disk = elim (write-cases faults now c key output disk) [
  | inl (e, disk', w, left) ↦ rw w tt
  | inr (bytes, o, w) ↦
      let p = path_of c key in
      Writes-intro c key bytes now output disk _ o (dir-write faults now c key output disk) (λ q.
        rw w (
          IsKept-account faults (old_size_of faults p disk) (length bytes) c
            (insert p (record { content = bytes; mtime = now }) disk) q))
]

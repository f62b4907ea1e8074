-- ===== src/DiskCache/Outside.antt =====
-- internal/cache/cache.go: files outside the directory.
use ocifuse.Prelude.{
  ℕ, nonpositive, above, true, false, some, List, [], ◌∷◌, Bytes, bytes_eq, ◌==◌, length, ◌≡◌, refl,
  ap, ◌∙◌, inl, inr, Bool-cases, Option-cases, bytes_beq_iff, Result, arith,
}
use ocifuse.Prelude.Dict.{
  lookup, insert, delete, lookup-insert, lookup-delete, Unique, Unique-insert,
}
use ocifuse.DiskCache.{
  File, Disk, DiskCache, IoError, Faults, is_below, Candidate, path_of, evict_loop, evict, counted,
  old_size_of, account, write,
}
use ocifuse.DiskCache.Listed.{IsListed, IsListed-tail, IsListed-delete, sort-reached-IsListed}
use ocifuse.DiskCache.Writes.{IsAbandoned, write-cases}

differs : (dir p q : Bytes) → is_below dir p ≡ true → is_below dir q ≡ false → (q == p) ≡ false
differs dir p q b n = elim (Bool-cases (q == p)) [
  | inr f ↦ f
  | inl t ↦ absurd (ground (arith, b, n, ap (is_below dir) ((bytes_beq_iff q p).0 t)))
]

lookup-evict_loop_outside :
    (faults : Faults) (es : List Candidate) (c : DiskCache) (disk : Disk) (q : Bytes)
    → IsListed c.dir es disk
    → is_below c.dir q ≡ false
    → lookup q (evict_loop faults es c disk).1 ≡ lookup q disk
unfolding evict_loop
lookup-evict_loop_outside faults [] c disk q l n = refl
lookup-evict_loop_outside faults (e ∷ es) c disk q l n = elim (Bool-cases (above c.size c.cap)) [
  | inr f ↦ rw (f, evict_loop) refl
  | inl t ↦ elim (Bool-cases (faults.not_removed e.path)) [
    | inl stuck ↦
        rw (t, stuck, evict_loop)
          (lookup-evict_loop_outside faults es c disk q (IsListed-tail c.dir e es disk l) n)
    | inr gone ↦
        let (f, b, at, size) = l.stored.0 in
        let other = differs c.dir e.path q b n in
        rw (t, gone, evict_loop)
          (lookup-evict_loop_outside faults es _ (delete e.path disk) q
              (IsListed-delete c.dir e es disk l) n
            ∙ ground (arith, other, lookup-delete e.path q disk))
  ]
]

lookup-evict_outside :
    (faults : Faults) (c : DiskCache) (disk : Disk) (q : Bytes)
    → Unique disk
    → is_below c.dir q ≡ false
    → lookup q (evict faults c disk).1 ≡ lookup q disk
unfolding evict
lookup-evict_outside faults c disk q u n =
    lookup-evict_loop_outside faults _ c disk q (sort-reached-IsListed faults c.dir disk u) n

lookup-account_outside :
    (faults : Faults) (old_size new_size : ℕ) (c : DiskCache) (disk : Disk) (q : Bytes)
    → Unique disk
    → is_below c.dir q ≡ false
    → lookup q (account faults old_size new_size c disk).1.1 ≡ lookup q disk
lookup-account_outside faults old_size new_size c disk q u n =
    let c' = counted c new_size old_size in
    elim (Bool-cases (nonpositive c.cap)) [
      | inl p ↦ rw p refl
      | inr p ↦ elim (Option-cases faults.stat_after) [
        | inr (e, s) ↦ rw (p, s) refl
        | inl s ↦ elim (Bool-cases (above c'.size c'.cap)) [
          | inr f ↦ rw (p, s, f) refl
          | inl t ↦ rw (p, s, t) (lookup-evict_outside faults c' disk q u n)
        ]
      ]
    ]

-- os.CreateTemp makes the file in the directory that it is given.
abbrev pub TempBelow : Faults → Bytes → Type 0
TempBelow faults dir =
    (path bytes : Bytes) → faults.temp_not_removed ≡ some (path, bytes) → is_below dir path ≡ true

lookup-insert_outside :
    (dir p q : Bytes) (f : File) (disk : Disk)
    → is_below dir p ≡ true
    → is_below dir q ≡ false
    → lookup q (insert p f disk) ≡ lookup q disk
lookup-insert_outside dir p q f disk b n =
    ground
      (arith, lookup-insert p q f disk, bytes_beq_iff p q, bytes_beq_iff q p, differs dir p q b n)

lookup-abandoned_outside :
    (faults : Faults) (now : ℕ) (dir q : Bytes) (disk disk' : Disk)
    → TempBelow faults dir
    → is_below dir q ≡ false
    → IsAbandoned faults now disk disk'
    → lookup q disk' ≡ lookup q disk
lookup-abandoned_outside faults now dir q disk disk' t n (inl e) = ap (lookup q) e
lookup-abandoned_outside faults now dir q disk disk' t n (inr e) =
    ap (lookup q) e ∙ elim (Option-cases faults.temp_not_removed) [
      | inl h ↦ rw h refl
      | inr ((path, bytes), h) ↦ rw h (lookup-insert_outside dir path q _ disk (t path bytes h) n)
    ]

-- A write of a key below the directory, to a disk with no path twice, changes no file outside
-- the directory, whichever calls fail, if os.CreateTemp makes its file below the directory.
pub lookup-write_outside :
    (faults : Faults) (now : ℕ) (c : DiskCache) (key : Bytes) (output : Result IoError Bytes)
    (disk : Disk) (q : Bytes)
    → Unique disk
    → is_below c.dir (path_of c key) ≡ true
    → TempBelow faults c.dir
    → is_below c.dir q ≡ false
    → lookup q (write faults now c key output disk).1.1 ≡ lookup q disk
lookup-write_outside faults now c key output disk q u b t n =
    let p = path_of c key in
    elim (write-cases faults now c key output disk) [
      | inl (e, disk', w, left) ↦
          rw w (lookup-abandoned_outside faults now c.dir q disk disk' t n left)
      | inr (bytes, o, w) ↦
          let f : File = record { content = bytes; mtime = now } in
          rw w (
            lookup-account_outside faults (old_size_of faults p disk) (length bytes) c
              (insert p f disk) q (Unique-insert p f disk u) n
            ∙ lookup-insert_outside c.dir p q f disk b n)
    ]

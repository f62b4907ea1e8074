-- ===== src/DiskCache/RoundTrip.antt =====
-- internal/cache/cache.go: Write, then Open.
use mathlib.Core.Path.{subst}
use ocifuse.Prelude.{
  List, [], ◌∷◌, ℕ, suc, ◌≤◌, ◌<◌, pos, nonpositive, above, true, false, none, some, Bytes,
  bytes_eq, length, ◌≡◌, refl, sym, ap, ◌∙◌, inl, inr, Bool-cases, Option-cases, bytes_beq_iff,
  Result, ok, All, arith,
}
use ocifuse.Prelude.Dict.{lookup, insert, lookup-insert}
use ocifuse.DiskCache.{
  File, Disk, DiskCache, Faults, IoError, Candidate, evict_loop, evict, is_below, path_of,
  open_value, counted, old_size_of, account, write,
}
use ocifuse.DiskCache.Listed.{ListsAll}
use ocifuse.DiskCache.Accounts.{IsAccounted}
use ocifuse.DiskCache.Writes.{write-cases, settled_lem}
use ocifuse.DiskCache.Newest.{lookup-evict}

pub open_value-present :
    (faults : Faults) (now : ℕ) (c : DiskCache) (key : Bytes) (f : File) (disk : Disk)
    → lookup (path_of c key) disk ≡ some f
    → faults.open_file ≡ none
    → (open_value faults now c key disk).0 ≡ ok f.content
unfolding open_value
open_value-present faults now c key f disk e o = rw (e, o, open_value) refl

lookup-account :
    (faults : Faults) (now room : ℕ) (c : DiskCache) (p : Bytes) (f : File) (disk : Disk)
    → c.cap ≡ pos (suc room)
    → is_below c.dir p ≡ true
    → faults.stat_before ≡ false
    → ListsAll faults
    → ((q : Bytes) → faults.not_removed q ≡ false)
    → IsAccounted c disk
    → All (λ (qf : Bytes × File). qf.1.mtime < now) disk
    → f.mtime ≡ now
    → length f.content ≤ suc room
    → let out = account faults (old_size_of faults p disk) (length f.content) c (insert p f disk) in
      out.0 ≡ none → lookup p out.1.1 ≡ some f
lookup-account faults now room c p f disk cap b stat lists gone a old m n success =
    let c' = counted c (length f.content) (old_size_of faults p disk) in
    let bounded : nonpositive c.cap ≡ false = ap nonpositive cap in
    let there : lookup p (insert p f disk) ≡ some f =
      rw (lookup-insert p p f disk, (bytes_beq_iff p p).1 refl) refl in
    elim (Option-cases faults.stat_after) [
      | inr (e, s) ↦
          let fails : (account faults (old_size_of faults p disk) (length f.content) c
                (insert p f disk)).0
              ≡ some e =
            rw (bounded, s) refl in
          absurd (ground (arith, fails, success))
      | inl s ↦ elim (Bool-cases (above c'.size c'.cap)) [
        | inr f ↦ rw (bounded, s, f) there
        | inl t ↦
            rw (bounded, s, t)
              (lookup-evict p now (suc room) faults c' f disk cap
                (settled_lem faults p f c disk b stat a) b a.unique old m n lists gone)
      ]
    ]

-- A value that is no larger than a positive limit and was written without an error, below the
-- directory of a cache whose tracked size was exact, to a disk whose files are all older, is
-- what opening its key finds if os.Open does not fail: eviction does not take it, if os.Remove
-- and the first os.Stat do not fail and the walk of eviction lists all files.
pub open_value-write :
    (faults later : Faults) (now then_ room : ℕ) (c : DiskCache) (key bytes : Bytes) (disk : Disk)
    → c.cap ≡ pos (suc room)
    → is_below c.dir (path_of c key) ≡ true
    → faults.stat_before ≡ false
    → ListsAll faults
    → ((q : Bytes) → faults.not_removed q ≡ false)
    → IsAccounted c disk
    → All (λ (qf : Bytes × File). qf.1.mtime < now) disk
    → length bytes ≤ suc room
    → (write faults now c key (ok bytes) disk).0 ≡ none
    → later.open_file ≡ none
    → (open_value later then_ c key (write faults now c key (ok bytes) disk).1.1).0 ≡ ok bytes
open_value-write faults later now then_ room c key bytes disk cap b stat lists gone a old n success
      opens =
    elim (write-cases faults now c key (ok bytes) disk) [
      | inl (e, disk', w, left) ↦ absurd (ground (arith, w, success))
      | inr (bytes', same, w) ↦
          let f : File = record { content = bytes'; mtime = now } in
          let equal : bytes ≡ bytes' = ground (arith, same) in
          let fits : length bytes' ≤ suc room = subst (λ b. length b ≤ suc room) equal n in
          let there =
            ap (λ r. lookup (path_of c key) r.1.1) w
            ∙ lookup-account faults now room c (path_of c key) f disk cap b stat lists gone a old
                refl fits (sym (ap (λ r. r.0) w) ∙ success) in
          open_value-present later then_ c key f _ there opens ∙ sym same
    ]

dir-evict_loop :
    (faults : Faults) (es : List Candidate) (c : DiskCache) (disk : Disk)
    → (evict_loop faults es c disk).0.dir ≡ c.dir
unfolding evict_loop
dir-evict_loop faults [] c disk = refl
dir-evict_loop faults (e ∷ es) c disk = elim (Bool-cases (above c.size c.cap)) [
  | inr f ↦ rw (f, evict_loop) refl
  | inl t ↦ elim (Bool-cases (faults.not_removed e.path)) [
    | inl stuck ↦ rw (t, stuck, evict_loop) (dir-evict_loop faults es c disk)
    | inr gone ↦ rw (t, gone, evict_loop) (dir-evict_loop faults es _ _)
  ]
]

dir-account :
    (faults : Faults) (old_size new_size : ℕ) (c : DiskCache) (disk : Disk)
    → (account faults old_size new_size c disk).1.0.dir ≡ c.dir
unfolding evict
dir-account faults old_size new_size c disk = elim (Bool-cases (nonpositive c.cap)) [
  | inl p ↦ rw p refl
  | inr p ↦ elim (Option-cases faults.stat_after) [
    | inr (e, s) ↦ rw (p, s) refl
    | inl s ↦ elim (Bool-cases (above (counted c new_size old_size).size c.cap)) [
      | inr f ↦ rw (p, s, f) refl
      | inl t ↦ rw (p, s, t) (dir-evict_loop faults _ (counted c new_size old_size) disk)
    ]
  ]
]

pub dir-write :
    (faults : Faults) (now : ℕ) (c : DiskCache) (key : Bytes) (output : Result IoError Bytes)
    (disk : Disk)
    → (write faults now c key output disk).1.0.dir ≡ c.dir
dir-write faults now c key output disk = elim (write-cases faults now c key output disk) [
  | inl (e, disk', w, left) ↦ rw w refl
  | inr (bytes, o, w) ↦
      rw w (dir-account faults (old_size_of faults (path_of c key) disk) (length bytes) c _)
]

open_value-dir :
    (faults : Faults) (now : ℕ) (c d : DiskCache) (key : Bytes) (disk : Disk)
    → c.dir ≡ d.dir
    → (open_value faults now c key disk).0 ≡ (open_value faults now d key disk).0
unfolding open_value
open_value-dir faults now c d key disk e =
    ap
      (λ dir. (open_value faults now (record { dir = dir; cap = c.cap; size = c.size }) key disk).0)
      e

-- With the cache that the write leaves, too.
pub open_value-write_after :
    (faults later : Faults) (now then_ : ℕ) (c : DiskCache) (key bytes : Bytes) (disk : Disk)
    → (open_value later then_ c key (write faults now c key (ok bytes) disk).1.1).0 ≡ ok bytes
    → let out = (write faults now c key (ok bytes) disk).1 in
      (open_value later then_ out.0 key out.1).0 ≡ ok bytes
open_value-write_after faults later now then_ c key bytes disk h =
    open_value-dir later then_ _ c key _ (dir-write faults now c key (ok bytes) disk) ∙ h

-- ===== src/DiskCache/Steps.antt =====
-- internal/cache/cache.go: the tracked size, call after call.
use ocifuse.Prelude.{
  ℕ, nonpositive, above, true, false, none, some, Bytes, bytes_eq, length, ◌≡◌, refl, ap, ◌∙◌, inl,
  inr, Bool-cases, Option-cases, Result, arith, pos,
}
use ocifuse.Prelude.Dict.{lookup, insert, Unique-insert}
use ocifuse.DiskCache.{
  File, Disk, DiskCache, Faults, IoError, is_below, total_below, path_of, open_value, counted,
  account, old_size_of, write,
}
use ocifuse.DiskCache.Totals.{size_at, total_below-insert}
use ocifuse.DiskCache.Accounts.{IsAccounted, cap-evict}
use ocifuse.DiskCache.Writes.{write-cases, write-IsAccounted}

-- A call of Write or of Open for a key below the directory: from the cache and the disk before it
-- to those after it. For Write, os.Stat does not fail, nor os.Remove for the temporary file.
pub data Step : DiskCache → Disk → DiskCache → Disk → Type 0 where
  wrote :
      {c : DiskCache} {disk : Disk} (faults : Faults) (now : ℕ) (key : Bytes)
      (output : Result IoError Bytes)
      → is_below c.dir (path_of c key) ≡ true
      → faults.stat_before ≡ false
      → faults.stat_after ≡ none
      → faults.temp_not_removed ≡ none
      → Step c disk
          (write faults now c key output disk).1.0
          (write faults now c key output disk).1.1
  opened :
      {c : DiskCache} {disk : Disk} (faults : Faults) (now : ℕ) (key : Bytes)
      → is_below c.dir (path_of c key) ≡ true
      → Step c disk c (open_value faults now c key disk).1

cap-account :
    (faults : Faults) (old_size new_size : ℕ) (c : DiskCache) (disk : Disk)
    → (account faults old_size new_size c disk).1.0.cap ≡ c.cap
cap-account faults old_size new_size c disk = elim (Bool-cases (nonpositive c.cap)) [
  | inl p ↦ rw p refl
  | inr p ↦ elim (Option-cases faults.stat_after) [
    | inr (e, s) ↦ rw (p, s) refl
    | inl s ↦ elim (Bool-cases (above (counted c new_size old_size).size c.cap)) [
      | inr f ↦ rw (p, s, f) refl
      | inl t ↦ rw (p, s, t) (cap-evict faults (counted c new_size old_size) disk)
    ]
  ]
]

cap-write :
    (faults : Faults) (now : ℕ) (c : DiskCache) (key : Bytes) (output : Result IoError Bytes)
    (disk : Disk)
    → (write faults now c key output disk).1.0.cap ≡ c.cap
cap-write faults now c key output disk = elim (write-cases faults now c key output disk) [
  | inl (e, disk', w, left) ↦ rw w refl
  | inr (bytes, o, w) ↦
      rw w (cap-account faults (old_size_of faults (path_of c key) disk) (length bytes) c _)
]

-- A file with another time is as large as it was.
touched-IsAccounted :
    (c : DiskCache) (p : Bytes) (f : File) (now : ℕ) (disk : Disk)
    → is_below c.dir p ≡ true
    → lookup p disk ≡ some f
    → IsAccounted c disk
    → IsAccounted c (insert p (record f { mtime = now }) disk)
touched-IsAccounted c p f now disk b there a =
    let touched : File = record f { mtime = now } in
    let held : size_at p disk ≡ length f.content = rw (there, size_at) refl in
    let same : total_below c.dir disk ≡ total_below c.dir (insert p touched disk) =
      omega (arith, total_below-insert c.dir p touched disk b, held) in
    record { unique = Unique-insert p touched disk a.unique; exact = a.exact ∙ ap pos same }

open_value-IsAccounted :
    (faults : Faults) (now : ℕ) (c : DiskCache) (key : Bytes) (disk : Disk)
    → is_below c.dir (path_of c key) ≡ true
    → IsAccounted c disk
    → IsAccounted c (open_value faults now c key disk).1
unfolding open_value
open_value-IsAccounted faults now c key disk b a =
    elim (Option-cases (lookup (path_of c key) disk)) [
      | inl e ↦ rw (e, open_value) a
      | inr (f, e) ↦ elim (Option-cases faults.open_file) [
        | inr (x, o) ↦ rw (e, o, open_value) a
        | inl o ↦ elim (Bool-cases faults.chtimes) [
          | inl t ↦ rw (e, o, t, open_value) a
          | inr n ↦
              rw (e, o, n, open_value) (touched-IsAccounted c (path_of c key) f now disk b e a)
        ]
      ]
    ]

pub cap-Step :
    {c : DiskCache} {disk : Disk} {c' : DiskCache} {disk' : Disk}
    → Step c disk c' disk'
    → c'.cap ≡ c.cap
cap-Step {c = c} {disk = disk} (wrote faults now key output b before after clear) =
    cap-write faults now c key output disk
cap-Step (opened faults now key b) = refl

pub IsAccounted-Step :
    {c : DiskCache} {disk : Disk} {c' : DiskCache} {disk' : Disk}
    → Step c disk c' disk'
    → nonpositive c.cap ≡ false
    → IsAccounted c disk
    → IsAccounted c' disk'
IsAccounted-Step {c = c} {disk = disk} (wrote faults now key output b before after clear) p a =
    write-IsAccounted faults now c key output disk p b before after clear a
IsAccounted-Step {c = c} {disk = disk} (opened faults now key b) p a =
    open_value-IsAccounted faults now c key disk b a

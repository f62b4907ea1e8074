-- ===== src/DiskCache/Writes.antt =====
-- internal/cache/cache.go: Write, its outcomes and the tracked size.
use mathlib.Core.Path.{subst}
use ocifuse.Prelude.{
  ℕ, ◌+◌, ℤ, pos, nonpositive, add_nat, sub_nat, above, true, false, none, some, Bytes, bytes_eq,
  length, ◌≡◌, refl, sym, ap, ◌∙◌, ◌⊎◌, inl, inr, Bool-cases, Option-cases, Result, Result-cases,
  ok, arith,
}
use ocifuse.Prelude.Dict.{lookup, insert, Unique-insert}
use ocifuse.DiskCache.{
  File, Disk, DiskCache, IoError, Faults, is_below, total_below, path_of, evict, counted,
  old_size_of, account, abandoned, write,
}
use ocifuse.DiskCache.Totals.{size_at, total_below-insert}
use ocifuse.DiskCache.Listed.{ListsAll}
use ocifuse.DiskCache.Accounts.{IsAccounted, evict-IsAccounted, evict_within, cap-evict}

-- The size is exact, and not over the limit.
pub record IsBounded (c : DiskCache) (disk : Disk) : Type 0 where
  pub accounted : IsAccounted c disk
  pub within : above c.size c.cap ≡ false

counted-exact : (z : ℤ) (t n o u : ℕ) → z ≡ pos t → u + o ≡ t + n → sub_nat (add_nat z n) o ≡ pos u
counted-exact z t n o u h e = ap (λ z. sub_nat (add_nat z n) o) h ∙ ground (arith, e)

counted-IsAccounted :
    (c : DiskCache) (p : Bytes) (f : File) (disk : Disk)
    → is_below c.dir p ≡ true
    → IsAccounted c disk
    → IsAccounted (counted c (length f.content) (size_at p disk)) (insert p f disk)
counted-IsAccounted c p f disk b a = record {
  unique = Unique-insert p f disk a.unique;
  exact =
      counted-exact c.size (total_below c.dir disk) (length f.content) (size_at p disk) _ a.exact
        (total_below-insert c.dir p f disk b);
}

old_size_of_lem :
    (faults : Faults) (p : Bytes) (disk : Disk)
    → faults.stat_before ≡ false
    → old_size_of faults p disk ≡ size_at p disk
old_size_of_lem faults p disk h = elim (Option-cases (lookup p disk)) [
  | inl n ↦ rw (n, old_size_of, size_at) refl
  | inr (f, e) ↦ rw (e, h, old_size_of, size_at) refl
]

-- What a write leaves if it gets as far as the new file: `done` or `over`.
account_lem :
    (faults : Faults) (old_size new_size : ℕ) (c : DiskCache) (disk : Disk)
    → nonpositive c.cap ≡ false
    → faults.stat_after ≡ none
    → IsAccounted (counted c new_size old_size) disk
    → IsAccounted
        (account faults old_size new_size c disk).1.0
        (account faults old_size new_size c disk).1.1
account_lem faults old_size new_size c disk p stat a =
    let c' = counted c new_size old_size in
    elim (Bool-cases (above c'.size c'.cap)) [
      | inl t ↦ rw (p, stat, t) (evict-IsAccounted faults c' disk a)
      | inr f ↦ rw (p, stat, f) a
    ]

account_within :
    (faults : Faults) (old_size new_size : ℕ) (c : DiskCache) (disk : Disk)
    → nonpositive c.cap ≡ false
    → faults.stat_after ≡ none
    → ListsAll faults
    → ((q : Bytes) → faults.not_removed q ≡ false)
    → IsAccounted (counted c new_size old_size) disk
    → let out = (account faults old_size new_size c disk).1.0 in above out.size out.cap ≡ false
account_within faults old_size new_size c disk p stat lists gone a =
    let c' = counted c new_size old_size in
    elim (Bool-cases (above c'.size c'.cap)) [
      | inl t ↦
          rw (p, stat, t)
            (ap (above (evict faults c' disk).0.size) (cap-evict faults c' disk)
              ∙ evict_within faults c' disk a lists gone p)
      | inr f ↦ rw (p, stat, f) f
    ]

-- Nothing has changed, but for a temporary file that could not be removed.
abbrev pub IsAbandoned : Faults → ℕ → Disk → Disk → Type 0
IsAbandoned faults now disk disk' = (disk' ≡ disk) ⊎ (disk' ≡ abandoned faults now disk)

-- A write either reports an error, or puts the new file in place and settles the accounts.
pub write-cases :
    (faults : Faults) (now : ℕ) (c : DiskCache) (key : Bytes) (output : Result IoError Bytes)
    (disk : Disk)
    → ((e : IoError) × (disk' : Disk) × (write faults now c key output disk ≡ (some e, (c, disk')))
        × IsAbandoned faults now disk disk')
      ⊎ ((bytes : Bytes) × (output ≡ ok bytes)
          × (write faults now c key output disk
              ≡ account faults
                  (old_size_of faults (path_of c key) disk)
                  (length bytes)
                  c
                  (insert (path_of c key) (record { content = bytes; mtime = now }) disk)))
unfolding write
write-cases faults now c key output disk = elim (Option-cases faults.mkdir) [
  | inr (e, m) ↦ inl (e, disk, rw (m, write) refl, inl refl)
  | inl m ↦ elim (Option-cases faults.create_temp) [
    | inr (e, t) ↦ inl (e, disk, rw (m, t, write) refl, inl refl)
    | inl t ↦ elim (Result-cases output) [
      | inl (e, o) ↦ inl (e, _, rw (m, t, o, write) refl, inr refl)
      | inr (bytes, o) ↦ elim (Option-cases faults.close) [
        | inr (e, k) ↦ inl (e, _, rw (m, t, o, k, write) refl, inr refl)
        | inl k ↦ elim (Option-cases faults.rename) [
          | inr (e, r) ↦ inl (e, _, rw (m, t, o, k, r, write) refl, inr refl)
          | inl r ↦ inr (bytes, o, rw (m, t, o, k, r, write) refl)
        ]
      ]
    ]
  ]
]

pub settled_lem :
    (faults : Faults) (p : Bytes) (f : File) (c : DiskCache) (disk : Disk)
    → is_below c.dir p ≡ true
    → faults.stat_before ≡ false
    → IsAccounted c disk
    → IsAccounted (counted c (length f.content) (old_size_of faults p disk)) (insert p f disk)
settled_lem faults p f c disk b stat a =
    subst (λ o. IsAccounted (counted c (length f.content) o) (insert p f disk))
      (sym (old_size_of_lem faults p disk stat)) (counted-IsAccounted c p f disk b a)

removed-disk :
    (faults : Faults) (now : ℕ) (disk disk' : Disk)
    → faults.temp_not_removed ≡ none
    → IsAbandoned faults now disk disk'
    → disk' ≡ disk
removed-disk faults now disk disk' n (inl e) = e
removed-disk faults now disk disk' n (inr e) = e ∙ rw n refl

-- With a positive limit and a key whose path is below the directory, a write keeps the tracked
-- size the sum of the files below the directory, if it was so before, os.Stat does not fail,
-- and os.Remove does not fail for the temporary file; eviction may miss some files, and may be
-- unable to remove some.
pub write-IsAccounted :
    (faults : Faults) (now : ℕ) (c : DiskCache) (key : Bytes) (output : Result IoError Bytes)
    (disk : Disk)
    → nonpositive c.cap ≡ false
    → is_below c.dir (path_of c key) ≡ true
    → faults.stat_before ≡ false
    → faults.stat_after ≡ none
    → faults.temp_not_removed ≡ none
    → IsAccounted c disk
    → let out = (write faults now c key output disk).1 in IsAccounted out.0 out.1
write-IsAccounted faults now c key output disk p b before after clear a =
    elim (write-cases faults now c key output disk) [
      | inl (e, disk', w, left) ↦
          rw w (subst (IsAccounted c) (sym (removed-disk faults now disk disk' clear left)) a)
      | inr (bytes, o, w) ↦ rw w (
          account_lem faults (old_size_of faults (path_of c key) disk) (length bytes) c _ p after (
            settled_lem faults (path_of c key) (record { content = bytes; mtime = now }) c disk b
              before a))
    ]

-- With a positive limit and a key whose path is below the directory, a write keeps the tracked
-- size the sum of the files below the directory, and not over the limit, if it was so before,
-- if os.Stat and os.Remove do not fail, and if the walk of eviction lists all files; the write
-- may fail at any other call.
pub write-IsBounded :
    (faults : Faults) (now : ℕ) (c : DiskCache) (key : Bytes) (output : Result IoError Bytes)
    (disk : Disk)
    → nonpositive c.cap ≡ false
    → is_below c.dir (path_of c key) ≡ true
    → faults.stat_before ≡ false
    → faults.stat_after ≡ none
    → faults.temp_not_removed ≡ none
    → ListsAll faults
    → ((q : Bytes) → faults.not_removed q ≡ false)
    → IsBounded c disk
    → let out = (write faults now c key output disk).1 in IsBounded out.0 out.1
write-IsBounded faults now c key output disk p b before after clear lists gone v = record {
  accounted = write-IsAccounted faults now c key output disk p b before after clear v.accounted;
  within = elim (write-cases faults now c key output disk) [
    | inl (e, disk', w, left) ↦ rw w v.within
    | inr (bytes, o, w) ↦ rw w (
        account_within faults (old_size_of faults (path_of c key) disk) (length bytes) c _ p after
          lists gone
          (settled_lem faults (path_of c key) (record { content = bytes; mtime = now }) c disk b
            before v.accounted))
  ];
}

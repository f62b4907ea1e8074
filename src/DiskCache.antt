-- ===== src/DiskCache.antt =====
-- internal/cache/cache.go: values in files below a directory, the least recently used of which are
-- removed once their total size is over a limit. The disk is a map from paths to files, with the
-- outcome of each call of package `os` that can fail given by the faults of the run. Directories
-- are left out: they hold no bytes.
pub mod Totals
pub mod Listed
pub mod Accounts
pub mod Writes
pub mod Newest
pub mod RoundTrip
pub mod Outside
pub mod Oldest
pub mod Kept
pub mod Steps
use ocifuse.Prelude.{
  ◌||◌, codes, ◌==◌, ℕ, zero, suc, ◌+◌, ◌-◌, ℤ, pos, negsuc, nonpositive, add_nat, sub_nat, above,
  Bool, true, false, not, Option, none, some, List, [], ◌∷◌, ◌++◌, Bytes, bytes_eq, length, ltb,
  if◌then◌else◌, Result, ok, err,
}
use ocifuse.Prelude.Dict.{Dict, lookup, insert, delete, has}
use ocifuse.Prelude.Sort.{sort}
use ocifuse.Strings.{has_prefix}
use ocifuse.SlashPath.{slash, root, clean, path_join}

pub record File : Type 0 where
  pub content : Bytes
  pub mtime : ℕ

abbrev pub Disk : Type 0
Disk = Dict Bytes File

pub record DiskCache : Type 0 where
  pub dir : Bytes
  pub cap : ℤ
  pub size : ℤ

pub data IoError : Type 0 where
  not_exist : IoError
  io_failed : ℕ → IoError

-- The calls that fail, by the error. `not_listed` are the files that the walk of evict misses, since
-- os.Lstat fails for them or a directory above them cannot be read; `not_removed` are the paths that
-- os.Remove fails for in evict. If it fails for the temporary file of a write that fails, the path
-- that os.CreateTemp chose and the bytes that are there stand in `temp_not_removed`.
pub record Faults : Type 0 where
  pub mkdir : Option IoError
  pub walk : Option IoError
  pub open_file : Option IoError
  pub chtimes : Bool
  pub stat_before : Bool
  pub create_temp : Option IoError
  pub close : Option IoError
  pub rename : Option IoError
  pub stat_after : Option IoError
  pub not_listed : Bytes → Bool
  pub not_removed : Bytes → Bool
  pub temp_not_removed : Option (Bytes × Bytes)

-- The file is below the directory. filepath.Walk joins names to the path that it is given, and so
-- cleans it. The directory is no symbolic link.
abbrev pub is_below : Bytes → Bytes → Bool
is_below dir path =
    let d = clean dir in
    if d == root
    then has_prefix path root
    else if d == codes "."
    then not (has_prefix path root || path == codes ".." || has_prefix path (codes "../"))
    else has_prefix path (d ++ slash ∷ [])

unfoldable pub total_below : Bytes → Disk → ℕ
total_below dir [] = 0
total_below dir ((path, f) ∷ disk) =
    let rest = total_below dir disk in if is_below dir path then length f.content + rest else rest

unfoldable pub rescan : Faults → DiskCache → Disk → Result IoError DiskCache
unfolding total_below
rescan faults c disk = elim faults.walk [
  | some e ↦ err e
  | none ↦ ok (record c { size = pos (total_below c.dir disk) })
]

unfoldable pub new : Faults → Bytes → ℤ → Disk → Result IoError DiskCache
unfolding rescan
new faults dir max_bytes disk = elim faults.mkdir [
  | some e ↦ err e
  | none ↦
      let c : DiskCache = record { dir = dir; cap = max_bytes; size = pos 0 } in
      if nonpositive max_bytes then ok c else rescan faults c disk
]

abbrev pub path_of : DiskCache → Bytes → Bytes
path_of c key = path_join (c.dir ∷ key ∷ [])

-- The file is opened, and read later; its time is set to `now` if that can be done.
unfoldable pub open_value : Faults → ℕ → DiskCache → Bytes → Disk → Result IoError Bytes × Disk
open_value faults now c key disk = elim (lookup (path_of c key) disk) [
  | none ↦ (err not_exist, disk)
  | some f ↦ elim faults.open_file [
    | some e ↦ (err e, disk)
    | none ↦
        let touched = insert (path_of c key) (record f { mtime = now }) disk in
        (ok f.content, if faults.chtimes then disk else touched)
  ]
]

unfoldable pub has_value : DiskCache → Bytes → Disk → Bool
has_value c key disk = has (path_of c key) disk

pub record Candidate : Type 0 where
  pub path : Bytes
  pub size : ℕ
  pub mtime : ℕ

-- The files that the walk of `evict` has to visit.
unfoldable pub candidates : Bytes → Disk → List Candidate
candidates dir [] = []
candidates dir ((path, f) ∷ disk) =
    let rest = candidates dir disk in
    if is_below dir path
    then record { path = path; size = length f.content; mtime = f.mtime } ∷ rest
    else rest

-- Those that it lists; errors are skipped.
unfoldable pub reached : Faults → List Candidate → List Candidate
reached faults [] = []
reached faults (e ∷ es) =
    let rest = reached faults es in if faults.not_listed e.path then rest else e ∷ rest

abbrev pub before : Candidate → Candidate → Bool
before a b = ltb a.mtime b.mtime

unfoldable pub evict_loop : Faults → List Candidate → DiskCache → Disk → DiskCache × Disk
evict_loop faults [] c disk = (c, disk)
evict_loop faults (e ∷ es) c disk = elim (above c.size c.cap) [
  | false ↦ (c, disk)
  | true ↦ elim (faults.not_removed e.path) [
    | true ↦ evict_loop faults es c disk
    | false ↦ evict_loop faults es (record c { size = sub_nat c.size e.size }) (delete e.path disk)
  ]
]

unfoldable pub evict : Faults → DiskCache → Disk → DiskCache × Disk
evict faults c disk =
    evict_loop faults (sort before (reached faults (candidates c.dir disk))) c disk

-- c.size += newSize - oldSize
abbrev pub counted : DiskCache → ℕ → ℕ → DiskCache
counted c new_size old_size = record c { size = sub_nat (add_nat c.size new_size) old_size }

-- The size of the file that will be replaced; 0 if os.Stat fails.
abbrev pub old_size_of : Faults → Bytes → Disk → ℕ
old_size_of faults p disk = elim (lookup p disk) [
  | none ↦ 0
  | some f ↦ if faults.stat_before then 0 else length f.content
]

-- After the rename.
abbrev pub account : Faults → ℕ → ℕ → DiskCache → Disk → Option IoError × (DiskCache × Disk)
account faults old_size new_size c disk =
    if nonpositive c.cap then (none, (c, disk)) else elim faults.stat_after [
      | some e ↦ (some e, (c, disk))
      | none ↦
          let c' = counted c new_size old_size in
          if above c'.size c'.cap then (none, evict faults c' disk) else (none, (c', disk))
    ]

-- The deferred removal of the temporary file, which a failed write leaves there.
abbrev pub abandoned : Faults → ℕ → Disk → Disk
abandoned faults now disk = elim faults.temp_not_removed [
  | none ↦ disk
  | some (path, bytes) ↦ insert path (record { content = bytes; mtime = now }) disk
]

-- `output` is what the callback writes, or its error.
unfoldable pub write :
    Faults
    → ℕ
    → DiskCache
    → Bytes
    → Result IoError Bytes
    → Disk
    → Option IoError × (DiskCache × Disk)
write faults now c key output disk =
    let p = path_of c key in
    let old_size = old_size_of faults p disk in
    elim faults.mkdir [
      | some e ↦ (some e, (c, disk))
      | none ↦ elim faults.create_temp [
        | some e ↦ (some e, (c, disk))
        | none ↦ elim output [
          | err e ↦ (some e, (c, abandoned faults now disk))
          | ok bytes ↦ elim faults.close [
            | some e ↦ (some e, (c, abandoned faults now disk))
            | none ↦ elim faults.rename [
              | some e ↦ (some e, (c, abandoned faults now disk))
              | none ↦
                  let written : File = record { content = bytes; mtime = now } in
                  account faults old_size (length bytes) c (insert p written disk)
            ]
          ]
        ]
      ]
    ]

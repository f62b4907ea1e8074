-- ===== src/Indexer/Files.antt =====
-- internal/layer/layer.go: the files of the cache that are read for a layer.
use ocifuse.Prelude.{
  ◌≡◌, inl, inr, refl, ap, ◌∙◌, true, none, some, Option, Bytes, bytes_eq, ◌==◌, Result, ok, err,
  arith, Option-cases, Bool-cases,
}
use ocifuse.Prelude.Dict.{lookup, has, is_some, lookup-insert}
use ocifuse.DiskCache.{File, Disk, DiskCache, IoError, has_value, path_of, open_value}
use ocifuse.DiskCache.RoundTrip.{open_value-present}
use ocifuse.Indexer.{Moment, open_at, read_all}
use ocifuse.Indexer.Stored.{Holds}

pub Holds-has :
    (c : DiskCache) (k : Bytes) (disk : Disk) (bytes : Bytes)
    → Holds c k disk bytes
    → has_value c k disk ≡ true
unfolding has_value has
Holds-has c k disk bytes (f, at, content) = ap is_some at

pub open_at-Holds :
    (m : Moment) (c : DiskCache) (k : Bytes) (disk : Disk) (bytes : Bytes)
    → m.faults.open_file ≡ none
    → Holds c k disk bytes
    → (open_at m c k disk).0 ≡ ok bytes
open_at-Holds m c k disk bytes opens (f, at, content) =
    open_value-present m.faults m.now c k f disk at opens ∙ ap ok content

-- What a call of Open leaves at a path has the content that it had.
open_at-keeps :
    (m : Moment) (c : DiskCache) (k q : Bytes) (disk : Disk) (f : File)
    → lookup q disk ≡ some f
    → (g : File) × (lookup q (open_at m c k disk).1 ≡ some g) × (g.content ≡ f.content)
unfolding open_value
open_at-keeps m c k q disk f at = elim (Option-cases (lookup (path_of c k) disk)) [
  | inl e ↦ (f, rw (e, open_value) at, refl)
  | inr (h, e) ↦ elim (Option-cases m.faults.open_file) [
    | inr (x, o) ↦ (f, rw (e, o, open_value) at, refl)
    | inl o ↦ elim (Bool-cases m.faults.chtimes) [
      | inl t ↦ (f, rw (e, o, t, open_value) at, refl)
      | inr n ↦ elim (Bool-cases (path_of c k == q)) [
        | inr d ↦
            (f, rw (e, o, n, open_value) (lookup-insert (path_of c k) q _ disk ∙ rw d at), refl)
        | inl s ↦ (
          record h { mtime = m.now },
          rw (e, o, n, open_value) (lookup-insert (path_of c k) q _ disk ∙ rw s refl),
          ground (arith, e, at, (bytes_eq.equal_iff (path_of c k) q).0 s),
        )
      ]
    ]
  ]
]

pub Holds-open_at :
    (m : Moment) (c : DiskCache) (k other : Bytes) (disk : Disk) (bytes : Bytes)
    → Holds c other disk bytes
    → Holds c other (open_at m c k disk).1 bytes
Holds-open_at m c k other disk bytes (f, at, content) =
    let (g, there, same) = open_at-keeps m c k (path_of c other) disk f at in
    (g, there, same ∙ content)

-- What Open returned is in the file.
pub Holds-opened :
    (m : Moment) (c : DiskCache) (k : Bytes) (disk : Disk) (bytes : Bytes)
    → (open_at m c k disk).0 ≡ ok bytes
    → Holds c k disk bytes
unfolding open_value
Holds-opened m c k disk bytes h = elim (Option-cases (lookup (path_of c k) disk)) [
  | inl e ↦ absurd (ground (arith, e, h))
  | inr (f, e) ↦ elim (Option-cases m.faults.open_file) [
    | inr (x, o) ↦ absurd (ground (arith, e, o, h))
    | inl o ↦ (f, e, ground (arith, e, o, h))
  ]
]

pub read_all-ok :
    (fails : Option IoError) (r : Result IoError Bytes × Disk) (bytes : Bytes)
    → fails ≡ none
    → r.0 ≡ ok bytes
    → (read_all fails r).0 ≡ ok bytes
read_all-ok none (err e, disk) bytes n h = h
read_all-ok none (ok b, disk) bytes n h = h
read_all-ok (some e) r bytes n h = cc

pub read_all-disk :
    (fails : Option IoError) (r : Result IoError Bytes × Disk) → (read_all fails r).1 ≡ r.1
read_all-disk none (err e, disk) = refl
read_all-disk none (ok b, disk) = refl
read_all-disk (some e) (err x, disk) = refl
read_all-disk (some e) (ok b, disk) = refl

pub read_all-from :
    (fails : Option IoError) (r : Result IoError Bytes × Disk) (bytes : Bytes)
    → (read_all fails r).0 ≡ ok bytes
    → r.0 ≡ ok bytes
read_all-from none (err e, disk) bytes h = h
read_all-from none (ok b, disk) bytes h = h
read_all-from (some e) (err x, disk) bytes h = h
read_all-from (some e) (ok b, disk) bytes h = cc

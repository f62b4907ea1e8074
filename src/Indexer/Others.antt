-- ===== src/Indexer/Others.antt =====
-- internal/layer/layer.go: what Open leaves in the files of other layers.
use mathlib.Core.Path.{subst}
use ocifuse.Prelude.{
  ℕ, ◌≡◌, inl, inr, refl, sym, ap, ◌∙◌, not, ◌||◌, false, none, some, Option, List, Bytes, bytes_eq,
  ◌==◌, Result, ok, err, arith, Bool-cases, Option-cases, Result-cases,
}
use ocifuse.Prelude.Dict.{lookup, insert, lookup-insert}
use ocifuse.DiskCache.{
  File, Disk, DiskCache, IoError, not_exist, io_failed, has_value, path_of, open_value,
}
use ocifuse.DiskCache.Kept.{HasWritten, Writes, write-Writes}
use ocifuse.Merge.{TarEntry}
use ocifuse.Oci.{Hash}
use ocifuse.Indexer.{
  Layer, Libraries, BlobReader, LayerError, Moment, Calls, gsip_key, toc_key, open_at, zr_cached,
  gsip_cached, load_cached,
}
use ocifuse.Indexer.Opening.{
  decoded, persisted, toc_persisted, toc_encoded, scanned, build_layer, found_cached,
}
use ocifuse.Indexer.Files.{read_all-disk}

-- The content that the path has is what it had.
abbrev pub IsFrom : Bytes → Disk → Disk → Type 0
IsFrom q before after =
    (g : File)
    → lookup q after ≡ some g
    → (f : File) × (lookup q before ≡ some f) × (f.content ≡ g.content)

IsFrom-same : (q : Bytes) (disk : Disk) → IsFrom q disk disk
IsFrom-same q disk g at = (g, at, refl)

pub IsFrom-trans : (q : Bytes) (a b c : Disk) → IsFrom q a b → IsFrom q b c → IsFrom q a c
IsFrom-trans q a b c h k g at =
    let (f, there, same) = k g at in let (e, before, equal) = h f there in (e, before, equal ∙ same)

insert-IsFrom :
    (p q : Bytes) (f : File) (disk : Disk) → (p == q) ≡ false → IsFrom q disk (insert p f disk)
insert-IsFrom p q f disk n g at =
    let e : lookup q (insert p f disk) ≡ lookup q disk = lookup-insert p q f disk ∙ rw n refl in
    (g, sym e ∙ at, refl)

touched-IsFrom :
    (p q : Bytes) (f : File) (now : ℕ) (disk : Disk)
    → lookup p disk ≡ some f
    → IsFrom q disk (insert p (record f { mtime = now }) disk)
touched-IsFrom p q f now disk there = elim (Bool-cases (p == q)) [
  | inr n ↦ insert-IsFrom p q _ disk n
  | inl t ↦ λ g at.
      let e : lookup q (insert p (record f { mtime = now }) disk)
          ≡ some (record f { mtime = now }) =
        lookup-insert p q _ disk ∙ rw t refl in
      (
        f,
        ap (λ x. lookup x disk) (sym ((bytes_eq.equal_iff p q).0 t)) ∙ there,
        ground (arith, e, at),
      )
]

open_at-IsFrom :
    (m : Moment) (c : DiskCache) (k q : Bytes) (disk : Disk) → IsFrom q disk (open_at m c k disk).1
unfolding open_value
open_at-IsFrom m c k q disk = elim (Option-cases (lookup (path_of c k) disk)) [
  | inl e ↦ rw (e, open_value) (IsFrom-same q disk)
  | inr (h, e) ↦ elim (Option-cases m.faults.open_file) [
    | inr (x, o) ↦ rw (e, o, open_value) (IsFrom-same q disk)
    | inl o ↦ elim (Bool-cases m.faults.chtimes) [
      | inl t ↦ rw (e, o, t, open_value) (IsFrom-same q disk)
      | inr n ↦ rw (e, o, n, open_value) (touched-IsFrom (path_of c k) q h m.now disk e)
    ]
  ]
]

written-IsFrom :
    (c c' : DiskCache) (key bytes q : Bytes) (disk disk' : Disk)
    → HasWritten c key bytes disk c' disk'
    → (path_of c key == q) ≡ false
    → IsFrom q disk disk'
written-IsFrom c c' key bytes q disk disk' w n g at = elim (w.kept q) [
  | inl e ↦ absurd (ground (arith, e, at))
  | inr e ↦ insert-IsFrom (path_of c key) q _ disk n g (sym e ∙ at)
]

-- The path is not that of an index of the layer.
abbrev pub IsOther : DiskCache → Hash → Bytes → Type 0
IsOther c d q = ((path_of c (gsip_key d) == q) ≡ false) × ((path_of c (toc_key d) == q) ≡ false)

module _ {L T Rd Zr Fs E : Type 0} (lib : Libraries L T Rd Zr Fs E) (d : Hash) (size : ℕ)
    (rra : BlobReader Rd) (q : Bytes) where
  zr_cached-IsFrom :
      (calls : Calls) (c : DiskCache) (disk : Disk) (r : Result E Zr)
      → IsFrom q disk (zr_cached lib calls c d disk r).1
  zr_cached-IsFrom calls c disk (err e) = IsFrom-same q disk
  zr_cached-IsFrom calls c disk (ok zr) =
      let opened = open_at calls.open_toc c (toc_key d) disk in
      subst (IsFrom q disk) (sym (read_all-disk calls.read_toc opened))
        (open_at-IsFrom calls.open_toc c (toc_key d) q disk)

  gsip_cached-IsFrom :
      (calls : Calls) (c : DiskCache) (before : Disk) (r : Result IoError Bytes × Disk)
      → IsFrom q before r.1
      → IsFrom q before (gsip_cached lib calls c rra size d r).1
  gsip_cached-IsFrom calls c before (err not_exist, disk) h = h
  gsip_cached-IsFrom calls c before (err (io_failed n), disk) h = h
  gsip_cached-IsFrom calls c before (ok gz, disk) h =
      IsFrom-trans q before disk _ h (zr_cached-IsFrom calls c disk (lib.decode_gsip rra size gz))

  load_cached-IsFrom :
      (calls : Calls) (c : DiskCache) (disk : Disk)
      → IsFrom q disk (load_cached lib calls c rra size d disk).1
  unfolding load_cached
  load_cached-IsFrom calls c disk =
      elim (Bool-cases
        (not (has_value c (gsip_key d) disk) || not (has_value c (toc_key d) disk))) [
          | inl t ↦ rw (t, load_cached) (IsFrom-same q disk)
          | inr f ↦
              rw (f, load_cached)
                (gsip_cached-IsFrom calls c disk (open_at calls.open_gsip c (gsip_key d) disk)
                  (open_at-IsFrom calls.open_gsip c (gsip_key d) q disk))
        ]

module _ {L T Rd Zr Fs E : Type 0} (lib : Libraries L T Rd Zr Fs E) (d : Hash) (size : ℕ)
    (rra : BlobReader Rd) where
  -- A layer that is returned leaves the cache at its directory, and at a path of no index of its
  -- own what was there, or nothing.
  abbrev pub Spares :
      DiskCache → Disk → Result (LayerError E) (Layer Fs) × (DiskCache × Disk) → Type 0
  Spares c disk (err e, s) = Unit
  Spares c disk (ok layer, (c', disk')) =
      (c'.dir ≡ c.dir) × ((q : Bytes) → IsOther c d q → IsFrom q disk disk')

  decoded-Spares :
      (c : DiskCache) (disk : Disk) (c' : DiskCache) (disk' : Disk) (entries : List TarEntry)
      (r : Result E Fs)
      → c'.dir ≡ c.dir
      → ((q : Bytes) → IsOther c d q → IsFrom q disk disk')
      → Spares c disk (decoded lib d size entries r, (c', disk'))
  decoded-Spares c disk c' disk' entries (err e) a h = tt
  decoded-Spares c disk c' disk' entries (ok fs) a h = (a, h)

  persisted-Spares :
      (c0 c : DiskCache) (disk0 disk : Disk) (entries : List TarEntry) (zr : Zr) (toc : Bytes)
      (r : Option IoError × (DiskCache × Disk))
      → c.dir ≡ c0.dir
      → ((q : Bytes) → IsOther c0 d q → IsFrom q disk0 disk)
      → Writes c (gsip_key d) (lib.encode_gsip zr) disk r
      → Spares c0 disk0 (persisted lib d size entries zr toc r)
  persisted-Spares c0 c disk0 disk entries zr toc (some e, s) a h w = tt
  persisted-Spares c0 c disk0 disk entries zr toc (none, (c', disk')) a h (gz, encoded, w) =
      decoded-Spares c0 disk0 c' disk' entries (lib.decode_fs zr toc) (w.dir ∙ a) (λ q n.
        let other : (path_of c (gsip_key d) == q) ≡ false =
          ap (λ dir. path_of (record c { dir = dir }) (gsip_key d) == q) a ∙ n.0 in
        IsFrom-trans q disk0 disk disk' (h q n)
          (written-IsFrom c c' (gsip_key d) gz q disk disk' w other))

  toc_persisted-Spares :
      (calls : Calls) (c : DiskCache) (disk : Disk) (entries : List TarEntry) (zr : Zr)
      (toc : Bytes) (output : Result IoError Bytes) (r : Option IoError × (DiskCache × Disk))
      → Writes c (toc_key d) output disk r
      → Spares c disk (toc_persisted lib calls d size entries zr toc r)
  toc_persisted-Spares calls c disk entries zr toc output (some e, s) w = tt
  toc_persisted-Spares calls c disk entries zr toc output (none, (c', disk')) (bytes, same, w) =
      persisted-Spares c c' disk disk' entries zr toc _ w.dir
        (λ q n. written-IsFrom c c' (toc_key d) bytes q disk disk' w n.1)
        (write-Writes calls.write_gsip.faults calls.write_gsip.now c' (gsip_key d)
          (lib.encode_gsip zr) disk')

  toc_encoded-Spares :
      (calls : Calls) (c : DiskCache) (disk : Disk) (entries : List TarEntry) (zr : Zr)
      (r : Result E Bytes)
      → Spares c disk (toc_encoded lib calls d size entries zr (c, disk) r)
  toc_encoded-Spares calls c disk entries zr (err e) = tt
  toc_encoded-Spares calls c disk entries zr (ok toc) =
      toc_persisted-Spares calls c disk entries zr toc (ok toc) _
        (write-Writes calls.write_toc.faults calls.write_toc.now c (toc_key d) (ok toc) disk)

  scanned-Spares :
      (calls : Calls) (c : DiskCache) (disk : Disk) (r : Result E (List TarEntry) × Zr)
      → Spares c disk (scanned lib calls d size (c, disk) r)
  scanned-Spares calls c disk (err e, zr) = tt
  scanned-Spares calls c disk (ok entries, zr) =
      toc_encoded-Spares calls c disk entries zr (lib.encode_toc entries)

  build_layer-Spares :
      (calls : Calls) (c : DiskCache) (disk : Disk)
      → Spares c disk (build_layer lib calls d size rra (c, disk))
  unfolding build_layer
  build_layer-Spares calls c disk = elim (Result-cases (lib.new_reader rra size)) [
    | inl (e, r) ↦ rw (r, build_layer) tt
    | inr (zr, r) ↦ rw (r, build_layer) (scanned-Spares calls c disk (lib.index_tar zr))
  ]

  Spares-before :
      (c : DiskCache) (disk0 disk : Disk)
      (r : Result (LayerError E) (Layer Fs) × (DiskCache × Disk))
      → ((q : Bytes) → IsFrom q disk0 disk)
      → Spares c disk r
      → Spares c disk0 r
  Spares-before c disk0 disk (err e, s) h k = tt
  Spares-before c disk0 disk (ok layer, (c', disk')) h (a, k) =
      (a, λ q n. IsFrom-trans q disk0 disk disk' (h q) (k q n))

  found_cached-Spares :
      (calls : Calls) (c : DiskCache) (disk0 : Disk)
      (r : Result (LayerError E) (Option (Fs × List TarEntry)) × Disk)
      → ((q : Bytes) → IsFrom q disk0 r.1)
      → Spares c disk0 (found_cached lib calls d size rra c r)
  found_cached-Spares calls c disk0 (err e, disk) h = tt
  found_cached-Spares calls c disk0 (ok none, disk) h =
      Spares-before c disk0 disk (build_layer lib calls d size rra (c, disk)) h
        (build_layer-Spares calls c disk)
  found_cached-Spares calls c disk0 (ok (some (fs, entries)), disk) h = (refl, λ q n. h q)

  pub opened-Spares :
      (calls : Calls) (c : DiskCache) (disk : Disk)
      → Spares c disk
          (found_cached lib calls d size rra c (load_cached lib calls c rra size d disk))
  opened-Spares calls c disk =
      found_cached-Spares calls c disk (load_cached lib calls c rra size d disk)
        (λ q. load_cached-IsFrom lib d size rra q calls c disk)

-- ===== src/Indexer/Stored.antt =====
-- internal/layer/layer.go: the indexes of a layer in the cache, and the layer that they hold.
use mathlib.Core.Path.{subst}
use ocifuse.Prelude.{
  ℕ, ◌≡◌, inl, inr, refl, sym, ap, ◌∙◌, true, false, none, some, Option, List, Bytes, bytes_eq,
  ◌==◌, Result, ok, err, arith, Result-cases,
}
use ocifuse.Prelude.Dict.{lookup, has, is_some, lookup-insert}
use ocifuse.DiskCache.{File, Disk, DiskCache, IoError, has_value, path_of}
use ocifuse.DiskCache.Kept.{HasWritten, Writes, write-Writes}
use ocifuse.Merge.{TarEntry}
use ocifuse.Oci.{Hash}
use ocifuse.Indexer.{Layer, Libraries, BlobReader, LayerError, Calls, gsip_key, toc_key}
use ocifuse.Indexer.Opening.{persisted, toc_persisted, toc_encoded, scanned, build_layer}

-- The file of the key has these bytes.
abbrev pub Holds : DiskCache → Bytes → Disk → Bytes → Type 0
Holds c key disk bytes = (f : File) × (lookup (path_of c key) disk ≡ some f) × (f.content ≡ bytes)

-- What a key holds that was written, and is there.
written-Holds :
    (c c' : DiskCache) (key bytes : Bytes) (disk disk' : Disk)
    → HasWritten c key bytes disk c' disk'
    → has_value c' key disk' ≡ true
    → Holds c' key disk' bytes
unfolding has_value has
written-Holds c c' key bytes disk disk' w h =
    let p : path_of c' key ≡ path_of c key = ap (λ d. path_of (record c { dir = d }) key) w.dir in
    elim (w.kept (path_of c key)) [
      | inl n ↦ absurd (ground (arith, h, ap (λ q. lookup q disk') p, n))
      | inr e ↦ (
        record { content = bytes; mtime = w.stamp },
        ap (λ q. lookup q disk') p
            ∙ e
            ∙ lookup-insert (path_of c key) (path_of c key) _ disk
            ∙ rw ((bytes_eq.equal_iff (path_of c key) (path_of c key)).1 refl) refl,
        refl,
      )
    ]

-- A write to one path leaves another path as it was, if it is still there.
other-lookup :
    (c c' : DiskCache) (key other bytes : Bytes) (disk disk' : Disk)
    → HasWritten c key bytes disk c' disk'
    → (path_of c key == path_of c other) ≡ false
    → has_value c' other disk' ≡ true
    → lookup (path_of c' other) disk' ≡ lookup (path_of c other) disk
unfolding has_value has
other-lookup c c' key other bytes disk disk' w n h =
    let p : path_of c' other ≡ path_of c other =
      ap (λ d. path_of (record c { dir = d }) other) w.dir in
    elim (w.kept (path_of c other)) [
      | inl e ↦ absurd (ground (arith, h, ap (λ q. lookup q disk') p, e))
      | inr e ↦
          ap (λ q. lookup q disk') p
          ∙ e
          ∙ lookup-insert (path_of c key) (path_of c other) _ disk
          ∙ rw n refl
    ]

has-before :
    (c c' : DiskCache) (k : Bytes) (disk disk' : Disk)
    → lookup (path_of c' k) disk' ≡ lookup (path_of c k) disk
    → has_value c' k disk' ≡ true
    → has_value c k disk ≡ true
unfolding has_value has
has-before c c' k disk disk' e h = ap is_some (sym e) ∙ h

-- The two indexes of a layer are in different files.
abbrev pub AreApart : DiskCache → Hash → Type 0
AreApart c d = (path_of c (gsip_key d) == path_of c (toc_key d)) ≡ false

AreApart-dir : (c c' : DiskCache) (d : Hash) → c'.dir ≡ c.dir → AreApart c d → AreApart c' d
AreApart-dir c c' d e n =
    ap
      (λ dir.
        path_of (record c { dir = dir }) (gsip_key d)
        == path_of (record c { dir = dir }) (toc_key d))
      e
    ∙ n

module _ {L T Rd Zr Fs E : Type 0} (lib : Libraries L T Rd Zr Fs E) where
  -- The layer is what the indexes in the cache are decoded to.
  pub record IsStored (rra : BlobReader Rd) (digest : Hash) (size : ℕ) (layer : Layer Fs)
      (c : DiskCache) (disk : Disk) : Type 0 where
    pub gz : Bytes
    pub toc : Bytes
    pub zr : Zr
    pub gsip_held : Holds c (gsip_key digest) disk gz
    pub toc_held : Holds c (toc_key digest) disk toc
    pub gsip_decoded : lib.decode_gsip rra size gz ≡ ok zr
    pub toc_decoded : lib.decode_toc toc ≡ ok layer.entries
    pub fs_decoded : lib.decode_fs zr toc ≡ ok layer.fs
    pub same :
        layer ≡ record { digest = digest; size = size; fs = layer.fs; entries = layer.entries }

  -- What is encoded is decoded: the JSON of a TOC, and the checkpoints of gsip, which make a reader
  -- whose file system reads as that of the reader that recorded them.
  pub record IsLossless : Type 0 where
    pub toc :
        (zr : Zr) (entries : List TarEntry) (bytes : Bytes)
        → (lib.index_tar zr).0 ≡ ok entries
        → lib.encode_toc entries ≡ ok bytes
        → lib.decode_toc bytes ≡ ok entries
    pub gsip :
        (rra : BlobReader Rd) (size : ℕ) (zr : Zr) (gz : Bytes)
        → lib.new_reader rra size ≡ ok zr
        → lib.encode_gsip (lib.index_tar zr).1 ≡ ok gz
        → (z : Zr) × (lib.decode_gsip rra size gz ≡ ok z)
          × ((toc : Bytes) → lib.decode_fs z toc ≡ lib.decode_fs (lib.index_tar zr).1 toc)

  module _ (rra : BlobReader Rd) (digest : Hash) (size : ℕ) where
    -- If both indexes are in the cache, they are those of the layer that is returned.
    abbrev pub Leaves : Result (LayerError E) (Layer Fs) × (DiskCache × Disk) → Type 0
    Leaves (err e, s) = Unit
    Leaves (ok layer, (c, disk)) =
        has_value c (gsip_key digest) disk ≡ true
        → has_value c (toc_key digest) disk ≡ true
        → IsStored rra digest size layer c disk

    -- The checkpoints of this reader can be read again.
    abbrev Restores : Zr → Type 0
    Restores zr =
        (gz : Bytes)
        → lib.encode_gsip zr ≡ ok gz
        → (z : Zr) × (lib.decode_gsip rra size gz ≡ ok z)
          × ((toc : Bytes) → lib.decode_fs z toc ≡ lib.decode_fs zr toc)

    module _ (entries : List TarEntry) (zr : Zr) (toc : Bytes)
        (decodes : lib.decode_toc toc ≡ ok entries) (restores : Restores zr) where
      persisted-Leaves :
          (c0 c : DiskCache) (disk0 disk : Disk) (r : Option IoError × (DiskCache × Disk))
          → AreApart c digest
          → HasWritten c0 (toc_key digest) toc disk0 c disk
          → Writes c (gsip_key digest) (lib.encode_gsip zr) disk r
          → Leaves (persisted lib digest size entries zr toc r)
      persisted-Leaves c0 c disk0 disk (some e, s) n first w = tt
      persisted-Leaves c0 c disk0 disk (none, (c', disk')) n first (gz, encoded, w) =
          elim (Result-cases (lib.decode_fs zr toc)) [
            | inl (e, d) ↦ rw d tt
            | inr (fs, d) ↦ rw d (λ g t.
                let there : lookup (path_of c' (toc_key digest)) disk'
                    ≡ lookup (path_of c (toc_key digest)) disk =
                  other-lookup c c' (gsip_key digest) (toc_key digest) gz disk disk' w n t in
                let (f, at, content) =
                  written-Holds c0 c (toc_key digest) toc disk0 disk first
                    (has-before c c' (toc_key digest) disk disk' there t) in
                let (z, again, reads) = restores gz encoded in
                record {
                  gz = gz;
                  toc = toc;
                  zr = z;
                  gsip_held = written-Holds c c' (gsip_key digest) gz disk disk' w g;
                  toc_held = (f, there ∙ at, content);
                  gsip_decoded = again;
                  toc_decoded = decodes;
                  fs_decoded = reads toc ∙ d;
                  same = refl;
                })
          ]

      toc_persisted-Leaves :
          (calls : Calls) (c : DiskCache) (disk : Disk) (r : Option IoError × (DiskCache × Disk))
          → AreApart c digest
          → Writes c (toc_key digest) (ok toc) disk r
          → Leaves (toc_persisted lib calls digest size entries zr toc r)
      toc_persisted-Leaves calls c disk (some e, s) n w = tt
      toc_persisted-Leaves calls c disk (none, (c', disk')) n (bytes, same, w) =
          let equal : bytes ≡ toc = ground (arith, same) in
          persisted-Leaves c c' disk disk' _ (AreApart-dir c c' digest w.dir n)
            (subst (λ b. HasWritten c (toc_key digest) b disk c' disk') equal w)
            (write-Writes calls.write_gsip.faults calls.write_gsip.now c' (gsip_key digest)
              (lib.encode_gsip zr) disk')

    toc_encoded-Leaves :
        (calls : Calls) (c : DiskCache) (disk : Disk) (entries : List TarEntry) (zr : Zr)
        (r : Result E Bytes)
        → AreApart c digest
        → ((bytes : Bytes) → lib.encode_toc entries ≡ ok bytes → lib.decode_toc bytes ≡ ok entries)
        → Restores zr
        → lib.encode_toc entries ≡ r
        → Leaves (toc_encoded lib calls digest size entries zr (c, disk) r)
    toc_encoded-Leaves calls c disk entries zr (err e) n l restores t = tt
    toc_encoded-Leaves calls c disk entries zr (ok toc) n l restores t =
        toc_persisted-Leaves entries zr toc (l toc t) restores calls c disk _ n
          (write-Writes calls.write_toc.faults calls.write_toc.now c (toc_key digest) (ok toc) disk)

    scanned-Leaves :
        (calls : Calls) (c : DiskCache) (disk : Disk) (r : Result E (List TarEntry) × Zr)
        → AreApart c digest
        → ((entries : List TarEntry) (bytes : Bytes)
            → r.0 ≡ ok entries
            → lib.encode_toc entries ≡ ok bytes
            → lib.decode_toc bytes ≡ ok entries)
        → Restores r.1
        → Leaves (scanned lib calls digest size (c, disk) r)
    scanned-Leaves calls c disk (err e, zr) n l restores = tt
    scanned-Leaves calls c disk (ok entries, zr) n l restores =
        toc_encoded-Leaves calls c disk entries zr (lib.encode_toc entries) n
          (λ bytes e. l entries bytes refl e) restores refl

    pub build_layer-Leaves :
        (calls : Calls) (c : DiskCache) (disk : Disk)
        → AreApart c digest
        → IsLossless
        → Leaves (build_layer lib calls digest size rra (c, disk))
    unfolding build_layer
    build_layer-Leaves calls c disk n l = elim (Result-cases (lib.new_reader rra size)) [
      | inl (e, r) ↦ rw (r, build_layer) tt
      | inr (zr, r) ↦
          rw (r, build_layer)
            (scanned-Leaves calls c disk (lib.index_tar zr) n (l.toc zr)
              (λ gz e. l.gsip rra size zr gz r e))
    ]

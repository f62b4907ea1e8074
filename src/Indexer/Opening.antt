-- ===== src/Indexer/Opening.antt =====
-- internal/layer/layer.go: Open, which builds the indexes of a layer that are not in the cache.
use ocifuse.Prelude.{ℕ, Option, none, some, List, Bytes, Result, ok, err}
use ocifuse.DiskCache.{DiskCache, Disk, IoError}
use ocifuse.Merge.{TarEntry}
use ocifuse.Oci.{Hash}
use ocifuse.Indexer.{
  Layer, Indexer, BlobReader, Libraries, LayerError, library_failed, cache_failed, gsip_key,
  toc_key, Calls, write_at, reader_of, load_cached,
}

module _ {L T Rd Zr Fs E : Type 0} (lib : Libraries L T Rd Zr Fs E) where
  -- The layer that Open returns.
  abbrev pub decoded : Hash → ℕ → List TarEntry → Result E Fs → Result (LayerError E) (Layer Fs)
  decoded digest size entries (err e) = err (library_failed e)
  decoded digest size entries (ok fs) =
      ok (record { digest = digest; size = size; fs = fs; entries = entries })

  -- After the gsip index was written.
  abbrev pub persisted :
      Hash
      → ℕ
      → List TarEntry
      → Zr
      → Bytes
      → Option IoError × (DiskCache × Disk)
      → Result (LayerError E) (Layer Fs) × (DiskCache × Disk)
  persisted digest size entries zr toc_bytes (some e, s) = (err (cache_failed e), s)
  persisted digest size entries zr toc_bytes (none, s) =
      (decoded digest size entries (lib.decode_fs zr toc_bytes), s)

  -- After the TOC was written.
  abbrev pub toc_persisted :
      Calls
      → Hash
      → ℕ
      → List TarEntry
      → Zr
      → Bytes
      → Option IoError × (DiskCache × Disk)
      → Result (LayerError E) (Layer Fs) × (DiskCache × Disk)
  toc_persisted calls digest size entries zr toc_bytes (some e, s) = (err (cache_failed e), s)
  toc_persisted calls digest size entries zr toc_bytes (none, (c, disk)) =
      persisted digest size entries zr toc_bytes
        (write_at calls.write_gsip c (gsip_key digest) (lib.encode_gsip zr) disk)

  -- After the TOC was encoded.
  abbrev pub toc_encoded :
      Calls
      → Hash
      → ℕ
      → List TarEntry
      → Zr
      → DiskCache × Disk
      → Result E Bytes
      → Result (LayerError E) (Layer Fs) × (DiskCache × Disk)
  toc_encoded calls digest size entries zr s (err e) = (err (library_failed e), s)
  toc_encoded calls digest size entries zr (c, disk) (ok toc_bytes) =
      toc_persisted calls digest size entries zr toc_bytes
        (write_at calls.write_toc c (toc_key digest) (ok toc_bytes) disk)

  -- After the pass over the tar file.
  abbrev pub scanned :
      Calls
      → Hash
      → ℕ
      → DiskCache × Disk
      → Result E (List TarEntry) × Zr
      → Result (LayerError E) (Layer Fs) × (DiskCache × Disk)
  scanned calls digest size s (err e, zr) = (err (library_failed e), s)
  scanned calls digest size s (ok entries, zr) =
      toc_encoded calls digest size entries zr s (lib.encode_toc entries)

  -- The indexes are built and written.
  unfoldable pub build_layer :
      Calls
      → Hash
      → ℕ
      → BlobReader Rd
      → DiskCache × Disk
      → Result (LayerError E) (Layer Fs) × (DiskCache × Disk)
  build_layer calls digest size rra s = elim (lib.new_reader rra size) [
    | err e ↦ (err (library_failed e), s)
    | ok zr ↦ scanned calls digest size s (lib.index_tar zr)
  ]

  -- What loadCached found is returned; without it the layer is built.
  abbrev pub found_cached :
      Calls
      → Hash
      → ℕ
      → BlobReader Rd
      → DiskCache
      → Result (LayerError E) (Option (Fs × List TarEntry)) × Disk
      → Result (LayerError E) (Layer Fs) × (DiskCache × Disk)
  found_cached calls digest size rra c (err e, disk) = (err e, (c, disk))
  found_cached calls digest size rra c (ok none, disk) = build_layer calls digest size rra (c, disk)
  found_cached calls digest size rra c (ok (some (fs, entries)), disk) =
      (ok (record { digest = digest; size = size; fs = fs; entries = entries }), (c, disk))

  abbrev pub open_sized :
      Indexer
      → Calls
      → Bytes
      → T
      → Hash
      → ℕ
      → DiskCache × Disk
      → Result (LayerError E) (Layer Fs) × (DiskCache × Disk)
  open_sized ix calls url tr digest size (c, disk) =
      let rra = reader_of ix digest (lib.ranger url tr) size in
      found_cached calls digest size rra c (load_cached lib calls c rra size digest disk)

  unfoldable pub open_layer :
      Indexer
      → Calls
      → Bytes
      → L
      → T
      → DiskCache × Disk
      → Result (LayerError E) (Layer Fs) × (DiskCache × Disk)
  open_layer ix calls url l tr s = elim (lib.layer_digest l) [
    | err e ↦ (err (library_failed e), s)
    | ok digest ↦ elim (lib.layer_size l) [
      | err e ↦ (err (library_failed e), s)
      | ok size ↦ open_sized ix calls url tr digest size s
    ]
  ]

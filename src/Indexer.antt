-- ===== src/Indexer.antt =====
-- internal/layer/layer.go: layers with their indexes, which are built once and then read from the
-- disk cache. ranger, gsip, tarfs and the JSON of a table of contents are parameters.
pub mod Opening
pub mod Stored
pub mod Files
pub mod Cached
pub mod Reopened
pub mod Others
use ocifuse.Prelude.{
  ℕ, Bool, true, false, ◌||◌, not, Option, none, some, List, [], ◌∷◌, ◌++◌, Bytes, codes,
  if◌then◌else◌, Result, ok, err,
}
use ocifuse.ChunkCache.{ChunkCache}
use ocifuse.DiskCache.{
  DiskCache, Disk, Faults, IoError, not_exist, io_failed, open_value, has_value, write,
}
use ocifuse.LayerView.{LayerView}
use ocifuse.Merge.{TarEntry}
use ocifuse.Oci.{Hash}

-- Fs is the type of the file systems of tarfs.
pub record Layer (Fs : Type 0) : Type 0 where
  pub digest : Hash
  pub size : ℕ
  pub fs : Fs
  pub entries : List TarEntry

pub record Indexer : Type 0 where
  pub chunks : Option (ChunkCache Hash)

-- The reader of compressed bytes: that of ranger, or a view of the chunk cache over it.
pub data BlobReader (Rd : Type 0) : Type 0 where
  ranged : Rd → BlobReader Rd
  viewed : LayerView Hash → Rd → BlobReader Rd

-- What the package calls: Digest and Size of a layer, ranger.New, gsip.NewReader, tarfs.Index,
-- which reads all of the decompressed layer and so lets gsip record its checkpoints, the JSON of
-- a TOC, the Encode and Decode of gsip, and tarfs.Decode. L, T, Rd and Zr are the types of layers
-- of a registry, transports, and readers of compressed and of decompressed bytes.
pub record Libraries (L T Rd Zr Fs E : Type 0) : Type 0 where
  pub layer_digest : L → Result E Hash
  pub layer_size : L → Result E ℕ
  pub ranger : Bytes → T → Rd
  pub new_reader : BlobReader Rd → ℕ → Result E Zr
  pub index_tar : Zr → Result E (List TarEntry) × Zr
  pub encode_toc : List TarEntry → Result E Bytes
  pub decode_toc : Bytes → Result E (List TarEntry)
  pub encode_gsip : Zr → Result IoError Bytes
  pub decode_gsip : BlobReader Rd → ℕ → Bytes → Result E Zr
  pub decode_fs : Zr → Bytes → Result E Fs

-- The errors of the libraries and of the cache, without the texts put before them.
pub data LayerError (E : Type 0) : Type 0 where
  library_failed : E → LayerError E
  cache_failed : IoError → LayerError E

abbrev pub key : Hash → Bytes → Bytes
key d name = codes "layers/" ++ (d.algorithm ++ b'/' ∷ (d.hex ++ b'/' ∷ name))

abbrev pub gsip_key : Hash → Bytes
gsip_key d = key d (codes "gsip.idx")

abbrev pub toc_key : Hash → Bytes
toc_key d = key d (codes "tarfs.toc")

-- The time of a call of the cache, and what fails in it.
pub record Moment : Type 0 where
  pub now : ℕ
  pub faults : Faults

-- The calls of one Open, and the error of reading the TOC after it was opened.
pub record Calls : Type 0 where
  pub open_gsip : Moment
  pub open_toc : Moment
  pub read_toc : Option IoError
  pub write_toc : Moment
  pub write_gsip : Moment

abbrev pub open_at : Moment → DiskCache → Bytes → Disk → Result IoError Bytes × Disk
open_at m c k disk = open_value m.faults m.now c k disk

abbrev pub write_at :
    Moment → DiskCache → Bytes → Result IoError Bytes → Disk → Option IoError × (DiskCache × Disk)
write_at m c k output disk = write m.faults m.now c k output disk

-- readAll
abbrev pub read_all : Option IoError → Result IoError Bytes × Disk → Result IoError Bytes × Disk
read_all fails (err e, disk) = (err e, disk)
read_all none (ok bytes, disk) = (ok bytes, disk)
read_all (some e) (ok bytes, disk) = (err e, disk)

-- The chunk cache is used if there is one.
abbrev pub reader_of : {Rd : Type 0} → Indexer → Hash → Rd → ℕ → BlobReader Rd
reader_of ix digest rd size = elim ix.chunks [
  | none ↦ ranged rd
  | some chunks ↦ viewed (record { layer = digest; size = size }) rd
]

module _ {L T Rd Zr Fs E : Type 0} (lib : Libraries L T Rd Zr Fs E) where
  -- The end of loadCached: the bytes of the TOC are decoded twice.
  abbrev pub fs_cached :
      List TarEntry → Result E Fs → Result (LayerError E) (Option (Fs × List TarEntry))
  fs_cached entries (err e) = err (library_failed e)
  fs_cached entries (ok fs) = ok (some (fs, entries))

  abbrev pub entries_cached :
      Zr → Bytes → Result E (List TarEntry) → Result (LayerError E) (Option (Fs × List TarEntry))
  entries_cached zr toc_bytes (err e) = err (library_failed e)
  entries_cached zr toc_bytes (ok entries) = fs_cached entries (lib.decode_fs zr toc_bytes)

  abbrev pub decode_cached :
      Zr → Result IoError Bytes → Result (LayerError E) (Option (Fs × List TarEntry))
  decode_cached zr (err e) = err (cache_failed e)
  decode_cached zr (ok toc_bytes) = entries_cached zr toc_bytes (lib.decode_toc toc_bytes)

  abbrev pub toc_cached :
      Zr → Result IoError Bytes × Disk → Result (LayerError E) (Option (Fs × List TarEntry)) × Disk
  toc_cached zr (toc, disk) = (decode_cached zr toc, disk)

  -- The TOC is read once the gsip index is decoded.
  abbrev pub zr_cached :
      Calls
      → DiskCache
      → Hash
      → Disk
      → Result E Zr
      → Result (LayerError E) (Option (Fs × List TarEntry)) × Disk
  zr_cached calls c d disk (err e) = (err (library_failed e), disk)
  zr_cached calls c d disk (ok zr) =
      toc_cached zr (read_all calls.read_toc (open_at calls.open_toc c (toc_key d) disk))

  -- What follows the Open of the gsip index. A missing file is no error.
  abbrev pub gsip_cached :
      Calls
      → DiskCache
      → BlobReader Rd
      → ℕ
      → Hash
      → Result IoError Bytes × Disk
      → Result (LayerError E) (Option (Fs × List TarEntry)) × Disk
  gsip_cached calls c rra size d (err not_exist, disk) = (ok none, disk)
  gsip_cached calls c rra size d (err (io_failed n), disk) =
      (err (cache_failed (io_failed n)), disk)
  gsip_cached calls c rra size d (ok gz, disk) =
      zr_cached calls c d disk (lib.decode_gsip rra size gz)

  unfoldable pub load_cached :
      Calls
      → DiskCache
      → BlobReader Rd
      → ℕ
      → Hash
      → Disk
      → Result (LayerError E) (Option (Fs × List TarEntry)) × Disk
  load_cached calls c rra size d disk =
      if not (has_value c (gsip_key d) disk) || not (has_value c (toc_key d) disk)
      then (ok none, disk)
      else gsip_cached calls c rra size d (open_at calls.open_gsip c (gsip_key d) disk)

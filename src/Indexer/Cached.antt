-- ===== src/Indexer/Cached.antt =====
-- internal/layer/layer.go: what loadCached finds.
use mathlib.Core.Path.{subst}
use ocifuse.Prelude.{
  ℕ, ◌≡◌, inl, inr, refl, sym, ap, ◌∙◌, not, ◌||◌, none, some, Option, List, Bytes, bytes_eq,
  Result, ok, err, Bool-cases,
}
use ocifuse.DiskCache.{Disk, DiskCache, IoError, not_exist, io_failed, has_value}
use ocifuse.Merge.{TarEntry}
use ocifuse.Oci.{Hash}
use ocifuse.Indexer.{
  Layer, Libraries, BlobReader, LayerError, Calls, gsip_key, toc_key, open_at, read_all, fs_cached,
  entries_cached, decode_cached, zr_cached, gsip_cached, load_cached,
}
use ocifuse.Indexer.Stored.{Holds, IsStored}
use ocifuse.Indexer.Files.{
  Holds-has, open_at-Holds, Holds-open_at, Holds-opened, read_all-ok, read_all-disk, read_all-from,
}

-- None of the calls that read the cache fails.
pub record CanRead (calls : Calls) : Type 0 where
  pub gsip : calls.open_gsip.faults.open_file ≡ none
  pub toc : calls.open_toc.faults.open_file ≡ none
  pub read : calls.read_toc ≡ none

module _ {L T Rd Zr Fs E : Type 0} (lib : Libraries L T Rd Zr Fs E) where
  -- The indexes are found and decoded.
  pub load_cached-IsStored :
      (calls : Calls) (rra : BlobReader Rd) (d : Hash) (size : ℕ) (layer : Layer Fs) (c : DiskCache)
      (disk : Disk)
      → CanRead calls
      → IsStored lib rra d size layer c disk
      → (load_cached lib calls c rra size d disk).0 ≡ ok (some (layer.fs, layer.entries))
  unfolding load_cached
  load_cached-IsStored calls rra d size layer c disk can s =
      let gsip_there = Holds-has c (gsip_key d) disk s.gz s.gsip_held in
      let toc_there = Holds-has c (toc_key d) disk s.toc s.toc_held in
      let after = (open_at calls.open_gsip c (gsip_key d) disk).1 in
      let opened = open_at-Holds calls.open_gsip c (gsip_key d) disk s.gz can.gsip s.gsip_held in
      let held = Holds-open_at calls.open_gsip c (gsip_key d) (toc_key d) disk s.toc s.toc_held in
      let read =
        read_all-ok calls.read_toc (open_at calls.open_toc c (toc_key d) after) s.toc can.read
          (open_at-Holds calls.open_toc c (toc_key d) after s.toc can.toc held) in
      rw (gsip_there, toc_there, load_cached)
        (ap (λ r. (gsip_cached lib calls c rra size d (r, after)).0) opened
          ∙ ap (λ r. (zr_cached lib calls c d after r).0) s.gsip_decoded
          ∙ ap (decode_cached lib s.zr) read
          ∙ ap (entries_cached lib s.zr s.toc) s.toc_decoded
          ∙ ap (fs_cached lib layer.entries) s.fs_decoded)

  -- What loadCached finds is in the cache.
  abbrev pub Loads :
      BlobReader Rd
      → Hash
      → ℕ
      → DiskCache
      → Result (LayerError E) (Option (Fs × List TarEntry)) × Disk
      → Type 0
  Loads rra d size c (err e, disk) = Unit
  Loads rra d size c (ok none, disk) = Unit
  Loads rra d size c (ok (some (fs, entries)), disk) =
      IsStored lib rra d size (record { digest = d; size = size; fs = fs; entries = entries }) c
        disk

  module _ (rra : BlobReader Rd) (d : Hash) (size : ℕ) (c : DiskCache) where
    fs_cached-Loads :
        (gz toc : Bytes) (zr : Zr) (entries : List TarEntry) (disk : Disk) (r : Result E Fs)
        → Holds c (gsip_key d) disk gz
        → Holds c (toc_key d) disk toc
        → lib.decode_gsip rra size gz ≡ ok zr
        → lib.decode_toc toc ≡ ok entries
        → lib.decode_fs zr toc ≡ r
        → Loads rra d size c (fs_cached lib entries r, disk)
    fs_cached-Loads gz toc zr entries disk (err e) g t z n f = tt
    fs_cached-Loads gz toc zr entries disk (ok fs) g t z n f = record {
      gz = gz;
      toc = toc;
      zr = zr;
      gsip_held = g;
      toc_held = t;
      gsip_decoded = z;
      toc_decoded = n;
      fs_decoded = f;
      same = refl;
    }

    entries_cached-Loads :
        (gz toc : Bytes) (zr : Zr) (disk : Disk) (r : Result E (List TarEntry))
        → Holds c (gsip_key d) disk gz
        → Holds c (toc_key d) disk toc
        → lib.decode_gsip rra size gz ≡ ok zr
        → lib.decode_toc toc ≡ r
        → Loads rra d size c (entries_cached lib zr toc r, disk)
    entries_cached-Loads gz toc zr disk (err e) g t z n = tt
    entries_cached-Loads gz toc zr disk (ok entries) g t z n =
        fs_cached-Loads gz toc zr entries disk (lib.decode_fs zr toc) g t z n refl

    toc_cached-Loads :
        (gz : Bytes) (zr : Zr) (disk : Disk) (r : Result IoError Bytes)
        → Holds c (gsip_key d) disk gz
        → ((toc : Bytes) → r ≡ ok toc → Holds c (toc_key d) disk toc)
        → lib.decode_gsip rra size gz ≡ ok zr
        → Loads rra d size c (decode_cached lib zr r, disk)
    toc_cached-Loads gz zr disk (err e) g t z = tt
    toc_cached-Loads gz zr disk (ok toc) g t z =
        entries_cached-Loads gz toc zr disk (lib.decode_toc toc) g (t toc refl) z refl

    zr_cached-Loads :
        (calls : Calls) (gz : Bytes) (disk : Disk) (r : Result E Zr)
        → Holds c (gsip_key d) disk gz
        → lib.decode_gsip rra size gz ≡ r
        → Loads rra d size c (zr_cached lib calls c d disk r)
    zr_cached-Loads calls gz disk (err e) g z = tt
    zr_cached-Loads calls gz disk (ok zr) g z =
        let opened = open_at calls.open_toc c (toc_key d) disk in
        toc_cached-Loads gz zr (read_all calls.read_toc opened).1 (read_all calls.read_toc opened).0
          (subst (λ k. Holds c (gsip_key d) k gz) (sym (read_all-disk calls.read_toc opened))
            (Holds-open_at calls.open_toc c (toc_key d) (gsip_key d) disk gz g))
          (λ toc e.
            let there =
              Holds-opened calls.open_toc c (toc_key d) disk toc
                (read_all-from calls.read_toc opened toc e) in
            subst (λ k. Holds c (toc_key d) k toc) (sym (read_all-disk calls.read_toc opened))
              (Holds-open_at calls.open_toc c (toc_key d) (toc_key d) disk toc there))
          z

    gsip_cached-Loads :
        (calls : Calls) (r : Result IoError Bytes × Disk)
        → ((gz : Bytes) → r.0 ≡ ok gz → Holds c (gsip_key d) r.1 gz)
        → Loads rra d size c (gsip_cached lib calls c rra size d r)
    gsip_cached-Loads calls (err not_exist, disk) g = tt
    gsip_cached-Loads calls (err (io_failed n), disk) g = tt
    gsip_cached-Loads calls (ok gz, disk) g =
        zr_cached-Loads calls gz disk (lib.decode_gsip rra size gz) (g gz refl) refl

    pub load_cached-Loads :
        (calls : Calls) (disk : Disk) → Loads rra d size c (load_cached lib calls c rra size d disk)
    unfolding load_cached
    load_cached-Loads calls disk =
        elim (Bool-cases
          (not (has_value c (gsip_key d) disk) || not (has_value c (toc_key d) disk))) [
            | inl t ↦ rw (t, load_cached) tt
            | inr f ↦
                rw (f, load_cached)
                  (gsip_cached-Loads calls (open_at calls.open_gsip c (gsip_key d) disk) (λ gz e.
                    Holds-open_at calls.open_gsip c (gsip_key d) (gsip_key d) disk gz
                      (Holds-opened calls.open_gsip c (gsip_key d) disk gz e)))
          ]

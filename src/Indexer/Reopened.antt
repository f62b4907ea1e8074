-- ===== src/Indexer/Reopened.antt =====
-- internal/layer/layer.go: a layer that was opened, opened again.
use mathlib.Core.Path.{subst}
use ocifuse.Prelude.{
  ℕ, ◌≡◌, refl, sym, ap, ◌∙◌, true, none, some, Option, List, Bytes, bytes_eq, Result, ok, err,
}
use ocifuse.DiskCache.{Disk, DiskCache, has_value}
use ocifuse.Merge.{TarEntry}
use ocifuse.Oci.{Hash}
use ocifuse.Indexer.{
  Layer, Indexer, Libraries, BlobReader, LayerError, library_failed, Calls, gsip_key, toc_key,
  reader_of, load_cached,
}
use ocifuse.Indexer.Opening.{found_cached, open_sized, open_layer}
use ocifuse.Indexer.Stored.{AreApart, IsStored, IsLossless, Leaves, build_layer-Leaves}
use ocifuse.Indexer.Cached.{CanRead, load_cached-IsStored, Loads, load_cached-Loads}

module _ {L T Rd Zr Fs E : Type 0} (lib : Libraries L T Rd Zr Fs E) where
  module _ (rra : BlobReader Rd) (d : Hash) (size : ℕ) (c : DiskCache) where
    -- Whether it is found or built.
    found_cached-Leaves :
        (calls : Calls) (r : Result (LayerError E) (Option (Fs × List TarEntry)) × Disk)
        → AreApart c d
        → IsLossless lib
        → Loads lib rra d size c r
        → Leaves lib rra d size (found_cached lib calls d size rra c r)
    found_cached-Leaves calls (err e, disk) n l h = tt
    found_cached-Leaves calls (ok none, disk) n l h =
        build_layer-Leaves lib rra d size calls c disk n l
    found_cached-Leaves calls (ok (some (fs, entries)), disk) n l h = λ g t. h

    pub opened-Leaves :
        (calls : Calls) (disk : Disk)
        → AreApart c d
        → IsLossless lib
        → Leaves lib rra d size
            (found_cached lib calls d size rra c (load_cached lib calls c rra size d disk))
    opened-Leaves calls disk n l =
        found_cached-Leaves calls (load_cached lib calls c rra size d disk) n l
          (load_cached-Loads lib rra d size c calls disk)

  -- A layer that is found is returned, and the cache is not written.
  pub found_cached-ok :
      (calls : Calls) (rra : BlobReader Rd) (d : Hash) (size : ℕ) (c : DiskCache) (fs : Fs)
      (entries : List TarEntry) (r : Result (LayerError E) (Option (Fs × List TarEntry)) × Disk)
      → r.0 ≡ ok (some (fs, entries))
      → found_cached lib calls d size rra c r
        ≡ (ok (record { digest = d; size = size; fs = fs; entries = entries }), (c, r.1))
  found_cached-ok calls rra d size c fs entries r h =
      ap (λ x. found_cached lib calls d size rra c (x, r.1)) h

  pub open_layer-unsized :
      (ix : Indexer) (calls : Calls) (url : Bytes) (l : L) (tr : T) (d : Hash) (e : E)
      (s : DiskCache × Disk)
      → lib.layer_digest l ≡ ok d
      → lib.layer_size l ≡ err e
      → open_layer lib ix calls url l tr s ≡ (err (library_failed e), s)
  unfolding open_layer
  open_layer-unsized ix calls url l tr d e s h k = rw (h, k, open_layer) refl

  pub open_layer-sized :
      (ix : Indexer) (calls : Calls) (url : Bytes) (l : L) (tr : T) (d : Hash) (size : ℕ)
      (s : DiskCache × Disk)
      → lib.layer_digest l ≡ ok d
      → lib.layer_size l ≡ ok size
      → open_layer lib ix calls url l tr s ≡ open_sized lib ix calls url tr d size s
  unfolding open_layer
  open_layer-sized ix calls url l tr d size s h k = rw (h, k, open_layer) refl

  -- A layer that Open returned, whether found in the cache or built, is returned again by a
  -- later Open of the same blob with its digest, size, entries and file system, and without a
  -- write of the cache, if both index files, at different paths, are in the cache after the
  -- first, reading them does not fail, and the TOC of the layer and the checkpoints of gsip
  -- are decoded as they were encoded.
  pub open_layer_again :
      (ix : Indexer) (calls later : Calls) (url : Bytes) (l : L) (tr : T) (d : Hash) (size : ℕ)
      (layer : Layer Fs) (c c' : DiskCache) (disk disk' : Disk)
      → lib.layer_digest l ≡ ok d
      → lib.layer_size l ≡ ok size
      → AreApart c d
      → IsLossless lib
      → open_layer lib ix calls url l tr (c, disk) ≡ (ok layer, (c', disk'))
      → has_value c' (gsip_key d) disk' ≡ true
      → has_value c' (toc_key d) disk' ≡ true
      → CanRead later
      → ((open_layer lib ix later url l tr (c', disk')).0 ≡ ok layer)
        × ((open_layer lib ix later url l tr (c', disk')).1.0 ≡ c')
  open_layer_again ix calls later url l tr d size layer c c' disk disk' digest sized apart lossless
        opened gsip toc can =
      let rra = reader_of ix d (lib.ranger url tr) size in
      let leaves = opened-Leaves rra d size c calls disk apart lossless in
      let stored : IsStored lib rra d size layer c' disk' =
        subst (Leaves lib rra d size)
          (sym (open_layer-sized ix calls url l tr d size (c, disk) digest sized) ∙ opened) leaves
          gsip toc in
      let found = load_cached-IsStored lib later rra d size layer c' disk' can stored in
      let again =
        open_layer-sized ix later url l tr d size (c', disk') digest sized
        ∙ found_cached-ok later rra d size c' layer.fs layer.entries
            (load_cached lib later c' rra size d disk') found in
      (ap (λ r. r.0) again ∙ ap ok (sym stored.same), ap (λ r. r.1.0) again)

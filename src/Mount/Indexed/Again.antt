-- ===== src/Mount/Indexed/Again.antt =====
-- internal/mount/mount.go, openLayers with the indexer: an image that was built is built again from
-- the disk cache.
use mathlib.Core.Path.{subst}
use ocifuse.Prelude.{ℕ, suc, ◌≡◌, refl, sym, ap, ◌∙◌, List, [], ◌∷◌, Result, ok, err, map, arith}
use ocifuse.DiskCache.{Disk, DiskCache}
use ocifuse.Merge.{TarEntry}
use ocifuse.Merge.Build.{merge}
use ocifuse.Oci.{Hash, Image, blob_url}
use ocifuse.Indexer.{Layer, Indexer, Libraries, LayerError, Calls, gsip_key, toc_key, load_cached}
use ocifuse.Indexer.Opening.{open_layer}
use ocifuse.Indexer.Stored.{IsLossless}
use ocifuse.Indexer.Cached.{CanRead, load_cached-IsStored}
use ocifuse.Indexer.Reopened.{open_layer-sized, found_cached-ok}
use ocifuse.Mount.{Reference, context, ResolvedImage, Services}
use ocifuse.Mount.Images.{ImageError, open_one, join_layers, open_layers, merge_layers, build_image}
use ocifuse.Mount.Indexed.{Opens, with_indexer}
use ocifuse.Mount.Indexed.Held.{AllApart, AllPresent, load_cached-Holds}
use ocifuse.Mount.Indexed.Built.{
  round, open_one-round, reader, IsHeld, AllHeld, AreNamed, Ends, open_layers-Ends,
}

module _ {L T Rd Zr Fs E : Type 0} (lib : Libraries L T Rd Zr Fs E) (ix : Indexer)
    (img : Image Reference L T) where
  -- The disk once this layer was loaded.
  abbrev loaded : Calls → Hash → ℕ → DiskCache → Disk → Disk
  loaded calls d size c disk = (load_cached lib calls c (reader lib ix img d size) size d disk).1

  IsHeld-loaded :
      (calls : Calls) (e : Hash) (n : ℕ) (l : L) (d : Hash) (y : Layer Fs) (c : DiskCache)
      (disk : Disk)
      → IsHeld lib ix img l d y c disk
      → IsHeld lib ix img l d y c (loaded calls e n c disk)
  IsHeld-loaded calls e n l d y c disk (size, sized, s) = (
    size,
    sized,
    record {
      gz = s.gz;
      toc = s.toc;
      zr = s.zr;
      gsip_held =
          load_cached-Holds lib (reader lib ix img e n) e n c (gsip_key d) s.gz calls disk
            s.gsip_held;
      toc_held =
          load_cached-Holds lib (reader lib ix img e n) e n c (toc_key d) s.toc calls disk
            s.toc_held;
      gsip_decoded = s.gsip_decoded;
      toc_decoded = s.toc_decoded;
      fs_decoded = s.fs_decoded;
      same = s.same;
    },
  )

  AllHeld-loaded :
      (calls : Calls) (e : Hash) (n : ℕ) (ls : List L) (ds : List Hash) (ys : List (Layer Fs))
      (c : DiskCache) (disk : Disk)
      → AllHeld lib ix img ls ds ys c disk
      → AllHeld lib ix img ls ds ys c (loaded calls e n c disk)
  AllHeld-loaded calls e n [] [] [] c disk h = tt
  AllHeld-loaded calls e n (l ∷ ls) (d ∷ ds) (y ∷ ys) c disk (h, hs) =
      (IsHeld-loaded calls e n l d y c disk h, AllHeld-loaded calls e n ls ds ys c disk hs)
  AllHeld-loaded calls e n [] [] (y ∷ ys) c disk h = absurd h
  AllHeld-loaded calls e n [] (d ∷ ds) ys c disk h = absurd h
  AllHeld-loaded calls e n (l ∷ ls) [] ys c disk h = absurd h
  AllHeld-loaded calls e n (l ∷ ls) (d ∷ ds) [] c disk h = absurd h

  module _ {F : Type 0} (calls : Services Opens L T Fs F (LayerError E)) (later : ℕ → Calls)
      (can : (n : ℕ) → CanRead (later n)) where
    open_one-IsHeld :
        (l : L) (d : Hash) (y : Layer Fs) (n : ℕ) (c : DiskCache) (disk : Disk)
        → lib.layer_digest l ≡ ok d
        → (h : IsHeld lib ix img l d y c disk)
        → open_one (with_indexer lib ix later calls) img l (n, (c, disk))
          ≡ (ok y, (suc n, (c, loaded (later n) d h.0 c disk)))
    open_one-IsHeld l d y n c disk named (size, sized, s) =
        let url = blob_url (context img.ref) d in
        let rra = reader lib ix img d size in
        let again : open_layer lib ix (later n) url l img.transport (c, disk)
            ≡ (ok y, (c, loaded (later n) d size c disk)) =
          open_layer-sized lib ix (later n) url l img.transport d size (c, disk) named sized
          ∙ found_cached-ok lib (later n) rra d size c y.fs y.entries
              (load_cached lib (later n) c rra size d disk)
              (load_cached-IsStored lib (later n) rra d size y c disk (can n) s)
          ∙ ap (λ x. (ok x, (c, loaded (later n) d size c disk))) (sym s.same) in
        open_one-round lib ix img calls later l d n (c, disk) named ∙ ap (round d n) again

    -- The layers are opened again, from the files that are there.
    abbrev IsOpened :
        List (Layer Fs)
        → DiskCache
        → Result (ImageError (LayerError E)) (List (Layer Fs) × List (List TarEntry)) × Opens
        → Type 0
    IsOpened ys c r = (r.0 ≡ ok (ys, map (λ (y : Layer Fs). y.entries) ys)) × (r.1.1.0 ≡ c)

    join_layers-IsOpened :
        (y : Layer Fs) (ys : List (Layer Fs)) (c : DiskCache) (s : Opens)
        (rest : Result (ImageError (LayerError E)) (List (Layer Fs) × List (List TarEntry)) × Opens)
        → IsOpened ys c rest
        → IsOpened (y ∷ ys) c (join_layers (with_indexer lib ix later calls) (ok y, s) rest)
    join_layers-IsOpened y ys c s (err e, last) (h, k) = cc
    join_layers-IsOpened y ys c s (ok (zs, es), last) (h, k) = (ground (arith, h), k)

    open_layers-IsOpened :
        (ls : List L) (ds : List Hash) (ys : List (Layer Fs)) (n : ℕ) (c : DiskCache) (disk : Disk)
        → AreNamed lib ix img ls ds
        → AllHeld lib ix img ls ds ys c disk
        → IsOpened ys c (open_layers (with_indexer lib ix later calls) img ls (n, (c, disk)))
    unfolding open_layers
    open_layers-IsOpened [] [] [] n c disk names h = (refl, refl)
    open_layers-IsOpened (l ∷ ls) (d ∷ ds) (y ∷ ys) n c disk (named, names) (h, hs) =
        let disk' = loaded (later n) d h.0 c disk in
        let rest =
          open_layers-IsOpened ls ds ys (suc n) c disk' names
            (AllHeld-loaded (later n) d h.0 ls ds ys c disk hs) in
        rw (open_one-IsHeld l d y n c disk named h, open_layers)
          (join_layers-IsOpened y ys c (suc n, (c, disk')) _ rest)
    open_layers-IsOpened [] [] (y ∷ ys) n c disk names h = absurd h
    open_layers-IsOpened [] (d ∷ ds) ys n c disk names h = absurd names
    open_layers-IsOpened (l ∷ ls) [] ys n c disk names h = absurd names
    open_layers-IsOpened (l ∷ ls) (d ∷ ds) [] n c disk names h = absurd h

  module _ {F : Type 0} (calls : Services Opens L T Fs F (LayerError E)) (later : ℕ → Calls)
      (can : (n : ℕ) → CanRead (later n)) (ds : List Hash)
      (names : AreNamed lib ix img img.layers ds) (k : ℕ) where
    -- An image that is built, if its indexes are in the cache, is built again from them.
    abbrev IsRebuilt : Result (ImageError (LayerError E)) (ResolvedImage L T Fs) × Opens → Type 0
    IsRebuilt (err e, s) = Unit
    IsRebuilt (ok ri, (m, (c, disk))) =
        let again = build_image (with_indexer lib ix later calls) img (k, (c, disk)) in
        AllPresent c disk ds → (again.0 ≡ ok ri) × (again.1.1.0 ≡ c)

    merged-again :
        (ys : List (Layer Fs)) (c : DiskCache)
        (r : Result (ImageError (LayerError E)) (List (Layer Fs) × List (List TarEntry)) × Opens)
        → IsOpened calls later can ys c r
        → ((merge_layers (with_indexer lib ix later calls) img r).0
            ≡ ok (record {
              img = img;
              layers = ys;
              tree = merge (map (λ (y : Layer Fs). y.entries) ys);
            }))
          × ((merge_layers (with_indexer lib ix later calls) img r).1.1.0 ≡ c)
    merged-again ys c (err e, s) (h, j) = cc
    merged-again ys c (ok (zs, es), s) (h, j) = (ground (arith, h), j)

    merge_layers-IsRebuilt :
        (first : Services Opens L T Fs F (LayerError E)) (c : DiskCache) (disk : Disk)
        (r : Result (ImageError (LayerError E)) (List (Layer Fs) × List (List TarEntry)) × Opens)
        → Ends lib ix img img.layers ds c disk r
        → IsRebuilt (merge_layers first img r)
    unfolding build_image
    merge_layers-IsRebuilt first c disk (err e, s) h = tt
    merge_layers-IsRebuilt first c disk (ok (ys, es), (m, (c', disk'))) (a, from, held, all) =
        λ present.
          let opened =
            open_layers-IsOpened calls later can img.layers ds ys k c' disk' names (held present) in
          let (same, cache) =
            merged-again ys c'
              (open_layers (with_indexer lib ix later calls) img img.layers (k, (c', disk')))
              opened in
          (
            same ∙ ap (λ xs. ok (record { img = img; layers = ys; tree = merge xs })) (sym all),
            cache,
          )

  -- An image that was built with the indexer is built again, equal to the first, from the disk
  -- cache that this left, without a write of the cache, if all index files of its layers are
  -- in the cache then, at different paths, and can be read, and the TOC of a layer and the
  -- checkpoints of gsip are decoded as they were encoded. The layers were opened one after the
  -- other, each of them found or built, while the cache evicted files.
  pub build_image_again :
      {F : Type 0} (calls : Services Opens L T Fs F (LayerError E)) (times later : ℕ → Calls)
      (ds : List Hash) (n m k : ℕ) (c c' : DiskCache) (disk disk' : Disk)
      (ri : ResolvedImage L T Fs)
      → AreNamed lib ix img img.layers ds
      → AllApart c.dir ds
      → IsLossless lib
      → build_image (with_indexer lib ix times calls) img (n, (c, disk)) ≡ (ok ri, (m, (c', disk')))
      → AllPresent c' disk' ds
      → ((i : ℕ) → CanRead (later i))
      → ((build_image (with_indexer lib ix later calls) img (k, (c', disk'))).0 ≡ ok ri)
        × ((build_image (with_indexer lib ix later calls) img (k, (c', disk'))).1.1.0 ≡ c')
  unfolding build_image
  build_image_again calls times later ds n m k c c' disk disk' ri names apart lossless built present
        can =
      let first = with_indexer lib ix times calls in
      let ends =
        open_layers-Ends lib ix img calls times lossless img.layers ds n c disk names apart in
      subst (IsRebuilt calls later can ds names k) built
        (merge_layers-IsRebuilt calls later can ds names k first c disk
          (open_layers first img img.layers (n, (c, disk))) ends)
        present

-- ===== src/Mount/Indexed/Built.antt =====
-- internal/mount/mount.go, openLayers with the indexer: what it leaves in the disk cache.
use mathlib.Core.Path.{subst}
use ocifuse.Prelude.{
  ℕ, suc, ◌≡◌, inl, inr, refl, sym, ap, ◌∙◌, true, false, List, [], ◌∷◌, Bytes, bytes_eq, ◌==◌,
  Result, ok, err, Result-cases, map,
}
use ocifuse.DiskCache.{Disk, DiskCache, has_value, path_of}
use ocifuse.Merge.{TarEntry}
use ocifuse.Oci.{Hash, Image, blob_url}
use ocifuse.Indexer.{
  Layer, Indexer, Libraries, BlobReader, LayerError, library_failed, Calls, gsip_key, toc_key,
  reader_of,
}
use ocifuse.Indexer.Opening.{open_sized, open_layer}
use ocifuse.Indexer.Stored.{IsStored, IsLossless, Leaves}
use ocifuse.Indexer.Others.{IsFrom, IsFrom-trans, IsOther, Spares, opened-Spares}
use ocifuse.Indexer.Reopened.{opened-Leaves, open_layer-sized, open_layer-unsized}
use ocifuse.Mount.{Reference, context, Services}
use ocifuse.Mount.Images.{ImageError, index_failed, open_one, join_layers, open_layers}
use ocifuse.Mount.Indexed.{Opens, with_indexer}
use ocifuse.Mount.Indexed.Held.{below, AllMiss, AllApart, AllPresent, has-earlier, IsStored-later}

module _ {Fs E : Type 0} (d : Hash) (n : ℕ) where
  -- A round of the loop, from what the n-th call of the indexer gives.
  abbrev pub round :
      Result (LayerError E) (Layer Fs) × (DiskCache × Disk)
      → Result (ImageError (LayerError E)) (Layer Fs) × Opens
  round (err e, s) = (err (index_failed d e), (suc n, s))
  round (ok y, s) = (ok y, (suc n, s))

  round-cases :
      (r : Result (LayerError E) (Layer Fs) × (DiskCache × Disk))
      → (elim r.0 as (λ x. Result (ImageError (LayerError E)) (Layer Fs) × Opens) [
        | err e ↦ (err (index_failed d e), (suc n, r.1))
        | ok y ↦ (ok y, (suc n, r.1))
      ])
        ≡ round r
  round-cases (err e, s) = refl
  round-cases (ok y, s) = refl

module _ {L T Rd Zr Fs E : Type 0} (lib : Libraries L T Rd Zr Fs E) (ix : Indexer)
    (img : Image Reference L T) where
  abbrev pub reader : Hash → ℕ → BlobReader Rd
  reader d size = reader_of ix d (lib.ranger (blob_url (context img.ref) d) img.transport) size

  -- The indexes of the layer are in the cache.
  abbrev pub IsHeld : L → Hash → Layer Fs → DiskCache → Disk → Type 0
  IsHeld l d y c disk =
      (size : ℕ) × (lib.layer_size l ≡ ok size) × IsStored lib (reader d size) d size y c disk

  abbrev pub AllHeld : List L → List Hash → List (Layer Fs) → DiskCache → Disk → Type 0
  AllHeld [] [] [] c disk = Unit
  AllHeld (l ∷ ls) (d ∷ ds) (y ∷ ys) c disk = IsHeld l d y c disk × AllHeld ls ds ys c disk
  AllHeld _ _ _ c disk = ⊥

  -- These are the digests of the layers.
  abbrev pub AreNamed : List L → List Hash → Type 0
  AreNamed [] [] = Unit
  AreNamed (l ∷ ls) (d ∷ ds) = (lib.layer_digest l ≡ ok d) × AreNamed ls ds
  AreNamed _ _ = ⊥

  -- What a round leaves, if it gives a layer.
  abbrev One :
      L → Hash → DiskCache → Disk → Result (ImageError (LayerError E)) (Layer Fs) × Opens → Type 0
  One l d c disk (err e, s) = Unit
  One l d c disk (ok y, (n, (c', disk'))) =
      (c'.dir ≡ c.dir)
      × ((q : Bytes) → IsOther c d q → IsFrom q disk disk')
      × (has_value c' (gsip_key d) disk' ≡ true
          → has_value c' (toc_key d) disk' ≡ true
          → IsHeld l d y c' disk')

  -- What the loop leaves, if it gives the layers.
  abbrev pub Ends :
      List L
      → List Hash
      → DiskCache
      → Disk
      → Result (ImageError (LayerError E)) (List (Layer Fs) × List (List TarEntry)) × Opens
      → Type 0
  Ends ls ds c disk (err e, s) = Unit
  Ends ls ds c disk (ok (ys, es), (n, (c', disk'))) =
      (c'.dir ≡ c.dir)
      × ((q : Bytes) → AllMiss c.dir ds q → IsFrom q disk disk')
      × (AllPresent c' disk' ds → AllHeld ls ds ys c' disk')
      × (es ≡ map (λ (y : Layer Fs). y.entries) ys)

  module _ (l : L) (d : Hash) (size : ℕ) (sized : lib.layer_size l ≡ ok size) (c : DiskCache)
      (disk : Disk) where
    opened-One :
        (n : ℕ) (r : Result (LayerError E) (Layer Fs) × (DiskCache × Disk))
        → Spares lib d size (reader d size) c disk r
        → Leaves lib (reader d size) d size r
        → One l d c disk (round d n r)
    opened-One n (err e, s) spares leaves = tt
    opened-One n (ok y, (c', disk')) spares leaves =
        (spares.0, spares.1, λ g t. (size, sized, leaves g t))

  -- The rounds after the first see what it left.
  join_layers-Ends :
      {F : Type 0} (calls : Services Opens L T Fs F (LayerError E)) (l : L) (ls : List L) (d : Hash)
      (ds : List Hash) (c : DiskCache) (disk : Disk)
      (opened : Result (ImageError (LayerError E)) (Layer Fs) × Opens)
      (rest : Result (ImageError (LayerError E)) (List (Layer Fs) × List (List TarEntry)) × Opens)
      → AllApart c.dir (d ∷ ds)
      → One l d c disk opened
      → (AllApart opened.1.1.0.dir ds → Ends ls ds opened.1.1.0 opened.1.1.1 rest)
      → Ends (l ∷ ls) (d ∷ ds) c disk (join_layers calls opened rest)
  join_layers-Ends calls l ls d ds c disk (err e, s) rest apart one ends = tt
  join_layers-Ends calls l ls d ds c disk (ok y, s) (err e, last) apart one ends = tt
  join_layers-Ends calls l ls d ds c disk (ok y, (n, (c1, disk1))) (ok (ys, es), (m, (c2, disk2)))
        (pair, gs, ts, apart) (a1, from1, held1) ends =
      let (a2, from2, held2, all) = ends (subst (λ dir. AllApart dir ds) (sym a1) apart) in
      (
        a2 ∙ a1,
        λ q miss.
            IsFrom-trans q disk disk1 disk2 (from1 q miss.0)
              (from2 q (subst (λ dir. AllMiss dir ds q) (sym a1) miss.1)),
        λ present.
            let g =
              from2 (below c1.dir (gsip_key d))
                (subst (λ dir. AllMiss dir ds (below dir (gsip_key d))) (sym a1) gs) in
            let t =
              from2 (below c1.dir (toc_key d))
                (subst (λ dir. AllMiss dir ds (below dir (toc_key d))) (sym a1) ts) in
            let ((g2, t2), others) = present in
            let (size, sized, stored) =
              held1 (has-earlier c1 c2 (gsip_key d) disk1 disk2 a2 g g2)
                (has-earlier c1 c2 (toc_key d) disk1 disk2 a2 t t2) in
            (
              (
                size,
                sized,
                IsStored-later lib (reader d size) d size y c1 c2 disk1 disk2 a2 g t g2 t2 stored,
              ),
              held2 others,
            ),
        ap (λ x. y.entries ∷ x) all,
      )

  pub open_one-round :
      {F : Type 0} (calls : Services Opens L T Fs F (LayerError E)) (times : ℕ → Calls) (l : L)
      (d : Hash) (n : ℕ) (s : DiskCache × Disk)
      → lib.layer_digest l ≡ ok d
      → open_one (with_indexer lib ix times calls) img l (n, s)
        ≡ round d n (open_layer lib ix (times n) (blob_url (context img.ref) d) l img.transport s)
  unfolding open_one
  open_one-round calls times l d n s named =
      rw (named, open_one)
        (round-cases d n
          (open_layer lib ix (times n) (blob_url (context img.ref) d) l img.transport s))

  module _ {F : Type 0} (calls : Services Opens L T Fs F (LayerError E)) (times : ℕ → Calls)
      (lossless : IsLossless lib) where
    open_one-One :
        (l : L) (d : Hash) (n : ℕ) (c : DiskCache) (disk : Disk)
        → lib.layer_digest l ≡ ok d
        → (path_of c (gsip_key d) == path_of c (toc_key d)) ≡ false
        → One l d c disk (open_one (with_indexer lib ix times calls) img l (n, (c, disk)))
    open_one-One l d n c disk named apart =
        let url = blob_url (context img.ref) d in
        let s : DiskCache × Disk = (c, disk) in
        let e = open_one-round calls times l d n s named in
        elim (Result-cases (lib.layer_size l)) [
          | inl (x, unsized) ↦
              let failed : open_layer lib ix (times n) url l img.transport s
                  ≡ (err (library_failed x), s) =
                open_layer-unsized lib ix (times n) url l img.transport d x s named unsized in
              subst (One l d c disk) (sym (e ∙ ap (round d n) failed)) tt
          | inr (size, sized) ↦
              let opened =
                open_layer-sized lib ix (times n) url l img.transport d size s named sized in
              subst (One l d c disk) (sym (e ∙ ap (round d n) opened)) (
                opened-One l d size sized c disk n
                  (open_sized lib ix (times n) url img.transport d size s)
                  (opened-Spares lib d size (reader d size) (times n) c disk)
                  (opened-Leaves lib (reader d size) d size c (times n) disk apart lossless))
        ]

    pub open_layers-Ends :
        (ls : List L) (ds : List Hash) (n : ℕ) (c : DiskCache) (disk : Disk)
        → AreNamed ls ds
        → AllApart c.dir ds
        → Ends ls ds c disk (open_layers (with_indexer lib ix times calls) img ls (n, (c, disk)))
    unfolding open_layers
    open_layers-Ends [] [] n c disk named apart =
        (refl, λ q miss g at. (g, at, refl), λ present. tt, refl)
    open_layers-Ends (l ∷ ls) (d ∷ ds) n c disk (named, names) apart =
        let opened = open_one (with_indexer lib ix times calls) img l (n, (c, disk)) in
        join_layers-Ends (with_indexer lib ix times calls) l ls d ds c disk opened _ apart
          (open_one-One l d n c disk named apart.0)
          (open_layers-Ends ls ds opened.1.0 opened.1.1.0 opened.1.1.1 names)
    open_layers-Ends [] (d ∷ ds) n c disk named apart = absurd named
    open_layers-Ends (l ∷ ls) [] n c disk named apart = absurd named

-- ===== src/Mount/Indexed/Held.antt =====
-- internal/layer/layer.go: the indexes of several layers in one cache.
use mathlib.Core.Path.{subst}
use ocifuse.Prelude.{
  ℕ, ◌≡◌, inl, inr, sym, ap, ◌∙◌, not, ◌||◌, true, false, List, [], ◌∷◌, Bytes, bytes_eq, ◌==◌,
  Result, ok, err, arith, All, Bool-cases, Option-cases,
}
use ocifuse.Prelude.Dict.{lookup, has, is_some}
use ocifuse.SlashPath.{path_join}
use ocifuse.DiskCache.{Disk, DiskCache, IoError, not_exist, io_failed, has_value, path_of}
use ocifuse.Oci.{Hash}
use ocifuse.Indexer.{
  Layer, Libraries, BlobReader, Calls, gsip_key, toc_key, open_at, zr_cached, gsip_cached,
  load_cached,
}
use ocifuse.Indexer.Stored.{Holds, IsStored}
use ocifuse.Indexer.Files.{Holds-open_at, read_all-disk}
use ocifuse.Indexer.Others.{IsFrom}

-- The path of a key below the directory of a cache.
abbrev pub below : Bytes → Bytes → Bytes
below dir key = path_join (dir ∷ key ∷ [])

-- No index of the layers has this path.
abbrev pub AllMiss : Bytes → List Hash → Bytes → Type 0
AllMiss dir ds q =
    All (λ d. ((below dir (gsip_key d) == q) ≡ false) × ((below dir (toc_key d) == q) ≡ false)) ds

-- All indexes of the layers are in different files.
abbrev pub AllApart : Bytes → List Hash → Type 0
AllApart dir [] = Unit
AllApart dir (d ∷ ds) =
    ((below dir (gsip_key d) == below dir (toc_key d)) ≡ false)
    × AllMiss dir ds (below dir (gsip_key d))
    × AllMiss dir ds (below dir (toc_key d))
    × AllApart dir ds

abbrev pub AllPresent : DiskCache → Disk → List Hash → Type 0
AllPresent c disk ds =
    All (λ d. (has_value c (gsip_key d) disk ≡ true) × (has_value c (toc_key d) disk ≡ true)) ds

module _ (c c' : DiskCache) (key : Bytes) (disk disk' : Disk) (dir : c'.dir ≡ c.dir)
    (from : IsFrom (path_of c key) disk disk') (there : has_value c' key disk' ≡ true) where
  pub has-earlier : has_value c key disk ≡ true
  unfolding has_value has
  has-earlier =
      let p : path_of c' key ≡ path_of c key = ap (λ d. below d key) dir in
      elim (Option-cases (lookup (path_of c' key) disk')) [
        | inl n ↦ absurd (ground (arith, n, there))
        | inr (g, e) ↦
            let (f, before, same) = from g (ap (λ q. lookup q disk') (sym p) ∙ e) in
            ap is_some before
      ]

  Holds-later : (bytes : Bytes) → Holds c key disk bytes → Holds c' key disk' bytes
  unfolding has_value has
  Holds-later bytes (f, at, content) =
      let p : path_of c' key ≡ path_of c key = ap (λ d. below d key) dir in
      elim (Option-cases (lookup (path_of c' key) disk')) [
        | inl n ↦ absurd (ground (arith, n, there))
        | inr (g, e) ↦
            let (h, before, same) = from g (ap (λ q. lookup q disk') (sym p) ∙ e) in
            (g, e, ground (arith, at, before, same, content))
      ]

module _ {L T Rd Zr Fs E : Type 0} (lib : Libraries L T Rd Zr Fs E) (rra : BlobReader Rd) (d : Hash)
    (size : ℕ) where
  -- Both indexes are there later, and nothing else was written to their files.
  pub IsStored-later :
      (layer : Layer Fs) (c c' : DiskCache) (disk disk' : Disk)
      → c'.dir ≡ c.dir
      → IsFrom (path_of c (gsip_key d)) disk disk'
      → IsFrom (path_of c (toc_key d)) disk disk'
      → has_value c' (gsip_key d) disk' ≡ true
      → has_value c' (toc_key d) disk' ≡ true
      → IsStored lib rra d size layer c disk
      → IsStored lib rra d size layer c' disk'
  IsStored-later layer c c' disk disk' dir a b g t s = record {
    gz = s.gz;
    toc = s.toc;
    zr = s.zr;
    gsip_held = Holds-later c c' (gsip_key d) disk disk' dir a g s.gz s.gsip_held;
    toc_held = Holds-later c c' (toc_key d) disk disk' dir b t s.toc s.toc_held;
    gsip_decoded = s.gsip_decoded;
    toc_decoded = s.toc_decoded;
    fs_decoded = s.fs_decoded;
    same = s.same;
  }

  module _ (c : DiskCache) (k bytes : Bytes) where
    zr_cached-Holds :
        (calls : Calls) (disk : Disk) (r : Result E Zr)
        → Holds c k disk bytes
        → Holds c k (zr_cached lib calls c d disk r).1 bytes
    zr_cached-Holds calls disk (err e) h = h
    zr_cached-Holds calls disk (ok zr) h =
        let opened = open_at calls.open_toc c (toc_key d) disk in
        subst (λ x. Holds c k x bytes) (sym (read_all-disk calls.read_toc opened))
          (Holds-open_at calls.open_toc c (toc_key d) k disk bytes h)

    gsip_cached-Holds :
        (calls : Calls) (r : Result IoError Bytes × Disk)
        → Holds c k r.1 bytes
        → Holds c k (gsip_cached lib calls c rra size d r).1 bytes
    gsip_cached-Holds calls (err not_exist, disk) h = h
    gsip_cached-Holds calls (err (io_failed n), disk) h = h
    gsip_cached-Holds calls (ok gz, disk) h =
        zr_cached-Holds calls disk (lib.decode_gsip rra size gz) h

    -- Loading a layer removes no file.
    pub load_cached-Holds :
        (calls : Calls) (disk : Disk)
        → Holds c k disk bytes
        → Holds c k (load_cached lib calls c rra size d disk).1 bytes
    unfolding load_cached
    load_cached-Holds calls disk h =
        elim (Bool-cases
          (not (has_value c (gsip_key d) disk) || not (has_value c (toc_key d) disk))) [
            | inl t ↦ rw (t, load_cached) h
            | inr f ↦
                rw (f, load_cached)
                  (gsip_cached-Holds calls (open_at calls.open_gsip c (gsip_key d) disk)
                    (Holds-open_at calls.open_gsip c (gsip_key d) k disk bytes h))
          ]

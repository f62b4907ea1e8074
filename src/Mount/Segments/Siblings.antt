-- ===== src/Mount/Segments/Siblings.antt =====
-- internal/mount/mount.go: the symlinks for the platforms of an index.
use ocifuse.Prelude.{
  ◌≡◌, refl, ap, ◌∙◌, ◌&&◌, not, Option, none, some, List, [], ◌∷◌, Bytes, ◌==◌, bytes_eq,
  if◌then◌else◌, arith, Option-cases, inl, inr,
}
use ocifuse.Prelude.Dict.{Dict, lookup, has, lookup-insert}
use ocifuse.Oci.{Context, Platform, PlatformDigest}
use ocifuse.Mount.{tag_ref, Inode}
use ocifuse.Mount.Segments.{
  is_current, sibling, sibling_name, add_sibling, add_siblings, add_platform_siblings, repo_base,
}

module _ {L T Fs : Type 0} where
  -- The first platform with this name that is not the current one.
  abbrev pub first_named :
      Bytes → Bytes → Option Platform → Bytes → List PlatformDigest → Option (Inode L T Fs)
  first_named base tag current n [] = none
  first_named base tag current n (pd ∷ pds) =
      let rest = first_named base tag current n pds in
      if not (is_current current pd.platform) && sibling_name base tag pd.platform == n
      then some (sibling base pd)
      else rest

  -- A child that is there, or else another one.
  abbrev pub or_else : Option (Inode L T Fs) → Option (Inode L T Fs) → Option (Inode L T Fs)
  or_else (some x) other = some x
  or_else none other = other

  -- The sibling that the platform asks for under this name.
  abbrev pub wanted :
      Bytes → Bytes → Option Platform → Bytes → PlatformDigest → Option (Inode L T Fs)
  wanted base tag current n pd =
      if not (is_current current pd.platform) && sibling_name base tag pd.platform == n
      then some (sibling base pd)
      else none

  lookup-add_sibling :
      (base tag : Bytes) (current : Option Platform) (pd : PlatformDigest) (n : Bytes)
      (children : Dict Bytes (Inode L T Fs))
      → lookup n (add_sibling base tag current pd children)
        ≡ or_else (lookup n children) (wanted base tag current n pd)
  unfolding add_sibling has
  lookup-add_sibling base tag current pd n children = ground (
    arith,
    lookup-insert (sibling_name base tag pd.platform) n (sibling base pd) children,
    bytes_eq.equal_iff (sibling_name base tag pd.platform) n,
  )

  or_else-first :
      (base tag : Bytes) (current : Option Platform) (pd : PlatformDigest)
      (pds : List PlatformDigest) (n : Bytes) (o : Option (Inode L T Fs))
      → or_else (or_else o (wanted base tag current n pd)) (first_named base tag current n pds)
        ≡ or_else o (first_named base tag current n (pd ∷ pds))
  or_else-first base tag current pd pds n o = ground arith

  lookup-add_siblings :
      (base tag : Bytes) (current : Option Platform) (pds : List PlatformDigest) (n : Bytes)
      (children : Dict Bytes (Inode L T Fs))
      → lookup n (add_siblings base tag current pds children)
        ≡ or_else (lookup n children) (first_named base tag current n pds)
  unfolding add_siblings
  lookup-add_siblings base tag current [] n children = elim (Option-cases (lookup n children)) [
    | inl e ↦ rw e refl
    | inr (x, e) ↦ rw e refl
  ]
  lookup-add_siblings base tag current (pd ∷ pds) n children =
      lookup-add_siblings base tag current pds n (add_sibling base tag current pd children)
      ∙ ap (λ o. or_else o (first_named base tag current n pds))
          (lookup-add_sibling base tag current pd n children)
      ∙ or_else-first base tag current pd pds n (lookup n children)

  -- After the siblings of a tag were added, a name of the directory is what it was before, if
  -- it was there; else it is the symlink for the first platform of the index that has this
  -- name and is not the current one, if there is one.
  pub lookup-add_platform_siblings :
      (ctx : Context) (tag : Bytes) (current : Option Platform) (pds : List PlatformDigest)
      (n : Bytes) (children : Dict Bytes (Inode L T Fs))
      → lookup n (add_platform_siblings (tag_ref ctx tag) current pds children)
        ≡ or_else (lookup n children) (first_named (repo_base (tag_ref ctx tag)) tag current n pds)
  unfolding add_platform_siblings
  lookup-add_platform_siblings ctx tag current pds n children =
      lookup-add_siblings (repo_base (tag_ref ctx tag)) tag current pds n children

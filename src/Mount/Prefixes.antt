-- ===== src/Mount/Prefixes.antt =====
-- internal/mount/mount.go: lookups above the images, at the root and at the prefixes of registries
-- and repositories.
pub mod Fails
pub mod Followed
pub mod Answers
use ocifuse.Prelude.{
  ◌+◌, ℕ, ◌*◌, ℤ, pos, nonpositive, Option, none, some, List, [], ◌∷◌, Bytes, length, if◌then◌else◌,
  Result, ok, err,
}
use ocifuse.Prelude.Dict.{Dict}
use ocifuse.SlashPath.{root}
use ocifuse.Oci.{Platform, PlatformDigest, Hash}
use ocifuse.Mount.{
  s_ifdir, s_iflnk, EntryOut, set_mode, enoent, eio, Reference, mem_symlink, image_dir, ImageDir,
  ResolvedImage, intermediate_node, Inode, Found, Filesystem, Services,
}
use ocifuse.Mount.Dirs.{plain_dir}
use ocifuse.Fspath.{ParseError}
use ocifuse.Mount.Images.{ImageError, resolve_image, resolve_tag_digest}
use ocifuse.Mount.Segments.{
  Segment, seg_intermediate, seg_tag_ref, seg_digest_ref, classify_segment, tag_symlink_target,
  add_platform_siblings, platform_or,
}

-- The state that a lookup may change: the file system, what is outside, and the children that the
-- directory has got.
pub record World (S L T Fs : Type 0) : Type 0 where
  pub filesystem : Filesystem L T Fs
  pub outside : S
  pub children : Dict Bytes (Inode L T Fs)

-- time.Minute
abbrev pub minute : ℤ
minute = pos 60_000_000_000

abbrev pub tag_timeout : ℤ → ℤ
tag_timeout ttl = if nonpositive ttl then minute else ttl

abbrev pub symlink_out : ℤ → Bytes → EntryOut → EntryOut
symlink_out ttl target out = record (set_mode s_iflnk out) {
  attr = record out.attr { mode = s_iflnk + 0o777; size = length target };
  entry_timeout = some ttl;
}

-- The siblings are added if the index has platforms.
abbrev pub with_siblings :
    {L T Fs : Type 0}
    → Reference
    → Option Platform
    → List PlatformDigest
    → Dict Bytes (Inode L T Fs)
    → Dict Bytes (Inode L T Fs)
with_siblings ref plat [] children = children
with_siblings ref plat (pd ∷ pds) children = add_platform_siblings ref plat (pd ∷ pds) children

-- What tagSymlink makes of the digest and the platforms.
abbrev pub linked :
    {S L T Fs E : Type 0}
    → Reference
    → Option Platform
    → EntryOut
    → World S L T Fs
    → Result E (Hash × List PlatformDigest) × S
    → Found L T Fs × World S L T Fs
linked ref plat out w (err e, after) = (err eio, record w { outside = after })
linked ref plat out w (ok (digest, platforms), after) =
    let target = tag_symlink_target ref digest in
    (
      ok (
        record { node = mem_symlink target; mode = s_iflnk },
        symlink_out (tag_timeout w.filesystem.tag_ttl) target out,
      ),
      record w { outside = after; children = with_siblings ref plat platforms w.children },
    )

-- The root directory of an image.
abbrev pub image_root_dir : {L T Fs : Type 0} → ResolvedImage L T Fs → ImageDir L T Fs
image_root_dir ri = record { ri = ri; tree = ri.tree; path = root }

-- What imageRoot makes of the resolved image.
abbrev pub rooted :
    {S L T Fs E : Type 0}
    → EntryOut
    → World S L T Fs
    → Result (ImageError E) (ResolvedImage L T Fs) × (Filesystem L T Fs × S)
    → Found L T Fs × World S L T Fs
rooted out w (err e, (fs, after)) = (err eio, record w { filesystem = fs; outside = after })
rooted out w (ok ri, (fs, after)) = (
  ok (plain_dir (image_dir (image_root_dir ri)) out),
  record w { filesystem = fs; outside = after },
)

module _ {S L T Fs F E : Type 0} (calls : Services S L T Fs F E) where
  unfoldable pub tag_symlink :
      Reference → Option Platform → EntryOut → World S L T Fs → Found L T Fs × World S L T Fs
  tag_symlink ref plat out w =
      linked ref plat out w (resolve_tag_digest calls ref (platform_or w.filesystem plat) w.outside)

  unfoldable pub image_root :
      Reference → Option Platform → EntryOut → World S L T Fs → Found L T Fs × World S L T Fs
  image_root ref plat out w =
      rooted out w (resolve_image calls ref (platform_or w.filesystem plat) w.filesystem w.outside)

  abbrev pub at_segment :
      Bytes → Segment → EntryOut → World S L T Fs → Found L T Fs × World S L T Fs
  at_segment full seg_intermediate out w = (ok (plain_dir (intermediate_node full) out), w)
  at_segment full (seg_tag_ref ref plat) out w = tag_symlink ref plat out w
  at_segment full (seg_digest_ref ref plat) out w = image_root ref plat out w

  -- What resolveSegment makes of a classified segment.
  abbrev pub resolved :
      EntryOut
      → World S L T Fs
      → Bytes × Result (ParseError E) Segment
      → Found L T Fs × World S L T Fs
  resolved out w (full, err e) = (err enoent, w)
  resolved out w (full, ok segment) = at_segment full segment out w

  unfoldable pub resolve_segment :
      Bytes → Bytes → EntryOut → World S L T Fs → Found L T Fs × World S L T Fs
  resolve_segment accumulated child out w =
      resolved out w (classify_segment calls accumulated child)

  -- rootNode.Lookup
  unfoldable pub root_lookup : Bytes → EntryOut → World S L T Fs → Found L T Fs × World S L T Fs
  root_lookup child out w = resolve_segment [] child out w

  -- intermediateNode.Lookup
  unfoldable pub intermediate_lookup :
      Bytes → Bytes → EntryOut → World S L T Fs → Found L T Fs × World S L T Fs
  intermediate_lookup prefix child out w = resolve_segment prefix child out w

-- ===== src/Mount/Segments.antt =====
-- internal/mount/mount.go: what a segment of a path above the images is.
pub mod Siblings
pub mod Links
use ocifuse.Prelude.{
  ◌&&◌, Bool, true, false, Option, none, some, List, [], ◌∷◌, ◌++◌, Bytes, codes, bytes_eq, ◌==◌,
  if◌then◌else◌, Result, ok, err,
}
use ocifuse.Prelude.Dict.{Dict, insert, has}
use ocifuse.SlashPath.{slash, is_empty, base}
use ocifuse.Fspath.{Parsed, ParseError, parse}
use ocifuse.Oci.{Hash, Platform, PlatformDigest, Context, hash_string}
use ocifuse.Mount.{
  s_iflnk, Reference, digest_ref, tag_ref, context, mem_symlink, Inode, Filesystem, Services,
}

pub data Segment : Type 0 where
  seg_intermediate : Segment
  seg_tag_ref : Reference → Option Platform → Segment
  seg_digest_ref : Reference → Option Platform → Segment

unfoldable pub full_path : Bytes → Bytes → Bytes
full_path accumulated child = if is_empty accumulated then child else accumulated ++ slash ∷ child

-- The type switch on the reference.
abbrev pub by_reference : Reference → Option Platform → Segment
by_reference (digest_ref ctx digest) platform = seg_digest_ref (digest_ref ctx digest) platform
by_reference (tag_ref ctx tag) platform = seg_tag_ref (tag_ref ctx tag) platform

abbrev pub segment_of : Parsed Reference Platform → Segment
segment_of parsed = elim parsed.ref [
  | none ↦ seg_intermediate
  | some ref ↦ by_reference ref parsed.platform
]

-- The basename of the repository of a reference.
unfoldable pub repo_base : Reference → Bytes
repo_base ref = base (context ref).repository

unfoldable pub tag_symlink_target : Reference → Hash → Bytes
tag_symlink_target ref digest = repo_base ref ++ b'@' ∷ hash_string digest

abbrev pub same_platform : Platform → Platform → Bool
same_platform a b = a.os == b.os && (a.architecture == b.architecture && a.variant == b.variant)

unfoldable pub platform_spec : Platform → Bytes
platform_spec p =
    let spec = p.os ++ b'-' ∷ p.architecture in
    if is_empty p.variant then spec else spec ++ b'-' ∷ p.variant

unfoldable pub sibling_name : Bytes → Bytes → Platform → Bytes
sibling_name base tag p = base ++ b':' ∷ tag ++ b'~' ∷ platform_spec p

-- The platform is that of the lookup itself.
abbrev pub is_current : Option Platform → Platform → Bool
is_current none p = false
is_current (some current) p = same_platform current p

abbrev pub sibling : {L T Fs : Type 0} → Bytes → PlatformDigest → Inode L T Fs
sibling base pd = record {
  node = mem_symlink (base ++ b'@' ∷ hash_string pd.digest);
  mode = s_iflnk;
}

-- One round of the loop. AddChild does not replace a child.
unfoldable pub add_sibling :
    {L T Fs : Type 0}
    → Bytes
    → Bytes
    → Option Platform
    → PlatformDigest
    → Dict Bytes (Inode L T Fs)
    → Dict Bytes (Inode L T Fs)
unfolding has
add_sibling base tag current pd children =
    let name = sibling_name base tag pd.platform in
    if is_current current pd.platform
    then children
    else if has name children
    then children
    else insert name (sibling base pd) children

unfoldable pub add_siblings :
    {L T Fs : Type 0}
    → Bytes
    → Bytes
    → Option Platform
    → List PlatformDigest
    → Dict Bytes (Inode L T Fs)
    → Dict Bytes (Inode L T Fs)
add_siblings base tag current [] children = children
add_siblings base tag current (pd ∷ pds) children =
    add_siblings base tag current pds (add_sibling base tag current pd children)

unfoldable pub add_platform_siblings :
    {L T Fs : Type 0}
    → Reference
    → Option Platform
    → List PlatformDigest
    → Dict Bytes (Inode L T Fs)
    → Dict Bytes (Inode L T Fs)
add_platform_siblings (digest_ref ctx digest) current pds children = children
add_platform_siblings (tag_ref ctx tag) current pds children =
    add_siblings (repo_base (tag_ref ctx tag)) tag current pds children

-- The accumulated path with the segment, and what the outcome of Parse says it is.
abbrev pub classified :
    {E : Type 0}
    → Bytes
    → Result (ParseError E) (Parsed Reference Platform)
    → Bytes × Result (ParseError E) Segment
classified full (err e) = (full, err e)
classified full (ok parsed) = (full, ok (segment_of parsed))

module _ {S L T Fs F E : Type 0} (calls : Services S L T Fs F E) where
  unfoldable pub classify_segment : Bytes → Bytes → Bytes × Result (ParseError E) Segment
  classify_segment accumulated child =
      let full = full_path accumulated child in
      classified full (parse calls.parse_reference calls.parse_platform full)

abbrev pub platform_or : {L T Fs : Type 0} → Filesystem L T Fs → Option Platform → Platform
platform_or fs none = fs.platform
platform_or fs (some p) = p

-- ===== src/Mount/Prefixes/Fails.antt =====
-- internal/mount/mount.go: lookups above the images that fail.
use mathlib.Core.Path.{subst}
use ocifuse.Prelude.{◌≡◌, refl, ap, Option, Bytes, List, Result, ok, err}
use ocifuse.Fspath.{ParseError}
use ocifuse.Oci.{Platform, Hash, PlatformDigest}
use ocifuse.Mount.{
  EntryOut, Errno, enoent, eio, Reference, Found, Filesystem, ResolvedImage, Services,
}
use ocifuse.Mount.Images.{ImageError, resolve_tag_digest}
use ocifuse.Mount.Images.Again.{IsStep, resolve_image-IsStep}
use ocifuse.Mount.Segments.{
  Segment, seg_intermediate, seg_tag_ref, seg_digest_ref, classify_segment, platform_or,
}
use ocifuse.Mount.Prefixes.{
  World, linked, rooted, tag_symlink, image_root, resolved, resolve_segment,
}

-- An error is this one, and leaves the images and the children as they were.
abbrev pub FailsOnly :
    {S L T Fs : Type 0} → Errno → World S L T Fs → Found L T Fs × World S L T Fs → Type 0
FailsOnly errno w (ok answer, w') = Unit
FailsOnly errno w (err e, w') = (e ≡ errno) × (w' ≡ record w { outside = w'.outside })

linked-FailsOnly :
    {S L T Fs E : Type 0} (ref : Reference) (plat : Option Platform) (out : EntryOut)
    (w : World S L T Fs) (answer : Result E (Hash × List PlatformDigest) × S)
    → FailsOnly eio w (linked ref plat out w answer)
linked-FailsOnly ref plat out w (err e, after) = (refl, refl)
linked-FailsOnly ref plat out w (ok (digest, platforms), after) = tt

rooted-FailsOnly :
    {S L T Fs E : Type 0} (out : EntryOut) (w : World S L T Fs)
    (answer : Result (ImageError E) (ResolvedImage L T Fs) × (Filesystem L T Fs × S))
    → IsStep w.filesystem answer
    → FailsOnly eio w (rooted out w answer)
rooted-FailsOnly out w (err e, (fs, after)) same =
    (refl, ap (λ g. record w { filesystem = g; outside = after }) same)
rooted-FailsOnly out w (ok ri, (fs, after)) step = tt

-- ENOENT for a path that is not parsed.
abbrev pub errno_of : {E : Type 0} → Bytes × Result (ParseError E) Segment → Errno
errno_of (full, err e) = enoent
errno_of (full, ok segment) = eio

module _ {S L T Fs F E : Type 0} (calls : Services S L T Fs F E) where
  resolved-FailsOnly :
      (out : EntryOut) (w : World S L T Fs) (c : Bytes × Result (ParseError E) Segment)
      → FailsOnly (errno_of c) w (resolved calls out w c)
  unfolding tag_symlink image_root
  resolved-FailsOnly out w (full, err e) = (refl, refl)
  resolved-FailsOnly out w (full, ok seg_intermediate) = tt
  resolved-FailsOnly out w (full, ok (seg_tag_ref ref plat)) =
      linked-FailsOnly ref plat out w
        (resolve_tag_digest calls ref (platform_or w.filesystem plat) w.outside)
  resolved-FailsOnly out w (full, ok (seg_digest_ref ref plat)) =
      rooted-FailsOnly out w _
        (resolve_image-IsStep calls ref (platform_or w.filesystem plat) w.filesystem w.outside)

  resolve_segment-FailsOnly :
      (accumulated child : Bytes) (out : EntryOut) (w : World S L T Fs)
      → FailsOnly
          (errno_of (classify_segment calls accumulated child))
          w
          (resolve_segment calls accumulated child out w)
  unfolding resolve_segment
  resolve_segment-FailsOnly accumulated child out w =
      resolved-FailsOnly out w (classify_segment calls accumulated child)

  -- A lookup above the images that fails leaves the images and the children of the directory
  -- as they were; its error is ENOENT if the path is not parsed and EIO else.
  pub resolve_segment_fails :
      (accumulated child : Bytes) (out : EntryOut) (w w' : World S L T Fs) (errno : Errno)
      → resolve_segment calls accumulated child out w ≡ (err errno, w')
      → (errno ≡ errno_of (classify_segment calls accumulated child))
        × (w' ≡ record w { outside = w'.outside })
  resolve_segment_fails accumulated child out w w' errno h =
      subst (FailsOnly (errno_of (classify_segment calls accumulated child)) w) h
        (resolve_segment-FailsOnly accumulated child out w)

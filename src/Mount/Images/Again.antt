-- ===== src/Mount/Images/Again.antt =====
-- internal/mount/mount.go: resolveImage as a step on the map of images, and calls that come later.
use mathlib.Core.Path.{subst}
use ocifuse.Prelude.{
  ◌≡◌, refl, sym, ap, ◌∙◌, some, List, Bytes, Result, ok, err, Option-cases, Result-cases, inl, inr,
}
use ocifuse.Prelude.Dict.{lookup}
use ocifuse.Oci.{Context, Platform, Image}
use ocifuse.Mount.{hash_eq, Reference, digest_ref, tag_ref, ResolvedImage, Filesystem, Services}
use ocifuse.Mount.Images.{
  ImageError, cached_by_ref, build_image, commit_built, build_resolved, fetch_image, resolve_image,
}
use ocifuse.Mount.Images.Built.{Builds, build_image-Builds}
use ocifuse.Mount.Images.Shared.{
  Images, Delivers, found, committed, Reachable, IsSound, Follows, Follows-stays, Delivers-IsSafe,
  Reachable-IsSound,
}

-- A call that fails changes nothing; another one is a step on the map of images.
abbrev pub IsStep :
    {L T Fs S E : Type 0}
    → Filesystem L T Fs
    → Result (ImageError E) (ResolvedImage L T Fs) × (Filesystem L T Fs × S)
    → Type 0
IsStep fs (err e, (fs', s)) = fs' ≡ fs
IsStep fs (ok ri, (fs', s)) =
    (images : Images _ _ _) × (fs' ≡ record fs { images = images }) × Delivers fs.images ri images

module _ {S L T Fs F E : Type 0} (calls : Services S L T Fs F E) where
  commit_built-IsStep :
      (fs : Filesystem L T Fs) (built : Result (ImageError E) (ResolvedImage L T Fs) × S)
      → Builds built
      → IsStep fs (commit_built calls fs built)
  unfolding commit_built
  commit_built-IsStep fs (err e, s) b = refl
  commit_built-IsStep fs (ok ri, s) b = (_, refl, committed ri b)

  build_resolved-IsStep :
      (fs : Filesystem L T Fs) (resolved : Result E (Image Reference L T) × S)
      → IsStep fs (build_resolved calls fs resolved)
  unfolding build_resolved
  build_resolved-IsStep fs (err e, s) = refl
  build_resolved-IsStep fs (ok img, s) = elim (Option-cases (lookup img.digest fs.images)) [
    | inl e ↦
        rw (e, build_resolved)
          (commit_built-IsStep fs (build_image calls img s) (build_image-Builds calls img s))
    | inr (ri, e) ↦ rw (e, build_resolved) (fs.images, refl, found img.digest e)
  ]

  cached_by_ref-found :
      (ref : Reference) (images : Images L T Fs) (ri : ResolvedImage L T Fs)
      → cached_by_ref calls ref images ≡ some ri
      → Delivers images ri images
  unfolding cached_by_ref
  cached_by_ref-found (tag_ref ctx tag) images ri h = cc
  cached_by_ref-found (digest_ref ctx digest) images ri h =
      elim (Result-cases (calls.new_hash digest)) [
        | inl (e, p) ↦ cc (rw (p, cached_by_ref) at h)
        | inr (d, p) ↦ found d (rw (p, cached_by_ref) at h)
      ]

  -- A call of resolveImage that fails leaves the file system as it was; another one changes
  -- only the map of images, by one step of the shared map: it returns an image that it finds
  -- there, or one that it built with a layer for each layer of the manifest and the merged
  -- tree of their entries, unless there is one by now.
  pub resolve_image-IsStep :
      (ref : Reference) (platform : Platform) (fs : Filesystem L T Fs) (s : S)
      → IsStep fs (resolve_image calls ref platform fs s)
  unfolding resolve_image fetch_image
  resolve_image-IsStep ref platform fs s = elim (Option-cases (cached_by_ref calls ref fs.images)) [
    | inl e ↦ rw (e, resolve_image) (build_resolved-IsStep fs (calls.resolve ref platform s))
    | inr (ri, e) ↦ rw (e, resolve_image) (fs.images, refl, cached_by_ref-found ref fs.images ri e)
  ]

  -- Once a digest reference was resolved, from a map that calls have filled, to an image with
  -- that digest, it is resolved to this image for any platform, after any number of further
  -- calls, without a request and without a change of the map.
  pub resolve_image_again :
      (ctx : Context) (digest : Bytes) (platform other : Platform)
      (fs fs' later : Filesystem L T Fs) (s s' s_later : S) (ri : ResolvedImage L T Fs)
      (returned : List (ResolvedImage L T Fs))
      → Reachable fs.images returned
      → resolve_image calls (digest_ref ctx digest) platform fs s ≡ (ok ri, (fs', s'))
      → calls.new_hash digest ≡ ok ri.img.digest
      → Follows fs'.images later.images
      → resolve_image calls (digest_ref ctx digest) other later s_later ≡ (ok ri, (later, s_later))
  unfolding resolve_image cached_by_ref
  resolve_image_again ctx digest platform other fs fs' later s s' s_later ri returned r h d f =
      let (images, same, step) =
        subst (IsStep fs) h (resolve_image-IsStep (digest_ref ctx digest) platform fs s) in
      let safe = Delivers-IsSafe step (Reachable-IsSound r).0 in
      let at : fs'.images ≡ images = ap (λ (g : Filesystem L T Fs). g.images) same in
      let (sound, there) =
        Follows-stays ri.img.digest ri f (subst IsSound (sym at) safe.sound)
          (ap (lookup ri.img.digest) at ∙ safe.kept) in
      rw (d, there, resolve_image) refl

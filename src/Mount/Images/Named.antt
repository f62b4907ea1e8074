-- ===== src/Mount/Images/Named.antt =====
-- internal/mount/mount.go: the digest of the image that resolveImage returns.
use mathlib.Core.Path.{subst}
use ocifuse.Prelude.{
  ◌⊎◌, ◌≡◌, refl, sym, ap, ◌∙◌, some, Bytes, List, Result, ok, err, Option-cases, Result-cases, inl,
  inr, arith,
}
use ocifuse.Prelude.Dict.{lookup, All-lookup}
use ocifuse.Oci.{Hash, Platform, Image, Context}
use ocifuse.Indexer.{Layer}
use ocifuse.Merge.{TarEntry}
use ocifuse.Mount.{Reference, digest_ref, hash_eq, ResolvedImage, Filesystem, Services}
use ocifuse.Mount.Images.Shared.{Images, IsSound}
use ocifuse.Mount.Images.{
  ImageError, commit, cached_by_ref, open_layers, merge_layers, build_image, commit_built,
  build_resolved, fetch_image, resolve_image,
}

module _ {S L T Fs F E : Type 0} (calls : Services S L T Fs F E) where
  -- An image that is returned has this digest.
  abbrev HasDigest : {X : Type 0} → Hash → Result (ImageError E) (ResolvedImage L T Fs) × X → Type 0
  HasDigest d (err e, x) = Unit
  HasDigest d (ok ri, x) = ri.img.digest ≡ d

  merge_layers-HasDigest :
      (img : Image Reference L T)
      (opened : Result (ImageError E) (List (Layer Fs) × List (List TarEntry)) × S)
      → HasDigest img.digest (merge_layers calls img opened)
  merge_layers-HasDigest img (err e, s) = tt
  merge_layers-HasDigest img (ok (layers, entries), s) = refl

  commit_built-HasDigest :
      (fs : Filesystem L T Fs) (d : Hash) (built : Result (ImageError E) (ResolvedImage L T Fs) × S)
      → IsSound fs.images
      → HasDigest d built
      → HasDigest d (commit_built calls fs built)
  unfolding commit_built commit
  commit_built-HasDigest fs d (err e, s) sound h = tt
  commit_built-HasDigest fs d (ok ri, s) sound h =
      elim (Option-cases (lookup ri.img.digest fs.images)) [
        | inl n ↦ rw (n, commit) h
        | inr (x, there) ↦
            rw (there, commit) ((All-lookup _ ri.img.digest x fs.images sound there).0 ∙ h)
      ]

  build_resolved-HasDigest :
      (fs : Filesystem L T Fs) (img : Image Reference L T)
      (resolved : Result E (Image Reference L T) × S)
      → IsSound fs.images
      → resolved.0 ≡ ok img
      → HasDigest img.digest (build_resolved calls fs resolved)
  unfolding build_resolved build_image
  build_resolved-HasDigest fs img (err e, s) sound r = tt
  build_resolved-HasDigest fs img (ok found, s) sound r =
      let same : found.digest ≡ img.digest = ground (arith, r) in
      elim (Option-cases (lookup found.digest fs.images)) [
        | inr (ri, there) ↦
            rw (there, build_resolved)
              ((All-lookup _ found.digest ri fs.images sound there).0 ∙ same)
        | inl n ↦
            rw (n, build_resolved)
              (commit_built-HasDigest fs img.digest (build_image calls found s) sound (
                subst (λ d. HasDigest d (build_image calls found s)) same
                  (merge_layers-HasDigest found (open_layers calls found found.layers s))))
      ]

  -- An image that is returned has the digest of the reference, or of what it resolves to.
  abbrev pub IsNamed :
      {X : Type 0} → Bytes → Hash → Result (ImageError E) (ResolvedImage L T Fs) × X → Type 0
  IsNamed digest d (err e, x) = Unit
  IsNamed digest d (ok ri, x) = (calls.new_hash digest ≡ ok ri.img.digest) ⊎ (ri.img.digest ≡ d)

  HasDigest-IsNamed :
      {X : Type 0} (digest : Bytes) (d : Hash)
      (r : Result (ImageError E) (ResolvedImage L T Fs) × X)
      → HasDigest d r
      → IsNamed digest d r
  HasDigest-IsNamed digest d (err e, x) h = tt
  HasDigest-IsNamed digest d (ok ri, x) h = inr h

  cached_by_ref-named :
      (ctx : Context) (digest : Bytes) (images : Images L T Fs) (ri : ResolvedImage L T Fs)
      → IsSound images
      → cached_by_ref calls (digest_ref ctx digest) images ≡ some ri
      → calls.new_hash digest ≡ ok ri.img.digest
  unfolding cached_by_ref
  cached_by_ref-named ctx digest images ri sound h = elim (Result-cases (calls.new_hash digest)) [
    | inl (e, p) ↦ cc (rw (p, cached_by_ref) at h)
    | inr (d, p) ↦
        let there : lookup d images ≡ some ri = rw (p, cached_by_ref) at h in
        p ∙ ap ok (sym (All-lookup _ d ri images sound there).0)
  ]

  pub resolve_image-IsNamed :
      (ctx : Context) (digest : Bytes) (platform : Platform) (fs : Filesystem L T Fs) (s : S)
      (img : Image Reference L T)
      → IsSound fs.images
      → (calls.resolve (digest_ref ctx digest) platform s).0 ≡ ok img
      → IsNamed digest img.digest (resolve_image calls (digest_ref ctx digest) platform fs s)
  unfolding resolve_image fetch_image
  resolve_image-IsNamed ctx digest platform fs s img sound r =
      elim (Option-cases (cached_by_ref calls (digest_ref ctx digest) fs.images)) [
        | inr (ri, e) ↦
            rw (e, resolve_image) (inl (cached_by_ref-named ctx digest fs.images ri sound e))
        | inl e ↦
            rw (e, resolve_image)
              (HasDigest-IsNamed digest img.digest _ (
                build_resolved-HasDigest fs img (calls.resolve (digest_ref ctx digest) platform s)
                  sound r))
      ]

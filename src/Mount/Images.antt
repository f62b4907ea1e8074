-- ===== src/Mount/Images.antt =====
-- internal/mount/mount.go: the cache of resolved images. A call for a reference that another call
-- already fetches waits for its result (singleflight), and so is no step of its own.
pub mod Built
pub mod Shared
pub mod Again
pub mod Named
use ocifuse.Prelude.{◌∷◌, [], List, Option, none, some, Bytes, Result, ok, err}
use ocifuse.Prelude.Dict.{Dict, lookup, insert}
use ocifuse.Merge.{TarEntry}
use ocifuse.Merge.Build.{merge}
use ocifuse.Oci.{Hash, Platform, PlatformDigest, Context, Image, blob_url}
use ocifuse.Indexer.{Layer}
use ocifuse.Mount.{
  Reference, digest_ref, tag_ref, context, hash_eq, ResolvedImage, Filesystem, Services,
}

-- The errors of the calls, and "index layer %s: %w".
pub data ImageError (E : Type 0) : Type 0 where
  call_failed : E → ImageError E
  index_failed : Hash → E → ImageError E

module _ {L T Fs : Type 0} where
  -- The map is asked once more before the image is put into it; what is there counts.
  unfoldable pub commit :
      ResolvedImage L T Fs
      → Dict Hash (ResolvedImage L T Fs)
      → ResolvedImage L T Fs × Dict Hash (ResolvedImage L T Fs)
  commit ri images = elim (lookup ri.img.digest images) [
    | some existing ↦ (existing, images)
    | none ↦ (ri, insert ri.img.digest ri images)
  ]

module _ {S L T Fs F E : Type 0} (calls : Services S L T Fs F E) where
  -- The image of a digest reference, if its digest is a key of the map.
  unfoldable pub cached_by_ref :
      Reference → Dict Hash (ResolvedImage L T Fs) → Option (ResolvedImage L T Fs)
  cached_by_ref (tag_ref ctx tag) images = none
  cached_by_ref (digest_ref ctx digest) images = elim (calls.new_hash digest) [
    | err e ↦ none
    | ok h ↦ lookup h images
  ]

  -- One round of the loop over the layers: the layer is opened at the URL of its blob.
  unfoldable pub open_one : Image Reference L T → L → S → Result (ImageError E) (Layer Fs) × S
  open_one img l s = elim (calls.layer_digest l) [
    | err e ↦ (err (call_failed e), s)
    | ok d ↦
        let (opened, after) = calls.open_layer (blob_url (context img.ref) d) l img.transport s in
        elim opened [ err e ↦ (err (index_failed d e), after) | ok layer ↦ (ok layer, after) ]
  ]

  -- A layer in front of those of the rest of the loop, or the first error.
  abbrev pub join_layers :
      Result (ImageError E) (Layer Fs) × S
      → Result (ImageError E) (List (Layer Fs) × List (List TarEntry)) × S
      → Result (ImageError E) (List (Layer Fs) × List (List TarEntry)) × S
  join_layers (err e, after) rest = (err e, after)
  join_layers (ok layer, after) (err e, last) = (err e, last)
  join_layers (ok layer, after) (ok (layers, entries), last) =
      (ok (layer ∷ layers, layer.entries ∷ entries), last)

  unfoldable pub open_layers :
      Image Reference L T
      → List L
      → S
      → Result (ImageError E) (List (Layer Fs) × List (List TarEntry)) × S
  open_layers img [] s = (ok ([], []), s)
  open_layers img (l ∷ ls) s =
      let opened = open_one img l s in join_layers opened (open_layers img ls opened.1)

  abbrev pub merge_layers :
      Image Reference L T
      → Result (ImageError E) (List (Layer Fs) × List (List TarEntry)) × S
      → Result (ImageError E) (ResolvedImage L T Fs) × S
  merge_layers img (err e, after) = (err e, after)
  merge_layers img (ok (layers, entries), after) =
      (ok (record { img = img; layers = layers; tree = merge entries }), after)

  -- The layers of the image are opened and merged.
  unfoldable pub build_image :
      Image Reference L T → S → Result (ImageError E) (ResolvedImage L T Fs) × S
  build_image img s = merge_layers img (open_layers img img.layers s)

  unfoldable pub commit_built :
      Filesystem L T Fs
      → Result (ImageError E) (ResolvedImage L T Fs) × S
      → Result (ImageError E) (ResolvedImage L T Fs) × (Filesystem L T Fs × S)
  commit_built fs (err e, last) = (err e, (fs, last))
  commit_built fs (ok ri, last) =
      let (kept, images) = commit ri fs.images in (ok kept, (record fs { images = images }, last))

  -- An image that is in the map by now is not built.
  unfoldable pub build_resolved :
      Filesystem L T Fs
      → Result E (Image Reference L T) × S
      → Result (ImageError E) (ResolvedImage L T Fs) × (Filesystem L T Fs × S)
  build_resolved fs (err e, after) = (err (call_failed e), (fs, after))
  build_resolved fs (ok img, after) = elim (lookup img.digest fs.images) [
    | some ri ↦ (ok ri, (fs, after))
    | none ↦ commit_built fs (build_image img after)
  ]

  -- The function that singleflight runs.
  unfoldable pub fetch_image :
      Reference
      → Platform
      → Filesystem L T Fs
      → S
      → Result (ImageError E) (ResolvedImage L T Fs) × (Filesystem L T Fs × S)
  fetch_image ref platform fs s = build_resolved fs (calls.resolve ref platform s)

  unfoldable pub resolve_image :
      Reference
      → Platform
      → Filesystem L T Fs
      → S
      → Result (ImageError E) (ResolvedImage L T Fs) × (Filesystem L T Fs × S)
  resolve_image ref platform fs s = elim (cached_by_ref ref fs.images) [
    | some ri ↦ (ok ri, (fs, s))
    | none ↦ fetch_image ref platform fs s
  ]

  -- The function that tagSF runs is the call itself.
  unfoldable pub resolve_tag_digest :
      Reference → Platform → S → Result E (Hash × List PlatformDigest) × S
  resolve_tag_digest ref platform s = calls.resolve_digest_and_platforms ref platform s

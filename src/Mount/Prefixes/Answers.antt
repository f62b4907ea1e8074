-- ===== src/Mount/Prefixes/Answers.antt =====
-- internal/mount/mount.go: the lookup of a digest, if every call that it needs succeeds.
use mathlib.Core.Path.{subst}
use ocifuse.Prelude.{
  ◌⊎◌, length, ◌+◌, codes, sym, Bytes, Option, arith, All, ◌≡◌, refl, ap, List, [], ◌∷◌, Result, ok,
  err, Option-cases, inl, inr,
}
use ocifuse.Prelude.Dict.{lookup}
use ocifuse.Oci.{Hash, Platform, Image, blob_url, Context}
use ocifuse.Indexer.{Layer}
use ocifuse.Merge.{TarEntry}
use ocifuse.Mount.Dirs.{plain_dir}
use ocifuse.Mount.Segments.{seg_digest_ref, classify_segment, platform_or}
use ocifuse.Mount.Prefixes.{World, rooted, image_root, resolved, resolve_segment}
use ocifuse.Mount.{
  EntryOut, image_dir, hash_eq, Reference, context, ResolvedImage, Filesystem, Services,
}
use ocifuse.Mount.Images.Shared.{IsSound, Reachable, Reachable-IsSound, Delivers-IsBuilt}
use ocifuse.Mount.Images.Named.{IsNamed, resolve_image-IsNamed}
use ocifuse.Mount.Images.Built.{entries_of}
use ocifuse.Mount.Images.Again.{IsStep, resolve_image-IsStep}
use ocifuse.Merge.Build.{merge}
use ocifuse.Mount.{s_ifdir, set_mode, Found, digest_ref, hash_eq}
use ocifuse.Mount.Images.{
  ImageError, cached_by_ref, open_one, join_layers, open_layers, merge_layers, build_image,
  commit_built, build_resolved, fetch_image, resolve_image,
}

-- The call succeeds.
abbrev pub IsOk : {D A : Type 0} → Result D A → Type 0
IsOk {A = A} r = (a : A) × (r ≡ ok a)

module _ {S L T Fs F E : Type 0} (calls : Services S L T Fs F E) where
  -- The layer has a digest, and can be opened whatever was called before.
  abbrev pub CanOpen : Image Reference L T → L → Type 0
  CanOpen img l =
      (d : Hash) × (calls.layer_digest l ≡ ok d)
      × ((s : S) → IsOk (calls.open_layer (blob_url (context img.ref) d) l img.transport s).0)

  open_one-IsOk :
      (img : Image Reference L T) (l : L) (s : S) → CanOpen img l → IsOk (open_one calls img l s).0
  unfolding open_one
  open_one-IsOk img l s (d, digest, opens) =
      let (layer, e) = opens s in (layer, rw (digest, e, open_one) refl)

  join_layers-IsOk :
      (opened : Result (ImageError E) (Layer Fs) × S)
      (rest : Result (ImageError E) (List (Layer Fs) × List (List TarEntry)) × S)
      → IsOk opened.0
      → IsOk rest.0
      → IsOk (join_layers calls opened rest).0
  join_layers-IsOk (err e, s) rest (layer, h) k = cc
  join_layers-IsOk (ok layer, s) (err e, last) h (layers, k) = cc
  join_layers-IsOk (ok layer, s) (ok (layers, entries), last) h k = (_, refl)

  open_layers-IsOk :
      (img : Image Reference L T) (ls : List L) (s : S)
      → All (CanOpen img) ls
      → IsOk (open_layers calls img ls s).0
  unfolding open_layers
  open_layers-IsOk img [] s h = (_, refl)
  open_layers-IsOk img (l ∷ ls) s h =
      join_layers-IsOk (open_one calls img l s) _ (open_one-IsOk img l s h.0)
        (open_layers-IsOk img ls _ h.1)

  merge_layers-IsOk :
      (img : Image Reference L T)
      (opened : Result (ImageError E) (List (Layer Fs) × List (List TarEntry)) × S)
      → IsOk opened.0
      → IsOk (merge_layers calls img opened).0
  merge_layers-IsOk img (err e, s) (a, h) = cc
  merge_layers-IsOk img (ok (layers, entries), s) h = (_, refl)

  commit_built-IsOk :
      (fs : Filesystem L T Fs) (built : Result (ImageError E) (ResolvedImage L T Fs) × S)
      → IsOk built.0
      → IsOk (commit_built calls fs built).0
  unfolding commit_built
  commit_built-IsOk fs (err e, s) (a, h) = cc
  commit_built-IsOk fs (ok ri, s) h = (_, refl)

  build_resolved-IsOk :
      (fs : Filesystem L T Fs) (img : Image Reference L T)
      (resolved : Result E (Image Reference L T) × S)
      → resolved.0 ≡ ok img
      → All (CanOpen img) img.layers
      → IsOk (build_resolved calls fs resolved).0
  unfolding build_resolved build_image
  build_resolved-IsOk fs img (err e, s) r h = cc
  build_resolved-IsOk fs img (ok found, s) r h =
      let same : img ≡ found = ground (arith, r) in
      let can : All (CanOpen found) found.layers =
        subst (λ (i : Image Reference L T). All (CanOpen i) i.layers) same h in
      elim (Option-cases (lookup found.digest fs.images)) [
        | inr (ri, e) ↦ (ri, rw (e, build_resolved) refl)
        | inl e ↦
            rw (e, build_resolved)
              (commit_built-IsOk fs (build_image calls found s) (
                merge_layers-IsOk found (open_layers calls found found.layers s)
                  (open_layers-IsOk found found.layers s can)))
      ]

  resolve_image-IsOk :
      (ref : Reference) (platform : Platform) (fs : Filesystem L T Fs) (s : S)
      (img : Image Reference L T)
      → (calls.resolve ref platform s).0 ≡ ok img
      → All (CanOpen img) img.layers
      → IsOk (resolve_image calls ref platform fs s).0
  unfolding resolve_image fetch_image
  resolve_image-IsOk ref platform fs s img r h =
      elim (Option-cases (cached_by_ref calls ref fs.images)) [
        | inr (ri, e) ↦ (ri, rw (e, resolve_image) refl)
        | inl e ↦
            rw (e, resolve_image) (build_resolved-IsOk fs img (calls.resolve ref platform s) r h)
      ]

  -- A lookup's answer: the directory at the root of an image with this digest, or with that of
  -- the reference, whose tree is merged from its layers.
  pub record IsImageRoot (digest : Bytes) (d : Hash) (out : EntryOut) (answer : Found L T Fs)
      : Type 0 where
    pub ri : ResolvedImage L T Fs
    pub named : (calls.new_hash digest ≡ ok ri.img.digest) ⊎ (ri.img.digest ≡ d)
    pub layers : length ri.layers ≡ length ri.img.layers
    pub node :
        answer
        ≡ ok (
          record {
            node =
                image_dir
                  (record { ri = ri; tree = merge (entries_of ri.layers); path = codes "/" });
            mode = s_ifdir;
          },
          set_mode (s_ifdir + 0o755) out,
        )

  rooted-IsImageRoot :
      (digest : Bytes) (d : Hash) (out : EntryOut) (w : World S L T Fs)
      (answer : Result (ImageError E) (ResolvedImage L T Fs) × (Filesystem L T Fs × S))
      → IsSound w.filesystem.images
      → IsOk answer.0
      → IsStep w.filesystem answer
      → IsNamed calls digest d answer
      → IsImageRoot digest d out (rooted out w answer).0
  rooted-IsImageRoot digest d out w (err e, s) sound (a, h) step named = cc
  rooted-IsImageRoot digest d out w (ok ri, (fs, s)) sound h (images, same, step) named =
      let built = Delivers-IsBuilt step sound in
      record {
        ri = ri;
        named = named;
        layers = built.layers;
        node =
            ap
              (λ tree.
                ok (plain_dir (image_dir (record { ri = ri; tree = tree; path = codes "/" })) out))
              built.tree;
      }

  -- With a map of images that calls have filled, the lookup of a segment that is a digest
  -- reference answers a directory with the path "/" in an image, whose tree is the merge of
  -- its layers, one for each layer of its manifest, if the reference resolves, and each layer
  -- of what it resolves to has a digest and can be opened whatever was called before. The
  -- digest of the image is that of the reference or of what it resolves to.
  pub resolve_segment-answers :
      (accumulated child full : Bytes) (ctx : Context) (digest : Bytes) (plat : Option Platform)
      (out : EntryOut) (w : World S L T Fs) (img : Image Reference L T)
      (returned : List (ResolvedImage L T Fs))
      → Reachable w.filesystem.images returned
      → classify_segment calls accumulated child
        ≡ (full, ok (seg_digest_ref (digest_ref ctx digest) plat))
      → (calls.resolve (digest_ref ctx digest) (platform_or w.filesystem plat) w.outside).0 ≡ ok img
      → All (CanOpen img) img.layers
      → IsImageRoot digest img.digest out (resolve_segment calls accumulated child out w).0
  unfolding resolve_segment image_root
  resolve_segment-answers accumulated child full ctx digest plat out w img returned reached c r h =
      let ref = digest_ref ctx digest in
      let fs = w.filesystem in
      let platform = platform_or fs plat in
      let sound = (Reachable-IsSound reached).0 in
      subst (λ x. IsImageRoot digest img.digest out (resolved calls out w x).0) (sym c)
        (rooted-IsImageRoot digest img.digest out w (resolve_image calls ref platform fs w.outside)
          sound (resolve_image-IsOk ref platform fs w.outside img r h)
          (resolve_image-IsStep calls ref platform fs w.outside)
          (resolve_image-IsNamed calls ctx digest platform fs w.outside img sound r))

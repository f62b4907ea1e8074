-- ===== src/Mount/Shown/Good.antt =====
-- internal/mount: what holds of every node that lookups find.
use mathlib.Core.Path.{subst}
use ocifuse.Prelude.{◌≡◌, refl, Option, List, Bytes, bytes_eq, Result, ok, err}
use ocifuse.Strings.{trim_prefix}
use ocifuse.SlashPath.{root}
use ocifuse.Oci.{Hash, Platform, PlatformDigest}
use ocifuse.Indexer.{Layer}
use ocifuse.Fspath.{ParseError}
use ocifuse.Mount.{
  EntryOut, ImageFile, Node, image_dir, image_file, image_meta_dir, layer_dir, Reference, Services,
  ResolvedImage, Filesystem,
}
use ocifuse.Mount.Files.{image_file_open}
use ocifuse.Mount.Files.Opened.{handle_of, image_file_open-at}
use ocifuse.Mount.Images.{ImageError, resolve_tag_digest}
use ocifuse.Mount.Images.Shared.{IsSound, Reachable-IsSound, Delivers-IsBuilt}
use ocifuse.Mount.Images.Again.{IsStep, resolve_image-IsStep}
use ocifuse.Mount.Meta.{layers_dir_lookup}
use ocifuse.Mount.Meta.Held.{IsEntryOf}
use ocifuse.Mount.Segments.{
  Segment, seg_intermediate, seg_tag_ref, seg_digest_ref, classify_segment, platform_or,
}
use ocifuse.Mount.Prefixes.{
  World, linked, rooted, resolved, tag_symlink, image_root, resolve_segment,
}
use ocifuse.Mount.Shown.{
  IsShown, at_prefix, in_image, in_image_meta, in_layers, in_layer, in_layer_meta,
}
use ocifuse.Mount.Shown.Nodes.{
  IsGood, IsGoodAnswer, root-Canonical, image_dir_lookup-IsGood, image_meta_dir_lookup-IsGood,
  find_layer-IsGood, layer_dir_lookup-IsGood, layer_meta_dir_lookup-IsGood,
}

linked-IsGood :
    {S L T Fs E : Type 0} (ref : Reference) (plat : Option Platform) (out : EntryOut)
    (w : World S L T Fs) (answer : Result E (Hash × List PlatformDigest) × S)
    → IsGoodAnswer (linked ref plat out w answer).0
linked-IsGood ref plat out w (err e, after) = tt
linked-IsGood ref plat out w (ok (digest, platforms), after) = tt

rooted-IsGood :
    {S L T Fs E : Type 0} (out : EntryOut) (w : World S L T Fs)
    (answer : Result (ImageError E) (ResolvedImage L T Fs) × (Filesystem L T Fs × S))
    → IsSound w.filesystem.images
    → IsStep w.filesystem answer
    → IsGoodAnswer (rooted out w answer).0
rooted-IsGood out w (err e, (fs, after)) s step = tt
rooted-IsGood out w (ok ri, (fs, after)) s (images, same, d) =
    (Delivers-IsBuilt d s, refl, root-Canonical)

module _ {S L T Fs F E : Type 0} (calls : Services S L T Fs F E) where
  resolved-IsGood :
      (out : EntryOut) (w : World S L T Fs) (c : Bytes × Result (ParseError E) Segment)
      → IsSound w.filesystem.images
      → IsGoodAnswer (resolved calls out w c).0
  unfolding tag_symlink image_root
  resolved-IsGood out w (full, err e) s = tt
  resolved-IsGood out w (full, ok seg_intermediate) s = tt
  resolved-IsGood out w (full, ok (seg_tag_ref ref plat)) s =
      linked-IsGood ref plat out w
        (resolve_tag_digest calls ref (platform_or w.filesystem plat) w.outside)
  resolved-IsGood out w (full, ok (seg_digest_ref ref plat)) s =
      rooted-IsGood out w _ s
        (resolve_image-IsStep calls ref (platform_or w.filesystem plat) w.filesystem w.outside)

  IsShown-IsGood : (n : Node L T Fs) → IsShown calls n → IsGood n
  unfolding resolve_segment layers_dir_lookup
  IsShown-IsGood n (at_prefix accumulated child out w r h) =
      subst IsGoodAnswer h
        (resolved-IsGood out w (classify_segment calls accumulated child) (Reachable-IsSound r).0)
  IsShown-IsGood n (in_image {d = d} child out shown name h) =
      subst IsGoodAnswer h
        (image_dir_lookup-IsGood d child out (IsShown-IsGood (image_dir d) shown) name)
  IsShown-IsGood n (in_image_meta {ri = ri} child out shown h) =
      subst IsGoodAnswer h
        (image_meta_dir_lookup-IsGood ri child out (IsShown-IsGood (image_meta_dir ri) shown))
  IsShown-IsGood n (in_layers {ri = ri} child out shown h) =
      subst IsGoodAnswer h (find_layer-IsGood L T ri.layers child out)
  IsShown-IsGood n (in_layer {d = d} child out shown name h) =
      subst IsGoodAnswer h
        (layer_dir_lookup-IsGood L T d child out (IsShown-IsGood (layer_dir d) shown) name)
  IsShown-IsGood n (in_layer_meta {layer = layer} child out shown h) =
      subst IsGoodAnswer h (layer_meta_dir_lookup-IsGood L T layer child out)

  -- Every file node that lookups can find, from the mount point on and with the images
  -- resolved by any calls in any order, names a layer by an index that is in range, in an
  -- image as in the raw view of a layer; that layer has an entry for the path of the file with
  -- the same header, and Open asks the file system of that layer for the path without its
  -- leading slash and fails with EIO only if that fails.
  pub image_file_open-IsShown :
      (f : ImageFile Fs)
      → IsShown calls (image_file f)
      → (layer : Layer Fs) × IsEntryOf layer.entries f.entry.path f.entry
        × (image_file_open calls f
            ≡ handle_of (calls.open_file layer.fs (trim_prefix f.entry.path root)))
  unfolding image_file_open
  image_file_open-IsShown f shown =
      let (layer, here, held) = IsShown-IsGood (image_file f) shown in
      (layer, held, image_file_open-at calls f layer here)

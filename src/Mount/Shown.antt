-- ===== src/Mount/Shown.antt =====
-- internal/mount: the nodes that lookups find, from the mount point on, in any number and order.
pub mod Nodes
pub mod Good
use mathlib.Core.Path.{subst}
use ocifuse.Prelude.{
  ℕ, pos, ◌≡◌, refl, sym, ap, ◌∙◌, Bool, true, false, some, none, Option, List, [], ◌∷◌, ◌++◌,
  Bytes, codes, ◌==◌, bytes_eq, All, All-append, Any, Any-map, Any-some, get_elem?, Result, ok, err,
  Bool-cases, Option-cases, inl, inr,
}
use ocifuse.Strings.{trim_prefix}
use ocifuse.SlashPath.{root, slash}
use ocifuse.SlashPath.Names.{IsName, render}
use ocifuse.Merge.{Entry, TarEntry, canon, get, is_dir, is_symlink}
use ocifuse.Merge.Build.{layer_tree}
use ocifuse.Merge.Canon.{Canonical}
use ocifuse.Merge.Provenance.{action-path}
use ocifuse.Indexer.{Layer}
use ocifuse.Fspath.{ParseError}
use ocifuse.Mount.{
  EntryOut, enoent, ImageDir, ImageFile, LayerDir, Node, intermediate_node, image_dir, image_file,
  image_meta_dir, layers_dir, layer_dir, layer_meta_dir, mem_symlink, mem_regular_file, Inode,
  Found, Services, ResolvedImage, Filesystem, join_in_image,
}
use ocifuse.Mount.Paths.{join_in_image-render}
use ocifuse.Mount.Dirs.{image_node, image_dir_lookup}
use ocifuse.Mount.Dirs.Agree.{is_meta}
use ocifuse.Mount.Files.{layer_at, image_file_open}
use ocifuse.Mount.Files.Opened.{handle_of, file-IsHeldBy, image_file_open-at}
use ocifuse.Mount.Images.{ImageError}
use ocifuse.Mount.Images.Built.{IsBuilt}
use ocifuse.Mount.Images.Shared.{Reachable, Reachable-IsSound, Delivers-IsBuilt}
use ocifuse.Mount.Images.Again.{IsStep, resolve_image-IsStep}
use ocifuse.Mount.Meta.{
  image_meta_dir_lookup, layers_dir_lookup, layer_node, layer_dir_lookup, layer_meta_dir_lookup,
  layer_root,
}
use ocifuse.Mount.Meta.Held.{IsEntryOf, lookup-layer_tree}
use ocifuse.Mount.Prefixes.{World, resolve_segment}

module _ {S L T Fs F E : Type 0} (calls : Services S L T Fs F E) where
  -- The directories above the images may be in any state whose images were resolved by calls.
  pub data IsShown : Node L T Fs → Type 0 where
    at_prefix :
        {n : Inode L T Fs} {attrs : EntryOut} {returned : List (ResolvedImage L T Fs)}
        (accumulated child : Bytes) (out : EntryOut) (w : World S L T Fs)
        → Reachable w.filesystem.images returned
        → (resolve_segment calls accumulated child out w).0 ≡ ok (n, attrs)
        → IsShown n.node
    in_image :
        {n : Inode L T Fs} {attrs : EntryOut} {d : ImageDir L T Fs} (child : Bytes) (out : EntryOut)
        → IsShown (image_dir d)
        → IsName child
        → image_dir_lookup d child out ≡ ok (n, attrs)
        → IsShown n.node
    in_image_meta :
        {n : Inode L T Fs} {attrs : EntryOut} {ri : ResolvedImage L T Fs} (child : Bytes)
        (out : EntryOut)
        → IsShown (image_meta_dir ri)
        → image_meta_dir_lookup ri child out ≡ ok (n, attrs)
        → IsShown n.node
    in_layers :
        {n : Inode L T Fs} {attrs : EntryOut} {ri : ResolvedImage L T Fs} (child : Bytes)
        (out : EntryOut)
        → IsShown (layers_dir ri)
        → layers_dir_lookup ri child out ≡ ok (n, attrs)
        → IsShown n.node
    in_layer :
        {n : Inode L T Fs} {attrs : EntryOut} {d : LayerDir Fs} (child : Bytes) (out : EntryOut)
        → IsShown (layer_dir d)
        → IsName child
        → layer_dir_lookup d child out ≡ ok (n, attrs)
        → IsShown n.node
    in_layer_meta :
        {n : Inode L T Fs} {attrs : EntryOut} {layer : Layer Fs} (child : Bytes) (out : EntryOut)
        → IsShown (layer_meta_dir layer)
        → layer_meta_dir_lookup layer child out ≡ ok (n, attrs)
        → IsShown n.node

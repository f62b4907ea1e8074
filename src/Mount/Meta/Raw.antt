-- ===== src/Mount/Meta/Raw.antt =====
-- internal/mount/meta.go: the directories of the tree of one layer, and their files.
use ocifuse.Prelude.{◌≡◌, refl, true, false, some, Bytes, All, ok}
use ocifuse.SlashPath.Names.{IsName}
use ocifuse.Merge.{Entry, get}
use ocifuse.Merge.Build.{layer_tree}
use ocifuse.Merge.Canon.{Canonical}
use ocifuse.Merge.Listing.{layer_tree-IsIndexed}
use ocifuse.Indexer.{Layer}
use ocifuse.Mount.{EntryOut, LayerDir, layer_meta_dir, Inode, join_in_image}
use ocifuse.Mount.Dirs.{mode_of, entry_out, plain_dir}
use ocifuse.Mount.Dirs.Agree.{
  NoMeta, is_meta, IsLookupOf, IsServed, IsListed, listing-IsServed, lookup-IsListed,
}
use ocifuse.Mount.Meta.{layer_node, layer_dir_lookup, layer_dir_readdir}

module _ {L T Fs : Type 0} where
  layer_dir_lookup-some :
      (d : LayerDir Fs) (child : Bytes) (out : EntryOut) (e : Entry)
      → is_meta d.path child ≡ false
      → get d.tree (join_in_image d.path child) ≡ some e
      → layer_dir_lookup {L = L} {T = T} d child out
        ≡ ok (
          record { node = layer_node d (join_in_image d.path child) e; mode = mode_of e },
          entry_out e out,
        )
  unfolding layer_dir_lookup
  layer_dir_lookup-some d child out e m h = rw (m, h, layer_dir_lookup) refl

  layer_dir_lookup-meta :
      (d : LayerDir Fs) (child : Bytes) (out : EntryOut)
      → is_meta d.path child ≡ true
      → layer_dir_lookup {L = L} {T = T} d child out ≡ ok (plain_dir (layer_meta_dir d.layer) out)
  unfolding layer_dir_lookup
  layer_dir_lookup-meta d child out m = rw (m, layer_dir_lookup) refl

  layer_dir_lookup-IsLookupOf :
      (d : LayerDir Fs) (out : EntryOut)
      → IsLookupOf d.tree d.path (λ child. layer_dir_lookup {L = L} {T = T} d child out)
  unfolding layer_dir_lookup
  layer_dir_lookup-IsLookupOf d out = record {
    meta = λ child m. (_, _, layer_dir_lookup-meta d child out m);
    entry = λ child e m h. (_, _, layer_dir_lookup-some d child out e m h);
    nothing = λ child m h. rw (m, h, layer_dir_lookup) refl;
  }

  -- In a directory of the tree of one layer that has nothing at /@@meta: Lookup of each name
  -- that Readdir lists finds an inode with the type bits of the listing, and each name,
  -- without a slash and neither empty nor "." nor "..", that Lookup finds is listed with the
  -- type bits of its inode.
  pub layer_dir_readdir-lookup :
      (layer : Layer Fs) (p : Bytes) (out : EntryOut)
      → Canonical p
      → NoMeta (layer_tree layer.entries)
      → let d : LayerDir Fs = record { layer = layer; tree = layer_tree layer.entries; path = p } in
        All (IsServed (λ child. layer_dir_lookup {L = L} {T = T} d child out)) (layer_dir_readdir d)
        × ((child : Bytes) (n : Inode L T Fs) (attrs : EntryOut)
            → IsName child
            → layer_dir_lookup d child out ≡ ok (n, attrs)
            → IsListed (layer_dir_readdir d) child n.mode)
  unfolding layer_dir_readdir
  layer_dir_readdir-lookup layer p out c n =
      let d : LayerDir Fs = record { layer = layer; tree = layer_tree layer.entries; path = p } in
      let i = layer_tree-IsIndexed layer.entries in
      (
        listing-IsServed d.tree p _ i c n (layer_dir_lookup-IsLookupOf d out),
        λ child m attrs name h.
            lookup-IsListed d.tree p _ child m attrs i c (layer_dir_lookup-IsLookupOf d out) name h,
      )

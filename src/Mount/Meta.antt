-- ===== src/Mount/Meta.antt =====
-- internal/mount/meta.go: the metadata directories of images and layers, and the directories of the
-- tree of one layer.
pub mod Listing
pub mod Raw
pub mod Held
use ocifuse.Prelude.{
  ◌+◌, Bool, true, false, ◌&&◌, none, some, List, [], ◌∷◌, ◌++◌, Bytes, codes, bytes_eq, ◌==◌,
  length, if◌then◌else◌, ok, err,
}
use ocifuse.SlashPath.{root}
use ocifuse.Merge.{Entry, is_dir, is_symlink, get, children}
use ocifuse.Merge.Build.{layer_tree}
use ocifuse.Oci.{Hash, hash_string}
use ocifuse.Indexer.{Layer}
use ocifuse.Mount.{
  s_ifdir, s_ifreg, Attr, EntryOut, set_mode, enoent, DirEntry, Node, image_file, layers_dir,
  layer_dir, layer_meta_dir, mem_symlink, mem_regular_file, Inode, Found, join_in_image,
  meta_dir_name, ResolvedImage, LayerDir,
}
use ocifuse.Mount.Attrs.{set_attr_from_header}
use ocifuse.Mount.Dirs.{mode_of, plain_dir, listed_all, with_meta, entry_out}

abbrev pub no_attr : Attr
no_attr = record {
  mode = 0;
  size = 0;
  uid = 0;
  gid = 0;
  mtime = 0;
  atime = 0;
  ctime = 0;
  nlink = 0;
  blksize = 0;
  blocks = 0;
}

-- A small file with this text.
unfoldable pub new_text_file : {L T Fs : Type 0} → Bytes → EntryOut → Inode L T Fs × EntryOut
new_text_file body out =
    let out' = set_mode (s_ifreg + 0o444) (set_mode s_ifreg out) in
    (
      record {
        node = mem_regular_file body (record no_attr { mode = 0o444; size = length body });
        mode = s_ifreg;
      },
      record out' { attr = record out'.attr { size = length body } },
    )

-- The text of a digest, and a line feed.
abbrev pub digest_text : Hash → Bytes
digest_text d = hash_string d ++ 10 ∷ []

abbrev pub layer_root : {Fs : Type 0} → Layer Fs → LayerDir Fs
layer_root ly = record { layer = ly; tree = layer_tree ly.entries; path = root }

unfoldable pub list_layers : {Fs : Type 0} → List (Layer Fs) → List DirEntry
list_layers [] = []
list_layers (ly ∷ lys) = record { name = hash_string ly.digest; mode = s_ifdir } ∷ list_layers lys

unfoldable pub layer_dir_getattr : {Fs : Type 0} → LayerDir Fs → Attr → Attr
layer_dir_getattr d out = elim (get d.tree d.path) [
  | some e ↦ set_attr_from_header out e.header true
  | none ↦ record out { mode = s_ifdir + 0o755 }
]

unfoldable pub layer_dir_readdir : {Fs : Type 0} → LayerDir Fs → List DirEntry
unfolding listed_all with_meta
layer_dir_readdir d = with_meta d.path (listed_all (children d.tree d.path))

unfoldable pub layer_meta_dir_readdir : {Fs : Type 0} → Layer Fs → List DirEntry
layer_meta_dir_readdir layer = record { name = codes "layer-digest"; mode = s_ifreg } ∷ []

module _ {L T Fs : Type 0} where
  unfoldable pub image_meta_dir_lookup : ResolvedImage L T Fs → Bytes → EntryOut → Found L T Fs
  unfolding new_text_file
  image_meta_dir_lookup ri child out =
      if child == codes "digest"
      then ok (new_text_file (digest_text ri.img.digest) out)
      else if child == codes "layers"
      then ok (plain_dir (layers_dir ri) out)
      else err enoent

  unfoldable pub image_meta_dir_readdir : ResolvedImage L T Fs → List DirEntry
  image_meta_dir_readdir ri =
      record { name = codes "digest"; mode = s_ifreg }
      ∷ record { name = codes "layers"; mode = s_ifdir }
      ∷ []

  -- The loop of layersDir.Lookup over the layers.
  unfoldable pub find_layer : List (Layer Fs) → Bytes → EntryOut → Found L T Fs
  find_layer [] child out = err enoent
  find_layer (ly ∷ lys) child out =
      let rest = find_layer lys child out in
      if hash_string ly.digest == child
      then ok (plain_dir (layer_dir (layer_root ly)) out)
      else rest

  unfoldable pub layers_dir_lookup : ResolvedImage L T Fs → Bytes → EntryOut → Found L T Fs
  layers_dir_lookup ri child out = find_layer ri.layers child out

  unfoldable pub layers_dir_readdir : ResolvedImage L T Fs → List DirEntry
  layers_dir_readdir ri = list_layers ri.layers

  unfoldable pub layer_node : LayerDir Fs → Bytes → Entry → Node L T Fs
  layer_node d child_path e =
      if is_dir e
      then layer_dir (record { layer = d.layer; tree = d.tree; path = child_path })
      else if is_symlink e
      then mem_symlink e.header.linkname
      else image_file (record { layers = d.layer ∷ []; entry = e })

  unfoldable pub layer_dir_lookup : LayerDir Fs → Bytes → EntryOut → Found L T Fs
  unfolding join_in_image
  layer_dir_lookup d child out =
      if d.path == root && child == meta_dir_name
      then ok (plain_dir (layer_meta_dir d.layer) out)
      else let child_path = join_in_image d.path child in
        elim (get d.tree child_path) [
          | none ↦ err enoent
          | some e ↦
              ok (record { node = layer_node d child_path e; mode = mode_of e }, entry_out e out)
        ]

  unfoldable pub layer_meta_dir_lookup : Layer Fs → Bytes → EntryOut → Found L T Fs
  unfolding new_text_file
  layer_meta_dir_lookup layer child out =
      if child == codes "layer-digest"
      then ok (new_text_file (digest_text layer.digest) out)
      else err enoent

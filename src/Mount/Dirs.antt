-- ===== src/Mount/Dirs.antt =====
-- internal/mount/mount.go: the directories of an image. meta.go has the same for the directories of
-- one layer.
pub mod Agree
pub mod Listing
pub mod Walk
use ocifuse.Prelude.{
  ℕ, ◌+◌, Bool, true, false, ◌&&◌, none, some, List, [], ◌∷◌, ◌++◌, Bytes, bytes_eq, ◌==◌,
  if◌then◌else◌, ok, err,
}
use ocifuse.SlashPath.{root, base}
use ocifuse.Merge.{Entry, is_dir, is_symlink, get, children}
use ocifuse.Mount.{
  s_ifdir, s_iflnk, s_ifreg, Attr, EntryOut, set_mode, enoent, DirEntry, ImageDir, Node, image_dir,
  image_file, image_meta_dir, layers_dir, layer_dir, mem_symlink, Inode, Found, join_in_image,
  meta_dir_name, ResolvedImage, ImageFile,
}
use ocifuse.Mount.Attrs.{set_attr_from_header}

-- The type bits of an entry: of three switches of the package.
unfoldable pub mode_of : Entry → ℕ
mode_of e = if is_dir e then s_ifdir else if is_symlink e then s_iflnk else s_ifreg

-- What Lookup answers for a directory without a header.
abbrev pub plain_dir : {L T Fs : Type 0} → Node L T Fs → EntryOut → Inode L T Fs × EntryOut
plain_dir node out =
    (record { node = node; mode = s_ifdir }, set_mode (s_ifdir + 0o755) (set_mode s_ifdir out))

-- The entry of a listing.
unfoldable pub listed : Entry → DirEntry
unfolding mode_of base
listed e = record { name = base e.path; mode = mode_of e }

unfoldable pub listed_all : List Entry → List DirEntry
unfolding listed
listed_all [] = []
listed_all (e ∷ es) = listed e ∷ listed_all es

abbrev pub meta_entry : DirEntry
meta_entry = record { name = meta_dir_name; mode = s_ifdir }

-- A listing, with the metadata directory first at the root.
unfoldable pub with_meta : Bytes → List DirEntry → List DirEntry
with_meta path entries = if path == root then meta_entry ∷ entries else entries

-- The attributes are set from the header; then `out.Mode` is set to the type bits.
abbrev pub entry_out : Entry → EntryOut → EntryOut
entry_out e out =
    set_mode (mode_of e) (record out { attr = set_attr_from_header out.attr e.header (is_dir e) })

module _ {L T Fs : Type 0} where
  unfoldable pub image_dir_getattr : ImageDir L T Fs → Attr → Attr
  image_dir_getattr d out = elim (get d.tree d.path) [
    | some e ↦ set_attr_from_header out e.header true
    | none ↦ record out { mode = s_ifdir + 0o755 }
  ]

  unfoldable pub image_node : ImageDir L T Fs → Bytes → Entry → Node L T Fs
  image_node d child_path e =
      if is_dir e
      then image_dir (record { ri = d.ri; tree = d.tree; path = child_path })
      else if is_symlink e
      then mem_symlink e.header.linkname
      else image_file (record { layers = d.ri.layers; entry = e })

  unfoldable pub image_dir_lookup : ImageDir L T Fs → Bytes → EntryOut → Found L T Fs
  unfolding join_in_image
  image_dir_lookup d child out =
      if d.path == root && child == meta_dir_name
      then ok (plain_dir (image_meta_dir d.ri) out)
      else let child_path = join_in_image d.path child in
        elim (get d.tree child_path) [
          | none ↦ err enoent
          | some e ↦
              ok (record { node = image_node d child_path e; mode = mode_of e }, entry_out e out)
        ]

  unfoldable pub image_dir_readdir : ImageDir L T Fs → List DirEntry
  unfolding listed_all with_meta
  image_dir_readdir d = with_meta d.path (listed_all (children d.tree d.path))

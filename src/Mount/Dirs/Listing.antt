-- ===== src/Mount/Dirs/Listing.antt =====
-- internal/mount/mount.go: the listings of the directories of an image.
use mathlib.Core.Path.{subst}
use ocifuse.Prelude.{◌≡◌, refl, sym, false, true, some, List, Bytes, All, ok}
use ocifuse.SlashPath.Names.{IsName}
use ocifuse.Merge.{Entry, TarEntry, get}
use ocifuse.Merge.Build.{merge}
use ocifuse.Merge.Canon.{Canonical}
use ocifuse.Merge.Listing.{IsIndexed, merge-IsIndexed}
use ocifuse.Mount.{EntryOut, ImageDir, image_meta_dir, Inode, join_in_image}
use ocifuse.Mount.Dirs.{
  mode_of, image_node, image_dir_lookup, image_dir_readdir, entry_out, plain_dir,
}
use ocifuse.Mount.Dirs.Agree.{
  NoMeta, is_meta, IsLookupOf, IsServed, IsListed, listing-IsServed, lookup-IsListed,
}

module _ {L T Fs : Type 0} where
  -- What Lookup answers for an entry of the tree.
  pub image_dir_lookup-some :
      (d : ImageDir L T Fs) (child : Bytes) (out : EntryOut) (e : Entry)
      → is_meta d.path child ≡ false
      → get d.tree (join_in_image d.path child) ≡ some e
      → image_dir_lookup d child out
        ≡ ok (
          record { node = image_node d (join_in_image d.path child) e; mode = mode_of e },
          entry_out e out,
        )
  unfolding image_dir_lookup
  image_dir_lookup-some d child out e m h = rw (m, h, image_dir_lookup) refl

  image_dir_lookup-meta :
      (d : ImageDir L T Fs) (child : Bytes) (out : EntryOut)
      → is_meta d.path child ≡ true
      → image_dir_lookup d child out ≡ ok (plain_dir (image_meta_dir d.ri) out)
  unfolding image_dir_lookup
  image_dir_lookup-meta d child out m = rw (m, image_dir_lookup) refl

  image_dir_lookup-IsLookupOf :
      (d : ImageDir L T Fs) (out : EntryOut)
      → IsLookupOf d.tree d.path (λ child. image_dir_lookup d child out)
  unfolding image_dir_lookup
  image_dir_lookup-IsLookupOf d out = record {
    meta = λ child m. (_, _, image_dir_lookup-meta d child out m);
    entry = λ child e m h. (_, _, image_dir_lookup-some d child out e m h);
    nothing = λ child m h. rw (m, h, image_dir_lookup) refl;
  }

  -- In a directory of a merged tree that has nothing at /@@meta: Lookup of each name that
  -- Readdir lists finds an inode with the type bits of the listing, and each name, without a
  -- slash and neither empty nor "." nor "..", that Lookup finds is listed with the type bits
  -- of its inode.
  pub image_dir_readdir-lookup :
      (layers : List (List TarEntry)) (d : ImageDir L T Fs) (out : EntryOut)
      → d.tree ≡ merge layers
      → Canonical d.path
      → NoMeta d.tree
      → All (IsServed (λ child. image_dir_lookup d child out)) (image_dir_readdir d)
        × ((child : Bytes) (n : Inode L T Fs) (attrs : EntryOut)
            → IsName child
            → image_dir_lookup d child out ≡ ok (n, attrs)
            → IsListed (image_dir_readdir d) child n.mode)
  unfolding image_dir_readdir
  image_dir_readdir-lookup layers d out m c n =
      let i : IsIndexed d.tree = subst IsIndexed (sym m) (merge-IsIndexed layers) in
      let look = image_dir_lookup-IsLookupOf d out in
      (
        listing-IsServed d.tree d.path _ i c n look,
        λ child m attrs name h. lookup-IsListed d.tree d.path _ child m attrs i c look name h,
      )

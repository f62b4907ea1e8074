-- ===== src/Tests/Mounts.antt =====
-- Runs of internal/mount on an image of two layers, and theorems on its directories and files.
use ocifuse.Prelude.{
  ℕ, pos, ◌≡◌, refl, true, none, some, List, [], ◌∷◌, Bytes, codes, nat_eq, bytes_eq, bytes_beq,
  bytes_ltb, map, All, Result, ok, err, arith,
}
use ocifuse.Prelude.Dict.{keys, lookup, insert, delete_where, has}
use ocifuse.Prelude.Sort.{sort}
use ocifuse.Strings.{has_prefix, trim_prefix, index_byte}
use ocifuse.Strings.Laws.{Lacks-index_byte}
use ocifuse.SlashPath.{root, base, dir, path_join}
use ocifuse.SlashPath.Names.{IsName, render, slashed}
use ocifuse.Merge.{
  Header, TarEntry, canon, get, children, present, names_at, action, apply_layer, delete_subtree,
  delete_children, by_filename, is_dir, is_symlink,
}
use ocifuse.Merge.Build.{
  synthesize_parents, missing_parents, missing_above, mark_missing, add_missing, index_children,
  sort_children, finish, add_all, layer_tree, apply_layers, merge,
}
use ocifuse.Oci.{Hash, Context, Image}
use ocifuse.Indexer.{Layer}
use ocifuse.Mount.{
  EntryOut, DirEntry, Reference, digest_ref, ResolvedImage, ImageDir, join_in_image, LayerDir,
  Inode, image_dir, Errno,
}
use ocifuse.Mount.Attrs.{
  permissions, type_bits, set_attr_from_header, IsFitting, set_attr_from_header_bounds,
}
use ocifuse.Mount.Dirs.{
  mode_of, listed, listed_all, with_meta, image_dir_getattr, image_node, image_dir_lookup,
  image_dir_readdir,
}
use ocifuse.Mount.Dirs.Agree.{IsServed, IsListed}
use ocifuse.Mount.Dirs.Listing.{image_dir_readdir-lookup}
use ocifuse.Mount.Dirs.Walk.{dir_at, walk, walk_lem}
use ocifuse.Mount.Meta.{
  no_attr, new_text_file, image_meta_dir_lookup, image_meta_dir_readdir, find_layer,
  layers_dir_lookup, list_layers, layers_dir_readdir, layer_node, layer_dir_lookup,
  layer_dir_readdir, layer_meta_dir_lookup, layer_meta_dir_readdir,
}
use ocifuse.Mount.Meta.Listing.{Agrees, meta_lookup-Agrees}
use ocifuse.Mount.Meta.Raw.{layer_dir_readdir-lookup}

unfoldable pub program : Unit {0}
unfolding has keys lookup insert delete_where sort bytes_beq bytes_ltb base dir path_join has_prefix
    trim_prefix canon get children present names_at action apply_layer delete_subtree
    delete_children by_filename synthesize_parents missing_parents missing_above mark_missing
    add_missing index_children sort_children finish add_all layer_tree apply_layers merge is_dir
    is_symlink join_in_image permissions type_bits set_attr_from_header mode_of listed listed_all
    with_meta image_node image_dir_lookup image_dir_readdir new_text_file find_layer
    layers_dir_lookup list_layers layers_dir_readdir layer_node layer_dir_lookup layer_dir_readdir
    image_meta_dir_lookup layer_meta_dir_lookup render slashed
program = tt

abbrev pub header : ℕ → ℕ → Header
header flag mode = record {
  typeflag = flag;
  name = [];
  linkname = [];
  mode = mode;
  size = 1000;
  uid = 0;
  gid = 0;
  mod_time = some 5;
}

abbrev pub regular : Bytes → TarEntry
regular name = record { filename = name; header = header b'0' 0o100640 }

abbrev pub hash : ℕ → Hash
hash n = record { algorithm = codes "sha256"; hex = n ∷ [] }

abbrev pub layer : ℕ → List TarEntry → Layer ℕ
layer n entries = record { digest = hash n; size = 10; fs = n; entries = entries }

abbrev pub bottom : Layer ℕ
bottom = layer b'1' (regular (codes "etc/passwd") ∷ [])

abbrev pub top : Layer ℕ
top = layer b'2' (regular (codes "etc/group") ∷ regular (codes "run") ∷ [])

abbrev pub context : Context
context = record {
  scheme = codes "https";
  registry = codes "gcr.io";
  repository = codes "team/app";
}

abbrev pub image : Image Reference ℕ ℕ
image = record {
  ref = digest_ref context (codes "sha256:7");
  digest = hash b'7';
  layers = b'1' ∷ b'2' ∷ [];
  transport = 0;
}

abbrev pub resolved_image : ResolvedImage ℕ ℕ ℕ
resolved_image = record {
  img = image;
  layers = bottom ∷ top ∷ [];
  tree = merge (bottom.entries ∷ top.entries ∷ []);
}

abbrev pub out : EntryOut
out = record { attr = no_attr; entry_timeout = none }

abbrev etc : ImageDir ℕ ℕ ℕ
etc = dir_at resolved_image (codes "/etc")

names_run :
    map (λ (e : DirEntry). e.name) (image_dir_readdir (dir_at resolved_image root))
    ≡ codes "@@meta" ∷ codes "etc" ∷ codes "run" ∷ []
unfolding program
names_run = refl

set_attr_from_header_bounds_example :
    IsFitting (header b'5' 0o40750) true (set_attr_from_header no_attr (header b'5' 0o40750) true)
set_attr_from_header_bounds_example =
    set_attr_from_header_bounds no_attr (header b'5' 0o40750) true (omega arith)

pub is_name : IsName (codes "etc")
unfolding bytes_beq index_byte
is_name = (Lacks-index_byte b'/' (codes "etc") refl, refl, refl, refl)

image_dir_readdir-lookup_example :
    All (IsServed (λ child. image_dir_lookup etc child out)) (image_dir_readdir etc)
    × ((child : Bytes) (n : Inode ℕ ℕ ℕ) (attrs : EntryOut)
        → IsName child
        → image_dir_lookup etc child out ≡ ok (n, attrs)
        → IsListed (image_dir_readdir etc) child n.mode)
unfolding program
image_dir_readdir-lookup_example =
    image_dir_readdir-lookup (bottom.entries ∷ top.entries ∷ []) etc out refl
      (codes "etc" ∷ [], (is_name, tt), refl) refl

-- The permissions that Getattr reports, and that Lookup does not.
file_mode : Result Errno (Inode ℕ ℕ ℕ × EntryOut) → ℕ
file_mode (err e) = 0
file_mode (ok (n, attrs)) = attrs.attr.mode

lookup_mode_run : file_mode (image_dir_lookup etc (codes "passwd") out) ≡ 0o100000
unfolding program file_mode
lookup_mode_run = refl

getattr_mode_run : (image_dir_getattr etc no_attr).mode ≡ 0o40755
unfolding program image_dir_getattr
getattr_mode_run = refl

walk_lem_example :
    walk out (some (image_dir (dir_at resolved_image root))) (codes "etc" ∷ codes "passwd" ∷ [])
    ≡ some (
        image_node
          (dir_at resolved_image root)
          (codes "/etc/passwd")
          (record { path = codes "/etc/passwd"; header = header b'0' 0o100640; layer_idx = pos 0 }))
unfolding program
walk_lem_example =
    walk_lem resolved_image out (codes "etc" ∷ []) (codes "passwd") _ refl (is_name, tt)
      ((_, refl, refl), tt) refl

meta_lookup-Agrees_example :
    Agrees
      (λ child. image_meta_dir_lookup resolved_image child out)
      (image_meta_dir_readdir resolved_image)
    × Agrees
        (λ child. layers_dir_lookup resolved_image child out)
        (layers_dir_readdir resolved_image)
    × Agrees {L = ℕ} {T = ℕ}
        (λ child. layer_meta_dir_lookup bottom child out)
        (layer_meta_dir_readdir bottom)
meta_lookup-Agrees_example = meta_lookup-Agrees resolved_image bottom out

abbrev raw_etc : LayerDir ℕ
raw_etc = record { layer = bottom; tree = layer_tree bottom.entries; path = codes "/etc" }

layer_dir_readdir-lookup_example :
    All
      (IsServed {L = ℕ} {T = ℕ} (λ child. layer_dir_lookup raw_etc child out))
      (layer_dir_readdir raw_etc)
    × ((child : Bytes) (n : Inode ℕ ℕ ℕ) (attrs : EntryOut)
        → IsName child
        → layer_dir_lookup raw_etc child out ≡ ok (n, attrs)
        → IsListed (layer_dir_readdir raw_etc) child n.mode)
unfolding program
layer_dir_readdir-lookup_example =
    layer_dir_readdir-lookup bottom (codes "/etc") out (codes "etc" ∷ [], (is_name, tt), refl) refl

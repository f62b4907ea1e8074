-- ===== src/Merge.antt =====
-- internal/merge/merge.go: the layers of an image folded into one tree.
pub mod Canon
pub mod Subtree
pub mod Named
pub mod Layer
pub mod Build
pub mod Parents
pub mod Valid
pub mod Children
pub mod Provenance
pub mod Whole
pub mod Listing
use ocifuse.Prelude.{
  ℕ, zero, suc, ℤ, pos, negsuc, Bool, true, false, ◌||◌, not, Option, none, some, List, [], ◌∷◌,
  ◌++◌, Bytes, codes, ◌==◌, nat_eq, bytes_eq, bytes_ltb, length, if◌then◌else◌,
}
use ocifuse.Prelude.Dict.{Dict, keys, delete_where, lookup, insert, delete}
use ocifuse.Prelude.Sort.{sort}
use ocifuse.Strings.{has_prefix, trim_prefix}
use ocifuse.SlashPath.{slash, root, clean, dir, base, path_join}

-- The fields of `archive/tar`'s Header that the program reads. The int64 fields are their 64-bit
-- patterns, and `mod_time` is `none` for the zero time.
pub record Header : Type 0 where
  pub typeflag : ℕ
  pub name : Bytes
  pub linkname : Bytes
  pub mode : ℕ
  pub size : ℕ
  pub uid : ℕ
  pub gid : ℕ
  pub mod_time : Option ℕ

abbrev pub type_link : ℕ
type_link = b'1'

abbrev pub type_symlink : ℕ
type_symlink = b'2'

abbrev pub type_dir : ℕ
type_dir = b'5'

-- What the program reads of a `tarfs.Entry`.
pub record TarEntry : Type 0 where
  pub filename : Bytes
  pub header : Header

abbrev pub wh_prefix : Bytes
wh_prefix = codes ".wh."

abbrev pub wh_opaque : Bytes
wh_opaque = codes ".wh..wh..opq"

pub record Entry : Type 0 where
  pub path : Bytes
  pub header : Header
  pub layer_idx : ℤ

unfoldable pub is_dir : Entry → Bool
is_dir e = e.header.typeflag == type_dir || e.path == root

unfoldable pub is_symlink : Entry → Bool
is_symlink e = e.header.typeflag == type_symlink

unfoldable pub is_hardlink : Entry → Bool
is_hardlink e = e.header.typeflag == type_link

pub record Tree : Type 0 where
  pub entries : Dict Bytes Entry
  pub children : Dict Bytes (List Bytes)

-- A path that is not rooted gets a leading slash.
make_rooted : Bytes → Bytes
make_rooted p = if has_prefix p root then p else slash ∷ p

unfoldable pub canon : Bytes → Bytes
unfolding make_rooted has_prefix clean
canon p = if p == [] || p == codes "." then root else clean (make_rooted p)

-- `none` stands for fs.ErrNotExist.
unfoldable pub get : Tree → Bytes → Option Entry
get t p = lookup (canon p) t.entries

-- The loop of `Children` over the names.
unfoldable pub present : Dict Bytes Entry → List Bytes → List Entry
present entries [] = []
present entries (n ∷ names) = elim (lookup n entries) [
  | some e ↦ e ∷ present entries names
  | none ↦ present entries names
]

-- A missing key of a Go map reads as the empty slice.
unfoldable pub names_at : Bytes → Dict Bytes (List Bytes) → List Bytes
names_at p m = elim (lookup p m) [ some names ↦ names | none ↦ [] ]

unfoldable pub children : Tree → Bytes → List Entry
children t p = present t.entries (names_at (canon p) t.children)

unfoldable pub delete_subtree : Dict Bytes Entry → Bytes → Dict Bytes Entry
unfolding has_prefix delete
delete_subtree entries p =
    let prefix = p ++ slash ∷ [] in delete_where (λ k. has_prefix k prefix) (delete p entries)

-- The prefix of `deleteChildren`.
unfoldable pub children_prefix : Bytes → Bytes
unfolding canon
children_prefix p = let prefix = canon p in if prefix == root then prefix else prefix ++ slash ∷ []

unfoldable pub delete_children : Dict Bytes Entry → Bytes → Dict Bytes Entry
unfolding children_prefix has_prefix
delete_children entries p =
    let prefix = children_prefix p in
    delete_where (λ k. if k == p then false else has_prefix k prefix) entries

-- What an entry of a layer asks for: the `switch` of `applyLayer`.
pub data Action : Type 0 where
  opaque : Bytes → Action
  whiteout : Bytes → Action
  file : Bytes → Action

unfoldable pub action : TarEntry → Action
action e =
    let full = canon (slash ∷ e.filename) in
    let name = base e.filename in
    let parent = canon (slash ∷ dir e.filename) in
    if name == wh_opaque
    then opaque parent
    else if has_prefix name wh_prefix
    then whiteout (canon (path_join (parent ∷ trim_prefix name wh_prefix ∷ [])))
    else file full

perform : ℕ → TarEntry → Action → Dict Bytes Entry → Dict Bytes Entry
perform idx e (opaque parent) entries = delete_children entries parent
perform idx e (whiteout target) entries = delete_subtree entries target
perform idx e (file full) entries =
    insert full (record { path = full; header = e.header; layer_idx = pos idx }) entries

-- The loop over the sorted entries.
unfoldable pub apply_sorted : ℕ → List TarEntry → Dict Bytes Entry → Dict Bytes Entry
unfolding action perform delete_children delete_subtree
apply_sorted idx [] entries = entries
apply_sorted idx (e ∷ es) entries = apply_sorted idx es (perform idx e (action e) entries)

unfoldable pub by_filename : TarEntry → TarEntry → Bool
unfolding bytes_ltb
by_filename a b = bytes_ltb a.filename b.filename

unfoldable pub apply_layer : Dict Bytes Entry → List TarEntry → ℕ → Dict Bytes Entry
unfolding apply_sorted by_filename sort
apply_layer entries layer idx = apply_sorted idx (sort by_filename layer) entries

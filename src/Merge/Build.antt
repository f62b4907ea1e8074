-- ===== src/Merge/Build.antt =====
-- internal/merge/merge.go: the two constructors of a tree, `Merge` and `LayerTree`.
use ocifuse.Prelude.{
  ℕ, zero, suc, pos, negsuc, ℤ, none, some, List, [], ◌∷◌, ◌++◌, Bytes, ◌==◌, bytes_eq, bytes_ltb,
  length, if◌then◌else◌,
}
use ocifuse.Prelude.Dict.{Dict, keys, lookup, insert}
use ocifuse.Prelude.Sort.{sort}
use ocifuse.SlashPath.{slash, root, dir}
use ocifuse.Merge.{Entry, Tree, TarEntry, type_dir, canon, names_at, apply_layer}

-- A directory entry made up by the program.
abbrev pub synthetic : Bytes → ℤ → Entry
synthetic p idx = record {
  path = p;
  header = record {
    typeflag = type_dir;
    name = p;
    linkname = [];
    mode = 0o755;
    size = 0;
    uid = 0;
    gid = 0;
    mod_time = none;
  };
  layer_idx = idx;
}

-- The tree that both constructors start from: the root alone.
abbrev pub root_only : Dict Bytes Entry
root_only = (root, synthetic root (pos 0)) ∷ []

-- The body of the inner loop of `synthesizeParents`.
unfoldable pub mark_missing :
    Dict Bytes Entry → Bytes → Dict Bytes (Unit {0}) → Dict Bytes (Unit {0})
mark_missing entries parent missing = elim (lookup parent entries) [
  | some _ ↦ missing
  | none ↦ insert parent tt missing
]

-- The inner loop of `synthesizeParents`: from one parent up to the root.
unfoldable pub missing_above :
    ℕ → Dict Bytes Entry → Bytes → Dict Bytes (Unit {0}) → Dict Bytes (Unit {0})
missing_above zero entries parent missing = missing
missing_above (suc fuel) entries parent missing =
    let rest =
      missing_above fuel entries (canon (dir parent)) (mark_missing entries parent missing) in
    if parent == root then missing else rest

-- The outer loop. A path has at most one element for each byte, so its length is fuel enough.
unfoldable pub missing_parents :
    Dict Bytes Entry → List Bytes → Dict Bytes (Unit {0}) → Dict Bytes (Unit {0})
missing_parents entries [] missing = missing
missing_parents entries (p ∷ ps) missing =
    missing_parents entries ps
      (if p == root then missing else missing_above (length p) entries (canon (dir p)) missing)

-- The second loop: an entry for each missing path.
unfoldable pub add_missing : List Bytes → Dict Bytes Entry → Dict Bytes Entry
add_missing [] entries = entries
add_missing (p ∷ ps) entries = add_missing ps (insert p (synthetic p (negsuc 0)) entries)

unfoldable pub synthesize_parents : Dict Bytes Entry → Dict Bytes Entry
synthesize_parents entries = add_missing (keys (missing_parents entries (keys entries) [])) entries

-- The loop that files each path under its parent.
unfoldable pub index_children : List Bytes → Dict Bytes (List Bytes) → Dict Bytes (List Bytes)
index_children [] m = m
index_children (p ∷ ps) m =
    let parent = canon (dir p) in
    index_children ps (if p == root then m else insert parent (names_at parent m ++ p ∷ []) m)

-- The loop that sorts each list of children.
unfoldable pub sort_children : Dict Bytes (List Bytes) → Dict Bytes (List Bytes)
sort_children [] = []
sort_children ((p, names) ∷ m) = (p, sort bytes_ltb names) ∷ sort_children m

-- The end of both constructors.
unfoldable pub finish : Dict Bytes Entry → Tree
finish entries =
    let all = synthesize_parents entries in
    record { entries = all; children = sort_children (index_children (keys all) []) }

-- The loop of `LayerTree`.
unfoldable pub add_all : List TarEntry → Dict Bytes Entry → Dict Bytes Entry
add_all [] entries = entries
add_all (e ∷ es) entries =
    let full = canon (slash ∷ e.filename) in
    add_all es (insert full (record { path = full; header = e.header; layer_idx = pos 0 }) entries)

unfoldable pub layer_tree : List TarEntry → Tree
layer_tree layer = finish (add_all layer root_only)

-- The loop of `Merge` over the layers, lowest first.
unfoldable pub apply_layers : ℕ → List (List TarEntry) → Dict Bytes Entry → Dict Bytes Entry
apply_layers idx [] entries = entries
apply_layers idx (layer ∷ layers) entries =
    apply_layers (suc idx) layers (apply_layer entries layer idx)

unfoldable pub merge : List (List TarEntry) → Tree
merge layers = finish (apply_layers 0 layers root_only)

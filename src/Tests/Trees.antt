-- ===== src/Tests/Trees.antt =====
-- Runs of internal/merge, and its theorems at concrete layers.
use ocifuse.Prelude.{
  ℕ, pos, negsuc, ◌≡◌, ◌⊎◌, inl, inr, refl, true, none, some, List, [], ◌∷◌, Bytes, codes, bytes_eq,
  bytes_beq, bytes_ltb, map, arith,
}
use ocifuse.Prelude.Dict.{Dict, keys, lookup, insert, delete_where, has}
use ocifuse.Prelude.Sort.{sort}
use ocifuse.SlashPath.{base, dir, path_join}
use ocifuse.SlashPath.Names.{render}
use ocifuse.Strings.{has_prefix, trim_prefix}
use ocifuse.Merge.{
  Header, TarEntry, Entry, canon, get, children, present, names_at, action, apply_layer,
  delete_subtree, delete_children, by_filename,
}
use ocifuse.Merge.Layer.{adds, hides, puts, removes, overlay}
use ocifuse.Merge.Layer.Outcome.{
  MarkersFirst, MarkerLast, lookup-apply_layer, lookup-apply_layer_lost,
}
use ocifuse.Merge.Named.{lookup-apply_layer_opaque_lost}
use ocifuse.Merge.Parents.{parent_of}
use ocifuse.Merge.Children.{is_child}
use ocifuse.Merge.Provenance.{FromMerge, get-merge_origin}
use ocifuse.Merge.Whole.{map-path-children_merge, has-parent_merge}
use ocifuse.Merge.Build.{
  synthetic, root_only, synthesize_parents, missing_parents, missing_above, mark_missing,
  add_missing, index_children, sort_children, finish, add_all, layer_tree, apply_layers, merge,
}

-- The whole package, for the runs.
program : Unit {0}
unfolding has keys lookup insert delete_where sort bytes_beq bytes_ltb base dir path_join has_prefix
    trim_prefix canon get children present names_at action apply_layer delete_subtree
    delete_children by_filename synthesize_parents missing_parents missing_above mark_missing
    add_missing index_children sort_children finish add_all layer_tree apply_layers merge
program = tt

abbrev header : ℕ → Header
header flag = record {
  typeflag = flag;
  name = [];
  linkname = [];
  mode = 0;
  size = 0;
  uid = 0;
  gid = 0;
  mod_time = none;
}

abbrev regular : Bytes → TarEntry
regular name = record { filename = name; header = header b'0' }

abbrev lower : List TarEntry
lower = regular (codes "etc/passwd") ∷ regular (codes "etc/old") ∷ regular (codes "a/b/c") ∷ []

abbrev top : List TarEntry
top =
    regular (codes "etc/new") ∷ regular (codes "etc/.wh.old") ∷ regular (codes "./etc/passwd") ∷ []

paths : List Bytes
unfolding program
paths = map (λ (e : Entry). e.path) (children (merge (lower ∷ top ∷ [])) (codes "etc/"))

paths_run : paths ≡ codes "/etc/new" ∷ codes "/etc/passwd" ∷ []
unfolding paths
paths_run = refl

root_paths :
    map (λ (e : Entry). e.path) (children (merge (lower ∷ top ∷ [])) (codes "/"))
    ≡ codes "/a" ∷ codes "/etc" ∷ []
unfolding program
root_paths = refl

-- A file over a directory leaves what is below it.
shadowed_run :
    get (merge (lower ∷ (regular (codes "a") ∷ []) ∷ [])) (codes "a/b/c")
    ≡ some (record { path = codes "/a/b/c"; header = header b'0'; layer_idx = pos 0 })
unfolding program
shadowed_run = refl

base_entries : Dict Bytes Entry
unfolding program
base_entries = apply_layer root_only lower 0

top_first : MarkersFirst (codes "/etc/old") top
unfolding program adds hides puts removes
top_first = (λ h. cc, (λ h. (λ a. cc, (λ a. cc, (λ a. cc, tt))), (λ h. cc, tt)))

lookup-apply_layer_example : lookup (codes "/etc/old") (apply_layer base_entries top 1) ≡ none
unfolding program overlay adds hides puts removes
lookup-apply_layer_example = lookup-apply_layer 1 (codes "/etc/old") top base_entries top_first

abbrev lost : List TarEntry
lost = regular (codes "root/.bashrc") ∷ regular (codes "root/.wh..wh..opq") ∷ []

lost_marker : MarkerLast (codes "/root/.bashrc") lost
unfolding program adds hides puts removes
lost_marker = inr (inl (refl, (λ a. refl, (λ a. cc, tt))))

lookup-apply_layer_lost_example :
    lookup (codes "/root/.bashrc") (apply_layer base_entries lost 1) ≡ none
lookup-apply_layer_lost_example =
    lookup-apply_layer_lost 1 (codes "/root/.bashrc") lost base_entries lost_marker

lookup-apply_layer_opaque_lost_example :
    lookup (codes "/root/.bashrc") (apply_layer base_entries lost 1) ≡ none
unfolding program adds puts render
lookup-apply_layer_opaque_lost_example =
    lookup-apply_layer_opaque_lost 1 (codes "root" ∷ []) (codes ".bashrc") lost base_entries
      (ground arith) (ground arith) refl (inr (inl refl)) (λ a. refl, (λ a. cc, tt))

abbrev passwd : Entry
passwd = record { path = codes "/etc/passwd"; header = header b'0'; layer_idx = pos 1 }

get-merge_origin_example :
    (passwd ≡ synthetic (codes "/etc/passwd") (negsuc 0))
    ⊎ FromMerge (lower ∷ top ∷ []) (codes "/etc/passwd") passwd
unfolding program
get-merge_origin_example = get-merge_origin (lower ∷ top ∷ []) (codes "/etc/passwd") passwd refl

map-path-children_merge_example :
    map (λ (e : Entry). e.path) (children (merge (lower ∷ top ∷ [])) (codes "etc/"))
    ≡ codes "/etc/new" ∷ codes "/etc/passwd" ∷ []
unfolding program is_child parent_of
map-path-children_merge_example = map-path-children_merge (lower ∷ top ∷ []) (codes "etc/")

has-parent_merge_example : has (codes "/a/b") (merge (lower ∷ [])).entries ≡ true
unfolding program parent_of
has-parent_merge_example = has-parent_merge (lower ∷ []) (codes "/a/b/c") refl refl refl

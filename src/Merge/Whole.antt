-- ===== src/Merge/Whole.antt =====
-- `Merge` and `LayerTree` as a whole: lookups, parents and children of the finished trees.
use ocifuse.Prelude.{
  pos, Bool, ◌≡◌, refl, ap, ◌∙◌, true, false, none, some, List, [], ◌∷◌, Bytes, ◌==◌, bytes_eq,
  bytes_ltb, map, select, find_last, arith,
}
use ocifuse.Prelude.Dict.{Dict, keys, lookup, has, insert, lookup-insert}
use ocifuse.Prelude.Sort.{sort}
use ocifuse.SlashPath.{root, slash}
use ocifuse.Merge.{Entry, TarEntry, Tree, canon, get, children}
use ocifuse.Merge.Build.{root_only, finish, add_all, apply_layers, merge, layer_tree}
use ocifuse.Merge.Canon.{canon_idem}
use ocifuse.Merge.Layer.{merged}
use ocifuse.Merge.Parents.{parent_of}
use ocifuse.Merge.Parents.Synthesis.{lookup-synthesize_kept, has-parent_synthesize}
use ocifuse.Merge.Valid.{keys-Canonical, apply_layers-IsValid, add_all-IsValid, root_only-IsValid}
use ocifuse.Merge.Children.{is_child, map-path-children}

-- All spellings of a path find the same entry.
pub get-canon : (t : Tree) (p : Bytes) → get t (canon p) ≡ get t p
unfolding get
get-canon t p = ap (λ q. lookup q t.entries) (canon_idem p)

-- In a merged tree every path but the root is filed under the root or under a path of the tree.
pub has-parent_merge :
    (layers : List (List TarEntry)) (p : Bytes)
    → has p (merge layers).entries ≡ true
    → (p == root) ≡ false
    → (parent_of p == root) ≡ false
    → has (parent_of p) (merge layers).entries ≡ true
unfolding merge finish
has-parent_merge layers p h r q =
    has-parent_synthesize (apply_layers 0 layers root_only) p
      (keys-Canonical _ (apply_layers-IsValid 0 layers root_only root_only-IsValid)) h r q

-- The children of a directory of a merged tree are exactly the paths of the tree whose parent it
-- is, sorted, and each is listed with its own entry.
pub map-path-children_merge :
    (layers : List (List TarEntry)) (d : Bytes)
    → map (λ (e : Entry). e.path) (children (merge layers) d)
      ≡ sort bytes_ltb (select (is_child (canon d)) (keys (merge layers).entries))
unfolding merge
map-path-children_merge layers d =
    map-path-children (apply_layers 0 layers root_only) d
      (apply_layers-IsValid 0 layers root_only root_only-IsValid)

-- The last entry of a layer with this path.
abbrev pub named : Bytes → TarEntry → Bool
named p t = canon (slash ∷ t.filename) == p

pub lookup-add_all :
    (p : Bytes) (es : List TarEntry) (m : Dict Bytes Entry)
    → lookup p (add_all es m)
      ≡ (elim (find_last (named p) es) [ some t ↦ some (merged 0 p t) | none ↦ lookup p m ])
unfolding add_all
lookup-add_all p [] m = refl
lookup-add_all p (t ∷ es) m = ground (
  arith,
  lookup-add_all p es (
      insert (canon (slash ∷ t.filename))
        (record { path = canon (slash ∷ t.filename); header = t.header; layer_idx = pos 0 }) m),
  lookup-insert (canon (slash ∷ t.filename)) p
      (record { path = canon (slash ∷ t.filename); header = t.header; layer_idx = pos 0 }) m,
  bytes_eq.equal_iff (canon (slash ∷ t.filename)) p,
)

-- The tree of a single layer applies no whiteouts: a marker is found as a file like any other
-- entry, and of several entries with one path the last one counts.
pub get-layer_tree :
    (layer : List TarEntry) (p : Bytes) (t : TarEntry)
    → find_last (named (canon p)) layer ≡ some t
    → get (layer_tree layer) p ≡ some (merged 0 (canon p) t)
unfolding get layer_tree finish
get-layer_tree layer p t h =
    lookup-synthesize_kept (add_all layer root_only) (canon p) _
      (lookup-add_all (canon p) layer root_only ∙ ground (arith, h))

pub has-parent_layer_tree :
    (layer : List TarEntry) (p : Bytes)
    → has p (layer_tree layer).entries ≡ true
    → (p == root) ≡ false
    → (parent_of p == root) ≡ false
    → has (parent_of p) (layer_tree layer).entries ≡ true
unfolding layer_tree finish
has-parent_layer_tree layer p h r q =
    has-parent_synthesize (add_all layer root_only) p
      (keys-Canonical _ (add_all-IsValid layer root_only root_only-IsValid)) h r q

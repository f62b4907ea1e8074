-- ===== src/Mount/Shown/Nodes.antt =====
-- internal/mount: what a node needs to answer, and that lookups below it find such nodes.
use mathlib.Core.Path.{subst}
use ocifuse.Prelude.{
  ◌≡◌, refl, sym, ap, ◌∙◌, some, List, [], ◌∷◌, ◌++◌, Bytes, codes, ◌==◌, bytes_eq, All-append,
  Any-map, ok, err, Bool-cases, Option-cases, inl, inr,
}
use ocifuse.Prelude.Dict.{lookup, All-lookup}
use ocifuse.SlashPath.{root}
use ocifuse.SlashPath.Names.{IsName, render}
use ocifuse.Merge.{Entry, canon, get, is_dir, is_symlink}
use ocifuse.Merge.Build.{layer_tree}
use ocifuse.Merge.Canon.{Canonical, canon-render}
use ocifuse.Merge.Listing.{layer_tree-IsIndexed}
use ocifuse.Merge.Provenance.{action-path}
use ocifuse.Oci.{hash_string}
use ocifuse.Indexer.{Layer}
use ocifuse.Mount.{
  EntryOut, ImageDir, LayerDir, Node, intermediate_node, image_dir, image_file, image_meta_dir,
  layers_dir, layer_dir, layer_meta_dir, mem_symlink, mem_regular_file, Found, ResolvedImage,
  join_in_image,
}
use ocifuse.Mount.Paths.{join_in_image-render}
use ocifuse.Mount.Dirs.{image_node, image_dir_lookup}
use ocifuse.Mount.Dirs.Agree.{is_meta}
use ocifuse.Mount.Files.{layer_at}
use ocifuse.Mount.Files.Opened.{file-IsHeldBy}
use ocifuse.Mount.Images.Built.{IsBuilt}
use ocifuse.Mount.Meta.{
  image_meta_dir_lookup, find_layer, layer_node, layer_dir_lookup, layer_meta_dir_lookup,
  new_text_file,
}
use ocifuse.Mount.Meta.Held.{IsEntryOf, lookup-layer_tree}

-- Directories are at a clean path of the tree of their image or layer, and files are in a layer.
abbrev pub IsGood : {L T Fs : Type 0} → Node L T Fs → Type 0
IsGood (intermediate_node p) = Unit
IsGood (image_dir d) = IsBuilt d.ri × (d.tree ≡ d.ri.tree) × Canonical d.path
IsGood (image_file f) =
    (layer : Layer _) × (layer_at f.layers f.entry.layer_idx ≡ some layer)
    × IsEntryOf layer.entries f.entry.path f.entry
IsGood (image_meta_dir ri) = IsBuilt ri
IsGood (layers_dir ri) = IsBuilt ri
IsGood (layer_dir d) = (d.tree ≡ layer_tree d.layer.entries) × Canonical d.path
IsGood (layer_meta_dir layer) = Unit
IsGood (mem_symlink target) = Unit
IsGood (mem_regular_file body attr) = Unit

abbrev pub IsGoodAnswer : {L T Fs : Type 0} → Found L T Fs → Type 0
IsGoodAnswer (err e) = Unit
IsGoodAnswer (ok (n, attrs)) = IsGood n.node

pub root-Canonical : Canonical root
unfolding render
root-Canonical = ([], tt, refl)

join-Canonical : (p s : Bytes) → Canonical p → IsName s → Canonical (join_in_image p s)
join-Canonical p s (ds, h, e) k = (
  ds ++ s ∷ [],
  All-append IsName ds (s ∷ []) h (k, tt),
  ap (λ q. join_in_image q s) e ∙ join_in_image-render ds s h,
)

canon_of : (p : Bytes) → Canonical p → canon p ≡ p
canon_of p (ds, h, e) = ap canon e ∙ canon-render ds h ∙ sym e

module _ {L T Fs : Type 0} where
  image_node-IsGood :
      (d : ImageDir L T Fs) (p : Bytes) (e : Entry)
      → IsGood (image_dir d)
      → Canonical p
      → get d.tree p ≡ some e
      → IsGood (image_node d p e)
  unfolding image_node
  image_node-IsGood d p e (built, tree, at) c h = elim (Bool-cases (is_dir e)) [
    | inl t ↦ rw (t, image_node) (built, tree, c)
    | inr f ↦ elim (Bool-cases (is_symlink e)) [
      | inl t ↦ rw (f, t, image_node) tt
      | inr g ↦
          let (path, (i, layer, here, idx, held)) =
            file-IsHeldBy d.ri p e built (ap (λ t. get t p) (sym tree) ∙ h) f in
          rw (f, g, image_node)
            (
              layer,
              ap (layer_at d.ri.layers) idx ∙ here,
              Any-map (λ t a. (action-path t (canon p) a.0 ∙ sym path, a.1)) layer.entries held,
            )
    ]
  ]

  pub image_dir_lookup-IsGood :
      (d : ImageDir L T Fs) (child : Bytes) (out : EntryOut)
      → IsGood (image_dir d)
      → IsName child
      → IsGoodAnswer (image_dir_lookup d child out)
  unfolding image_dir_lookup
  image_dir_lookup-IsGood d child out (built, tree, at) name =
      elim (Bool-cases (is_meta d.path child)) [
        | inl m ↦ rw (m, image_dir_lookup) built
        | inr m ↦ elim (Option-cases (get d.tree (join_in_image d.path child))) [
          | inl n ↦ rw (m, n, image_dir_lookup) tt
          | inr (e, h) ↦
              rw (m, h, image_dir_lookup)
                (image_node-IsGood d (join_in_image d.path child) e (built, tree, at)
                  (join-Canonical d.path child at name) h)
        ]
      ]

  pub image_meta_dir_lookup-IsGood :
      (ri : ResolvedImage L T Fs) (child : Bytes) (out : EntryOut)
      → IsBuilt ri
      → IsGoodAnswer (image_meta_dir_lookup ri child out)
  unfolding image_meta_dir_lookup new_text_file
  image_meta_dir_lookup-IsGood ri child out b = elim (Bool-cases (child == codes "digest")) [
    | inl t ↦ rw (t, image_meta_dir_lookup) tt
    | inr f ↦ elim (Bool-cases (child == codes "layers")) [
      | inl t ↦ rw (f, t, image_meta_dir_lookup) b
      | inr g ↦ rw (f, g, image_meta_dir_lookup) tt
    ]
  ]

module _ (L T : Type 0) {Fs : Type 0} where
  layer_node-IsGood :
      (d : LayerDir Fs) (p : Bytes) (e : Entry)
      → IsGood {L = L} {T = T} (layer_dir d)
      → Canonical p
      → get d.tree p ≡ some e
      → IsGood {L = L} {T = T} (layer_node d p e)
  unfolding layer_node get
  layer_node-IsGood d p e (tree, at) c h = elim (Bool-cases (is_dir e)) [
    | inl t ↦ rw (t, layer_node) (tree, c)
    | inr f ↦ elim (Bool-cases (is_symlink e)) [
      | inl t ↦ rw (f, t, layer_node) tt
      | inr g ↦
          let there : lookup (canon p) (layer_tree d.layer.entries).entries ≡ some e =
            ap (λ t. get t p) (sym tree) ∙ h in
          let (idx, held) = lookup-layer_tree d.layer.entries (canon p) e there f in
          let path : e.path ≡ canon p =
            (All-lookup _ (canon p) e _ (layer_tree-IsIndexed d.layer.entries).valid there).1 in
          rw (f, g, layer_node)
            (
              d.layer,
              ap (layer_at (d.layer ∷ [])) idx,
              subst (λ q. IsEntryOf d.layer.entries q e) (sym path) held,
            )
    ]
  ]

  pub layer_dir_lookup-IsGood :
      (d : LayerDir Fs) (child : Bytes) (out : EntryOut)
      → IsGood {L = L} {T = T} (layer_dir d)
      → IsName child
      → IsGoodAnswer {L = L} {T = T} (layer_dir_lookup d child out)
  unfolding layer_dir_lookup
  layer_dir_lookup-IsGood d child out g name = elim (Bool-cases (is_meta d.path child)) [
    | inl m ↦ rw (m, layer_dir_lookup) tt
    | inr m ↦ elim (Option-cases (get d.tree (join_in_image d.path child))) [
      | inl n ↦ rw (m, n, layer_dir_lookup) tt
      | inr (e, h) ↦
          rw (m, h, layer_dir_lookup)
            (layer_node-IsGood d (join_in_image d.path child) e g
              (join-Canonical d.path child g.1 name) h)
    ]
  ]

  pub find_layer-IsGood :
      (layers : List (Layer Fs)) (child : Bytes) (out : EntryOut)
      → IsGoodAnswer {L = L} {T = T} (find_layer layers child out)
  unfolding find_layer
  find_layer-IsGood [] child out = tt
  find_layer-IsGood (ly ∷ lys) child out = elim (Bool-cases (hash_string ly.digest == child)) [
    | inl t ↦ rw (t, find_layer) (refl, root-Canonical)
    | inr f ↦ rw (f, find_layer) (find_layer-IsGood lys child out)
  ]

  pub layer_meta_dir_lookup-IsGood :
      (layer : Layer Fs) (child : Bytes) (out : EntryOut)
      → IsGoodAnswer {L = L} {T = T} (layer_meta_dir_lookup layer child out)
  unfolding layer_meta_dir_lookup new_text_file
  layer_meta_dir_lookup-IsGood layer child out = elim (Bool-cases (child == codes "layer-digest")) [
    | inl t ↦ rw (t, layer_meta_dir_lookup) tt
    | inr f ↦ rw (f, layer_meta_dir_lookup) tt
  ]

-- ===== src/Mount/Meta/Listing.antt =====
-- internal/mount/meta.go: the directories whose names the program chooses.
use mathlib.Core.Path.{subst}
use ocifuse.Prelude.{
  Any-map, Any-some, All-member, arith, ◌≡◌, refl, sym, false, List, [], ◌∷◌, Bytes, codes, ◌==◌,
  bytes_eq, bytes_beq, All, All-map, Any, ok, err, Bool-cases, inl, inr, ◌⊎◌,
}
use ocifuse.Oci.{hash_string}
use ocifuse.Indexer.{Layer}
use ocifuse.Mount.{s_ifdir, EntryOut, enoent, DirEntry, Found, layer_dir, ResolvedImage}
use ocifuse.Mount.Dirs.{plain_dir}
use ocifuse.Mount.Dirs.Agree.{Finds, IsServed}
use ocifuse.Mount.Meta.{
  image_meta_dir_lookup, image_meta_dir_readdir, layers_dir_lookup, layers_dir_readdir, find_layer,
  list_layers, layer_meta_dir_lookup, layer_meta_dir_readdir, layer_root,
}

abbrev HasDigest : {Fs : Type 0} → Bytes → Layer Fs → Type 0
HasDigest child ly = hash_string ly.digest ≡ child

list_layers-named :
    {Fs : Type 0} (layers : List (Layer Fs))
    → All (λ entry. Any (HasDigest entry.name) layers × (entry.mode ≡ s_ifdir)) (list_layers layers)
unfolding list_layers
list_layers-named [] = tt
list_layers-named (ly ∷ lys) = (
  (inl refl, refl),
  All-map (λ entry h. (inr h.0, h.1)) (list_layers lys) (list_layers-named lys),
)

Any-list_layers :
    {Fs : Type 0} (child : Bytes) (layers : List (Layer Fs))
    → Any (HasDigest child) layers
    → Any (λ (entry : DirEntry). entry.name ≡ child) (list_layers layers)
unfolding list_layers
Any-list_layers child [] h = h
Any-list_layers child (ly ∷ lys) (inl e) = inl e
Any-list_layers child (ly ∷ lys) (inr t) = inr (Any-list_layers child lys t)

module _ {L T Fs : Type 0} where
  -- A listing names exactly what a lookup finds, with the same type bits.
  abbrev pub Agrees : (Bytes → Found L T Fs) → List DirEntry → Type 0
  Agrees look entries =
      All (IsServed look) entries
      × ((child : Bytes) → Any (λ entry. entry.name ≡ child) entries ⊎ (look child ≡ err enoent))

  image_meta_dir_lookup-Agrees :
      (ri : ResolvedImage L T Fs) (out : EntryOut)
      → Agrees (λ child. image_meta_dir_lookup ri child out) (image_meta_dir_readdir ri)
  unfolding image_meta_dir_lookup image_meta_dir_readdir bytes_beq
  image_meta_dir_lookup-Agrees ri out = (
    ((_, _, refl), ((_, _, refl), tt)),
    λ child. elim (Bool-cases (child == codes "digest")) [
      | inl t ↦ inl (inl (sym ((bytes_eq.equal_iff child (codes "digest")).0 t)))
      | inr f ↦ elim (Bool-cases (child == codes "layers")) [
        | inl t ↦ inl (inr (inl (sym ((bytes_eq.equal_iff child (codes "layers")).0 t))))
        | inr g ↦ inr (rw (f, g, image_meta_dir_lookup) refl)
      ]
    ],
  )

  -- The directory of a layer with this digest is found, and nothing if there is none.
  find_layer_lem :
      (layers : List (Layer Fs)) (child : Bytes) (out : EntryOut)
      → Any
          (λ ly.
            (hash_string ly.digest ≡ child)
            × (find_layer {L = L} {T = T} layers child out
                ≡ ok (plain_dir (layer_dir (layer_root ly)) out)))
          layers
        ⊎ (All (λ ly. (hash_string ly.digest == child) ≡ false) layers
            × (find_layer {L = L} {T = T} layers child out ≡ err enoent))
  unfolding find_layer
  find_layer_lem [] child out = inr (tt, refl)
  find_layer_lem (ly ∷ lys) child out = elim (Bool-cases (hash_string ly.digest == child)) [
    | inl t ↦
        inl (inl ((bytes_eq.equal_iff (hash_string ly.digest) child).0 t, rw (t, find_layer) refl))
    | inr f ↦ elim (find_layer_lem lys child out) [
      | inl h ↦ inl (inr (Any-map (λ x e. (e.0, rw (f, find_layer) e.1)) lys h))
      | inr n ↦ inr ((f, n.0), rw (f, find_layer) n.1)
    ]
  ]

  find_layer-Finds :
      (layers : List (Layer Fs)) (child : Bytes) (out : EntryOut)
      → Any (HasDigest child) layers
      → Finds (find_layer {L = L} {T = T} layers child out) s_ifdir
  find_layer-Finds layers child out h = elim (find_layer_lem layers child out) [
    | inl there ↦ (_, _, (Any-some layers there).1.1)
    | inr (none_there, e) ↦
        let (ly, differs, same) = All-member _ layers none_there h in
        absurd
          (ground (arith, differs, same, (bytes_eq.equal_iff (hash_string ly.digest) child).1 same))
  ]

  layers_dir_lookup-Agrees :
      (ri : ResolvedImage L T Fs) (out : EntryOut)
      → Agrees (λ child. layers_dir_lookup ri child out) (layers_dir_readdir ri)
  unfolding layers_dir_lookup layers_dir_readdir
  layers_dir_lookup-Agrees ri out = (
    All-map
        (λ entry h.
          subst (λ m. Finds {L = L} {T = T} (find_layer ri.layers entry.name out) m) (sym h.1)
            (find_layer-Finds ri.layers entry.name out h.0))
        _ (list_layers-named ri.layers),
    λ child. elim (find_layer_lem ri.layers child out) [
      | inl there ↦ inl (Any-list_layers child ri.layers (Any-map (λ ly e. e.0) ri.layers there))
      | inr (none_there, e) ↦ inr e
    ],
  )

  layer_meta_dir_lookup-Agrees :
      (layer : Layer Fs) (out : EntryOut)
      → Agrees
          (λ child. layer_meta_dir_lookup {L = L} {T = T} layer child out)
          (layer_meta_dir_readdir layer)
  unfolding layer_meta_dir_lookup layer_meta_dir_readdir bytes_beq
  layer_meta_dir_lookup-Agrees layer out = (
    ((_, _, refl), tt),
    λ child. elim (Bool-cases (child == codes "layer-digest")) [
      | inl t ↦ inl (inl (sym ((bytes_eq.equal_iff child (codes "layer-digest")).0 t)))
      | inr f ↦ inr (rw (f, layer_meta_dir_lookup) refl)
    ],
  )

  -- Of the metadata directory of an image, its directory of layers and the metadata directory
  -- of a layer: each name listed is found, with the type bits of the listing, and a name that
  -- is not listed is not found.
  pub meta_lookup-Agrees :
      (ri : ResolvedImage L T Fs) (layer : Layer Fs) (out : EntryOut)
      → Agrees (λ child. image_meta_dir_lookup ri child out) (image_meta_dir_readdir ri)
        × Agrees (λ child. layers_dir_lookup ri child out) (layers_dir_readdir ri)
        × Agrees
            (λ child. layer_meta_dir_lookup {L = L} {T = T} layer child out)
            (layer_meta_dir_readdir layer)
  meta_lookup-Agrees ri layer out = (
    image_meta_dir_lookup-Agrees ri out,
    layers_dir_lookup-Agrees ri out,
    layer_meta_dir_lookup-Agrees layer out,
  )

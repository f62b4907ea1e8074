-- ===== src/Mount/Images/Built.antt =====
-- internal/mount/mount.go: the image that openLayers and Merge make.
use ocifuse.Prelude.{suc, ◌≡◌, refl, ap, List, [], ◌∷◌, length, Result, ok, err}
use ocifuse.Merge.{TarEntry}
use ocifuse.Merge.Build.{merge}
use ocifuse.Oci.{Image}
use ocifuse.Indexer.{Layer}
use ocifuse.Mount.{Reference, ResolvedImage, Services}
use ocifuse.Mount.Images.{ImageError, open_one, open_layers, join_layers, merge_layers, build_image}

abbrev pub entries_of : {Fs : Type 0} → List (Layer Fs) → List (List TarEntry)
entries_of [] = []
entries_of (layer ∷ layers) = layer.entries ∷ entries_of layers

-- The image has a layer for each layer of its manifest, and the tree is that of their entries.
pub record IsBuilt {L T Fs : Type 0} (ri : ResolvedImage L T Fs) : Type 0 where
  pub tree : ri.tree ≡ merge (entries_of ri.layers)
  pub layers : length ri.layers ≡ length ri.img.layers

-- The opened layers and their entries belong together.
abbrev Opened :
    {L Fs S E : Type 0}
    → List L
    → Result (ImageError E) (List (Layer Fs) × List (List TarEntry)) × S
    → Type 0
Opened ls (err e, s) = Unit
Opened ls (ok (layers, entries), s) = (entries ≡ entries_of layers) × (length layers ≡ length ls)

-- An image that was built.
abbrev pub Builds :
    {L T Fs S E : Type 0} → Result (ImageError E) (ResolvedImage L T Fs) × S → Type 0
Builds (err e, s) = Unit
Builds (ok ri, s) = IsBuilt ri

module _ {S L T Fs F E : Type 0} (calls : Services S L T Fs F E) where
  Opened-join_layers :
      (l : L) (ls : List L) (opened : Result (ImageError E) (Layer Fs) × S)
      (rest : Result (ImageError E) (List (Layer Fs) × List (List TarEntry)) × S)
      → Opened ls rest
      → Opened (l ∷ ls) (join_layers calls opened rest)
  Opened-join_layers l ls (err e, after) rest h = tt
  Opened-join_layers l ls (ok layer, after) (err e, last) h = tt
  Opened-join_layers l ls (ok layer, after) (ok (layers, entries), last) h =
      (ap (◌∷◌ layer.entries) h.0, ap suc h.1)

  open_layers-Opened :
      (img : Image Reference L T) (ls : List L) (s : S) → Opened ls (open_layers calls img ls s)
  unfolding open_layers
  open_layers-Opened img [] s = (refl, refl)
  open_layers-Opened img (l ∷ ls) s =
      Opened-join_layers l ls (open_one calls img l s) _ (open_layers-Opened img ls _)

  Builds-merge_layers :
      (img : Image Reference L T)
      (opened : Result (ImageError E) (List (Layer Fs) × List (List TarEntry)) × S)
      → Opened img.layers opened
      → Builds (merge_layers calls img opened)
  Builds-merge_layers img (err e, s) h = tt
  Builds-merge_layers img (ok (layers, entries), s) h = record { tree = ap merge h.0; layers = h.1 }

  pub build_image-Builds : (img : Image Reference L T) (s : S) → Builds (build_image calls img s)
  unfolding build_image
  build_image-Builds img s =
      Builds-merge_layers img (open_layers calls img img.layers s)
        (open_layers-Opened img img.layers s)

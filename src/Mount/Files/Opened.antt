-- ===== src/Mount/Files/Opened.antt =====
-- internal/mount/mount.go: which file of which layer is opened for a file of an image.
use mathlib.Core.Path.{subst}
use ocifuse.Prelude.{
  ℕ, zero, suc, pos, ◌≡◌, refl, sym, ap, ◌∙◌, false, some, List, [], ◌∷◌, Bytes, bytes_eq, Any,
  get_elem?, Result, ok, err, inl, inr, arith,
}
use ocifuse.Prelude.Dict.{lookup, All-lookup}
use ocifuse.Strings.{trim_prefix}
use ocifuse.SlashPath.{root}
use ocifuse.Merge.{Entry, TarEntry, Tree, file, action, canon, get, is_dir}
use ocifuse.Merge.Build.{merge}
use ocifuse.Merge.Listing.{merge-IsIndexed}
use ocifuse.Merge.Provenance.{FromLayer, get-merge_origin}
use ocifuse.Indexer.{Layer}
use ocifuse.Mount.{Errno, eio, ResolvedImage, ImageFile, Services}
use ocifuse.Mount.Images.Built.{IsBuilt, entries_of}
use ocifuse.Mount.Files.{FileHandle, file_handle, layer_at, image_file_open}

-- The layer whose entries these are.
layer_of :
    {Fs : Type 0} (layers : List (Layer Fs)) (i : ℕ) (es : List TarEntry)
    → get_elem? (entries_of layers) i ≡ some es
    → (layer : Layer Fs) × (get_elem? layers i ≡ some layer) × (layer.entries ≡ es)
layer_of [] i es h = cc
layer_of (layer ∷ layers) zero es h = (layer, refl, ground arith)
layer_of (layer ∷ layers) (suc i) es h = layer_of layers i es h

-- A file of a merged tree was put there by a layer.
file-FromLayer :
    (layers : List (List TarEntry)) (p : Bytes) (e : Entry)
    → lookup p (merge layers).entries ≡ some e
    → is_dir e ≡ false
    → FromLayer layers p e
unfolding is_dir
file-FromLayer layers p e h f = elim (get-merge_origin layers p e h) [
  | inl s ↦ cc (ap is_dir (sym s) ∙ f)
  | inr (inl s) ↦ cc (ap is_dir (sym s) ∙ f)
  | inr (inr l) ↦ l
]

-- The layer has an entry that puts this file at the path.
abbrev pub IsHeldBy : {Fs : Type 0} → Layer Fs → Bytes → Entry → Type 0
IsHeldBy layer p e = Any (λ t. (action t ≡ file p) × (e.header ≡ t.header)) layer.entries

-- A file of a resolved image is in the layer with its index.
pub file-IsHeldBy :
    {L T Fs : Type 0} (ri : ResolvedImage L T Fs) (p : Bytes) (e : Entry)
    → IsBuilt ri
    → get ri.tree p ≡ some e
    → is_dir e ≡ false
    → (e.path ≡ canon p)
      × ((i : ℕ) × (layer : Layer Fs) × (get_elem? ri.layers i ≡ some layer)
          × (e.layer_idx ≡ pos i)
          × IsHeldBy layer (canon p) e)
unfolding get
file-IsHeldBy ri p e b h f =
    let there : lookup (canon p) (merge (entries_of ri.layers)).entries ≡ some e =
      ap (λ (t : Tree). lookup (canon p) t.entries) (sym b.tree) ∙ h in
    let (i, es, at, idx, held) = file-FromLayer (entries_of ri.layers) (canon p) e there f in
    let (layer, here, same) = layer_of ri.layers i es at in
    (
      (All-lookup _ (canon p) e _ (merge-IsIndexed (entries_of ri.layers)).valid there).1,
      (
        i,
        layer,
        here,
        idx,
        subst (Any (λ t. (action t ≡ file (canon p)) × (e.header ≡ t.header))) (sym same) held,
      ),
    )

abbrev pub handle_of : {F E : Type 0} → Result E F → Result Errno (FileHandle F)
handle_of (err e) = err eio
handle_of (ok f) = ok (file_handle f)

module _ {S L T Fs F E : Type 0} (calls : Services S L T Fs F E) where
  pub image_file_open-at :
      (f : ImageFile Fs) (layer : Layer Fs)
      → layer_at f.layers f.entry.layer_idx ≡ some layer
      → image_file_open calls f
        ≡ handle_of (calls.open_file layer.fs (trim_prefix f.entry.path root))
  unfolding image_file_open
  image_file_open-at f layer at =
      rw (at, image_file_open)
        (by_outcome (calls.open_file layer.fs (trim_prefix f.entry.path root)))
    where
      by_outcome :
          (r : Result E F) → (elim r [ err e ↦ err eio | ok f ↦ ok (file_handle f) ]) ≡ handle_of r
      by_outcome (err e) = refl
      by_outcome (ok f) = refl

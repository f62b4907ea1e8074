-- ===== src/Merge/Provenance.antt =====
-- Where the entries of a merged tree come from.
use mathlib.Core.Path.{subst}
use ocifuse.Prelude.{
  ℕ, suc, ◌+◌, pos, negsuc, ◌≡◌, ◌⊎◌, inl, inr, refl, sym, ap, ◌∙◌, bytes_eq, Any-map, Option, some,
  Bool-cases, ◌==◌, List, [], ◌∷◌, Bytes, All, Any, All-map, get_elem?, arith, Option-cases,
}
use ocifuse.Prelude.Dict.{Dict, lookup, All-lookup}
use ocifuse.Strings.{has_prefix}
use ocifuse.SlashPath.{root, slash, base}
use ocifuse.Merge.{
  Entry, TarEntry, Action, opaque, whiteout, file, action, apply_layer, canon, wh_opaque, wh_prefix,
}
use ocifuse.Merge.Build.{synthetic, root_only, apply_layers, merge, finish}
use ocifuse.Merge.Layer.Preserve.{Adds, All-apply_layer}
use ocifuse.Merge.Parents.Synthesis.{lookup-synthesize_new, lookup-synthesize_kept}

same_entry : {o : Option Entry} {x e : Entry} → o ≡ some x → o ≡ some e → x ≡ e
same_entry p q = ground arith

members : (es : List TarEntry) → All (λ t. Any (λ u. u ≡ t) es) es
members [] = tt
members (t ∷ es) = (inl refl, All-map (λ u m. inr m) es (members es))

file_path : Action → Bytes
file_path (opaque d) = []
file_path (whiteout t) = []
file_path (file full) = full

-- The path of a file is the canonical form of its name.
pub action-path : (t : TarEntry) (p : Bytes) → action t ≡ file p → canon (slash ∷ t.filename) ≡ p
unfolding action file_path
action-path t p h = elim (Bool-cases (base t.filename == wh_opaque)) [
  | inl o ↦ cc (rw (o, action) at h)
  | inr o ↦ elim (Bool-cases (has_prefix (base t.filename) wh_prefix)) [
    | inl w ↦ cc (rw (o, w, action) at h)
    | inr w ↦ ap file_path (rw (o, w, action) at h)
  ]
]

-- The entry was put at the path by a layer: the one that its index names holds a file for the
-- path with the same header.
abbrev pub FromLayer : List (List TarEntry) → Bytes → Entry → Type 0
FromLayer layers p e =
    (i : ℕ) × (layer : List TarEntry) × (get_elem? layers i ≡ some layer)
    × (e.layer_idx ≡ pos i)
    × Any (λ t. (action t ≡ file p) × (e.header ≡ t.header)) layer

abbrev pub FromMerge : List (List TarEntry) → Bytes → Entry → Type 0
FromMerge layers p e = (e ≡ synthetic root (pos 0)) ⊎ FromLayer layers p e

module _ (layers : List (List TarEntry)) where
  abbrev Origin : Bytes × Entry → Type 0
  Origin (p, e) = FromMerge layers p e

  Adds-member :
      (idx : ℕ) (layer : List TarEntry) (t : TarEntry)
      → get_elem? layers idx ≡ some layer
      → Any (λ u. u ≡ t) layer
      → Adds Origin idx t
  Adds-member idx layer t at member full a = inr (
    idx,
    layer,
    at,
    refl,
    Any-map
        (λ (u : TarEntry) (e : u ≡ t). (ap action e ∙ a, sym (ap (λ (v : TarEntry). v.header) e)))
        layer member,
  )

  layer-Origin :
      (idx : ℕ) (layer : List TarEntry) (m : Dict Bytes Entry)
      → get_elem? layers idx ≡ some layer
      → All Origin m
      → All Origin (apply_layer m layer idx)
  layer-Origin idx layer m at h =
      let adds = λ (t : TarEntry) (c : Any (λ u. u ≡ t) layer). Adds-member idx layer t at c in
      All-apply_layer Origin idx layer m (All-map adds layer (members layer)) h

  layers-Origin :
      (idx : ℕ) (rest : List (List TarEntry)) (m : Dict Bytes Entry)
      → ((j : ℕ) (l : List TarEntry)
          → get_elem? rest j ≡ some l
          → get_elem? layers (idx + j) ≡ some l)
      → All Origin m
      → All Origin (apply_layers idx rest m)
  unfolding apply_layers
  layers-Origin idx [] m at h = h
  layers-Origin idx (layer ∷ rest) m at h =
      layers-Origin (suc idx) rest _
        (λ j l e. subst (λ k. get_elem? layers k ≡ some l) (shift j) (at (suc j) l e))
        (layer-Origin idx layer m
          (subst (λ k. get_elem? layers k ≡ some layer) (no_shift idx) (at 0 layer refl)) h)
    where
      shift : (j : ℕ) → idx + suc j ≡ suc idx + j
      shift j = omega arith

      no_shift : (n : ℕ) → n + 0 ≡ n
      no_shift n = omega arith

  -- Every entry of a merged tree is the root that merging starts with, or was put there by the
  -- layer that its index names, from an entry for that path with that header, or is a directory
  -- made up for a missing parent.
  pub get-merge_origin :
      (p : Bytes) (e : Entry)
      → lookup p (merge layers).entries ≡ some e
      → (e ≡ synthetic p (negsuc 0)) ⊎ FromMerge layers p e
  unfolding merge finish
  get-merge_origin p e h = elim (Option-cases (lookup p merged_layers)) [
    | inl none_there ↦ inl (lookup-synthesize_new merged_layers p e none_there h)
    | inr (x, there) ↦ inr (
        subst (FromMerge layers p) (same_entry (lookup-synthesize_kept merged_layers p x there) h) (
          All-lookup Origin p x merged_layers
            (layers-Origin 0 layers root_only
              (λ j l e. subst (λ k. get_elem? layers k ≡ some l) (zero_shift j) e) (inl refl, tt))
            there))
  ]
    where
      merged_layers : Dict Bytes Entry
      merged_layers = apply_layers 0 layers root_only

      zero_shift : (j : ℕ) → j ≡ 0 + j
      zero_shift j = omega arith

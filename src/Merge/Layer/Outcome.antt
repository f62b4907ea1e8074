-- ===== src/Merge/Layer/Outcome.antt =====
-- What a layer leaves at a path, and when that is what the image-spec asks for.
use ocifuse.Prelude.{
  ℕ, ◌≡◌, refl, ap, ◌∙◌, bytes_eq, true, false, Option, none, List, [], ◌∷◌, Bytes, any, arith,
  foldl, All, Any, All-map, Any-map, inl, inr,
}
use ocifuse.Prelude.Dict.{Dict, lookup}
use ocifuse.Prelude.Sort.{sort, IsSorted, All-sort, Any-sort}
use ocifuse.Merge.{Entry, TarEntry, by_filename, apply_layer}
use ocifuse.Merge.Layer.{adds, hides, overlay, effect, lookup-apply_sorted}
use ocifuse.Merge.Layer.Order.{by_filename_irrefl, sort_layer-IsSorted}

-- No marker of the layer that hides the path sorts after an entry at the path.
abbrev pub MarkersFirst : Bytes → List TarEntry → Type 0
MarkersFirst p layer =
    All (λ m. hides p m ≡ true → All (λ e. adds p e ≡ true → by_filename m e ≡ true) layer) layer

-- The same of a list in the order in which it is applied.
abbrev InOrder : Bytes → List TarEntry → Type 0
InOrder p [] = Unit
InOrder p (e ∷ es) = (adds p e ≡ true → any (hides p) es ≡ false) × InOrder p es

not_hidden :
    (p : Bytes) (e : TarEntry) (es : List TarEntry)
    → adds p e ≡ true
    → All (λ y. by_filename y e ≡ false) es
    → All (λ m. hides p m ≡ true → by_filename m e ≡ true) es
    → any (hides p) es ≡ false
not_hidden p e [] a s h = refl
not_hidden p e (x ∷ es) a s h = ground (arith, not_hidden p e es a s.1 h.1, h.0, s.0)

foldl-effect :
    (idx : ℕ) (p : Bytes) (es : List TarEntry) (old : Option Entry)
    → InOrder p es
    → foldl (effect idx p) old es ≡ overlay idx p es old
unfolding overlay effect
foldl-effect idx p [] old h = refl
foldl-effect idx p (e ∷ es) old h = foldl-effect idx p es _ h.1 ∙ ground (arith, h.0)

IsSorted-InOrder :
    (p : Bytes) (es : List TarEntry) → IsSorted by_filename es → MarkersFirst p es → InOrder p es
IsSorted-InOrder p [] s h = tt
IsSorted-InOrder p (e ∷ es) s h = (
  λ a. not_hidden p e es a s.0 (All-map (λ m k hm. (k hm).0 a) es h.1),
  IsSorted-InOrder p es s.1 (All-map (λ m k hm. (k hm).1) es h.1),
)

MarkersFirst-sort :
    (p : Bytes) (layer : List TarEntry)
    → MarkersFirst p layer
    → MarkersFirst p (sort by_filename layer)
MarkersFirst-sort p layer h =
    All-sort by_filename _ layer (All-map (λ m k hm. All-sort by_filename _ layer (k hm)) layer h)

-- If every marker of a layer that hides a path sorts before the layer's entries at that path,
-- then applying the layer leaves at the path the layer's own entry (the last one in the order of
-- file names), or nothing if a marker hides the path, or else what the lower layers have there.
pub lookup-apply_layer :
    (idx : ℕ) (p : Bytes) (layer : List TarEntry) (m : Dict Bytes Entry)
    → MarkersFirst p layer
    → lookup p (apply_layer m layer idx) ≡ overlay idx p (sort by_filename layer) (lookup p m)
unfolding apply_layer
lookup-apply_layer idx p layer m h =
    lookup-apply_sorted idx p (sort by_filename layer) m
    ∙ foldl-effect idx p (sort by_filename layer) (lookup p m)
        (IsSorted-InOrder p _ (sort_layer-IsSorted layer) (MarkersFirst-sort p layer h))

-- Some marker of the layer hides the path and sorts after all entries at the path.
abbrev pub MarkerLast : Bytes → List TarEntry → Type 0
MarkerLast p layer =
    Any (λ m. (hides p m ≡ true) × All (λ e. adds p e ≡ true → by_filename e m ≡ true) layer) layer

none_stays :
    (idx : ℕ) (p : Bytes) (es : List TarEntry)
    → All (λ e. adds p e ≡ false) es
    → foldl (effect idx p) none es ≡ none
unfolding effect
none_stays idx p [] h = refl
none_stays idx p (e ∷ es) h = ground (arith, h.0, none_stays idx p es h.1)

no_adds_after :
    (p : Bytes) (m : TarEntry) (es : List TarEntry)
    → All (λ y. by_filename y m ≡ false) es
    → All (λ e. adds p e ≡ true → by_filename e m ≡ true) es
    → All (λ e. adds p e ≡ false) es
no_adds_after p m [] s h = tt
no_adds_after p m (e ∷ es) s h = (ground (arith, s.0, h.0), no_adds_after p m es s.1 h.1)

effect_marker :
    (idx : ℕ) (p : Bytes) (m : TarEntry) (old : Option Entry)
    → hides p m ≡ true
    → (adds p m ≡ true → by_filename m m ≡ true)
    → effect idx p old m ≡ none
unfolding effect
effect_marker idx p m old h k = ground (arith, h, k, by_filename_irrefl m)

hidden_last :
    (idx : ℕ) (p : Bytes) (es : List TarEntry) (old : Option Entry)
    → IsSorted by_filename es
    → MarkerLast p es
    → foldl (effect idx p) old es ≡ none
hidden_last idx p [] old s h = absurd h
hidden_last idx p (m ∷ es) old s (inl h) =
    ap (λ o. foldl (effect idx p) o es) (effect_marker idx p m old h.0 h.1.0)
    ∙ none_stays idx p es (no_adds_after p m es s.0 h.1.1)
hidden_last idx p (x ∷ es) old s (inr h) =
    hidden_last idx p es _ s.1 (Any-map (λ m k. (k.0, k.1.1)) es h)

-- If some marker of a layer hides a path and sorts after all of the layer's entries at that path,
-- the path is missing once the layer is applied, although the layer may hold a file there.
pub lookup-apply_layer_lost :
    (idx : ℕ) (p : Bytes) (layer : List TarEntry) (m : Dict Bytes Entry)
    → MarkerLast p layer
    → lookup p (apply_layer m layer idx) ≡ none
unfolding apply_layer
lookup-apply_layer_lost idx p layer m h =
    lookup-apply_sorted idx p (sort by_filename layer) m
    ∙ hidden_last idx p (sort by_filename layer) (lookup p m) (sort_layer-IsSorted layer) (
        Any-sort by_filename _ layer
          (Any-map (λ m k. (k.0, All-sort by_filename _ layer k.1)) layer h))

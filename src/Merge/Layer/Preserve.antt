-- ===== src/Merge/Layer/Preserve.antt =====
-- Properties of single entries that `applyLayer` keeps.
use ocifuse.Prelude.{ℕ, pos, ◌≡◌, refl, List, [], ◌∷◌, Bytes, bytes_eq, All}
use ocifuse.Prelude.Dict.{Dict, All-insert, All-delete_where}
use ocifuse.Prelude.Sort.{sort, All-sort}
use ocifuse.Merge.{
  Entry, TarEntry, Action, opaque, whiteout, file, action, perform, apply_sorted, apply_layer,
  delete_subtree, delete_children, by_filename,
}

module _ (P : Bytes × Entry → Type 0) (idx : ℕ) where
  -- What an entry of a layer adds has the property.
  abbrev pub Adds : TarEntry → Type 0
  Adds t =
      (full : Bytes)
      → action t ≡ file full
      → P (full, record { path = full; header = t.header; layer_idx = pos idx })

  All-perform :
      (t : TarEntry) (a : Action) (m : Dict Bytes Entry)
      → action t ≡ a
      → Adds t
      → All P m
      → All P (perform idx t a m)
  unfolding perform delete_subtree delete_children
  All-perform t (opaque d) m e f h = All-delete_where P _ m h
  All-perform t (whiteout w) m e f h = All-delete_where P _ _ (All-delete_where P _ m h)
  All-perform t (file full) m e f h = All-insert P full _ m (f full e) h

  All-apply_sorted :
      (es : List TarEntry) (m : Dict Bytes Entry)
      → All Adds es
      → All P m
      → All P (apply_sorted idx es m)
  unfolding apply_sorted
  All-apply_sorted [] m f h = h
  All-apply_sorted (t ∷ es) m f h =
      All-apply_sorted es _ f.1 (All-perform t (action t) m refl f.0 h)

  -- A property of entries goes through `applyLayer` if the entries of the layer have it.
  pub All-apply_layer :
      (layer : List TarEntry) (m : Dict Bytes Entry)
      → All Adds layer
      → All P m
      → All P (apply_layer m layer idx)
  unfolding apply_layer
  All-apply_layer layer m f h =
      All-apply_sorted (sort by_filename layer) m (All-sort by_filename Adds layer f) h

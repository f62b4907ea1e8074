-- ===== src/Mount/Dirs/Walk.antt =====
-- internal/mount/mount.go: a path in an image, walked one name at a time, as the kernel does.
use ocifuse.Prelude.{
  ◌≡◌, refl, ap, ◌∙◌, true, Option, some, none, List, [], ◌∷◌, ◌++◌, Bytes, All, All-append, ok,
  err,
}
use mathlib.Core.List.{append_assoc}
use ocifuse.SlashPath.{root}
use ocifuse.SlashPath.Names.{IsName, render}
use ocifuse.Merge.{Entry, Tree, get, is_dir}
use ocifuse.Mount.{EntryOut, ImageDir, Node, image_dir, Found, join_in_image, ResolvedImage}
use ocifuse.Mount.Paths.{join_in_image-render}
use ocifuse.Mount.Dirs.{image_dir_lookup, image_node}
use ocifuse.Mount.Dirs.Agree.{NoMeta, is_meta-listed}
use ocifuse.Mount.Dirs.Listing.{image_dir_lookup-some}

-- Each name leads to a directory, from the directory with the names `ds` on.
abbrev pub DirsOnWay : Tree → List Bytes → List Bytes → Type 0
DirsOnWay t ds [] = Unit
DirsOnWay t ds (s ∷ ss) =
    ((e : Entry) × (get t (render (ds ++ s ∷ [])) ≡ some e) × (is_dir e ≡ true))
    × DirsOnWay t (ds ++ s ∷ []) ss

module _ {L T Fs : Type 0} where
  abbrev node_of : Found L T Fs → Option (Node L T Fs)
  node_of (err e) = none
  node_of (ok (n, out)) = some n.node

  -- One name below a directory of an image.
  abbrev pub step : EntryOut → Option (Node L T Fs) → Bytes → Option (Node L T Fs)
  step out (some (image_dir d)) name = node_of (image_dir_lookup d name out)
  step out _ name = none

  abbrev pub walk : EntryOut → Option (Node L T Fs) → List Bytes → Option (Node L T Fs)
  walk out node [] = node
  walk out node (name ∷ names) = walk out (step out node name) names

  abbrev pub dir_at : ResolvedImage L T Fs → Bytes → ImageDir L T Fs
  dir_at ri p = record { ri = ri; tree = ri.tree; path = p }

  step_lem :
      (ri : ResolvedImage L T Fs) (out : EntryOut) (ds : List Bytes) (s : Bytes) (e : Entry)
      → NoMeta ri.tree
      → All IsName ds
      → get ri.tree (render (ds ++ s ∷ [])) ≡ some e
      → step out (some (image_dir (dir_at ri (render ds)))) s
        ≡ some (image_node (dir_at ri root) (render (ds ++ s ∷ [])) e)
  unfolding image_node
  step_lem ri out ds s e n h there =
      let joined = join_in_image-render ds s h in
      let at : get ri.tree (join_in_image (render ds) s) ≡ some e =
        ap (get ri.tree) joined ∙ there in
      ap node_of (
        image_dir_lookup-some (dir_at ri (render ds)) s out e
          (is_meta-listed ri.tree (render ds) s e n at) at)
      ∙ ap (λ p. some (image_node (dir_at ri root) p e)) joined

  image_node-dir :
      (ri : ResolvedImage L T Fs) (p : Bytes) (e : Entry)
      → is_dir e ≡ true
      → image_node (dir_at ri root) p e ≡ image_dir (dir_at ri p)
  unfolding image_node
  image_node-dir ri p e d = rw (d, image_node) refl

  walk_from :
      (ri : ResolvedImage L T Fs) (out : EntryOut) (ds ss : List Bytes) (s : Bytes) (e : Entry)
      → NoMeta ri.tree
      → All IsName ds
      → All IsName ss
      → DirsOnWay ri.tree ds ss
      → get ri.tree (render (ds ++ (ss ++ s ∷ []))) ≡ some e
      → walk out (some (image_dir (dir_at ri (render ds)))) (ss ++ s ∷ [])
        ≡ some (image_node (dir_at ri root) (render (ds ++ (ss ++ s ∷ []))) e)
  walk_from ri out ds [] s e n h k w there = step_lem ri out ds s e n h there
  walk_from ri out ds (x ∷ ss) s e n h k ((d, at, is), w) there =
      let next : List Bytes = ds ++ x ∷ [] in
      let assoc : next ++ (ss ++ s ∷ []) ≡ ds ++ (x ∷ (ss ++ s ∷ [])) =
        append_assoc ds (x ∷ []) (ss ++ s ∷ []) in
      ap (λ node. walk out node (ss ++ s ∷ []))
        (step_lem ri out ds x d n h at ∙ ap some (image_node-dir ri (render next) d is))
      ∙ walk_from ri out next ss s e n (All-append IsName ds (x ∷ []) h (k.0, tt)) k.1 w
          (ap (λ p. get ri.tree (render p)) assoc ∙ there)
      ∙ ap (λ p. some (image_node (dir_at ri root) (render p) e)) assoc

  -- In an image with nothing at /@@meta, looking up the names of a path one after the other
  -- from the root on finds the node for the entry that the tree has at the path, if the names
  -- before the last one lead to directories.
  pub walk_lem :
      (ri : ResolvedImage L T Fs) (out : EntryOut) (ss : List Bytes) (s : Bytes) (e : Entry)
      → NoMeta ri.tree
      → All IsName ss
      → DirsOnWay ri.tree [] ss
      → get ri.tree (render (ss ++ s ∷ [])) ≡ some e
      → walk out (some (image_dir (dir_at ri root))) (ss ++ s ∷ [])
        ≡ some (image_node (dir_at ri root) (render (ss ++ s ∷ [])) e)
  unfolding render
  walk_lem ri out ss s e n k w there = walk_from ri out [] ss s e n tt k w there

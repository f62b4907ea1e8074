-- ===== src/Mount/Paths.antt =====
-- internal/mount/mount.go: `joinInImage` on the paths of a tree, and where a tree has a child.
use mathlib.Core.Path.{subst}
use ocifuse.Prelude.{◌≡◌, sym, ap, ◌∙◌, some, List, [], ◌∷◌, ◌++◌, Bytes, bytes_eq, bytes_beq, All}
use ocifuse.Prelude.Dict.{lookup, All-lookup}
use ocifuse.SlashPath.{base}
use ocifuse.SlashPath.Names.{IsName, render, slashed, render-not_root, render-append_last}
use ocifuse.SlashPath.Relative.{base-render}
use ocifuse.Merge.{Entry, Tree, canon, get}
use ocifuse.Merge.Canon.{Canonical, canon-render}
use ocifuse.Merge.Listing.{IsIndexed, IsChild, child-names}
use ocifuse.Merge.Children.{is_child}
use ocifuse.Mount.{join_in_image}

pub join_in_image-render :
    (ds : List Bytes) (s : Bytes)
    → All IsName ds
    → join_in_image (render ds) s ≡ render (ds ++ s ∷ [])
unfolding join_in_image bytes_beq slashed render
join_in_image-render [] s h = sym (render-append_last [] s)
join_in_image-render (d ∷ ds) s h =
    rw (render-not_root d ds h.0, join_in_image) (sym (render-append_last (d ∷ ds) s))

-- The base of a child's path is a name that leads from the directory to the child.
abbrev pub IsNamedIn : Tree → Bytes → Entry → Type 0
IsNamedIn t d e =
    IsName (base e.path)
    × (join_in_image d (base e.path) ≡ e.path)
    × (get t (join_in_image d (base e.path)) ≡ some e)

pub child-IsNamedIn :
    (t : Tree) (d : Bytes) (e : Entry)
    → IsIndexed t
    → Canonical d
    → IsChild t (canon d) e
    → IsNamedIn t d e
unfolding get
child-IsNamedIn t d e i (ds, names, at) (filed, there) =
    let dir : canon d ≡ render ds = ap canon at ∙ canon-render ds names in
    let (c, same) = All-lookup _ e.path e t.entries i.valid there in
    let (ts, held, written) = c in
    let (s, name, path) =
      child-names ds e.path names c (ap (λ q. is_child q e.path) (sym dir) ∙ filed) in
    let last : base e.path ≡ s = ap base path ∙ base-render ds s name in
    let joined : join_in_image d (base e.path) ≡ e.path =
      ap (λ q. join_in_image q (base e.path)) at
      ∙ ap (join_in_image (render ds)) last
      ∙ join_in_image-render ds s names
      ∙ sym path in
    let kept : canon e.path ≡ e.path = ap canon written ∙ canon-render ts held ∙ sym written in
    (
      subst IsName (sym last) name,
      joined,
      ap (λ q. lookup (canon q) t.entries) joined ∙ ap (λ q. lookup q t.entries) kept ∙ there,
    )

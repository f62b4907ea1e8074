-- ===== src/Merge/Listing.antt =====
-- The listing of a directory and the lookup of a path, in a tree whose paths are all filed.
use mathlib.Core.Path.{subst}
use ocifuse.Prelude.{
  ◌≡◌, refl, sym, ap, ◌∙◌, true, false, some, List, [], ◌∷◌, ◌++◌, Bytes, ◌==◌, bytes_eq, bytes_beq,
  bytes_ltb, All, Any, select, select-holds, Any-select, last_view, arith, Option-cases, inl, inr,
  All-append_left, All-append_right,
}
use ocifuse.Prelude.Dict.{Dict, keys, lookup, has, All-lookup, Any-keys}
use ocifuse.Prelude.Sort.{sort, All-sort, Any-sort}
use ocifuse.SlashPath.{root}
use ocifuse.SlashPath.Names.{IsName, render, render-not_root}
use ocifuse.SlashPath.Clean.{elements, elements-render}
use ocifuse.Merge.{Entry, TarEntry, Tree, canon, names_at, present, children}
use ocifuse.Merge.Build.{finish, merge, layer_tree, root_only}
use ocifuse.Merge.Canon.{Canonical, canon-dir}
use ocifuse.Merge.Parents.{parent_of}
use ocifuse.Merge.Children.{is_child, names_at-finish}
use ocifuse.Merge.Valid.{
  IsValid, synthesize_parents-IsValid, apply_layers-IsValid, add_all-IsValid, root_only-IsValid,
}

-- Each entry is found under its path, and each path is filed under its parent.
pub record IsIndexed (t : Tree) : Type 0 where
  pub valid : IsValid t.entries
  pub filed :
      (d : Bytes) → names_at d t.children ≡ sort bytes_ltb (select (is_child d) (keys t.entries))

finish-IsIndexed : (entries : Dict Bytes Entry) → IsValid entries → IsIndexed (finish entries)
unfolding finish
finish-IsIndexed entries v = record {
  valid = synthesize_parents-IsValid entries v;
  filed = names_at-finish entries;
}

pub merge-IsIndexed : (layers : List (List TarEntry)) → IsIndexed (merge layers)
unfolding merge
merge-IsIndexed layers =
    finish-IsIndexed _ (apply_layers-IsValid 0 layers root_only root_only-IsValid)

pub layer_tree-IsIndexed : (layer : List TarEntry) → IsIndexed (layer_tree layer)
unfolding layer_tree
layer_tree-IsIndexed layer = finish-IsIndexed _ (add_all-IsValid layer root_only root_only-IsValid)

present-holds :
    (P : Bytes → Type 0) (m : Dict Bytes Entry) (ps : List Bytes)
    → IsValid m
    → All P ps
    → All (λ (e : Entry). P e.path × (lookup e.path m ≡ some e)) (present m ps)
unfolding present
present-holds P m [] v h = tt
present-holds P m (p ∷ ps) v h = elim (Option-cases (lookup p m)) [
  | inl e ↦ rw (e, present) (present-holds P m ps v h.1)
  | inr (x, e) ↦
      let same : x.path ≡ p = (All-lookup _ p x m v e).1 in
      rw (e, present)
        ((subst P (sym same) h.0, ap (λ q. lookup q m) same ∙ e), present-holds P m ps v h.1)
]

Any-present :
    (m : Dict Bytes Entry) (p : Bytes) (x : Entry) (ps : List Bytes)
    → lookup p m ≡ some x
    → Any (λ q. q ≡ p) ps
    → Any (λ e. e ≡ x) (present m ps)
unfolding present
Any-present m p x [] h t = elim t [ ]
Any-present m p x (q ∷ ps) h (inl e) = rw (e, h, present) (inl refl)
Any-present m p x (q ∷ ps) h (inr t) = elim (Option-cases (lookup q m)) [
  | inl e ↦ rw (e, present) (Any-present m p x ps h t)
  | inr (y, e) ↦ rw (e, present) (inr (Any-present m p x ps h t))
]

-- A path is filed under the directory, and is found with its entry.
abbrev pub IsChild : Tree → Bytes → Entry → Type 0
IsChild t d e = (is_child d e.path ≡ true) × (lookup e.path t.entries ≡ some e)

pub children-IsChild :
    (t : Tree) (d : Bytes) → IsIndexed t → All (IsChild t (canon d)) (children t d)
unfolding children
children-IsChild t d i =
    present-holds (λ p. is_child (canon d) p ≡ true) t.entries (names_at (canon d) t.children)
      i.valid
      (rw (i.filed (canon d))
        (All-sort bytes_ltb _ _ (select-holds (is_child (canon d)) (keys t.entries))))

pub Any-children :
    (t : Tree) (d p : Bytes) (e : Entry)
    → IsIndexed t
    → is_child (canon d) p ≡ true
    → lookup p t.entries ≡ some e
    → Any (λ x. x ≡ e) (children t d)
unfolding children has
Any-children t d p e i c h =
    let there : Any (λ q. q ≡ p) (keys t.entries) = Any-keys p t.entries (rw (h, has) refl) in
    Any-present t.entries p e (names_at (canon d) t.children) h (
      rw (i.filed (canon d)) (
        Any-sort bytes_ltb _ _ (
          Any-select _ (is_child (canon d)) (keys t.entries)
            (λ q same. ap (is_child (canon d)) same ∙ c) there)))

render-append_last-not_root :
    (ds : List Bytes) (s : Bytes)
    → All IsName ds
    → IsName s
    → (render (ds ++ s ∷ []) == root) ≡ false
render-append_last-not_root [] s h k = render-not_root s [] k
render-append_last-not_root (d ∷ ds) s h k = render-not_root d (ds ++ s ∷ []) h.0

-- A path one name below a directory is its child.
pub is_child-render :
    (ds : List Bytes) (s : Bytes)
    → All IsName ds
    → IsName s
    → is_child (render ds) (render (ds ++ s ∷ [])) ≡ true
unfolding is_child parent_of
is_child-render ds s h k =
    rw (render-append_last-not_root ds s h k, canon-dir ds s h k)
      ((bytes_eq.equal_iff (render ds) (render ds)).1 refl)

render-injective :
    (xs ys : List Bytes) → All IsName xs → All IsName ys → render xs ≡ render ys → xs ≡ ys
render-injective xs ys h k e = sym (elements-render xs h) ∙ ap elements e ∙ elements-render ys k

-- A child of a directory is one name below it.
pub child-names :
    (ds : List Bytes) (p : Bytes)
    → All IsName ds
    → Canonical p
    → is_child (render ds) p ≡ true
    → (s : Bytes) × IsName s × (p ≡ render (ds ++ s ∷ []))
unfolding is_child parent_of render bytes_beq
child-names ds p h ([], k, e) c = absurd (ground (arith, c, e))
child-names ds p h (x ∷ xs, k, e) c =
    let (ys, y, split) = last_view x xs in
    let names : All IsName (ys ++ y ∷ []) = subst (All IsName) split k in
    let front = All-append_left IsName ys (y ∷ []) names in
    let last = (All-append_right IsName ys (y ∷ []) names).0 in
    let path : p ≡ render (ys ++ y ∷ []) = e ∙ ap render split in
    let parent : parent_of p ≡ render ys = ap parent_of path ∙ canon-dir ys y front last in
    let filed : parent_of p ≡ render ds =
      (bytes_eq.equal_iff (parent_of p) (render ds)).0 (ground (arith, c)) in
    let same : ys ≡ ds = render-injective ys ds front h (sym parent ∙ filed) in
    (y, last, path ∙ ap (λ zs. render (zs ++ y ∷ [])) same)

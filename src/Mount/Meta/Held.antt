-- ===== src/Mount/Meta/Held.antt =====
-- internal/mount/meta.go: the files of the tree of one layer, which are the entries of the layer.
use ocifuse.Prelude.{
  pos, ◌≡◌, sym, ap, ◌∙◌, Bool, true, false, some, List, [], ◌∷◌, Bytes, bytes_eq, Any, Any-map,
  find_last, Option-cases, Bool-cases, inl, inr, arith,
}
use ocifuse.Prelude.Dict.{lookup}
use ocifuse.SlashPath.{slash}
use ocifuse.Merge.{Entry, TarEntry, canon, is_dir}
use ocifuse.Merge.Build.{root_only, add_all, layer_tree, finish}
use ocifuse.Merge.Layer.{merged}
use ocifuse.Merge.Parents.Synthesis.{lookup-synthesize_new, lookup-synthesize_kept}
use ocifuse.Merge.Whole.{named, lookup-add_all}

-- The layer has an entry for the path with the same header.
abbrev pub IsEntryOf : List TarEntry → Bytes → Entry → Type 0
IsEntryOf layer p e =
    Any (λ (t : TarEntry). (canon (slash ∷ t.filename) ≡ p) × (e.header ≡ t.header)) layer

find_last-Any :
    {A : Type 0} (p : A → Bool) (xs : List A) (x : A)
    → find_last p xs ≡ some x
    → Any (λ y. (p y ≡ true) × (x ≡ y)) xs
find_last-Any p [] x h = cc
find_last-Any p (y ∷ ys) x h = elim (Option-cases (find_last p ys)) [
  | inr (z, e) ↦ inr (find_last-Any p ys x (ground (arith, e, h)))
  | inl e ↦ elim (Bool-cases (p y)) [
    | inl t ↦ inl (t, ground (arith, e, t, h))
    | inr f ↦ absurd (ground (arith, e, f, h))
  ]
]

-- What is in the map before the parents are made up.
kept :
    (layer : List TarEntry) (p : Bytes) (e : Entry)
    → lookup p (layer_tree layer).entries ≡ some e
    → is_dir e ≡ false
    → lookup p (add_all layer root_only) ≡ some e
unfolding layer_tree finish is_dir
kept layer p e h f = elim (Option-cases (lookup p (add_all layer root_only))) [
  | inl a ↦ cc (ap is_dir (sym (lookup-synthesize_new (add_all layer root_only) p e a h)) ∙ f)
  | inr (x, a) ↦ a ∙ sym (lookup-synthesize_kept (add_all layer root_only) p x a) ∙ h
]

root-is_dir : (p : Bytes) (e : Entry) → lookup p root_only ≡ some e → is_dir e ≡ true
unfolding lookup is_dir
root-is_dir p e h = ground arith

-- A file of the tree of a layer is an entry of the layer.
pub lookup-layer_tree :
    (layer : List TarEntry) (p : Bytes) (e : Entry)
    → lookup p (layer_tree layer).entries ≡ some e
    → is_dir e ≡ false
    → (e.layer_idx ≡ pos 0) × IsEntryOf layer p e
lookup-layer_tree layer p e h f =
    let there = sym (lookup-add_all p layer root_only) ∙ kept layer p e h f in
    elim (Option-cases (find_last (named p) layer)) [
      | inl n ↦ absurd (ground (arith, n, there, f, root-is_dir p e))
      | inr (t, n) ↦
          let same : merged 0 p t ≡ e = ground (arith, n, there) in
          (
            ap (λ (x : Entry). x.layer_idx) (sym same),
            Any-map
                (λ u (at, is). (
                  (bytes_eq.equal_iff (canon (slash ∷ u.filename)) p).0 at,
                  ap (λ (x : Entry). x.header) (sym same) ∙ ap (λ (v : TarEntry). v.header) is,
                ))
                layer (find_last-Any (named p) layer t n),
          )
    ]

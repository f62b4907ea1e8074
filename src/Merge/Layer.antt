-- ===== src/Merge/Layer.antt =====
-- `applyLayer`, followed at one path: what the sorted entries of a layer do to it.
pub mod Order
pub mod Outcome
pub mod Preserve
use ocifuse.Prelude.{
  ℕ, ℤ, pos, ◌≡◌, refl, ◌∙◌, Bool, true, false, ◌||◌, Option, none, some, List, [], ◌∷◌, ◌++◌,
  Bytes, ◌==◌, bytes_eq, any, find_last, if◌then◌else◌, if_if, arith, foldl,
}
use ocifuse.Prelude.Dict.{Dict, lookup, lookup-insert, lookup-delete, lookup-delete_where}
use ocifuse.Prelude.Sort.{sort}
use ocifuse.Strings.{has_prefix}
use ocifuse.SlashPath.{slash}
use ocifuse.Merge.{
  Entry, TarEntry, Action, opaque, whiteout, file, action, perform, apply_sorted, by_filename,
  children_prefix, delete_subtree, delete_children,
}

-- The action puts something at the path.
unfoldable pub puts : Bytes → Action → Bool
puts p (opaque d) = false
puts p (whiteout t) = false
puts p (file full) = full == p

unfoldable pub adds : Bytes → TarEntry → Bool
unfolding puts
adds p e = puts p (action e)

-- The action removes what lower layers have at the path.
unfoldable pub removes : Bytes → Action → Bool
removes p (opaque d) = if p == d then false else has_prefix p (children_prefix d)
removes p (whiteout t) = p == t || has_prefix p (t ++ slash ∷ [])
removes p (file full) = false

unfoldable pub hides : Bytes → TarEntry → Bool
unfolding removes
hides p e = removes p (action e)

abbrev pub merged : ℕ → Bytes → TarEntry → Entry
merged idx p e = record { path = p; header = e.header; layer_idx = pos idx }

-- An entry of the layer at the path wins, then its markers hide, then the lower layers show. What is
-- no directory hides nothing below it.
unfoldable pub overlay : ℕ → Bytes → List TarEntry → Option Entry → Option Entry
overlay idx p es old = elim (find_last (adds p) es) [
  | some e ↦ some (merged idx p e)
  | none ↦ if any (hides p) es then none else old
]

-- The effect of one entry on one path.
pub effect : ℕ → Bytes → Option Entry → TarEntry → Option Entry
effect idx p old e = if adds p e then some (merged idx p e) else if hides p e then none else old

lookup-perform :
    (idx : ℕ) (p : Bytes) (e : TarEntry) (a : Action) (m : Dict Bytes Entry)
    → action e ≡ a
    → lookup p (perform idx e a m) ≡ effect idx p (lookup p m) e
unfolding perform effect adds hides removes delete_subtree delete_children
lookup-perform idx p e (opaque d) m h = rw (h, lookup-delete_where)
lookup-perform idx p e (whiteout t) m h =
    rw (h, lookup-delete_where, lookup-delete) (if_if (p == t) (has_prefix p (t ++ slash ∷ [])) _)
lookup-perform idx p e (file full) m h =
    rw (h, lookup-insert) (ground (arith, bytes_eq.equal_iff full p))

-- A path sees the entries of the layer one after the other.
pub lookup-apply_sorted :
    (idx : ℕ) (p : Bytes) (es : List TarEntry) (m : Dict Bytes Entry)
    → lookup p (apply_sorted idx es m) ≡ foldl (effect idx p) (lookup p m) es
unfolding apply_sorted
lookup-apply_sorted idx p [] m = refl
lookup-apply_sorted idx p (e ∷ es) m =
    lookup-apply_sorted idx p es (perform idx e (action e) m)
    ∙ rw (lookup-perform idx p e (action e) m refl)

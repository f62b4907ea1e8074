-- ===== src/Merge/Subtree.antt =====
-- `deleteSubtree` and `deleteChildren` by the names of paths: text prefixes are whole names.
use mathlib.Core.List.{append_assoc}
use ocifuse.Prelude.{
  ◌≡◌, refl, sym, ap, ◌∙◌, Bool, true, false, ◌||◌, none, List, [], ◌∷◌, ◌++◌, Bytes, ◌==◌, nat_eq,
  bytes_eq, bytes_beq, All, Bool-cases, inl, inr, if◌then◌else◌, if_if,
}
use ocifuse.Prelude.Dict.{Dict, lookup, lookup-delete, lookup-delete_where}
use ocifuse.Strings.{has_prefix}
use ocifuse.SlashPath.{slash, root}
use ocifuse.SlashPath.Names.{IsName, slashed, render, strict_prefix, has_prefix-slashed}
use ocifuse.SlashPath.Clean.{elements, elements-render}
use ocifuse.Merge.{Entry, delete_subtree, children_prefix, delete_children}
use ocifuse.Merge.Canon.{canon-render}

pub render_injective :
    (ps qs : List Bytes) → All IsName ps → All IsName qs → render ps ≡ render qs → ps ≡ qs
render_injective ps qs hp hq e = sym (elements-render ps hp) ∙ ap elements e ∙ elements-render qs hq

strict_prefix_irrefl : (ps : List Bytes) → strict_prefix ps ps ≡ false
unfolding strict_prefix
strict_prefix_irrefl [] = refl
strict_prefix_irrefl (p ∷ ps) = rw ((bytes_eq.equal_iff p p).1 refl) (strict_prefix_irrefl ps)

root-below : (p : Bytes) (r : Bytes) → IsName p → has_prefix root (slash ∷ (p ++ r)) ≡ false
unfolding has_prefix
root-below [] r h = cc
root-below (x ∷ p) r h = refl

-- The test of `deleteSubtree` holds of the paths below, and of no other.
pub has_prefix-render :
    (p : Bytes) (ps qs : List Bytes)
    → All IsName (p ∷ ps)
    → All IsName qs
    → has_prefix (render qs) (render (p ∷ ps) ++ slash ∷ []) ≡ strict_prefix (p ∷ ps) qs
unfolding render strict_prefix
has_prefix-render p ps [] hp hq =
    ap (λ r. has_prefix root (slash ∷ r)) (append_assoc p (slashed ps) (slash ∷ []))
    ∙ root-below p (slashed ps ++ slash ∷ []) hp.0
has_prefix-render p ps (q ∷ qs) hp hq = has_prefix-slashed (p ∷ ps) (q ∷ qs) hp hq

same_names :
    (ps qs : List Bytes) → All IsName ps → All IsName qs → (render qs == render ps) ≡ true → qs ≡ ps
same_names ps qs hp hq e =
    render_injective qs ps hq hp ((bytes_eq.equal_iff (render qs) (render ps)).0 e)

-- The paths that start with these names.
unfoldable pub within : List Bytes → List Bytes → Bool
unfolding strict_prefix
within ps qs = render qs == render ps || strict_prefix ps qs

-- Deleting the subtree at a path below the root removes the path itself and the paths that extend
-- its list of names, and keeps all other paths, those included that only share a text prefix.
pub lookup-delete_subtree :
    (m : Dict Bytes Entry) (p : Bytes) (ps qs : List Bytes)
    → All IsName (p ∷ ps)
    → All IsName qs
    → lookup (render qs) (delete_subtree m (render (p ∷ ps)))
      ≡ (if within (p ∷ ps) qs then none else lookup (render qs) m)
unfolding delete_subtree within
lookup-delete_subtree m p ps qs hp hq =
    rw (lookup-delete_where, lookup-delete, has_prefix-render p ps qs hp hq)
      (if_if (render qs == render (p ∷ ps)) (strict_prefix (p ∷ ps) qs) _)

children_prefix-root : (qs : List Bytes) → has_prefix (render qs) (children_prefix root) ≡ true
unfolding children_prefix render bytes_beq
children_prefix-root [] = refl
children_prefix-root (q ∷ qs) = refl

not_root : (p : Bytes) (ps : List Bytes) → All IsName (p ∷ ps) → (render (p ∷ ps) == root) ≡ false
unfolding render bytes_beq
not_root [] ps h = cc
not_root (x ∷ p) ps h = refl

children_prefix-render :
    (p : Bytes) (ps : List Bytes)
    → All IsName (p ∷ ps)
    → children_prefix (render (p ∷ ps)) ≡ render (p ∷ ps) ++ slash ∷ []
unfolding children_prefix
children_prefix-render p ps h = rw (canon-render (p ∷ ps) h, not_root p ps h)

other :
    (ps qs : List Bytes)
    → All IsName ps
    → All IsName qs
    → (render qs == render ps) ≡ false
    → has_prefix (render qs) (children_prefix (render ps)) ≡ strict_prefix ps qs
unfolding render strict_prefix bytes_beq
other [] [] hp hq e = cc
other [] (q ∷ qs) hp hq e = children_prefix-root (q ∷ qs)
other (p ∷ ps) qs hp hq e = rw (children_prefix-render p ps hp) (has_prefix-render p ps qs hp hq)

-- What an opaque marker in a directory hides, by names: everything below the directory.
pub removes_below :
    (ps qs : List Bytes)
    → All IsName ps
    → All IsName qs
    → (if render qs == render ps
        then false
        else has_prefix (render qs) (children_prefix (render ps)))
      ≡ strict_prefix ps qs
removes_below ps qs hp hq = elim (Bool-cases (render qs == render ps)) [
  | inl e ↦ rw (e, same_names ps qs hp hq e, strict_prefix_irrefl)
  | inr e ↦ rw e (other ps qs hp hq e)
]

-- Deleting the children of a path removes the paths that properly extend its list of names, and
-- keeps the path itself and all others.
pub lookup-delete_children :
    (m : Dict Bytes Entry) (ps qs : List Bytes)
    → All IsName ps
    → All IsName qs
    → lookup (render qs) (delete_children m (render ps))
      ≡ (if strict_prefix ps qs then none else lookup (render qs) m)
unfolding delete_children
lookup-delete_children m ps qs hp hq = rw (lookup-delete_where, removes_below ps qs hp hq)

-- ===== src/Merge/Canon.antt =====
-- `canon`: every path becomes a list of names, and such a path is kept.
use ocifuse.Prelude.{
  ◌≡◌, refl, true, ◌||◌, List, [], ◌∷◌, ◌++◌, Bytes, codes, ◌==◌, nat_eq, bytes_eq, bytes_beq, All,
  Bool-cases, inl, inr,
}
use ocifuse.Strings.{has_prefix}
use ocifuse.SlashPath.{root, dir}
use ocifuse.SlashPath.Names.{IsName, render}
use ocifuse.SlashPath.Clean.{elements, elements-IsName, clean_of_rooted, clean-render, dir-render}
use ocifuse.Merge.{canon, make_rooted}

make_rooted-rooted : (p : Bytes) → has_prefix (make_rooted p) root ≡ true
unfolding make_rooted has_prefix
make_rooted-rooted p = elim (Bool-cases (has_prefix p root)) [
  | inl e ↦ rw (e, make_rooted) e
  | inr e ↦ rw (e, make_rooted)
]

-- A canonical path is written from names.
abbrev pub Canonical : Bytes → Type 0
Canonical p = (ss : List Bytes) × All IsName ss × (p ≡ render ss)

pub canon-Canonical : (p : Bytes) → Canonical (canon p)
unfolding canon render
canon-Canonical p = elim (Bool-cases (p == [] || p == codes ".")) [
  | inl e ↦ ([], tt, rw e)
  | inr e ↦ (
    elements (make_rooted p),
    elements-IsName (make_rooted p),
    rw e (clean_of_rooted (make_rooted p) (make_rooted-rooted p)),
  )
]

pub canon-render : (ss : List Bytes) → All IsName ss → canon (render ss) ≡ render ss
unfolding canon render bytes_beq
canon-render [] h = refl
canon-render (s ∷ ss) h = clean-render (s ∷ ss) h

-- `canon` is idempotent.
pub canon_idem : (p : Bytes) → canon (canon p) ≡ canon p
canon_idem p = let (ss, h, e) = canon-Canonical p in rw e (canon-render ss h)

pub canon-dir :
    (ss : List Bytes) (s : Bytes)
    → All IsName ss
    → IsName s
    → canon (dir (render (ss ++ s ∷ []))) ≡ render ss
canon-dir ss s h k = rw (dir-render ss s h k) (canon-render ss h)

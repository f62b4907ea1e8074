-- ===== src/Merge/Valid.antt =====
-- The invariant of the entries of a tree: each key is a canonical path, and its entry has that
-- path. Every operation of the package keeps it.
use mathlib.Core.Path.{subst}
use ocifuse.Prelude.{
  ℕ, suc, negsuc, ◌≡◌, refl, List, [], ◌∷◌, Bytes, ◌==◌, bytes_eq, All, All-map, zero, Bool-cases,
  inl, inr,
}
use ocifuse.Prelude.Dict.{Dict, keys, All-insert, All-keys}
use ocifuse.Strings.{has_prefix}
use ocifuse.SlashPath.{slash, root, base, dir}
use ocifuse.SlashPath.Names.{render}
use ocifuse.Merge.{
  Entry, TarEntry, Action, opaque, whiteout, file, action, apply_layer, canon, wh_opaque, wh_prefix,
}
use ocifuse.Merge.Build.{
  synthetic, root_only, add_missing, missing_parents, synthesize_parents, add_all, apply_layers,
  missing_above,
}
use ocifuse.Merge.Canon.{Canonical, canon-Canonical}
use ocifuse.Merge.Layer.Preserve.{Adds, All-apply_layer}
use ocifuse.Merge.Parents.{Paths, All-keys-mark_missing}

abbrev pub IsValid : Dict Bytes Entry → Type 0
IsValid = All (λ (k, e). Canonical k × (e.path ≡ k))

abbrev TargetCanonical : Action → Type 0
TargetCanonical (opaque d) = Unit
TargetCanonical (whiteout t) = Unit
TargetCanonical (file full) = Canonical full

action-TargetCanonical : (e : TarEntry) → TargetCanonical (action e)
unfolding action
action-TargetCanonical e = elim (Bool-cases (base e.filename == wh_opaque)) [
  | inl o ↦ rw o tt
  | inr o ↦ elim (Bool-cases (has_prefix (base e.filename) wh_prefix)) [
    | inl w ↦ rw (o, w) tt
    | inr w ↦ rw (o, w) (canon-Canonical (slash ∷ e.filename))
  ]
]

abbrev IsValidAt : Bytes × Entry → Type 0
IsValidAt (k, e) = Canonical k × (e.path ≡ k)

layer-Adds : (idx : ℕ) (layer : List TarEntry) → All (Adds IsValidAt idx) layer
layer-Adds idx [] = tt
layer-Adds idx (t ∷ layer) =
    (λ full e. (subst TargetCanonical e (action-TargetCanonical t), refl), layer-Adds idx layer)

-- Applying a layer keeps the invariant.
pub apply_layer-IsValid :
    (m : Dict Bytes Entry) (layer : List TarEntry) (idx : ℕ)
    → IsValid m
    → IsValid (apply_layer m layer idx)
apply_layer-IsValid m layer idx h = All-apply_layer IsValidAt idx layer m (layer-Adds idx layer) h

pub apply_layers-IsValid :
    (idx : ℕ) (layers : List (List TarEntry)) (m : Dict Bytes Entry)
    → IsValid m
    → IsValid (apply_layers idx layers m)
unfolding apply_layers
apply_layers-IsValid idx [] m h = h
apply_layers-IsValid idx (layer ∷ layers) m h =
    apply_layers-IsValid (suc idx) layers _ (apply_layer-IsValid m layer idx h)

pub add_all-IsValid :
    (es : List TarEntry) (m : Dict Bytes Entry) → IsValid m → IsValid (add_all es m)
unfolding add_all
add_all-IsValid [] m h = h
add_all-IsValid (e ∷ es) m h =
    add_all-IsValid es _
      (All-insert _ (canon (slash ∷ e.filename)) _ m (canon-Canonical (slash ∷ e.filename), refl) h)

pub root_only-IsValid : IsValid root_only
unfolding render
root_only-IsValid = ((([], tt, refl), refl), tt)

add_missing-IsValid :
    (ps : List Bytes) (m : Dict Bytes Entry)
    → All Canonical ps
    → IsValid m
    → IsValid (add_missing ps m)
unfolding add_missing
add_missing-IsValid [] m c h = h
add_missing-IsValid (p ∷ ps) m c h =
    add_missing-IsValid ps _ c.1 (All-insert _ p (synthetic p (negsuc 0)) m (c.0, refl) h)

pub keys-Canonical : (m : Dict Bytes Entry) → IsValid m → All Canonical (keys m)
keys-Canonical m h = All-keys Canonical m (All-map (λ kv c. c.0) m h)

missing_above-Canonical :
    (entries : Dict Bytes Entry) (fuel : ℕ) (q : Bytes) (missing : Paths)
    → Canonical q
    → All Canonical (keys missing)
    → All Canonical (keys (missing_above fuel entries q missing))
unfolding missing_above
missing_above-Canonical entries zero q missing c h = h
missing_above-Canonical entries (suc fuel) q missing c h = elim (Bool-cases (q == root)) [
  | inl r ↦ rw r h
  | inr r ↦ rw r (
      missing_above-Canonical entries fuel (canon (dir q)) _ (canon-Canonical (dir q))
        (All-keys-mark_missing Canonical entries q missing c h))
]

missing_parents-Canonical :
    (entries : Dict Bytes Entry) (ps : List Bytes) (missing : Paths)
    → All Canonical (keys missing)
    → All Canonical (keys (missing_parents entries ps missing))
unfolding missing_parents
missing_parents-Canonical entries [] missing h = h
missing_parents-Canonical entries (q ∷ ps) missing h = elim (Bool-cases (q == root)) [
  | inl r ↦ rw r (missing_parents-Canonical entries ps missing h)
  | inr r ↦ rw r (
      missing_parents-Canonical entries ps _
        (missing_above-Canonical entries _ (canon (dir q)) missing (canon-Canonical (dir q)) h))
]

pub synthesize_parents-IsValid : (m : Dict Bytes Entry) → IsValid m → IsValid (synthesize_parents m)
unfolding synthesize_parents keys
synthesize_parents-IsValid m h =
    add_missing-IsValid _ m (missing_parents-Canonical m (keys m) [] tt) h

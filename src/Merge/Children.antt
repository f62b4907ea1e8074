-- ===== src/Merge/Children.antt =====
-- `Children`: the paths filed under a directory, in order, and nothing else.
use mathlib.Core.Path.{ap₂}
use mathlib.Core.List.{append-nil, append_assoc}
use ocifuse.Prelude.{
  ◌≡◌, refl, sym, ap, ◌∙◌, Bool, true, false, ◌&&◌, not, List, [], ◌∷◌, ◌++◌, Bytes, ◌==◌, bytes_eq,
  bytes_ltb, map, All, select, All-select, if◌then◌else◌, arith, Bool-cases, Option-cases, inl, inr,
}
use ocifuse.Prelude.Dict.{Dict, keys, lookup, has, insert, lookup-insert, All-keys-has, All-lookup}
use ocifuse.Prelude.Sort.{sort, All-sort}
use ocifuse.SlashPath.{root, dir}
use ocifuse.Merge.{Entry, canon, names_at, present, children}
use ocifuse.Merge.Build.{index_children, sort_children, synthesize_parents, finish}
use ocifuse.Merge.Parents.{parent_of}
use ocifuse.Merge.Valid.{IsValid, synthesize_parents-IsValid}

-- The path is not the root, and its parent is the directory.
unfoldable pub is_child : Bytes → Bytes → Bool
is_child d p = not (p == root) && parent_of p == d

names_at-insert :
    (d q : Bytes) (names : List Bytes) (m : Dict Bytes (List Bytes))
    → names_at d (insert q names m) ≡ (if q == d then names else names_at d m)
unfolding names_at
names_at-insert d q names m = ground (arith, lookup-insert q d names m)

names_at-file_under :
    (d p : Bytes) (m : Dict Bytes (List Bytes)) (rest : List Bytes)
    → names_at d
          (if p == root then m else insert (canon (dir p)) (names_at (canon (dir p)) m ++ p ∷ []) m)
        ++ rest
      ≡ names_at d m ++ (elim (is_child d p) [ true ↦ p ∷ rest | false ↦ rest ])
unfolding is_child parent_of
names_at-file_under d p m rest = elim (Bool-cases (p == root)) [
  | inl r ↦ rw r
  | inr r ↦ elim (Bool-cases (canon (dir p) == d)) [
    | inl q ↦
        rw (r, names_at-insert, q, (bytes_eq.equal_iff (canon (dir p)) d).0 q)
          (append_assoc (names_at d m) (p ∷ []) rest)
    | inr q ↦ rw (r, names_at-insert, q)
  ]
]

names_at-index_children :
    (d : Bytes) (ps : List Bytes) (m : Dict Bytes (List Bytes))
    → names_at d (index_children ps m) ≡ names_at d m ++ select (is_child d) ps
unfolding index_children
names_at-index_children d [] m = sym (append-nil (names_at d m))
names_at-index_children d (p ∷ ps) m =
    names_at-index_children d ps _ ∙ names_at-file_under d p m (select (is_child d) ps)

names_at-sort_children :
    (d : Bytes) (m : Dict Bytes (List Bytes))
    → names_at d (sort_children m) ≡ sort bytes_ltb (names_at d m)
unfolding sort_children names_at lookup sort
names_at-sort_children d [] = refl
names_at-sort_children d ((k, names) ∷ m) = ground (arith, names_at-sort_children d m)

-- The names filed under a directory are the paths of the tree whose parent it is, sorted.
pub names_at-finish :
    (entries : Dict Bytes Entry) (d : Bytes)
    → names_at d (finish entries).children
      ≡ sort bytes_ltb (select (is_child d) (keys (finish entries).entries))
unfolding finish names_at lookup
names_at-finish entries d =
    names_at-sort_children d _ ∙ ap (sort bytes_ltb) (names_at-index_children d _ [])

map-path-present :
    (m : Dict Bytes Entry) (ps : List Bytes)
    → IsValid m
    → All (λ p. has p m ≡ true) ps
    → map (λ (e : Entry). e.path) (present m ps) ≡ ps
unfolding present has
map-path-present m [] v h = refl
map-path-present m (p ∷ ps) v h = elim (Option-cases (lookup p m)) [
  | inl e ↦ cc (rw (e, has) at h.0)
  | inr (x, e) ↦ rw (e, present) (ap₂ ◌∷◌ (All-lookup _ p x m v e).1 (map-path-present m ps v h.1))
]

-- The children of a directory, by their paths: exactly the paths of the tree whose parent it is,
-- in the order of their paths, each with an entry.
pub map-path-children :
    (entries : Dict Bytes Entry) (d : Bytes)
    → IsValid entries
    → map (λ (e : Entry). e.path) (children (finish entries) d)
      ≡ sort bytes_ltb (select (is_child (canon d)) (keys (finish entries).entries))
unfolding children finish
map-path-children entries d v =
    ap (λ ns. map (λ (e : Entry). e.path) (present (synthesize_parents entries) ns))
      (names_at-finish entries (canon d))
    ∙ map-path-present (synthesize_parents entries) _ (synthesize_parents-IsValid entries v) (
        All-sort bytes_ltb _ _
          (All-select _ (is_child (canon d)) _ (All-keys-has (synthesize_parents entries))))

-- ===== src/DiskCache/Totals.antt =====
-- internal/cache/cache.go: the bytes below the directory, as files come and go.
use ocifuse.Prelude.{
  ℕ, ◌+◌, true, none, some, [], ◌∷◌, Bytes, bytes_eq, ◌==◌, length, ◌≡◌, refl, sym, ap, ◌∙◌, inl,
  inr, Bool-cases, bytes_beq_iff, arith,
}
use ocifuse.Prelude.Dict.{lookup, insert, delete, delete_where, Unique}
use ocifuse.DiskCache.{File, Disk, is_below, total_below}

-- The size of the file at a path, 0 if there is none.
abbrev pub size_at : Bytes → Disk → ℕ
size_at p disk = elim (lookup p disk) [ none ↦ 0 | some f ↦ length f.content ]

pub total_below-insert :
    (dir p : Bytes) (f : File) (disk : Disk)
    → is_below dir p ≡ true
    → total_below dir (insert p f disk) + size_at p disk ≡ total_below dir disk + length f.content
unfolding total_below insert lookup
total_below-insert dir p f [] b = ground (arith, b)
total_below-insert dir p f ((q, g) ∷ disk) b = elim (Bool-cases (q == p)) [
  | inl t ↦
      let same : is_below dir q ≡ true = ap (is_below dir) ((bytes_beq_iff q p).0 t) ∙ b in
      ground (arith, t, same, b)
  | inr n ↦ ground (arith, n, total_below-insert dir p f disk b)
]

total_below-delete_absent :
    (dir p : Bytes) (disk : Disk)
    → lookup p disk ≡ none
    → total_below dir (delete p disk) ≡ total_below dir disk
unfolding total_below delete delete_where lookup
total_below-delete_absent dir p [] h = refl
total_below-delete_absent dir p ((q, g) ∷ disk) h =
    ground (arith, total_below-delete_absent dir p disk)

pub total_below-delete :
    (dir p : Bytes) (f : File) (disk : Disk)
    → Unique disk
    → is_below dir p ≡ true
    → lookup p disk ≡ some f
    → total_below dir (delete p disk) + length f.content ≡ total_below dir disk
unfolding total_below delete delete_where lookup
total_below-delete dir p f [] u b h = cc
total_below-delete dir p f ((q, g) ∷ disk) u b h = elim (Bool-cases (q == p)) [
  | inl t ↦
      let same : q ≡ p = (bytes_beq_iff q p).0 t in
      let below : is_below dir q ≡ true = ap (is_below dir) same ∙ b in
      let absent : lookup p disk ≡ none = ap (λ k. lookup k disk) (sym same) ∙ u.0 in
      ground (arith, t, below, total_below-delete_absent dir p disk absent, h)
  | inr n ↦ ground (arith, n, total_below-delete dir p f disk u.1 b, h)
]

-- ===== src/DiskCache/Listed.antt =====
-- internal/cache/cache.go: the files that eviction lists.
use ocifuse.Prelude.{
  ℕ, ◌+◌, true, false, some, List, [], ◌∷◌, Bytes, bytes_eq, bytes_beq_iff, ◌==◌, length, ◌≡◌, refl,
  ap, ◌∙◌, inl, inr, Bool-cases, All, All-map, arith,
}
use ocifuse.Prelude.Dict.{lookup, delete, Unique, lookup-delete}
use ocifuse.Prelude.Sort.{sort, insert_sorted, All-sort, All-insert_sorted}
use ocifuse.DiskCache.{
  File, Disk, DiskCache, Faults, is_below, total_below, Candidate, candidates, reached, before,
  evict_loop, evict,
}

abbrev pub Stored : Bytes → Disk → Candidate → Type 0
Stored dir disk e =
    (f : File) × (is_below dir e.path ≡ true)
    × (lookup e.path disk ≡ some f)
    × (length f.content ≡ e.size)

abbrev pub Differs : Candidate → Candidate → Type 0
Differs e d = (d.path == e.path) ≡ false

abbrev pub Apart : List Candidate → Type 0
Apart [] = Unit
Apart (e ∷ es) = All (Differs e) es × Apart es

unfoldable pub sum : List Candidate → ℕ
sum [] = 0
sum (e ∷ es) = e.size + sum es

-- What is listed of a disk is there, and nothing is listed twice.
pub record IsListed (dir : Bytes) (es : List Candidate) (disk : Disk) : Type 0 where
  pub stored : All (Stored dir disk) es
  pub apart : Apart es

sum-candidates : (dir : Bytes) (disk : Disk) → sum (candidates dir disk) ≡ total_below dir disk
unfolding sum candidates total_below
sum-candidates dir [] = refl
sum-candidates dir ((p, f) ∷ disk) = ground (arith, sum-candidates dir disk)

candidates-Stored :
    (dir : Bytes) (disk : Disk) → Unique disk → All (Stored dir disk) (candidates dir disk)
unfolding candidates lookup
candidates-Stored dir [] u = tt
candidates-Stored dir ((p, f) ∷ disk) u =
    let rest : All (Stored dir ((p, f) ∷ disk)) (candidates dir disk) =
      All-map (λ e (g, b, l, n). (g, b, ground (arith, l, u.0, bytes_beq_iff p e.path), n))
        (candidates dir disk) (candidates-Stored dir disk u.1) in
    elim (Bool-cases (is_below dir p)) [
      | inl t ↦ rw t ((f, t, rw ((bytes_beq_iff p p).1 refl) refl, refl), rest)
      | inr n ↦ rw n rest
    ]

candidates-Apart : (dir : Bytes) (disk : Disk) → Unique disk → Apart (candidates dir disk)
unfolding candidates lookup
candidates-Apart dir [] u = tt
candidates-Apart dir ((p, f) ∷ disk) u =
    let rest = candidates-Apart dir disk u.1 in
    elim (Bool-cases (is_below dir p)) [
      | inl t ↦ rw t (
        All-map (λ e (g, b, l, n). ground (arith, l, u.0, bytes_beq_iff e.path p))
            (candidates dir disk) (candidates-Stored dir disk u.1),
        rest,
      )
      | inr n ↦ rw n rest
    ]

sum-insert_sorted :
    (e : Candidate) (es : List Candidate) → sum (insert_sorted before e es) ≡ e.size + sum es
unfolding sum insert_sorted
sum-insert_sorted e [] = refl
sum-insert_sorted e (d ∷ es) = elim (Bool-cases (before d e)) [
  | inl t ↦ rw t (omega (arith, sum-insert_sorted e es))
  | inr n ↦ rw n refl
]

sum-sort : (es : List Candidate) → sum (sort before es) ≡ sum es
unfolding sum sort
sum-sort [] = refl
sum-sort (e ∷ es) = sum-insert_sorted e (sort before es) ∙ ap (λ n. e.size + n) (sum-sort es)

insert_sorted-Apart :
    (e : Candidate) (es : List Candidate)
    → All (Differs e) es
    → Apart es
    → Apart (insert_sorted before e es)
unfolding insert_sorted
insert_sorted-Apart e [] h a = (tt, tt)
insert_sorted-Apart e (d ∷ es) h a = elim (Bool-cases (before d e)) [
  | inl t ↦
      let other : Differs d e =
        ground (arith, h.0, bytes_beq_iff d.path e.path, bytes_beq_iff e.path d.path) in
      rw t (All-insert_sorted before (Differs d) e es other a.0, insert_sorted-Apart e es h.1 a.1)
  | inr n ↦ rw n (h, a)
]

sort-Apart : (es : List Candidate) → Apart es → Apart (sort before es)
unfolding sort
sort-Apart [] a = tt
sort-Apart (e ∷ es) a =
    insert_sorted-Apart e (sort before es) (All-sort before (Differs e) es a.0) (sort-Apart es a.1)

pub sort-candidates-IsListed :
    (dir : Bytes) (disk : Disk)
    → Unique disk
    → IsListed dir (sort before (candidates dir disk)) disk
sort-candidates-IsListed dir disk u = record {
  stored = All-sort before (Stored dir disk) (candidates dir disk) (candidates-Stored dir disk u);
  apart = sort-Apart (candidates dir disk) (candidates-Apart dir disk u);
}

All-reached :
    (faults : Faults) (P : Candidate → Type 0) (es : List Candidate)
    → All P es
    → All P (reached faults es)
unfolding reached
All-reached faults P [] a = tt
All-reached faults P (e ∷ es) a = elim (Bool-cases (faults.not_listed e.path)) [
  | inl t ↦ rw t (All-reached faults P es a.1)
  | inr n ↦ rw n (a.0, All-reached faults P es a.1)
]

reached-Apart : (faults : Faults) (es : List Candidate) → Apart es → Apart (reached faults es)
unfolding reached
reached-Apart faults [] a = tt
reached-Apart faults (e ∷ es) a = elim (Bool-cases (faults.not_listed e.path)) [
  | inl t ↦ rw t (reached-Apart faults es a.1)
  | inr n ↦ rw n (All-reached faults (Differs e) es a.0, reached-Apart faults es a.1)
]

-- What is missed or not, the list is right.
pub sort-reached-IsListed :
    (faults : Faults) (dir : Bytes) (disk : Disk)
    → Unique disk
    → IsListed dir (sort before (reached faults (candidates dir disk))) disk
sort-reached-IsListed faults dir disk u =
    let es = candidates dir disk in
    record {
      stored =
          All-sort before (Stored dir disk) (reached faults es)
            (All-reached faults (Stored dir disk) es (candidates-Stored dir disk u));
      apart =
          sort-Apart (reached faults es) (reached-Apart faults es (candidates-Apart dir disk u));
    }

-- The walk of eviction meets no error.
abbrev pub ListsAll : Faults → Type 0
ListsAll faults = (q : Bytes) → faults.not_listed q ≡ false

reached-all : (faults : Faults) (es : List Candidate) → ListsAll faults → reached faults es ≡ es
unfolding reached
reached-all faults [] h = refl
reached-all faults (e ∷ es) h = rw (h e.path, reached-all faults es h) refl

pub evict-all :
    (faults : Faults) (c : DiskCache) (disk : Disk)
    → ListsAll faults
    → evict faults c disk ≡ evict_loop faults (sort before (candidates c.dir disk)) c disk
unfolding evict
evict-all faults c disk h =
    ap (λ es. evict_loop faults (sort before es) c disk)
      (reached-all faults (candidates c.dir disk) h)

pub sum-sort-candidates :
    (dir : Bytes) (disk : Disk) → sum (sort before (candidates dir disk)) ≡ total_below dir disk
sum-sort-candidates dir disk = sum-sort (candidates dir disk) ∙ sum-candidates dir disk

pub IsListed-tail :
    (dir : Bytes) (e : Candidate) (es : List Candidate) (disk : Disk)
    → IsListed dir (e ∷ es) disk
    → IsListed dir es disk
IsListed-tail dir e es disk l = record { stored = l.stored.1; apart = l.apart.1 }

Stored-delete :
    (dir p : Bytes) (disk : Disk) (es : List Candidate)
    → All (λ d. (d.path == p) ≡ false) es
    → All (Stored dir disk) es
    → All (Stored dir (delete p disk)) es
Stored-delete dir p disk [] a s = tt
Stored-delete dir p disk (d ∷ es) a s =
    let (f, b, l, n) = s.0 in
    (
      (f, b, ground (arith, l, a.0, lookup-delete p d.path disk), n),
      Stored-delete dir p disk es a.1 s.1,
    )

-- Once the first of them is removed, the others are still there.
pub IsListed-delete :
    (dir : Bytes) (e : Candidate) (es : List Candidate) (disk : Disk)
    → IsListed dir (e ∷ es) disk
    → IsListed dir es (delete e.path disk)
IsListed-delete dir e es disk l = record {
  stored = Stored-delete dir e.path disk es l.apart.0 l.stored.1;
  apart = l.apart.1;
}

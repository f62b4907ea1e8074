-- ===== src/DiskCache/Accounts.antt =====
-- internal/cache/cache.go: the tracked size, in New and in evict.
use mathlib.Core.Path.{subst}
use ocifuse.Prelude.{
  ℕ, ◌+◌, ℤ, pos, negsuc, nonpositive, sub_nat, above, false, List, [], ◌∷◌, Bytes, bytes_eq, ◌≡◌,
  refl, sym, ap, ◌∙◌, inl, inr, Bool-cases, Option-cases, ok, arith,
}
use ocifuse.Prelude.Dict.{delete, Unique, Unique-delete}
use ocifuse.DiskCache.{
  Disk, DiskCache, Faults, total_below, Candidate, evict_loop, evict, new, rescan,
}
use ocifuse.DiskCache.Totals.{total_below-delete}
use ocifuse.DiskCache.Listed.{
  IsListed, IsListed-tail, IsListed-delete, sum, sum-sort-candidates, sort-candidates-IsListed,
  sort-reached-IsListed, ListsAll, evict-all,
}

pub record IsAccounted (c : DiskCache) (disk : Disk) : Type 0 where
  pub unique : Unique disk
  pub exact : c.size ≡ pos (total_below c.dir disk)

-- The file of a listed candidate is as large as it says.
pub total_below-removed :
    (dir : Bytes) (e : Candidate) (es : List Candidate) (disk : Disk)
    → Unique disk
    → IsListed dir (e ∷ es) disk
    → total_below dir (delete e.path disk) + e.size ≡ total_below dir disk
total_below-removed dir e es disk u l =
    let (f, b, at, n) = l.stored.0 in
    ap (λ k. total_below dir (delete e.path disk) + k) (sym n)
    ∙ total_below-delete dir e.path f disk u b at

sub_nat-exact : (z : ℤ) (a b n : ℕ) → z ≡ pos n → a + b ≡ n → sub_nat z b ≡ pos a
sub_nat-exact z a b n h e = ap (λ z. sub_nat z b) h ∙ ground (arith, e)

pub IsAccounted-removed :
    (c : DiskCache) (e : Candidate) (es : List Candidate) (disk : Disk)
    → IsListed c.dir (e ∷ es) disk
    → IsAccounted c disk
    → IsAccounted (record c { size = sub_nat c.size e.size }) (delete e.path disk)
IsAccounted-removed c e es disk l a = record {
  unique = Unique-delete e.path disk a.unique;
  exact =
      sub_nat-exact c.size (total_below c.dir (delete e.path disk)) e.size _ a.exact
        (total_below-removed c.dir e es disk a.unique l);
}

evict_loop-IsAccounted :
    (faults : Faults) (es : List Candidate) (c : DiskCache) (disk : Disk)
    → IsListed c.dir es disk
    → IsAccounted c disk
    → IsAccounted (evict_loop faults es c disk).0 (evict_loop faults es c disk).1
unfolding evict_loop
evict_loop-IsAccounted faults [] c disk l a = a
evict_loop-IsAccounted faults (e ∷ es) c disk l a = elim (Bool-cases (above c.size c.cap)) [
  | inr f ↦ rw (f, evict_loop) a
  | inl t ↦ elim (Bool-cases (faults.not_removed e.path)) [
    | inl stuck ↦
        rw (t, stuck, evict_loop)
          (evict_loop-IsAccounted faults es c disk (IsListed-tail c.dir e es disk l) a)
    | inr gone ↦
        rw (t, gone, evict_loop)
          (evict_loop-IsAccounted faults es _ _ (IsListed-delete c.dir e es disk l)
            (IsAccounted-removed c e es disk l a))
  ]
]

nothing_above : (cap : ℤ) → nonpositive cap ≡ false → above (pos 0) cap ≡ false
nothing_above (pos n) p = ground arith
nothing_above (negsuc n) p = absurd (ground arith)

-- If nothing stays that should go, the loop stops under the limit.
evict_loop_within :
    (faults : Faults) (es : List Candidate) (c : DiskCache) (disk : Disk)
    → IsListed c.dir es disk
    → IsAccounted c disk
    → ((p : Bytes) → faults.not_removed p ≡ false)
    → sum es ≡ total_below c.dir disk
    → nonpositive c.cap ≡ false
    → above (evict_loop faults es c disk).0.size c.cap ≡ false
unfolding evict_loop sum
evict_loop_within faults [] c disk l a gone s p =
    subst (λ z. above z c.cap ≡ false) (sym (a.exact ∙ ap pos (sym s))) (nothing_above c.cap p)
evict_loop_within faults (e ∷ es) c disk l a gone s p = elim (Bool-cases (above c.size c.cap)) [
  | inr f ↦ rw (f, evict_loop) f
  | inl t ↦
      rw (t, gone e.path, evict_loop)
        (evict_loop_within faults es _ _ (IsListed-delete c.dir e es disk l)
          (IsAccounted-removed c e es disk l a) gone
          (omega (arith, s, total_below-removed c.dir e es disk a.unique l)) p)
]

pub evict-IsAccounted :
    (faults : Faults) (c : DiskCache) (disk : Disk)
    → IsAccounted c disk
    → IsAccounted (evict faults c disk).0 (evict faults c disk).1
unfolding evict
evict-IsAccounted faults c disk a =
    evict_loop-IsAccounted faults _ c disk (sort-reached-IsListed faults c.dir disk a.unique) a

pub evict_within :
    (faults : Faults) (c : DiskCache) (disk : Disk)
    → IsAccounted c disk
    → ListsAll faults
    → ((p : Bytes) → faults.not_removed p ≡ false)
    → nonpositive c.cap ≡ false
    → above (evict faults c disk).0.size c.cap ≡ false
evict_within faults c disk a lists gone p =
    ap (λ r. above r.0.size c.cap) (evict-all faults c disk lists)
    ∙ evict_loop_within faults _ c disk (sort-candidates-IsListed c.dir disk a.unique) a gone
        (sum-sort-candidates c.dir disk) p

-- The limit stays what it is.
cap-evict_loop :
    (faults : Faults) (es : List Candidate) (c : DiskCache) (disk : Disk)
    → (evict_loop faults es c disk).0.cap ≡ c.cap
unfolding evict_loop
cap-evict_loop faults [] c disk = refl
cap-evict_loop faults (e ∷ es) c disk = elim (Bool-cases (above c.size c.cap)) [
  | inr f ↦ rw (f, evict_loop) refl
  | inl t ↦ elim (Bool-cases (faults.not_removed e.path)) [
    | inl stuck ↦ rw (t, stuck, evict_loop) (cap-evict_loop faults es c disk)
    | inr gone ↦ rw (t, gone, evict_loop) (cap-evict_loop faults es _ _)
  ]
]

pub cap-evict :
    (faults : Faults) (c : DiskCache) (disk : Disk) → (evict faults c disk).0.cap ≡ c.cap
unfolding evict
cap-evict faults c disk = cap-evict_loop faults _ c disk

-- With a positive limit and a disk with no path twice, the tracked size of a new cache is the
-- sum of the files below its directory.
pub new-IsAccounted :
    (faults : Faults) (dir : Bytes) (max_bytes : ℤ) (disk : Disk) (c : DiskCache)
    → Unique disk
    → nonpositive max_bytes ≡ false
    → new faults dir max_bytes disk ≡ ok c
    → IsAccounted c disk
unfolding new rescan
new-IsAccounted faults dir max_bytes disk c u p h = elim (Option-cases faults.mkdir) [
  | inr (e, m) ↦ absurd (ground (arith, m, h))
  | inl m ↦ elim (Option-cases faults.walk) [
    | inr (e, w) ↦ absurd (ground (arith, m, p, w, h))
    | inl w ↦
        let same : record { dir = dir; cap = max_bytes; size = pos (total_below dir disk) } ≡ c =
          ground (arith, m, p, w, h) in
        subst (λ c. IsAccounted c disk) same (record { unique = u; exact = refl })
  ]
]

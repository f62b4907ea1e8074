-- ===== src/DiskCache/Newest.antt =====
-- internal/cache/cache.go: eviction and the newest file.
use ocifuse.Prelude.{
  ℕ, ◌≤◌, ◌<◌, pos, above, true, false, none, some, List, [], ◌∷◌, Bytes, bytes_eq, ◌==◌, length,
  ◌≡◌, refl, sym, ap, ◌∙◌, ◌⊎◌, inl, inr, Bool-cases, bytes_beq_iff, All, arith,
}
use ocifuse.Prelude.Dict.{lookup, insert, Unique, lookup-delete, lookup-insert}
use ocifuse.Prelude.Sort.{sort, insert_sorted, All-sort}
use ocifuse.DiskCache.{
  File, Disk, DiskCache, Faults, is_below, total_below, Candidate, candidates, before, evict_loop,
  evict,
}
use ocifuse.DiskCache.Listed.{
  IsListed, IsListed-delete, sum, sum-sort-candidates, sort-candidates-IsListed, ListsAll,
  evict-all,
}
use ocifuse.DiskCache.Accounts.{IsAccounted, IsAccounted-removed, total_below-removed}

module _ (p : Bytes) (now room : ℕ) where
  abbrev IsNew : Candidate → Type 0
  IsNew e = (e.path ≡ p) × (e.mtime ≡ now) × (e.size ≤ room)

  abbrev Older : Candidate → Type 0
  Older e = ((e.path == p) ≡ false) × (e.mtime < now)

  -- One of the files is the new one, and all others are older.
  abbrev Newest : List Candidate → Type 0
  Newest [] = ⊥
  Newest (e ∷ es) = (IsNew e × All Older es) ⊎ (Older e × Newest es)

  -- It stands at the end.
  abbrev Last : List Candidate → Type 0
  Last [] = ⊥
  Last (e ∷ []) = IsNew e
  Last (e ∷ d ∷ es) = Older e × Last (d ∷ es)

  Last-cons : (d : Candidate) (es : List Candidate) → Older d → Last es → Last (d ∷ es)
  Last-cons d [] o l = absurd l
  Last-cons d (e ∷ es) o l = (o, l)

  insert_sorted-new :
      (e : Candidate) (es : List Candidate)
      → IsNew e
      → All Older es
      → Last (insert_sorted before e es)
  unfolding insert_sorted
  insert_sorted-new e [] n a = n
  insert_sorted-new e (d ∷ []) n a =
      let older : before d e ≡ true = ground (arith, n.1, a.0.1) in rw older (a.0, n)
  insert_sorted-new e (d ∷ d' ∷ es) n a =
      let older : before d e ≡ true = ground (arith, n.1, a.0.1) in
      let rest = insert_sorted-new e (d' ∷ es) n a.1 in
      rw older (Last-cons d (insert_sorted before e (d' ∷ es)) a.0 rest)

  insert_sorted-Older :
      (e : Candidate) (es : List Candidate) → Older e → Last es → Last (insert_sorted before e es)
  unfolding insert_sorted
  insert_sorted-Older e [] o l = absurd l
  insert_sorted-Older e (d ∷ []) o l =
      let newer : before d e ≡ false = ground (arith, o.1, l.1) in rw newer (o, l)
  insert_sorted-Older e (d ∷ d' ∷ es) o l = elim (Bool-cases (before d e)) [
    | inl t ↦
        rw t (
          Last-cons d (insert_sorted before e (d' ∷ es)) l.0
            (insert_sorted-Older e (d' ∷ es) o l.1))
    | inr n ↦ rw n (o, l)
  ]

  sort-Newest : (es : List Candidate) → Newest es → Last (sort before es)
  unfolding sort
  sort-Newest [] n = n
  sort-Newest (e ∷ es) (inl (n, a)) =
      insert_sorted-new e (sort before es) n (All-sort before Older es a)
  sort-Newest (e ∷ es) (inr (o, n)) = insert_sorted-Older e (sort before es) o (sort-Newest es n)

  lookup-evict_loop :
      (faults : Faults) (es : List Candidate) (c : DiskCache) (disk : Disk)
      → Last es
      → c.cap ≡ pos room
      → IsListed c.dir es disk
      → IsAccounted c disk
      → ((q : Bytes) → faults.not_removed q ≡ false)
      → sum es ≡ total_below c.dir disk
      → lookup p (evict_loop faults es c disk).1 ≡ lookup p disk
  unfolding evict_loop sum
  lookup-evict_loop faults [] c disk last cap l a gone s = refl
  lookup-evict_loop faults (e ∷ []) c disk last cap l a gone s =
      let small : above c.size c.cap ≡ false =
        ap (λ z. above z c.cap) a.exact
        ∙ ap (above (pos (total_below c.dir disk))) cap
        ∙ ground (arith, s, last.2) in
      rw (small, evict_loop) refl
  lookup-evict_loop faults (e ∷ d ∷ es) c disk last cap l a gone s =
      elim (Bool-cases (above c.size c.cap)) [
        | inr f ↦ rw (f, evict_loop) refl
        | inl t ↦
            let rest =
              lookup-evict_loop faults (d ∷ es) _ _ last.1 cap
                (IsListed-delete c.dir e (d ∷ es) disk l)
                (IsAccounted-removed c e (d ∷ es) disk l a) gone
                (omega (arith, s, total_below-removed c.dir e (d ∷ es) disk a.unique l)) in
            rw (t, gone e.path, evict_loop)
              (rest
                ∙ ground (
                  arith,
                  last.0.0,
                  lookup-delete e.path p disk,
                  bytes_beq_iff p e.path,
                  bytes_beq_iff e.path p,
                ))
      ]

  candidates-Older :
      (dir : Bytes) (disk : Disk)
      → lookup p disk ≡ none
      → All (λ (qf : Bytes × File). qf.1.mtime < now) disk
      → All Older (candidates dir disk)
  unfolding candidates lookup
  candidates-Older dir [] absent a = tt
  candidates-Older dir ((q, g) ∷ disk) absent a =
      let other : (q == p) ≡ false = ground (arith, absent) in
      let rest = candidates-Older dir disk (ground (arith, other, absent)) a.1 in
      elim (Bool-cases (is_below dir q)) [ inl t ↦ rw t ((other, a.0), rest) | inr n ↦ rw n rest ]

  candidates-Newest :
      (dir : Bytes) (f : File) (disk : Disk)
      → is_below dir p ≡ true
      → Unique disk
      → All (λ (qf : Bytes × File). qf.1.mtime < now) disk
      → f.mtime ≡ now
      → length f.content ≤ room
      → Newest (candidates dir (insert p f disk))
  unfolding candidates insert lookup
  candidates-Newest dir f [] b u a m n = rw b (inl ((refl, m, n), tt))
  candidates-Newest dir f ((q, g) ∷ disk) b u a m n = elim (Bool-cases (q == p)) [
    | inl t ↦
        let absent : lookup p disk ≡ none =
          ap (λ k. lookup k disk) (sym ((bytes_beq_iff q p).0 t)) ∙ u.0 in
        rw (t, b) (inl ((refl, m, n), candidates-Older dir disk absent a.1))
    | inr other ↦
        let rest = candidates-Newest dir f disk b u.1 a.1 m n in
        elim (Bool-cases (is_below dir q)) [
          | inl t ↦ rw (other, t) (inr ((other, a.0), rest))
          | inr off ↦ rw (other, off) rest
        ]
  ]

  pub lookup-evict :
      (faults : Faults) (c : DiskCache) (f : File) (disk : Disk)
      → c.cap ≡ pos room
      → IsAccounted c (insert p f disk)
      → is_below c.dir p ≡ true
      → Unique disk
      → All (λ (qf : Bytes × File). qf.1.mtime < now) disk
      → f.mtime ≡ now
      → length f.content ≤ room
      → ListsAll faults
      → ((q : Bytes) → faults.not_removed q ≡ false)
      → lookup p (evict faults c (insert p f disk)).1 ≡ some f
  lookup-evict faults c f disk cap a b u old m n lists gone =
      ap (λ r. lookup p r.1) (evict-all faults c (insert p f disk) lists)
      ∙ lookup-evict_loop faults _ c (insert p f disk)
          (sort-Newest (candidates c.dir (insert p f disk))
            (candidates-Newest c.dir f disk b u old m n))
          cap (sort-candidates-IsListed c.dir (insert p f disk) a.unique) a gone
          (sum-sort-candidates c.dir (insert p f disk))
      ∙ rw (lookup-insert p p f disk, (bytes_beq_iff p p).1 refl) refl

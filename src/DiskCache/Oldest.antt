-- ===== src/DiskCache/Oldest.antt =====
-- internal/cache/cache.go: the order in which files are evicted.
use ocifuse.Prelude.{
  ℕ, sub_nat, above, true, false, none, some, List, [], ◌∷◌, Bytes, bytes_eq, ◌==◌, ltb, ◌≡◌, refl,
  sym, ap, ◌∙◌, inl, inr, Bool-cases, bytes_beq_iff, All, Any, arith,
}
use ocifuse.Prelude.Dict.{lookup, delete, lookup-delete, Unique}
use ocifuse.Prelude.Sort.{sort, IsSorted, IsOrder, sort-IsSorted, Any-sort}
use ocifuse.DiskCache.{
  File, Disk, DiskCache, Faults, is_below, Candidate, candidates, before, evict_loop, evict,
}
use ocifuse.DiskCache.Listed.{Apart, Differs, sort-candidates-IsListed, ListsAll, evict-all}

All-Any : {A : Type 0} (P Q : A → Type 0) (xs : List A) → All P xs → Any Q xs → (x : A) × P x × Q x
All-Any P Q [] a y = absurd y
All-Any P Q (x ∷ xs) a (inl y) = (x, a.0, y)
All-Any P Q (x ∷ xs) a (inr y) = All-Any P Q xs a.1 y

-- The candidate of a path, with its time.
abbrev Is : Bytes → ℕ → Candidate → Type 0
Is p time d = (d.path ≡ p) × (d.mtime ≡ time)

before-IsOrder : IsOrder before
before-IsOrder = record {
  asym = λ a b h. ground (arith, h);
  neg_trans = λ a b c h k. ground (arith, h, k);
}

candidates-Any :
    (dir p : Bytes) (f : File) (disk : Disk)
    → is_below dir p ≡ true
    → lookup p disk ≡ some f
    → Any (Is p f.mtime) (candidates dir disk)
unfolding candidates lookup
candidates-Any dir p f [] b h = absurd (ground (arith, h))
candidates-Any dir p f ((q, g) ∷ disk) b h = elim (Bool-cases (q == p)) [
  | inl t ↦
      let same : q ≡ p = (bytes_beq_iff q p).0 t in
      let below : is_below dir q ≡ true = ap (is_below dir) same ∙ b in
      let file : g ≡ f = ground (arith, t, h) in rw below (inl (same, ap (λ f. f.mtime) file))
  | inr n ↦
      let rest = candidates-Any dir p f disk b (ground (arith, n, h)) in
      elim (Bool-cases (is_below dir q)) [ inl t ↦ rw t (inr rest) | inr off ↦ rw off rest ]
]

-- What is gone stays so.
lookup-evict_loop-none :
    (faults : Faults) (es : List Candidate) (c : DiskCache) (disk : Disk) (q : Bytes)
    → lookup q disk ≡ none
    → lookup q (evict_loop faults es c disk).1 ≡ none
unfolding evict_loop
lookup-evict_loop-none faults [] c disk q n = n
lookup-evict_loop-none faults (e ∷ es) c disk q n = elim (Bool-cases (above c.size c.cap)) [
  | inr f ↦ rw (f, evict_loop) n
  | inl t ↦ elim (Bool-cases (faults.not_removed e.path)) [
    | inl stuck ↦ rw (t, stuck, evict_loop) (lookup-evict_loop-none faults es c disk q n)
    | inr gone ↦
        rw (t, gone, evict_loop)
          (lookup-evict_loop-none faults es _ (delete e.path disk) q
            (ground (arith, n, lookup-delete e.path q disk)))
  ]
]

evict_loop_order :
    (faults : Faults) (es : List Candidate) (c : DiskCache) (disk : Disk) (p q : Bytes) (f g : File)
    (at time : ℕ)
    → ((r : Bytes) → faults.not_removed r ≡ false)
    → IsSorted before es
    → Apart es
    → Any (Is p at) es
    → Any (Is q time) es
    → lookup p disk ≡ some f
    → lookup p (evict_loop faults es c disk).1 ≡ none
    → lookup q (evict_loop faults es c disk).1 ≡ some g
    → ltb time at ≡ false
unfolding evict_loop
evict_loop_order faults [] c disk p q f g at time removable s a ps qs held gone kept = absurd ps
evict_loop_order faults (e ∷ es) c disk p q f g at time removable s a ps qs held gone kept =
    elim (Bool-cases (above c.size c.cap)) [
      | inr under ↦
          let same : (evict_loop faults (e ∷ es) c disk).1 ≡ disk = rw (under, evict_loop) refl in
          absurd (ground (arith, held, gone, ap (lookup p) same))
      | inl t ↦
          let next =
            evict_loop faults es (record c { size = sub_nat c.size e.size }) (delete e.path disk) in
          let step : evict_loop faults (e ∷ es) c disk ≡ next =
            rw (t, removable e.path, evict_loop) refl in
          let kept' : lookup q next.1 ≡ some g = ap (λ r. lookup q r.1) (sym step) ∙ kept in
          let gone' : lookup p next.1 ≡ none = ap (λ r. lookup p r.1) (sym step) ∙ gone in
          elim qs [
            | inl (same, w) ↦
                let deleted : lookup q (delete e.path disk) ≡ none =
                  ground (arith, lookup-delete e.path q disk, bytes_beq_iff q e.path, same) in
                absurd (
                  ground (
                    arith,
                    kept',
                    lookup-evict_loop-none faults es (record c { size = sub_nat c.size e.size })
                        (delete e.path disk) q deleted,
                  ))
            | inr later ↦ elim ps [
              | inl (same, w) ↦
                  let (d, younger, (path, time')) =
                    All-Any (λ d. before d e ≡ false) (Is q time) es s.0 later in
                  ground (arith, younger, w, time')
              | inr behind ↦
                  let (d, other, (path, time')) = All-Any (Differs e) (Is p at) es a.0 behind in
                  let held' : lookup p (delete e.path disk) ≡ some f =
                    ground (arith, lookup-delete e.path p disk, other, path, held) in
                  evict_loop_order faults es _ (delete e.path disk) p q f g at time removable s.1
                    a.1 behind later held' gone' kept'
            ]
          ]
    ]

-- If all files can be listed and removed, and no path of the disk occurs twice, a file below
-- the directory that eviction removes is not newer than one that it leaves.
pub evict_oldest :
    (faults : Faults) (c : DiskCache) (disk : Disk) (p q : Bytes) (f g : File)
    → Unique disk
    → ListsAll faults
    → ((r : Bytes) → faults.not_removed r ≡ false)
    → is_below c.dir p ≡ true
    → is_below c.dir q ≡ true
    → lookup p disk ≡ some f
    → lookup q disk ≡ some g
    → lookup p (evict faults c disk).1 ≡ none
    → lookup q (evict faults c disk).1 ≡ some g
    → ltb g.mtime f.mtime ≡ false
evict_oldest faults c disk p q f g u lists removable pb qb ph qh gone kept =
    let all = candidates c.dir disk in
    let same = sym (evict-all faults c disk lists) in
    evict_loop_order faults (sort before all) c disk p q f g f.mtime g.mtime removable
      (sort-IsSorted before before-IsOrder all) (sort-candidates-IsListed c.dir disk u).apart
      (Any-sort before (Is p f.mtime) all (candidates-Any c.dir p f disk pb ph))
      (Any-sort before (Is q g.mtime) all (candidates-Any c.dir q g disk qb qh)) ph
      (ap (λ r. lookup p r.1) same ∙ gone) (ap (λ r. lookup q r.1) same ∙ kept)

-- ===== src/Merge/Parents/Synthesis.antt =====
-- `synthesizeParents` as a whole: it keeps the real entries and closes the tree under parents.
use ocifuse.Prelude.{
  ℕ, zero, suc, negsuc, ◌≤◌, ◌≡◌, sym, ap, ◌∙◌, true, false, ◌||◌, none, some, List, [], ◌∷◌, Bytes,
  ◌==◌, bytes_eq, All, All-map, arith, length, length-append, inl, inr, Bool-cases, Option-cases,
  if◌then◌else◌,
}
use ocifuse.Prelude.Dict.{Dict, keys, lookup, has, has-keys, All-has, All-keys-insert}
use ocifuse.SlashPath.{root, dir}
use ocifuse.SlashPath.Names.{IsName, render, slashed}
use ocifuse.Merge.{Entry, canon}
use ocifuse.Merge.Build.{
  synthetic, mark_missing, missing_above, missing_parents, synthesize_parents,
}
use ocifuse.Merge.Canon.{Canonical}
use ocifuse.Merge.Parents.{parent_of, Paths, covered, lookup-add_missing}
use ocifuse.Merge.Parents.Loop.{
  up, covered-missing_above, covered-missing_above_self, Closed, Closed-missing_above,
}

length-slashed : (ss : List Bytes) → length ss ≤ length (slashed ss)
unfolding slashed
length-slashed [] = omega arith
length-slashed (s ∷ ss) = omega (arith, length-append s (slashed ss), length-slashed ss)

length-render : (ss : List Bytes) → length ss ≤ length (render ss)
unfolding render
length-render [] = omega arith
length-render (s ∷ ss) = length-slashed (s ∷ ss)

-- The parent of a canonical path has no more names than the path has bytes.
parent_names :
    (p : Bytes)
    → Canonical p
    → (p == root) ≡ false
    → (ts : List Bytes) × All IsName ts × (canon (dir p) ≡ render ts) × (length ts ≤ length p)
parent_names p (ss, n, e) r = up ss p n e (omega (arith, length-render ss, ap length e)) r

module _ (entries : Dict Bytes Entry) where
  covered-missing_parents :
      (p : Bytes) (ps : List Bytes) (missing : Paths)
      → covered entries missing p ≡ true
      → covered entries (missing_parents entries ps missing) p ≡ true
  unfolding missing_parents
  covered-missing_parents p [] missing h = h
  covered-missing_parents p (q ∷ ps) missing h =
      covered-missing_parents p ps _
        (ground (arith, covered-missing_above entries (length q) (canon (dir q)) p missing))

  Closed-missing_parents :
      (ps : List Bytes) (missing : Paths)
      → All Canonical ps
      → Closed entries missing
      → Closed entries (missing_parents entries ps missing)
  unfolding missing_parents
  Closed-missing_parents [] missing n c = c
  Closed-missing_parents (q ∷ ps) missing n c = elim (Bool-cases (q == root)) [
    | inl r ↦ rw r (Closed-missing_parents ps missing n.1 c)
    | inr r ↦
        let (ts, named, e, h) = parent_names q n.0 r in
        rw r (
          Closed-missing_parents ps _ n.1 (
            Closed-missing_above entries (length q) ts (canon (dir q)) missing named e h
              (All-map (λ k b. ground (arith, b)) (keys missing) c)))
  ]

  parents-covered :
      (ps : List Bytes) (missing : Paths)
      → All Canonical ps
      → All
          (λ p.
            (p == root) ≡ false
            → covered entries (missing_parents entries ps missing) (parent_of p) ≡ true)
          ps
  unfolding missing_parents parent_of
  parents-covered [] missing n = tt
  parents-covered (q ∷ ps) missing n = (
    λ r.
        let (ts, named, e, h) = parent_names q n.0 r in
        rw r (
          covered-missing_parents (canon (dir q)) ps _
            (covered-missing_above_self entries (length q) ts (canon (dir q)) missing e h)),
    parents-covered ps _ n.1,
  )

  -- Only paths with no entry are marked.
  Absent : Paths → Type 0
  Absent missing = All (λ k. lookup k entries ≡ none) (keys missing)

  Absent-mark_missing :
      (q : Bytes) (missing : Paths) → Absent missing → Absent (mark_missing entries q missing)
  unfolding mark_missing Absent
  Absent-mark_missing q missing h = elim (Option-cases (lookup q entries)) [
    | inl e ↦ rw (e, mark_missing) (All-keys-insert _ q tt missing e h)
    | inr (x, e) ↦ rw (e, mark_missing) h
  ]

  Absent-missing_above :
      (fuel : ℕ) (q : Bytes) (missing : Paths)
      → Absent missing
      → Absent (missing_above fuel entries q missing)
  unfolding missing_above
  Absent-missing_above zero q missing h = h
  Absent-missing_above (suc fuel) q missing h = elim (Bool-cases (q == root)) [
    | inl r ↦ rw r h
    | inr r ↦ rw r (Absent-missing_above fuel (canon (dir q)) _ (Absent-mark_missing q missing h))
  ]

  Absent-missing_parents :
      (ps : List Bytes) (missing : Paths)
      → Absent missing
      → Absent (missing_parents entries ps missing)
  unfolding missing_parents
  Absent-missing_parents [] missing h = h
  Absent-missing_parents (q ∷ ps) missing h = elim (Bool-cases (q == root)) [
    | inl r ↦ rw r (Absent-missing_parents ps missing h)
    | inr r ↦
        rw r
          (Absent-missing_parents ps _ (Absent-missing_above (length q) (canon (dir q)) missing h))
  ]

  marks : Paths
  marks = missing_parents entries (keys entries) []

  lookup-synthesize :
      (p : Bytes)
      → lookup p (synthesize_parents entries)
        ≡ (if has p marks then some (synthetic p (negsuc 0)) else lookup p entries)
  unfolding synthesize_parents marks
  lookup-synthesize p =
      lookup-add_missing p (keys marks) entries
      ∙ ap (λ b. if b then some (synthetic p (negsuc 0)) else lookup p entries)
          (sym (has-keys p marks))

  -- A marked path has no entry.
  absent_of_marked : (p : Bytes) → has p marks ≡ true → lookup p entries ≡ none
  unfolding marks Absent keys
  absent_of_marked p h =
      All-has (λ k. lookup k entries ≡ none) p marks (Absent-missing_parents (keys entries) [] tt) h

  -- The entries of the layers are kept as they are.
  pub lookup-synthesize_kept :
      (p : Bytes) (e : Entry)
      → lookup p entries ≡ some e
      → lookup p (synthesize_parents entries) ≡ some e
  lookup-synthesize_kept p e h = rw lookup-synthesize (ground (arith, absent_of_marked p))

  -- What is found besides is a directory made up by the program, with layer index -1.
  pub lookup-synthesize_new :
      (p : Bytes) (e : Entry)
      → lookup p entries ≡ none
      → lookup p (synthesize_parents entries) ≡ some e
      → e ≡ synthetic p (negsuc 0)
  lookup-synthesize_new p e h k = ground (arith, lookup-synthesize p)

  has-synthesize : (p : Bytes) → has p (synthesize_parents entries) ≡ (has p entries || has p marks)
  unfolding has
  has-synthesize p = ground (arith, lookup-synthesize p)

  parent-covered :
      (p : Bytes)
      → All Canonical (keys entries)
      → (p == root) ≡ false
      → has p (synthesize_parents entries) ≡ true
      → covered entries marks (parent_of p) ≡ true
  unfolding marks keys
  parent-covered p n r h = elim (Bool-cases (has p entries)) [
    | inl e ↦
        All-has (λ k. (k == root) ≡ false → covered entries marks (parent_of k) ≡ true) p entries
          (parents-covered (keys entries) [] n) e r
    | inr e ↦
        All-has (λ k. covered entries marks (parent_of k) ≡ true) p marks
          (Closed-missing_parents (keys entries) [] n tt) (ground (arith, has-synthesize p))
  ]

  -- Every path but the root is filed under the root or under a path of the tree.
  pub has-parent_synthesize :
      (p : Bytes)
      → All Canonical (keys entries)
      → has p (synthesize_parents entries) ≡ true
      → (p == root) ≡ false
      → (parent_of p == root) ≡ false
      → has (parent_of p) (synthesize_parents entries) ≡ true
  unfolding covered
  has-parent_synthesize p n h r q = rw has-synthesize (ground (arith, parent-covered p n r h))

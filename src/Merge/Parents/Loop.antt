-- ===== src/Merge/Parents/Loop.antt =====
-- The loops that mark the missing parents: with one round for each byte of a path they reach the
-- root, and what they mark is closed under parents.
use mathlib.Core.Path.{subst}
use ocifuse.Prelude.{
  last_view, All-append_left, All-append_right, length-append, bytes_beq, ℕ, zero, suc, ◌≤◌, ◌≡◌,
  refl, ap, ◌∙◌, true, false, ◌||◌, List, [], ◌∷◌, ◌++◌, Bytes, ◌==◌, bytes_eq, All, All-map, arith,
  length, inl, inr, Bool-cases,
}
use ocifuse.Prelude.Dict.{Dict, keys, has}
use ocifuse.SlashPath.{root, dir}
use ocifuse.SlashPath.Names.{IsName, render}
use ocifuse.Merge.{Entry, canon}
use ocifuse.Merge.Build.{mark_missing, missing_above}
use ocifuse.Merge.Canon.{canon-dir}
use ocifuse.Merge.Parents.{
  parent_of, Paths, covered, covered-root, has-mark_missing, covered-mark_missing,
  covered-mark_missing_self, All-keys-mark_missing,
}

-- One step up takes one name off.
pub up :
    (ss : List Bytes) (q : Bytes) {fuel : ℕ}
    → All IsName ss
    → q ≡ render ss
    → length ss ≤ suc fuel
    → (q == root) ≡ false
    → (ts : List Bytes) × All IsName ts × (canon (dir q) ≡ render ts) × (length ts ≤ fuel)
unfolding render bytes_beq
up [] q n e h r = cc (rw e at r)
up (s ∷ ss) q n e h r =
    let (ts, t, view) = last_view s ss in
    let named : All IsName (ts ++ t ∷ []) = subst (All IsName) view n in
    let front = All-append_left IsName ts (t ∷ []) named in
    let back = All-append_right IsName ts (t ∷ []) named in
    (
      ts,
      front,
      ap (λ p. canon (dir p)) (e ∙ ap render view) ∙ canon-dir ts t front back.0,
      omega (arith, ap length view, length-append ts (t ∷ [])),
    )

module _ (entries : Dict Bytes Entry) where
  -- Marks are never taken back.
  pub has-missing_above :
      (fuel : ℕ) (q p : Bytes) (missing : Paths)
      → has p missing ≡ true
      → has p (missing_above fuel entries q missing) ≡ true
  unfolding missing_above
  has-missing_above zero q p missing h = h
  has-missing_above (suc fuel) q p missing h = elim (Bool-cases (q == root)) [
    | inl e ↦ rw e h
    | inr e ↦ rw e (
        has-missing_above fuel (canon (dir q)) p (mark_missing entries q missing)
          (has-mark_missing entries q p missing h))
  ]

  pub covered-missing_above :
      (fuel : ℕ) (q p : Bytes) (missing : Paths)
      → covered entries missing p ≡ true
      → covered entries (missing_above fuel entries q missing) p ≡ true
  unfolding covered
  covered-missing_above fuel q p missing h = ground (arith, has-missing_above fuel q p missing)

  -- With fuel for each name of a path, the path is covered when the loop ends.
  pub covered-missing_above_self :
      (fuel : ℕ) (ss : List Bytes) (q : Bytes) (missing : Paths)
      → q ≡ render ss
      → length ss ≤ fuel
      → covered entries (missing_above fuel entries q missing) q ≡ true
  unfolding missing_above render
  covered-missing_above_self zero [] q missing e h = covered-root entries missing q e
  covered-missing_above_self zero (s ∷ ss) q missing e h = absurd (omega arith)
  covered-missing_above_self (suc fuel) ss q missing e h = elim (Bool-cases (q == root)) [
    | inl r ↦ rw r (covered-root entries missing q ((bytes_eq.equal_iff q root).0 r))
    | inr r ↦ rw r (
        covered-missing_above fuel (canon (dir q)) q (mark_missing entries q missing)
          (covered-mark_missing_self entries q missing))
  ]

  -- The parents of the marked paths are covered.
  abbrev pub Closed : Paths → Type 0
  Closed missing = All (λ k. covered entries missing (parent_of k) ≡ true) (keys missing)

  -- The same, but for a path that the loop comes to next.
  abbrev pub ClosedBut : Bytes → Paths → Type 0
  ClosedBut q missing =
      All (λ k. (parent_of k == q || covered entries missing (parent_of k)) ≡ true) (keys missing)

  ClosedBut-Closed :
      (q : Bytes) (missing : Paths)
      → covered entries missing q ≡ true
      → ClosedBut q missing
      → Closed missing
  ClosedBut-Closed q missing c h =
      All-map (λ k b. ground (arith, bytes_eq.equal_iff (parent_of k) q)) (keys missing) h

  ClosedBut-mark_missing :
      (q : Bytes) (missing : Paths)
      → ClosedBut q missing
      → ClosedBut (parent_of q) (mark_missing entries q missing)
  ClosedBut-mark_missing q missing h =
      let marked = mark_missing entries q missing in
      All-keys-mark_missing
        (λ k. (parent_of k == parent_of q || covered entries marked (parent_of k)) ≡ true) entries q
        missing (rw ((bytes_eq.equal_iff (parent_of q) (parent_of q)).1 refl))
        (All-map
          (λ k b. ground (
            arith,
            bytes_eq.equal_iff (parent_of k) q,
            covered-mark_missing_self entries q missing,
            covered-mark_missing entries q (parent_of k) missing,
          ))
          (keys missing) h)

  -- With fuel for each name of the path that the loop starts from, it leaves a closed set.
  pub Closed-missing_above :
      (fuel : ℕ) (ss : List Bytes) (q : Bytes) (missing : Paths)
      → All IsName ss
      → q ≡ render ss
      → length ss ≤ fuel
      → ClosedBut q missing
      → Closed (missing_above fuel entries q missing)
  unfolding missing_above parent_of render
  Closed-missing_above zero [] q missing n e h c =
      ClosedBut-Closed q missing (covered-root entries missing q e) c
  Closed-missing_above zero (s ∷ ss) q missing n e h c = absurd (omega arith)
  Closed-missing_above (suc fuel) ss q missing n e h c = elim (Bool-cases (q == root)) [
    | inl r ↦ rw r (
        ClosedBut-Closed q missing
          (covered-root entries missing q ((bytes_eq.equal_iff q root).0 r)) c)
    | inr r ↦
        let (ts, n', e', h') = up ss q n e h r in
        rw r (
          Closed-missing_above fuel ts (canon (dir q)) (mark_missing entries q missing) n' e' h'
            (ClosedBut-mark_missing q missing c))
  ]

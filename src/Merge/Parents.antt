-- ===== src/Merge/Parents.antt =====
-- `synthesizeParents`: real entries are kept, and every path but the root gets its parent.
pub mod Loop
pub mod Synthesis
use ocifuse.Prelude.{
  ℕ, negsuc, ◌≡◌, refl, ap, ◌∙◌, Bool, true, false, ◌||◌, Option, none, some, List, [], ◌∷◌, Bytes,
  ◌==◌, bytes_eq, any, All, if◌then◌else◌, arith,
}
use ocifuse.Prelude.Dict.{
  Dict, keys, lookup, insert, has, has-insert, has-keys, lookup-insert, All-keys-insert,
}
use ocifuse.SlashPath.{root, dir}
use ocifuse.Merge.{Entry, canon}
use ocifuse.Merge.Build.{synthetic, mark_missing, missing_above, missing_parents, add_missing}

-- The path that a path is filed under.
unfoldable pub parent_of : Bytes → Bytes
parent_of p = canon (dir p)

-- A set of paths, as the keys of a map.
abbrev pub Paths : Type 0
Paths = Dict Bytes (Unit {0})

-- The path needs no entry, has one, or is marked as missing.
unfoldable pub covered : Dict Bytes Entry → Paths → Bytes → Bool
covered entries missing p = p == root || (has p entries || has p missing)

pub covered-root :
    (entries : Dict Bytes Entry) (missing : Paths) (p : Bytes)
    → p ≡ root
    → covered entries missing p ≡ true
unfolding covered
covered-root entries missing p e = ground (arith, bytes_eq.equal_iff p root)

pub has-mark_missing :
    (entries : Dict Bytes Entry) (q p : Bytes) (missing : Paths)
    → has p missing ≡ true
    → has p (mark_missing entries q missing) ≡ true
unfolding mark_missing
has-mark_missing entries q p missing h = ground (arith, has-insert q p tt missing)

pub covered-mark_missing_self :
    (entries : Dict Bytes Entry) (q : Bytes) (missing : Paths)
    → covered entries (mark_missing entries q missing) q ≡ true
unfolding mark_missing covered has
covered-mark_missing_self entries q missing =
    ground (arith, lookup-insert q q tt missing, bytes_eq.equal_iff q q)

pub covered-mark_missing :
    (entries : Dict Bytes Entry) (q p : Bytes) (missing : Paths)
    → covered entries missing p ≡ true
    → covered entries (mark_missing entries q missing) p ≡ true
unfolding covered
covered-mark_missing entries q p missing h = ground (arith, has-mark_missing entries q p missing)

pub All-keys-mark_missing :
    (P : Bytes → Type 0) (entries : Dict Bytes Entry) (q : Bytes) (missing : Paths)
    → P q
    → All P (keys missing)
    → All P (keys (mark_missing entries q missing))
unfolding mark_missing
All-keys-mark_missing P entries q missing p h =
    elim (lookup q entries)
      as (λ o. All P (keys (elim o [ some _ ↦ missing | none ↦ insert q tt missing ]))) [
        | none ↦ All-keys-insert P q tt missing p h
        | some _ ↦ h
      ]

-- What is added are directories that no layer holds.
pub lookup-add_missing :
    (p : Bytes) (ps : List Bytes) (entries : Dict Bytes Entry)
    → lookup p (add_missing ps entries)
      ≡ (if any (λ q. q == p) ps then some (synthetic p (negsuc 0)) else lookup p entries)
unfolding add_missing
lookup-add_missing p [] entries = refl
lookup-add_missing p (q ∷ ps) entries = ground (
  arith,
  lookup-add_missing p ps (insert q (synthetic q (negsuc 0)) entries),
  lookup-insert q p (synthetic q (negsuc 0)) entries,
  bytes_eq.equal_iff q p,
)

-- ===== src/Strings/Laws.antt =====
-- Laws of `strings`: how pieces without the separator are split, and what a prefix test says.
use ocifuse.Prelude.{
  ℕ, ◌≡◌, refl, ap, ◌∙◌, true, false, none, some, List, [], ◌∷◌, ◌++◌, Bytes, ◌==◌, nat_eq,
  nat_beq_iff, drop, length, All, Bool-cases, Option-cases, inl, inr, arith,
}
use ocifuse.Strings.{has_prefix, split, extend, join, index_byte}

-- The byte does not occur in the text.
abbrev pub Lacks : ℕ → Bytes → Type 0
Lacks c = All (λ x. (x == c) ≡ false)

pub split_of_Lacks : (c : ℕ) (s : Bytes) → Lacks c s → split c s ≡ s ∷ []
unfolding split
split_of_Lacks c [] h = refl
split_of_Lacks c (x ∷ s) h = rw (h.0, split_of_Lacks c s h.1)

pub split-append_of_Lacks : (c : ℕ) (s r : Bytes) → Lacks c s → split c (s ++ c ∷ r) ≡ s ∷ split c r
unfolding split
split-append_of_Lacks c [] r h = rw ((nat_beq_iff c c).1 refl)
split-append_of_Lacks c (x ∷ s) r h = rw (h.0, split-append_of_Lacks c s r h.1)

extend-Lacks :
    (c x : ℕ) (ss : List Bytes) → (x == c) ≡ false → All (Lacks c) ss → All (Lacks c) (extend x ss)
unfolding extend
extend-Lacks c x [] h all = ((h, tt), tt)
extend-Lacks c x (s ∷ ss) h all = ((h, all.0), all.1)

-- No piece holds the separator.
pub split-Lacks : (c : ℕ) (s : Bytes) → All (Lacks c) (split c s)
unfolding split
split-Lacks c [] = (tt, tt)
split-Lacks c (x ∷ s) = elim (Bool-cases (x == c)) [
  | inl e ↦ rw e (tt, split-Lacks c s)
  | inr e ↦ rw e (extend-Lacks c x (split c s) e (split-Lacks c s))
]

pub has_prefix-append : (p s : Bytes) → has_prefix (p ++ s) p ≡ true
unfolding has_prefix
has_prefix-append [] [] = refl
has_prefix-append [] (x ∷ s) = refl
has_prefix-append (x ∷ p) s = ground (arith, has_prefix-append p s)

-- A text with a prefix is that prefix and the rest.
pub eq_of_has_prefix : (s p : Bytes) → has_prefix s p ≡ true → s ≡ p ++ drop (length p) s
unfolding has_prefix
eq_of_has_prefix s [] h = refl
eq_of_has_prefix [] (y ∷ p) h = cc
eq_of_has_prefix (x ∷ s) (y ∷ p) h = ground (arith, eq_of_has_prefix s p)

-- Pieces without the separator that are joined with it are found again.
pub split-join :
    (c : ℕ) (s : Bytes) (ss : List Bytes)
    → Lacks c s
    → All (Lacks c) ss
    → split c (join c (s ∷ ss)) ≡ s ∷ ss
unfolding join
split-join c s [] h hs = split_of_Lacks c s h
split-join c s (t ∷ ss) h hs =
    split-append_of_Lacks c s (join c (t ∷ ss)) h ∙ ap (◌∷◌ s) (split-join c t ss hs.0 hs.1)

pub index_byte_of_Lacks : (c : ℕ) (s : Bytes) → Lacks c s → index_byte s c ≡ none
unfolding index_byte
index_byte_of_Lacks c [] h = refl
index_byte_of_Lacks c (x ∷ s) h = rw (h.0, index_byte_of_Lacks c s h.1) refl

pub index_byte-append_of_Lacks :
    (c : ℕ) (s r : Bytes) → Lacks c s → index_byte (s ++ c ∷ r) c ≡ some (length s)
unfolding index_byte
index_byte-append_of_Lacks c [] r h = rw ((nat_beq_iff c c).1 refl) refl
index_byte-append_of_Lacks c (x ∷ s) r h = rw (h.0, index_byte-append_of_Lacks c s r h.1) refl

pub Lacks-index_byte : (c : ℕ) (s : Bytes) → index_byte s c ≡ none → Lacks c s
unfolding index_byte
Lacks-index_byte c [] h = tt
Lacks-index_byte c (x ∷ s) h = elim (Bool-cases (x == c)) [
  | inl t ↦ absurd (ground (arith, t, h))
  | inr f ↦ (
    f,
    Lacks-index_byte c s (elim (Option-cases (index_byte s c)) [
      | inl n ↦ n
      | inr (i, e) ↦ absurd (ground (arith, f, e, h))
    ]),
  )
]

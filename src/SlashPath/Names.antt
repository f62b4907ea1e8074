-- ===== src/SlashPath/Names.antt =====
-- Clean rooted paths as lists of names: how they are written, joined and taken apart.
use mathlib.Core.List.{append-nil, append_assoc}
use ocifuse.Prelude.{
  ℕ, ◌≡◌, refl, sym, ap, ◌∙◌, Bool, true, false, ◌&&◌, List, [], ◌∷◌, ◌++◌, Bytes, codes, ◌==◌,
  nat_eq, bytes_eq, bytes_beq, All, arith,
}
use ocifuse.Strings.{has_prefix, join}
use ocifuse.Strings.Laws.{Lacks}
use ocifuse.SlashPath.{slash, root, is_empty, split_last}

-- An element that `clean` keeps: no slash, not empty, and neither "." nor "..".
abbrev pub IsName : Bytes → Type 0
IsName s =
    Lacks slash s × (is_empty s ≡ false) × ((s == codes ".") ≡ false) × ((s == codes "..") ≡ false)

-- Each name behind a slash.
unfoldable pub slashed : List Bytes → Bytes
slashed [] = []
slashed (s ∷ ss) = slash ∷ s ++ slashed ss

-- The rooted path with these names.
unfoldable pub render : List Bytes → Bytes
unfolding slashed
render [] = root
render (s ∷ ss) = slashed (s ∷ ss)

pub slashed-append : (ss ts : List Bytes) → slashed (ss ++ ts) ≡ slashed ss ++ slashed ts
unfolding slashed
slashed-append [] ts = refl
slashed-append (s ∷ ss) ts =
    ap (◌∷◌ slash)
      (ap (λ r. s ++ r) (slashed-append ss ts) ∙ sym (append_assoc s (slashed ss) (slashed ts)))

pub slash-join : (ss : List Bytes) → slash ∷ join slash ss ≡ render ss
unfolding join render
slash-join [] = refl
slash-join (s ∷ []) = ap (◌∷◌ slash) (sym (append-nil s))
slash-join (s ∷ t ∷ ss) = ap (λ r. slash ∷ s ++ r) (slash-join (t ∷ ss))

pub render-append_last :
    (ss : List Bytes) (s : Bytes) → render (ss ++ s ∷ []) ≡ slashed ss ++ slash ∷ s
unfolding render
render-append_last [] s = ap (◌∷◌ slash) (append-nil s)
render-append_last (t ∷ ss) s =
    ap (λ r. slash ∷ (t ++ r))
      (slashed-append ss (s ∷ []) ∙ ap (λ r. slashed ss ++ slash ∷ r) (append-nil s))
    ∙ ap (◌∷◌ slash) (sym (append_assoc t (slashed ss) (slash ∷ s)))

pub render-not_root : (s : Bytes) (ss : List Bytes) → IsName s → (render (s ∷ ss) == root) ≡ false
unfolding render slashed bytes_beq
render-not_root [] ss h = cc
render-not_root (x ∷ s) ss h = refl

pub is_empty-append_last : (d : Bytes) (c : ℕ) → is_empty (d ++ c ∷ []) ≡ false
is_empty-append_last [] c = refl
is_empty-append_last (x ∷ d) c = refl

pub split_last_of_Lacks : (s : Bytes) → Lacks slash s → split_last s ≡ ([], s)
unfolding split_last
split_last_of_Lacks [] h = refl
split_last_of_Lacks (x ∷ s) h = rw (split_last_of_Lacks s h.1, h.0)

-- A path is split at its last slash.
pub split_last-append :
    (d s : Bytes) → Lacks slash s → split_last (d ++ slash ∷ s) ≡ (d ++ slash ∷ [], s)
unfolding split_last
split_last-append [] s h = rw (split_last_of_Lacks s h)
split_last-append (x ∷ d) s h = rw (split_last-append d s h, is_empty-append_last d slash)

-- The first list is a proper initial part of the second.
unfoldable pub strict_prefix : List Bytes → List Bytes → Bool
strict_prefix [] [] = false
strict_prefix [] (q ∷ qs) = true
strict_prefix (p ∷ ps) [] = false
strict_prefix (p ∷ ps) (q ∷ qs) = p == q && strict_prefix ps qs

-- Empty, or a slash first.
abbrev Follows : Bytes → Type 0
Follows [] = Unit
Follows (x ∷ r) = x ≡ slash

Follows-slashed : (ss : List Bytes) → Follows (slashed ss)
unfolding slashed
Follows-slashed [] = tt
Follows-slashed (s ∷ ss) = refl

has_prefix-names :
    (p q r t : Bytes)
    → Lacks slash p
    → Lacks slash q
    → Follows r
    → has_prefix (q ++ r) (p ++ slash ∷ t) ≡ (p == q && has_prefix r (slash ∷ t))
unfolding has_prefix bytes_beq
has_prefix-names [] [] r t hp hq f = refl
has_prefix-names [] (x ∷ q) r t hp hq f = rw (hq.0)
has_prefix-names (y ∷ p) [] [] t hp hq f = refl
has_prefix-names (y ∷ p) [] (x ∷ r) t hp hq f = ground (arith, hp.0)
has_prefix-names (y ∷ p) (x ∷ q) r t hp hq f = ground (arith, has_prefix-names p q r t hp.1 hq.1 f)

slashed-starts : (ps : List Bytes) → (t : Bytes) × (slashed ps ++ slash ∷ [] ≡ slash ∷ t)
unfolding slashed
slashed-starts [] = ([], refl)
slashed-starts (p ∷ ps) = (p ++ slashed ps ++ slash ∷ [], refl)

-- The prefix tests of the code compare whole names, never parts of one.
pub has_prefix-slashed :
    (ps qs : List Bytes)
    → All IsName ps
    → All IsName qs
    → has_prefix (slashed qs) (slashed ps ++ slash ∷ []) ≡ strict_prefix ps qs
unfolding slashed strict_prefix has_prefix
has_prefix-slashed [] [] hp hq = refl
has_prefix-slashed [] (q ∷ qs) hp hq = refl
has_prefix-slashed (p ∷ ps) [] hp hq = refl
has_prefix-slashed (p ∷ ps) (q ∷ qs) hp hq =
    let (t, e) = slashed-starts ps in
    ap (has_prefix (q ++ slashed qs))
      (append_assoc p (slashed ps) (slash ∷ []) ∙ ap (λ r. p ++ r) e)
    ∙ has_prefix-names p q (slashed qs) t hp.0.0 hq.0.0 (Follows-slashed qs)
    ∙ ap (λ b. p == q && b)
        (ap (has_prefix (slashed qs)) (sym e) ∙ has_prefix-slashed ps qs hp.1 hq.1)

-- ===== src/Fspath/Boundary.antt =====
-- internal/fspath/parse.go: which segment holds the reference.
use mathlib.Core.Path.{subst}
use ocifuse.Prelude.{
  ℕ, suc, ◌+◌, Bool, true, false, ◌&&◌, not, none, some, List, [], ◌∷◌, ◌++◌, Bytes, codes, nat_eq,
  nat_beq, nat_beq_iff, drop-length, length, ◌≡◌, refl, sym, ap, ◌∙◌, arith,
}
use ocifuse.Strings.{contains_any, last_index}
use ocifuse.Strings.Laws.{Lacks}
use ocifuse.SlashPath.{is_empty}
use ocifuse.Fspath.{is_registry_segment, find_ref, all_digits}

-- The segment holds a reference, if it stands at index `i`.
abbrev pub bears_ref : ℕ → Bytes → Bool
bears_ref i s = not (nat_beq i 0 && is_registry_segment s) && contains_any s (codes ":@")

-- No segment does, from index `i` on.
abbrev pub NoneBears : ℕ → List Bytes → Type 0
NoneBears i [] = Unit
NoneBears i (s ∷ segs) = (bears_ref i s ≡ false) × NoneBears (suc i) segs

pub find_ref-eq-none : (i : ℕ) (segs : List Bytes) → NoneBears i segs → find_ref i segs ≡ none
unfolding find_ref
find_ref-eq-none i [] h = refl
find_ref-eq-none i (s ∷ segs) h = ground (arith, h.0, find_ref-eq-none (suc i) segs h.1)

find_ref-first :
    (i : ℕ) (ds es : List Bytes) (s : Bytes)
    → NoneBears i ds
    → bears_ref (i + length ds) s ≡ true
    → find_ref i (ds ++ s ∷ es) ≡ some (i + length ds)
unfolding find_ref
find_ref-first i [] es s h b =
    let here : i + 0 ≡ i = omega arith in
    let bears : bears_ref i s ≡ true = subst (λ n. bears_ref n s ≡ true) here b in
    ground (arith, bears, here)
find_ref-first i (d ∷ ds) es s h b =
    let next : suc i + length ds ≡ i + suc (length ds) = omega arith in
    let bears : bears_ref (suc i + length ds) s ≡ true =
      subst (λ n. bears_ref n s ≡ true) (sym next) b in
    ground (arith, h.0, find_ref-first (suc i) ds es s h.1 bears, next)

-- From the start of the path.
pub find_ref-start :
    (ds es : List Bytes) (s : Bytes)
    → NoneBears 0 ds
    → bears_ref (length ds) s ≡ true
    → find_ref 0 (ds ++ s ∷ es) ≡ some (length ds)
find_ref-start ds es s h b =
    let start : length ds ≡ 0 + length ds = omega arith in
    find_ref-first 0 ds es s h (subst (λ n. bears_ref n s ≡ true) start b) ∙ ap some (sym start)

last_index_of_Lacks : (c : ℕ) (s : Bytes) → Lacks c s → last_index s c ≡ none
unfolding last_index
last_index_of_Lacks c [] h = refl
last_index_of_Lacks c (x ∷ s) h = rw (last_index_of_Lacks c s h.1, h.0) refl

last_index-append_of_Lacks :
    (c : ℕ) (s r : Bytes) → Lacks c r → last_index (s ++ c ∷ r) c ≡ some (length s)
unfolding last_index
last_index-append_of_Lacks c [] r h = rw (last_index_of_Lacks c r h, (nat_beq_iff c c).1 refl) refl
last_index-append_of_Lacks c (x ∷ s) r h = rw (last_index-append_of_Lacks c s r h) refl

-- A ':' before digits is the port of a registry, and one before anything else is not.
pub is_registry_segment-port :
    (host port : Bytes)
    → Lacks b':' port
    → is_registry_segment (host ++ b':' ∷ port) ≡ (not (is_empty port) && all_digits port)
unfolding is_registry_segment
is_registry_segment-port host port h =
    rw
      (last_index-append_of_Lacks b':' host port h, drop-length host b':' port, is_registry_segment)
      refl

-- ===== src/SlashPath/Clean.antt =====
-- `path.Clean` on rooted paths: it computes a list of names, and keeps a path that is one.
use mathlib.Core.List.{append-nil, append_assoc, reverse-cons}
use ocifuse.Prelude.{
  ◌≡◌, refl, sym, ap, ◌∙◌, Bool, true, List, [], ◌∷◌, ◌++◌, reverse, Bytes, codes, ◌==◌, nat_eq,
  bytes_eq, All, All-reverse, Bool-cases, inl, inr,
}
use ocifuse.Strings.{has_prefix, split}
use ocifuse.Strings.Laws.{Lacks, split-Lacks, split_of_Lacks, split-append_of_Lacks}
use ocifuse.SlashPath.{slash, root, is_empty, go_up, clean_step, clean_loop, clean, dir}
use ocifuse.SlashPath.Names.{
  IsName, slashed, render, slash-join, render-append_last, split_last-append,
}

-- The names that are left of a rooted path.
unfoldable pub elements : Bytes → List Bytes
elements p = reverse (clean_loop true [] (split slash p))

pub clean_of_rooted : (p : Bytes) → has_prefix p root ≡ true → clean p ≡ render (elements p)
unfolding clean elements
clean_of_rooted p h = rw h (slash-join _)

go_up-IsName : (kept : List Bytes) → All IsName kept → All IsName (go_up true kept)
unfolding go_up
go_up-IsName [] h = tt
go_up-IsName (top ∷ below) h = h.1

clean_step-IsName :
    (kept : List Bytes) (seg : Bytes)
    → All IsName kept
    → Lacks slash seg
    → All IsName (clean_step true kept seg)
unfolding clean_step
clean_step-IsName kept seg h l = elim (Bool-cases (is_empty seg)) [
  | inl e ↦ rw e h
  | inr e ↦ elim (Bool-cases (seg == codes ".")) [
    | inl d ↦ rw (e, d) h
    | inr d ↦ elim (Bool-cases (seg == codes "..")) [
      | inl u ↦ rw (e, d, u) (go_up-IsName kept h)
      | inr u ↦ rw (e, d, u) ((l, e, d, u), h)
    ]
  ]
]

clean_loop-IsName :
    (kept segs : List Bytes)
    → All IsName kept
    → All (Lacks slash) segs
    → All IsName (clean_loop true kept segs)
unfolding clean_loop
clean_loop-IsName kept [] h l = h
clean_loop-IsName kept (seg ∷ segs) h l =
    clean_loop-IsName (clean_step true kept seg) segs (clean_step-IsName kept seg h l.0) l.1

pub elements-IsName : (p : Bytes) → All IsName (elements p)
unfolding elements
elements-IsName p =
    All-reverse IsName _ (clean_loop-IsName [] (split slash p) tt (split-Lacks slash p))

clean_step_name :
    (r : Bool) (kept : List Bytes) (s : Bytes) → IsName s → clean_step r kept s ≡ s ∷ kept
unfolding clean_step
clean_step_name r kept s h = rw (h.1, h.2, h.3)

-- The names, the last one first, on top of those that were kept.
pub push : List Bytes → List Bytes → List Bytes
push [] kept = kept
push (s ∷ ss) kept = push ss (s ∷ kept)

pub reverse-push : (ss kept : List Bytes) → reverse (push ss kept) ≡ reverse kept ++ ss
unfolding push
reverse-push [] kept = sym (append-nil (reverse kept))
reverse-push (s ∷ ss) kept =
    reverse-push ss (s ∷ kept) ∙ rw reverse-cons (append_assoc (reverse kept) (s ∷ []) ss)

-- Nothing but the name before it is left of such an end of a path.
abbrev pub Ends : Bytes → Type 0
Ends t =
    (r : Bool) (kept : List Bytes) (s : Bytes)
    → IsName s
    → clean_loop r kept (split slash (s ++ t)) ≡ s ∷ kept

pub Ends-nil : Ends []
unfolding clean_loop
Ends-nil r kept s h =
    rw (append-nil, split_of_Lacks slash s h.0, clean_loop) (clean_step_name r kept s h)

pub Ends-slash : Ends (slash ∷ [])
unfolding clean_loop split
Ends-slash r kept s h = rw (split-append_of_Lacks slash s [] h.0) (clean_step_name r kept s h)

pub clean_loop-slashed :
    (t : Bytes)
    → Ends t
    → (r : Bool) (kept : List Bytes) (s : Bytes) (ss : List Bytes) → IsName s
    → All IsName ss
    → clean_loop r kept (split slash (s ++ (slashed ss ++ t))) ≡ push ss (s ∷ kept)
unfolding slashed push clean_loop
clean_loop-slashed t e r kept s [] h all = e r kept s h
clean_loop-slashed t e r kept s (s' ∷ ss) h all =
    ap (clean_loop r kept) (
      ap (λ u. split slash (s ++ slash ∷ u)) (append_assoc s' (slashed ss) t)
      ∙ split-append_of_Lacks slash s (s' ++ (slashed ss ++ t)) h.0)
    ∙ rw (clean_loop, clean_step_name r kept s h)
        (clean_loop-slashed t e r (s ∷ kept) s' ss all.0 all.1)

-- The names of a path are found again in its text.
pub elements-render : (ss : List Bytes) → All IsName ss → elements (render ss) ≡ ss
unfolding elements render split clean_loop
elements-render [] h = refl
elements-render (s ∷ ss) h =
    ap (λ r. reverse (clean_loop true [] (split slash (s ++ r)))) (sym (append-nil (slashed ss)))
    ∙ ap reverse (clean_loop-slashed [] Ends-nil true [] s ss h.0 h.1)
    ∙ reverse-push ss (s ∷ [])

pub elements-slash : (ss : List Bytes) → All IsName ss → elements (slashed ss ++ slash ∷ []) ≡ ss
unfolding elements slashed split clean_loop
elements-slash [] h = refl
elements-slash (s ∷ ss) h =
    ap (λ r. reverse (clean_loop true [] (split slash r)))
      (append_assoc s (slashed ss) (slash ∷ []))
    ∙ ap reverse (clean_loop-slashed (slash ∷ []) Ends-slash true [] s ss h.0 h.1)
    ∙ reverse-push ss (s ∷ [])

slashed-rooted : (ss : List Bytes) (t : Bytes) → has_prefix (slashed ss ++ slash ∷ t) root ≡ true
unfolding slashed has_prefix
slashed-rooted [] [] = refl
slashed-rooted [] (x ∷ t) = refl
slashed-rooted (s ∷ ss) t = refl

pub render-rooted : (ss : List Bytes) → has_prefix (render ss) root ≡ true
unfolding render has_prefix
render-rooted [] = refl
render-rooted (s ∷ ss) = refl

-- A path of names is clean.
pub clean-render : (ss : List Bytes) → All IsName ss → clean (render ss) ≡ render ss
clean-render ss h =
    clean_of_rooted (render ss) (render-rooted ss) ∙ ap render (elements-render ss h)

-- The directory of a path of names is the path without the last name.
pub dir-render :
    (ss : List Bytes) (s : Bytes)
    → All IsName ss
    → IsName s
    → dir (render (ss ++ s ∷ [])) ≡ render ss
unfolding dir
dir-render ss s h k =
    rw (render-append_last, split_last-append (slashed ss) s k.0)
      (clean_of_rooted (slashed ss ++ slash ∷ []) (slashed-rooted ss [])
        ∙ ap render (elements-slash ss h))

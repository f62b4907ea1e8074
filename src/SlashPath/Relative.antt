-- ===== src/SlashPath/Relative.antt =====
-- Relative paths written from names, as the entries of a tar file are: their base and directory.
use mathlib.Core.List.{append-nil, append_assoc, reverse-append, reverse-cons, reverse-reverse}
use ocifuse.Prelude.{
  ◌≡◌, refl, sym, ap, ◌∙◌, false, List, [], ◌∷◌, ◌++◌, reverse, Bytes, nat_eq, bytes_eq, All,
  All-reverse,
}
use ocifuse.Strings.{has_prefix, split, join, trim, trim_left}
use ocifuse.Strings.Laws.{Lacks}
use ocifuse.SlashPath.{slash, root, is_empty, clean, split_last, dir, base, path_join, skip_empty}
use ocifuse.SlashPath.Names.{
  IsName, slashed, render, render-append_last, slashed-append, split_last-append,
  split_last_of_Lacks, is_empty-append_last,
}
use ocifuse.SlashPath.Clean.{Ends-nil, Ends-slash, clean_loop-slashed, reverse-push}

join-cons : (s : Bytes) (ss : List Bytes) → join slash (s ∷ ss) ≡ s ++ slashed ss
unfolding join slashed
join-cons s [] = sym (append-nil s)
join-cons s (t ∷ ss) = ap (λ r. s ++ slash ∷ r) (join-cons t ss)

join-append_last :
    (d n : Bytes) (ds : List Bytes)
    → join slash (d ∷ (ds ++ n ∷ [])) ≡ (d ++ slashed ds) ++ slash ∷ n
unfolding slashed
join-append_last d n ds =
    join-cons d (ds ++ n ∷ [])
    ∙ ap (λ r. d ++ r)
        (slashed-append ds (n ∷ []) ∙ ap (λ r. slashed ds ++ slash ∷ r) (append-nil n))
    ∙ sym (append_assoc d (slashed ds) (slash ∷ n))

-- Nothing is stripped from a path that does not begin with a slash.
trim_left-append :
    (r s : Bytes) → Lacks slash r → is_empty r ≡ false → trim_left slash (r ++ s) ≡ r ++ s
unfolding trim_left
trim_left-append [] s h e = cc
trim_left-append (x ∷ r) s h e = rw (h.0)

is_empty-reverse : (s : Bytes) → is_empty (reverse s) ≡ is_empty s
is_empty-reverse [] = refl
is_empty-reverse (x ∷ s) = rw reverse-cons (is_empty-append_last (reverse s) x)

-- Nothing is stripped from a path that ends with a name.
trim_left-reverse :
    (d n : Bytes)
    → Lacks slash n
    → is_empty n ≡ false
    → trim_left slash (reverse (d ++ n)) ≡ reverse (d ++ n)
unfolding trim_left
trim_left-reverse d n h e =
    rw reverse-append
      (trim_left-append (reverse n) (reverse d) (All-reverse _ n h) (is_empty-reverse n ∙ e))

-- A path that neither begins nor ends with a slash is not trimmed.
pub trim-join :
    (d n : Bytes) (ds : List Bytes)
    → IsName d
    → Lacks slash n
    → is_empty n ≡ false
    → trim slash (join slash (d ∷ (ds ++ n ∷ []))) ≡ join slash (d ∷ (ds ++ n ∷ []))
unfolding trim
trim-join d n ds h k e =
    let path = join slash (d ∷ (ds ++ n ∷ [])) in
    let front : trim_left slash path ≡ path =
      ap (trim_left slash) (join-cons d (ds ++ n ∷ []))
      ∙ trim_left-append d (slashed (ds ++ n ∷ [])) h.0 h.1
      ∙ sym (join-cons d (ds ++ n ∷ [])) in
    let split : path ≡ (d ++ slashed ds ++ slash ∷ []) ++ n =
      join-append_last d n ds ∙ sym (append_assoc (d ++ slashed ds) (slash ∷ []) n) in
    ap (λ s. reverse (trim_left slash (reverse s))) (front ∙ split)
    ∙ ap reverse (trim_left-reverse (d ++ slashed ds ++ slash ∷ []) n k e)
    ∙ reverse-reverse ((d ++ slashed ds ++ slash ∷ []) ++ n)
    ∙ sym split

is_empty-append : (d n : Bytes) → is_empty n ≡ false → is_empty (d ++ n) ≡ false
is_empty-append [] n e = e
is_empty-append (x ∷ d) n e = refl

base-split : (p d n : Bytes) → p ≡ d ++ n → split_last p ≡ (d, n) → IsName n → base p ≡ n
unfolding base
base-split p d n e split h =
    rw (e, is_empty-append d n h.1, trim_left-reverse d n h.0 h.1, reverse-reverse, ← e, split, h.1)

-- The base of such a path is its last name.
pub base-join : (ds : List Bytes) (n : Bytes) → IsName n → base (join slash (ds ++ n ∷ [])) ≡ n
unfolding join
base-join [] n h = base-split n [] n refl (split_last_of_Lacks n h.0) h
base-join (d ∷ ds) n h =
    base-split (join slash (d ∷ (ds ++ n ∷ []))) (d ++ slashed ds ++ slash ∷ []) n
      (join-append_last d n ds ∙ sym (append_assoc (d ++ slashed ds) (slash ∷ []) n))
      (ap split_last (join-append_last d n ds) ∙ split_last-append (d ++ slashed ds) n h.0) h

pub base-render : (ds : List Bytes) (n : Bytes) → IsName n → base (render (ds ++ n ∷ [])) ≡ n
base-render ds n h =
    base-split (render (ds ++ n ∷ [])) (slashed ds ++ slash ∷ []) n
      (render-append_last ds n ∙ sym (append_assoc (slashed ds) (slash ∷ []) n))
      (ap split_last (render-append_last ds n) ∙ split_last-append (slashed ds) n h.0) h

-- A path that begins with a name is not rooted.
has_prefix-name : (d r : Bytes) → IsName d → has_prefix (d ++ r) root ≡ false
unfolding has_prefix
has_prefix-name [] r h = cc
has_prefix-name (x ∷ d) r h = rw (h.0.0)

is_empty-front : (d r : Bytes) → IsName d → is_empty (d ++ r) ≡ false
is_empty-front [] r h = cc
is_empty-front (x ∷ d) r h = refl

pub is_empty-join :
    (d : Bytes) (ds : List Bytes) → IsName d → is_empty (join slash (d ∷ ds)) ≡ false
is_empty-join d ds h = rw join-cons (is_empty-front d (slashed ds) h)

clean-relative :
    (d : Bytes) (ds : List Bytes)
    → IsName d
    → All IsName ds
    → clean (d ++ slashed ds ++ slash ∷ []) ≡ join slash (d ∷ ds)
unfolding clean
clean-relative d ds h k = rw (
  append_assoc,
  has_prefix-name d (slashed ds ++ slash ∷ []) h,
  clean_loop-slashed (slash ∷ []) Ends-slash false [] d ds h k,
  reverse-push ds (d ∷ []),
  is_empty-join d ds h,
)

-- The directory of such a path is the path without the last name.
pub dir-join :
    (d n : Bytes) (ds : List Bytes)
    → IsName d
    → All IsName ds
    → IsName n
    → dir (join slash (d ∷ (ds ++ n ∷ []))) ≡ join slash (d ∷ ds)
unfolding dir
dir-join d n ds h k l =
    rw (join-append_last, split_last-append (d ++ slashed ds) n l.0) (clean-relative d ds h k)

clean-join :
    (d : Bytes) (ds : List Bytes)
    → IsName d
    → All IsName ds
    → clean (join slash (d ∷ ds)) ≡ join slash (d ∷ ds)
unfolding clean
clean-join d ds h k =
    let e : join slash (d ∷ ds) ≡ d ++ (slashed ds ++ []) =
      join-cons d ds ∙ ap (λ r. d ++ r) (sym (append-nil (slashed ds))) in
    ap clean e
    ∙ rw
        (
          has_prefix-name d (slashed ds ++ []) h,
          clean_loop-slashed [] Ends-nil false [] d ds h k,
          reverse-push ds (d ∷ []),
          is_empty-join d ds h,
          clean,
        )
        refl

-- Names are joined as they are.
pub path_join-names :
    (d : Bytes) (ds : List Bytes)
    → IsName d
    → All IsName ds
    → path_join (d ∷ ds) ≡ join slash (d ∷ ds)
unfolding path_join skip_empty
path_join-names d ds h k = rw (h.1, path_join) (clean-join d ds h k)

pub join-append :
    (d : Bytes) (ds : List Bytes) (s : Bytes)
    → join slash (d ∷ (ds ++ s ∷ [])) ≡ join slash (d ∷ ds) ++ slash ∷ s
join-append d ds s = join-append_last d s ds ∙ ap (λ r. r ++ slash ∷ s) (sym (join-cons d ds))

-- ===== src/Merge/Named.antt =====
-- The entries of a layer by the names of their paths: what each kind of entry does, and which
-- files an opaque marker of the same layer takes away.
use mathlib.Core.List.{append-nil, append_assoc}
use ocifuse.Prelude.{
  ◌≡◌, refl, sym, ap, ◌∙◌, true, false, none, List, [], ◌∷◌, ◌++◌, Bytes, ◌==◌, nat_eq, bytes_eq,
  bytes_beq, bytes_ltb, bytes_ltb_append, All, All-append, Any, Any-map, Bool-cases, inl, inr,
  arith, ℕ,
}
use ocifuse.Prelude.Dict.{Dict, lookup}
use ocifuse.Strings.{has_prefix, trim_prefix, join, split}
use ocifuse.SlashPath.{slash, root, dir, path_join, clean, clean_loop}
use ocifuse.SlashPath.Names.{
  IsName, render, slash-join, strict_prefix, split_last_of_Lacks, render-append_last,
}
use ocifuse.SlashPath.Clean.{elements, elements-render, clean_of_rooted, clean-render}
use ocifuse.SlashPath.Relative.{base-join, dir-join}
use ocifuse.Merge.{
  Entry, TarEntry, opaque, whiteout, file, wh_prefix, wh_opaque, canon, action, by_filename,
  apply_layer,
}
use ocifuse.Merge.Canon.{canon-render}
use ocifuse.Merge.Subtree.{removes_below}
use ocifuse.Merge.Layer.{adds, hides}
use ocifuse.Merge.Layer.Outcome.{lookup-apply_layer_lost}

-- A file name with these elements, as tar archives write it.
abbrev pub file_name : List Bytes → Bytes
file_name = join slash

abbrev IsNamed : TarEntry → List Bytes → Type 0
IsNamed e ss = e.filename ≡ file_name ss

canon-file_name : (ss : List Bytes) → All IsName ss → canon (slash ∷ file_name ss) ≡ render ss
canon-file_name ss h = rw slash-join (canon-render ss h)

canon-dir_single : (n : Bytes) → IsName n → canon (slash ∷ dir n) ≡ root
unfolding dir canon bytes_beq
canon-dir_single n k = rw (split_last_of_Lacks n k.0)

canon-dir_name :
    (ds : List Bytes) (n : Bytes)
    → All IsName ds
    → IsName n
    → canon (slash ∷ dir (file_name (ds ++ n ∷ []))) ≡ render ds
unfolding join render
canon-dir_name [] n h k = canon-dir_single n k
canon-dir_name (d ∷ ds) n h k = rw (dir-join d n ds h.0 h.1 k) (canon-file_name (d ∷ ds) h)

not_opaque : (n : Bytes) → has_prefix n wh_prefix ≡ false → (n == wh_opaque) ≡ false
unfolding has_prefix
not_opaque n w = elim (Bool-cases (n == wh_opaque)) [
  | inl e ↦ cc (rw ((bytes_eq.equal_iff n wh_opaque).0 e) at w)
  | inr e ↦ e
]

-- An entry whose base has no whiteout prefix puts a file at its path.
pub action-file :
    (e : TarEntry) (ds : List Bytes) (n : Bytes)
    → All IsName ds
    → IsName n
    → has_prefix n wh_prefix ≡ false
    → e.filename ≡ file_name (ds ++ n ∷ [])
    → action e ≡ file (render (ds ++ n ∷ []))
unfolding action
action-file e ds n h k w f = rw (
  f,
  base-join ds n k,
  w,
  not_opaque n w,
  canon-file_name (ds ++ n ∷ []) (All-append IsName ds (n ∷ []) h (k, tt)),
)

wh_opaque-IsName : IsName wh_opaque
unfolding bytes_beq
wh_opaque-IsName = ground arith

-- An opaque marker hides what is below its directory.
pub action-opaque :
    (e : TarEntry) (ds : List Bytes)
    → All IsName ds
    → e.filename ≡ file_name (ds ++ wh_opaque ∷ [])
    → action e ≡ opaque (render ds)
unfolding action
action-opaque e ds h f = rw (
  f,
  base-join ds wh_opaque wh_opaque-IsName,
  (bytes_eq.equal_iff wh_opaque wh_opaque).1 refl,
  canon-dir_name ds wh_opaque h wh_opaque-IsName,
)

clean-double : (n : Bytes) → IsName n → clean (slash ∷ slash ∷ n) ≡ render (n ∷ [])
unfolding elements split clean_loop has_prefix render
clean-double n k =
    clean_of_rooted (slash ∷ slash ∷ n) refl
    ∙ ap (λ r. render (elements (slash ∷ r))) (sym (append-nil n))
    ∙ ap render (elements-render (n ∷ []) (k, tt))

canon-path_join :
    (ds : List Bytes) (n : Bytes)
    → All IsName ds
    → IsName n
    → canon (path_join (render ds ∷ n ∷ [])) ≡ render (ds ++ n ∷ [])
unfolding path_join render join
canon-path_join [] n h k = ap canon (clean-double n k) ∙ canon-render (n ∷ []) (k, tt)
canon-path_join (d ∷ ds) n h k =
    let all = All-append IsName (d ∷ ds) (n ∷ []) h (k, tt) in
    ap (λ r. canon (clean r)) (sym (render-append_last (d ∷ ds) n))
    ∙ ap canon (clean-render (d ∷ (ds ++ n ∷ [])) all)
    ∙ canon-render (d ∷ (ds ++ n ∷ [])) all

-- A whiteout hides the path of the same name without the prefix, and what is below it.
pub action-whiteout :
    (e : TarEntry) (ds : List Bytes) (n : Bytes)
    → All IsName ds
    → IsName n
    → IsName (wh_prefix ++ n)
    → (wh_prefix ++ n == wh_opaque) ≡ false
    → e.filename ≡ file_name (ds ++ (wh_prefix ++ n) ∷ [])
    → action e ≡ whiteout (render (ds ++ n ∷ []))
unfolding action trim_prefix
action-whiteout e ds n h k l o f =
    rw (f, base-join ds (wh_prefix ++ n) l, o, canon-dir_name ds (wh_prefix ++ n) h l)
      (ap whiteout (canon-path_join ds n h k))

strict_prefix-append_last : (ds : List Bytes) (n : Bytes) → strict_prefix ds (ds ++ n ∷ []) ≡ true
unfolding strict_prefix
strict_prefix-append_last [] n = refl
strict_prefix-append_last (d ∷ ds) n =
    rw ((bytes_eq.equal_iff d d).1 refl) (strict_prefix-append_last ds n)

-- The names in one directory share the text before them.
file_name-append_last :
    (ds : List Bytes) → (d : Bytes) × ((n : Bytes) → file_name (ds ++ n ∷ []) ≡ d ++ n)
unfolding join
file_name-append_last [] = ([], λ n. refl)
file_name-append_last (d ∷ []) = (d ++ slash ∷ [], λ n. sym (append_assoc d (slash ∷ []) n))
file_name-append_last (d ∷ t ∷ ds) =
    let (x, e) = file_name-append_last (t ∷ ds) in
    (d ++ slash ∷ x, λ n. ap (λ r. d ++ slash ∷ r) (e n) ∙ sym (append_assoc d (slash ∷ x) n))

by_filename-names :
    (a b : TarEntry) (ds : List Bytes) (n k : Bytes)
    → a.filename ≡ file_name (ds ++ n ∷ [])
    → b.filename ≡ file_name (ds ++ k ∷ [])
    → by_filename a b ≡ bytes_ltb n k
unfolding by_filename
by_filename-names a b ds n k f g =
    let (d, e) = file_name-append_last ds in rw (f, g, e n, e k) (bytes_ltb_append d n k)

hides-opaque :
    (e : TarEntry) (ds qs : List Bytes)
    → All IsName ds
    → All IsName qs
    → action e ≡ opaque (render ds)
    → hides (render qs) e ≡ strict_prefix ds qs
unfolding hides
hides-opaque e ds qs h k a = rw a (removes_below ds qs h k)

spelled_before :
    (ds : List Bytes) (n : Bytes) (m : TarEntry) (layer : List TarEntry)
    → bytes_ltb n wh_opaque ≡ true
    → m.filename ≡ file_name (ds ++ wh_opaque ∷ [])
    → All (λ e. adds (render (ds ++ n ∷ [])) e ≡ true → e.filename ≡ file_name (ds ++ n ∷ [])) layer
    → All (λ e. adds (render (ds ++ n ∷ [])) e ≡ true → by_filename e m ≡ true) layer
spelled_before ds n m [] lt f h = tt
spelled_before ds n m (e ∷ layer) lt f h =
    (λ a. by_filename-names e m ds n wh_opaque (h.0 a) f ∙ lt, spelled_before ds n m layer lt f h.1)

-- A layer that holds an opaque marker for a directory, and a file in that directory whose name
-- sorts before ".wh..wh..opq" (".bashrc" and "+x" do), loses the file: after the layer is applied
-- its path is missing, whatever the lower layers have. The layer's entries at the path are
-- supposed to be spelled without "./" and the like.
pub lookup-apply_layer_opaque_lost :
    (idx : ℕ) (ds : List Bytes) (n : Bytes) (layer : List TarEntry) (m : Dict Bytes Entry)
    → All IsName ds
    → IsName n
    → bytes_ltb n wh_opaque ≡ true
    → Any (λ e. e.filename ≡ file_name (ds ++ wh_opaque ∷ [])) layer
    → All (λ e. adds (render (ds ++ n ∷ [])) e ≡ true → e.filename ≡ file_name (ds ++ n ∷ [])) layer
    → lookup (render (ds ++ n ∷ [])) (apply_layer m layer idx) ≡ none
lookup-apply_layer_opaque_lost idx ds n layer m h k lt marker spelled =
    lookup-apply_layer_lost idx (render (ds ++ n ∷ [])) layer m (
      Any-map
        (λ (e : TarEntry) f. (
          hides-opaque e ds (ds ++ n ∷ []) h (All-append IsName ds (n ∷ []) h (k, tt))
                (action-opaque e ds h f)
              ∙ strict_prefix-append_last ds n,
          spelled_before ds n e layer lt f spelled,
        ))
        layer marker)

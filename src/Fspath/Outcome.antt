-- ===== src/Fspath/Outcome.antt =====
-- internal/fspath/parse.go: what Parse makes of a path whose segments are known.
use mathlib.Core.Path.{subst}
use ocifuse.Prelude.{
  ℕ, suc, true, false, Option, none, some, List, [], ◌∷◌, ◌++◌, Bytes, nat_eq, take, drop, length,
  get_elem?, if◌then◌else◌, Result, Result-cases, Bool-cases, inl, inr, ok, err, ◌≡◌, refl, sym, ap,
  ◌∙◌, All, All-map, All-append, arith, take-length, drop-length, take-suc-length, get_elem?-length,
}
use ocifuse.Strings.{trim, split, join, contains_any, replace_all}
use ocifuse.Strings.Laws.{
  Lacks, split_of_Lacks, split-join, index_byte_of_Lacks, index_byte-append_of_Lacks,
}
use ocifuse.SlashPath.{slash, is_empty}
use ocifuse.SlashPath.Names.{IsName, render, slash-join}
use ocifuse.SlashPath.Relative.{path_join-names}
use ocifuse.Fspath.{
  Parsed, empty_spec, not_a_platform, ParseError, all_digits, is_registry_segment,
  parse_platform_failed, parse_ref_failed, find_ref, set_at, in_image_of, parse_platform_spec,
  parse_reference_in, parse_ref, parse_at, parse,
}
use ocifuse.Fspath.Boundary.{
  bears_ref, NoneBears, find_ref-start, find_ref-eq-none, is_registry_segment-port,
}

-- A segment with or without a platform suffix.
abbrev pub written : Bytes → Option Bytes → Bytes
written s none = s
written s (some spec) = s ++ b'~' ∷ spec

in_image_of-names : (es : List Bytes) → All IsName es → in_image_of es ≡ render es
unfolding render join
in_image_of-names [] h = refl
in_image_of-names (e ∷ es) h = ap (◌∷◌ slash) (path_join-names e es h.0 h.1) ∙ slash-join (e ∷ es)

is_empty-middle : (s : Bytes) (c : ℕ) (r : Bytes) → is_empty (s ++ c ∷ r) ≡ false
is_empty-middle [] c r = refl
is_empty-middle (x ∷ s) c r = refl

set_at-length :
    (ds es : List Bytes) (s t : Bytes) → set_at (ds ++ s ∷ es) (length ds) t ≡ ds ++ t ∷ es
set_at-length [] es s t = refl
set_at-length (d ∷ ds) es s t = ap (◌∷◌ d) (set_at-length ds es s t)

is_empty-join_middle :
    (ds es : List Bytes) (s : Bytes)
    → is_empty s ≡ false
    → is_empty (join slash (ds ++ s ∷ es)) ≡ false
unfolding join
is_empty-join_middle [] [] s h = h
is_empty-join_middle [] (e ∷ es) [] h = cc
is_empty-join_middle [] (e ∷ es) (x ∷ s) h = refl
is_empty-join_middle ([] ∷ []) es s h = refl
is_empty-join_middle ((x ∷ d) ∷ []) es s h = refl
is_empty-join_middle ([] ∷ d ∷ ds) es s h = refl
is_empty-join_middle ((x ∷ d) ∷ d' ∷ ds) es s h = refl

bears_ref-nonempty : (i : ℕ) (s : Bytes) → bears_ref i s ≡ true → is_empty s ≡ false
unfolding contains_any
bears_ref-nonempty i [] h = absurd (ground (arith, h))
bears_ref-nonempty i (x ∷ s) h = refl

split-join_middle :
    (ds es : List Bytes) (s : Bytes)
    → All (Lacks slash) (ds ++ s ∷ es)
    → split slash (join slash (ds ++ s ∷ es)) ≡ ds ++ s ∷ es
split-join_middle [] es s h = split-join slash s es h.0 h.1
split-join_middle (d ∷ ds) es s h = split-join slash d (ds ++ s ∷ es) h.0 h.1

module _ {R P E : Type 0} (parse_reference : Bytes → Result E R)
    (parse_platform : Bytes → Result E P) where
  -- The platform, or why there is none.
  abbrev pub platform_of : Option Bytes → Result (ParseError E) (Option P)
  platform_of none = ok none
  platform_of (some spec) =
      if is_empty spec
      then err (parse_platform_failed spec empty_spec)
      else elim (parse_platform (replace_all b'-' b'/' spec)) [
        | err e ↦ err (parse_platform_failed spec (not_a_platform e))
        | ok p ↦ ok (some p)
      ]

  -- The reference is made of the segments up to the one that holds it, without the suffix; the
  -- rest is the path in the image.
  abbrev pub reference_of :
      List Bytes
      → Bytes
      → List Bytes
      → Result (ParseError E) (Option P)
      → Result (ParseError E) (Parsed R P)
  reference_of ds s es (err e) = err e
  reference_of ds s es (ok platform) =
      let ref_str = join slash (ds ++ s ∷ []) in
      elim (parse_reference ref_str) [
        | err e ↦ err (parse_ref_failed ref_str e)
        | ok ref ↦ ok (record {
          intermediate = [];
          ref = some ref;
          in_image = render es;
          platform = platform;
        })
      ]

  parse_ref_lem :
      (ds es : List Bytes) (s : Bytes) (platform : Option P)
      → All IsName es
      → parse_ref parse_reference parse_platform (ds ++ s ∷ es) (length ds) platform
        ≡ elim (parse_reference (join slash (ds ++ s ∷ []))) [
          | err e ↦ err (parse_ref_failed (join slash (ds ++ s ∷ [])) e)
          | ok ref ↦ ok (record {
            intermediate = [];
            ref = some ref;
            in_image = render es;
            platform = platform;
          })
        ]
  unfolding parse_ref
  parse_ref_lem ds es s platform h =
      let rest : drop (suc (length ds)) (ds ++ s ∷ es) ≡ es = drop-length ds s es in
      ap
        (λ segs.
          parse_reference_in parse_reference parse_platform (join slash segs)
            (in_image_of (drop (suc (length ds)) (ds ++ s ∷ es))) platform)
        (take-suc-length ds s es)
      ∙ ap
          (λ p.
            parse_reference_in parse_reference parse_platform (join slash (ds ++ s ∷ [])) p
              platform)
          (ap in_image_of rest ∙ in_image_of-names es h)

  parse_at_lem :
      (ds es : List Bytes) (s : Bytes) (suffix : Option Bytes)
      → All IsName es
      → Lacks b'~' s
      → parse_at parse_reference parse_platform
          (ds ++ written s suffix ∷ es)
          (length ds)
          (written s suffix)
        ≡ reference_of ds s es (platform_of suffix)
  unfolding parse_at parse_platform_spec
  parse_at_lem ds es s none h l =
      rw (index_byte_of_Lacks b'~' s l, parse_at) (parse_ref_lem ds es s none h)
  parse_at_lem ds es s (some spec) h l =
      let whole = s ++ b'~' ∷ spec in
      let cut : set_at (ds ++ whole ∷ es) (length ds) (take (length s) whole) ≡ ds ++ s ∷ es =
        set_at-length ds es whole (take (length s) whole)
        ∙ ap (λ t. ds ++ t ∷ es) (take-length s (b'~' ∷ spec)) in
      let suffix : drop (suc (length s)) whole ≡ spec = drop-length s b'~' spec in
      let tilde = index_byte-append_of_Lacks b'~' s spec l in
      elim (Bool-cases (is_empty spec)) [
        | inl t ↦ rw (tilde, suffix, t, suffix, parse_at) refl
        | inr f ↦ elim (Result-cases (parse_platform (replace_all b'-' b'/' spec))) [
          | inl (e, p) ↦ rw (tilde, suffix, f, p, suffix, parse_at) refl
          | inr (q, p) ↦ rw (tilde, suffix, f, p, cut, parse_at) (parse_ref_lem ds es s (some q) h)
        ]
      ]

  -- A path whose first segment with a reference is followed by clean names, and may have a "~"
  -- and a platform spec at its end, is parsed to the reference made of the segments up to
  -- there, the platform, and the rooted path of the names; an empty or bad spec, or else a bad
  -- reference, is the error.
  pub parse_lem :
      (path : Bytes) (ds es : List Bytes) (s : Bytes) (suffix : Option Bytes)
      → trim slash path ≡ join slash (ds ++ written s suffix ∷ es)
      → All (Lacks slash) ds
      → Lacks slash (written s suffix)
      → All IsName es
      → NoneBears 0 ds
      → bears_ref (length ds) (written s suffix) ≡ true
      → Lacks b'~' s
      → parse parse_reference parse_platform path ≡ reference_of ds s es (platform_of suffix)
  unfolding parse
  parse_lem path ds es s suffix e lds ls names before here l =
      let w = written s suffix in
      let lacks = All-append (Lacks slash) ds (w ∷ es) lds (ls, All-map (λ x n. n.0) es names) in
      let found : split slash (trim slash path) ≡ ds ++ w ∷ es =
        ap (split slash) e ∙ split-join_middle ds es w lacks in
      let held : is_empty (trim slash path) ≡ false =
        ap is_empty e ∙ is_empty-join_middle ds es w (bears_ref-nonempty (length ds) w here) in
      let at : find_ref 0 (split slash (trim slash path)) ≡ some (length ds) =
        ap (find_ref 0) found ∙ find_ref-start ds es w before here in
      let last : get_elem? (split slash (trim slash path)) (length ds) ≡ some w =
        ap (λ segs. get_elem? segs (length ds)) found ∙ get_elem?-length ds w es in
      rw (held, at, last, found, parse) (parse_at_lem ds es s suffix names l)

  -- A path that is not empty, and no segment of which holds a reference, is parsed to its
  -- segments.
  pub parse_intermediate :
      (path : Bytes)
      → is_empty (trim slash path) ≡ false
      → NoneBears 0 (split slash (trim slash path))
      → parse parse_reference parse_platform path
        ≡ ok (record {
          intermediate = split slash (trim slash path);
          ref = none;
          in_image = [];
          platform = none;
        })
  unfolding parse
  parse_intermediate path held h =
      rw (held, find_ref-eq-none 0 (split slash (trim slash path)) h, parse) refl

  -- A path of one segment whose last colon is followed by digits is parsed to a registry and
  -- no reference, so that a tag of digits is not seen in the first segment.
  pub parse_numeric_tag :
      (path name tag : Bytes)
      → trim slash path ≡ name ++ b':' ∷ tag
      → Lacks slash (name ++ b':' ∷ tag)
      → Lacks b':' tag
      → is_empty tag ≡ false
      → all_digits tag ≡ true
      → parse parse_reference parse_platform path
        ≡ ok (record {
          intermediate = (name ++ b':' ∷ tag) ∷ [];
          ref = none;
          in_image = [];
          platform = none;
        })
  parse_numeric_tag path name tag e ls lc held digits =
      let segs : split slash (trim slash path) ≡ (name ++ b':' ∷ tag) ∷ [] =
        ap (split slash) e ∙ split_of_Lacks slash (name ++ b':' ∷ tag) ls in
      let port : is_registry_segment (name ++ b':' ∷ tag) ≡ true =
        is_registry_segment-port name tag lc ∙ rw (held, digits) refl in
      let alone : NoneBears 0 ((name ++ b':' ∷ tag) ∷ []) = (rw port refl, tt) in
      let full : is_empty (trim slash path) ≡ false =
        ap is_empty e ∙ is_empty-middle name b':' tag in
      parse_intermediate path full (subst (NoneBears 0) (sym segs) alone)
      ∙ ap (λ s. ok (record { intermediate = s; ref = none; in_image = []; platform = none })) segs

-- ===== src/Mount/Segments/Links.antt =====
-- internal/mount/mount.go: the symlink of a tag, looked up in the directory that it stands in.
use ocifuse.Prelude.{
  ℕ, ◌==◌, All-map, ◌≡◌, refl, sym, ap, ◌∙◌, true, false, none, some, List, [], ◌∷◌, ◌++◌, Bytes,
  codes, nat_eq, bytes_eq, length, All, All-append, Result, ok, err, arith,
}
use ocifuse.Strings.{join, contains_any}
use ocifuse.Strings.Laws.{Lacks}
use ocifuse.SlashPath.{slash, is_empty, root}
use ocifuse.SlashPath.Names.{IsName, render}
use ocifuse.SlashPath.Relative.{trim-join, is_empty-join, join-append}
use ocifuse.Fspath.{ParseError, parse_ref_failed, parse}
use ocifuse.Fspath.Boundary.{NoneBears, bears_ref}
use ocifuse.Fspath.Outcome.{reference_of, parse_lem}
use ocifuse.Oci.{Hash, hash_string}
use ocifuse.Mount.{Reference, Services}
use ocifuse.Mount.Segments.{
  Segment, by_reference, classified, full_path, repo_base, tag_symlink_target, classify_segment,
}

-- The text can stand in a segment before a platform suffix.
abbrev pub IsPlain : Bytes → Type 0
IsPlain s = Lacks slash s × Lacks b'~' s

contains_any-at : (b r : Bytes) → contains_any (b ++ b'@' ∷ r) (codes ":@") ≡ true
unfolding contains_any
contains_any-at [] r = refl
contains_any-at (x ∷ b) r = ground (arith, contains_any-at b r)

is_empty-at : (b r : Bytes) → is_empty (b ++ b'@' ∷ r) ≡ false
is_empty-at [] r = refl
is_empty-at (x ∷ b) r = refl

Lacks-target :
    (c : ℕ) (ref : Reference) (digest : Hash)
    → (b'@' == c) ≡ false
    → Lacks c (repo_base ref)
    → Lacks c (hash_string digest)
    → Lacks c (tag_symlink_target ref digest)
unfolding tag_symlink_target
Lacks-target c ref digest a b h = All-append _ (repo_base ref) (b'@' ∷ hash_string digest) b (a, h)

target_held : (ref : Reference) (digest : Hash) → is_empty (tag_symlink_target ref digest) ≡ false
unfolding tag_symlink_target
target_held ref digest = is_empty-at (repo_base ref) (hash_string digest)

target_bears :
    (ref : Reference) (digest : Hash)
    → contains_any (tag_symlink_target ref digest) (codes ":@") ≡ true
unfolding tag_symlink_target
target_bears ref digest = contains_any-at (repo_base ref) (hash_string digest)

full_path-join :
    (d : Bytes) (ds : List Bytes) (s : Bytes)
    → IsName d
    → full_path (join slash (d ∷ ds)) s ≡ join slash (d ∷ (ds ++ s ∷ []))
unfolding full_path
full_path-join d ds s h = rw (is_empty-join d ds h, full_path) (sym (join-append d ds s))

module _ {S L T Fs F E : Type 0} (calls : Services S L T Fs F E) where
  -- The segment that a reference without a platform suffix is.
  abbrev pub plain_segment : Bytes → Result (ParseError E) Segment
  plain_segment full = elim (calls.parse_reference full) [
    | err e ↦ err (parse_ref_failed full e)
    | ok ref ↦ ok (by_reference ref none)
  ]

  pub plain_segment-ok :
      (full : Bytes) (ref : Reference)
      → calls.parse_reference full ≡ ok ref
      → plain_segment full ≡ ok (by_reference ref none)
  plain_segment-ok full ref h = rw (h, plain_segment) refl

  classified-reference :
      (ds : List Bytes) (s : Bytes)
      → let full = join slash (ds ++ s ∷ []) in
        classified full (reference_of calls.parse_reference calls.parse_platform ds s [] (ok none))
        ≡ (full, plain_segment full)
  unfolding render
  classified-reference ds s =
      by_result (join slash (ds ++ s ∷ [])) (calls.parse_reference (join slash (ds ++ s ∷ [])))
    where
      by_result :
          (full : Bytes) (r : Result E Reference)
          → classified full (elim r [
            | err e ↦ err (parse_ref_failed full e)
            | ok ref ↦
                ok (record { intermediate = []; ref = some ref; in_image = root; platform = none })
          ])
            ≡ (
              full,
              elim r [
                | err e ↦ err (parse_ref_failed full e)
                | ok ref ↦ ok (by_reference ref none)
              ],
            )
      by_result full (err e) = refl
      by_result full (ok ref) = refl

  -- Below a registry, the target of the symlink is classified by the reference that its name
  -- makes with the directory.
  pub classify_segment-target :
      (d : Bytes) (ds : List Bytes) (ref : Reference) (digest : Hash)
      → All IsName (d ∷ ds)
      → NoneBears 0 (d ∷ ds)
      → IsPlain (repo_base ref)
      → IsPlain (hash_string digest)
      → let full = join slash (d ∷ (ds ++ tag_symlink_target ref digest ∷ [])) in
        classify_segment calls (join slash (d ∷ ds)) (tag_symlink_target ref digest)
        ≡ (full, plain_segment full)
  unfolding classify_segment
  classify_segment-target d ds ref digest names before b h =
      let target = tag_symlink_target ref digest in
      let full = join slash (d ∷ (ds ++ target ∷ [])) in
      let no_slash = Lacks-target slash ref digest refl b.0 h.0 in
      let no_tilde = Lacks-target b'~' ref digest refl b.1 h.1 in
      let held : is_empty target ≡ false = target_held ref digest in
      let bears : bears_ref (length (d ∷ ds)) target ≡ true =
        ground (arith, target_bears ref digest) in
      let parsed =
        parse_lem calls.parse_reference calls.parse_platform full (d ∷ ds) [] target none
          (trim-join d target ds names.0 no_slash held) (All-map (λ x n. n.0) (d ∷ ds) names)
          no_slash tt before bears no_tilde in
      ap (λ f. classified f (parse calls.parse_reference calls.parse_platform f))
        (full_path-join d ds target names.0)
      ∙ ap (classified full) parsed
      ∙ classified-reference (d ∷ ds) target

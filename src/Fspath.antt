-- ===== src/Fspath.antt =====
-- internal/fspath/parse.go: paths below the mount point, split at the reference they hold.
-- name.ParseReference and v1.ParsePlatform are parameters.
pub mod Boundary
pub mod Outcome
use ocifuse.Prelude.{
  ℕ, zero, suc, Bool, true, false, ◌&&◌, not, Option, none, some, List, [], ◌∷◌, ◌++◌, Bytes, codes,
  ◌==◌, nat_eq, leb, nat_beq, take, drop, get_elem?, if◌then◌else◌, Result, ok, err,
}
use ocifuse.Strings.{trim, split, join, index_byte, last_index, contains, contains_any, replace_all}
use ocifuse.SlashPath.{slash, root, is_empty, path_join}

pub record Parsed (R P : Type 0) : Type 0 where
  pub intermediate : List Bytes
  pub ref : Option R
  pub in_image : Bytes
  pub platform : Option P

-- "empty platform spec", or an error of v1.ParsePlatform.
pub data PlatformError (E : Type 0) : Type 0 where
  empty_spec : PlatformError E
  not_a_platform : E → PlatformError E

-- The errors with the text they quote, and an index that is out of range.
pub data ParseError (E : Type 0) : Type 0 where
  parse_platform_failed : Bytes → PlatformError E → ParseError E
  parse_ref_failed : Bytes → E → ParseError E
  out_of_range : ParseError E

unfoldable pub all_digits : Bytes → Bool
all_digits [] = true
all_digits (c ∷ s) = leb b'0' c && leb c b'9' && all_digits s

unfoldable pub is_registry_segment : Bytes → Bool
is_registry_segment s = elim (last_index s b':') [
  | some i ↦ let port = drop (suc i) s in not (is_empty port) && all_digits port
  | none ↦ contains s (codes ".")
]

-- The index of the first segment with a ':' or an '@', from index `i` on.
unfoldable pub find_ref : ℕ → List Bytes → Option ℕ
find_ref i [] = none
find_ref i (s ∷ segs) =
    let rest = find_ref (suc i) segs in
    if nat_beq i 0 && is_registry_segment s
    then rest
    else if contains_any s (codes ":@")
    then some i
    else rest

-- segs[i] = v
abbrev pub set_at : List Bytes → ℕ → Bytes → List Bytes
set_at [] i v = []
set_at (s ∷ segs) zero v = v ∷ segs
set_at (s ∷ segs) (suc i) v = s ∷ set_at segs i v

abbrev pub in_image_of : List Bytes → Bytes
in_image_of [] = root
in_image_of (t ∷ ts) = slash ∷ path_join (t ∷ ts)

module _ {R P E : Type 0} (parse_reference : Bytes → Result E R)
    (parse_platform : Bytes → Result E P) where
  unfoldable pub parse_platform_spec : Bytes → Result (PlatformError E) P
  parse_platform_spec s =
      if is_empty s then err empty_spec else elim (parse_platform (replace_all b'-' b'/' s)) [
        | err e ↦ err (not_a_platform e)
        | ok p ↦ ok p
      ]

  abbrev pub parse_reference_in : Bytes → Bytes → Option P → Result (ParseError E) (Parsed R P)
  parse_reference_in ref_str in_image platform = elim (parse_reference ref_str) [
    | err e ↦ err (parse_ref_failed ref_str e)
    | ok ref ↦
        ok (record { intermediate = []; ref = some ref; in_image = in_image; platform = platform })
  ]

  -- What follows the platform suffix: the reference, and the path in the image.
  unfoldable pub parse_ref : List Bytes → ℕ → Option P → Result (ParseError E) (Parsed R P)
  parse_ref segs ref_idx platform =
      parse_reference_in (join slash (take (suc ref_idx) segs))
        (in_image_of (drop (suc ref_idx) segs)) platform

  -- The segment with the reference may end in a platform suffix.
  unfoldable pub parse_at : List Bytes → ℕ → Bytes → Result (ParseError E) (Parsed R P)
  parse_at segs ref_idx last = elim (index_byte last b'~') [
    | none ↦ parse_ref segs ref_idx none
    | some i ↦
        let spec = drop (suc i) last in
        elim (parse_platform_spec spec) [
          | err e ↦ err (parse_platform_failed spec e)
          | ok p ↦ parse_ref (set_at segs ref_idx (take i last)) ref_idx (some p)
        ]
  ]

  unfoldable pub parse : Bytes → Result (ParseError E) (Parsed R P)
  parse path =
      let p = trim slash path in
      if is_empty p
      then ok (record { intermediate = []; ref = none; in_image = []; platform = none })
      else let segs = split slash p in
        elim (find_ref 0 segs) [
          | none ↦ ok (record { intermediate = segs; ref = none; in_image = []; platform = none })
          | some ref_idx ↦ elim (get_elem? segs ref_idx) [
            | none ↦ err out_of_range
            | some last ↦ parse_at segs ref_idx last
          ]
        ]

-- ===== src/CommandLine.antt =====
-- cmd/ocifuse/main.go: sizes on the command line, and the place of the cache. The numbers of
-- strconv.ParseFloat are a parameter, with their product by a unit as an int64. Texts are ASCII.
pub mod Sizes
pub mod Start
use ocifuse.Prelude.{
  ℕ, zero, suc, ◌+◌, ◌-◌, ◌^◌, ℤ, pos, Bool, true, false, ◌&&◌, ◌||◌, not, Option, none, some, List,
  [], ◌∷◌, ◌++◌, reverse, Bytes, codes, nat_eq, bytes_eq, ◌==◌, leb, nat_beq, take, drop, any,
  if◌then◌else◌, Result, ok, err,
}
use ocifuse.SlashPath.{is_empty, path_join}

abbrev pub is_space : ℕ → Bool
is_space c = (leb 9 c && leb c 13) || nat_beq c 32

unfoldable pub trim_left_space : Bytes → Bytes
trim_left_space [] = []
trim_left_space (c ∷ s) = let rest = trim_left_space s in if is_space c then rest else c ∷ s

-- strings.TrimSpace
unfoldable pub trim_space : Bytes → Bytes
trim_space s = reverse (trim_left_space (reverse (trim_left_space s)))

-- strings.ToUpper
abbrev pub to_upper : Bytes → Bytes
to_upper [] = []
to_upper (c ∷ s) = (if leb b'a' c && leb c b'z' then c - 32 else c) ∷ to_upper s

abbrev pub is_digit : ℕ → Bool
is_digit c = nat_beq c b'.' || (leb b'0' c && leb c b'9')

-- The index at which the digits end.
unfoldable pub digits_end : Bytes → ℕ
digits_end [] = 0
digits_end (c ∷ s) = let rest = digits_end s in if is_digit c then suc rest else 0

abbrev pub one_of : Bytes → List Bytes → Bool
one_of s choices = any (λ c. s == c) choices

unfoldable pub unit_of : Bytes → Option ℕ
unit_of suffix =
    if one_of suffix (codes "" ∷ codes "B" ∷ [])
    then some 1
    else if one_of suffix (codes "K" ∷ codes "KB" ∷ codes "KIB" ∷ [])
    then some (2 ^ 10)
    else if one_of suffix (codes "M" ∷ codes "MB" ∷ codes "MIB" ∷ [])
    then some (2 ^ 20)
    else if one_of suffix (codes "G" ∷ codes "GB" ∷ codes "GIB" ∷ [])
    then some (2 ^ 30)
    else if one_of suffix (codes "T" ∷ codes "TB" ∷ codes "TIB" ∷ [])
    then some (2 ^ 40)
    else none

pub data SizeError (E : Type 0) : Type 0 where
  no_digits : Bytes → SizeError E
  not_a_number : E → SizeError E
  unknown_suffix : Bytes → SizeError E

module _ {F E : Type 0} (parse_float : Bytes → Result E F) (times : F → ℕ → ℤ) where
  abbrev pub scaled : F → Bytes → Result (SizeError E) ℤ
  scaled num suffix = elim (unit_of suffix) [
    | none ↦ err (unknown_suffix suffix)
    | some mult ↦ ok (times num mult)
  ]

  abbrev pub measured : Bytes → Bytes → Result (SizeError E) ℤ
  measured digits rest = elim (parse_float digits) [
    | err e ↦ err (not_a_number e)
    | ok num ↦ scaled num (to_upper (trim_space rest))
  ]

  abbrev pub parse_split : Bytes → ℕ → Result (SizeError E) ℤ
  parse_split s zero = err (no_digits s)
  parse_split s (suc i) = measured (take (suc i) s) (drop (suc i) s)

  unfoldable pub parse_bytes : Bytes → Result (SizeError E) ℤ
  parse_bytes text =
      let s = trim_space text in
      if is_empty s || s == codes "0" then ok (pos 0) else parse_split s (digits_end s)

-- `home` is what os.UserHomeDir returns, and `xdg` the environment's XDG_CACHE_HOME.
unfoldable pub resolve_cache_dir : {E : Type 0} → Bytes → Bytes → Result E Bytes → Result E Bytes
resolve_cache_dir override xdg home =
    if not (is_empty override)
    then ok override
    else if not (is_empty xdg)
    then ok (path_join (xdg ∷ codes "ocifuse" ∷ []))
    else elim home [
      | err e ↦ err e
      | ok dir ↦ ok (path_join (dir ∷ codes ".cache" ∷ codes "ocifuse" ∷ []))
    ]

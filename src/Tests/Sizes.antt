-- ===== src/Tests/Sizes.antt =====
-- Runs of cmd/ocifuse/main.go, and its theorem at a concrete size.
use ocifuse.Prelude.{
  ℕ, ◌*◌, ◌+◌, ◌-◌, ℤ, pos, ◌≡◌, refl, [], ◌∷◌, Bytes, codes, bytes_eq, bytes_beq, Result, ok, err,
}
use ocifuse.SlashPath.{go_up, clean_step, clean_loop, clean, path_join}
use ocifuse.Strings.{has_prefix, split, extend, join, index_byte}
use ocifuse.CommandLine.{
  trim_left_space, trim_space, digits_end, unit_of, unknown_suffix, parse_bytes, resolve_cache_dir,
}
use ocifuse.CommandLine.Sizes.{parse_bytes_lem}

unfoldable pub program : Unit {0}
unfolding bytes_beq trim_left_space trim_space digits_end unit_of parse_bytes resolve_cache_dir
    go_up clean_step clean_loop clean path_join has_prefix split extend join index_byte
program = tt

-- Whole numbers.
abbrev pub digits : ℕ → Bytes → Result ℕ ℕ
digits n [] = ok n
digits n (c ∷ s) = digits (10 * n + (c - b'0')) s

abbrev pub times : ℕ → ℕ → ℤ
times n unit = pos (n * unit)

size_run : parse_bytes (digits 0) times (codes " 12 MiB ") ≡ ok (pos 12582912)
unfolding program
size_run = refl

unknown_run : parse_bytes (digits 0) times (codes "3 EB") ≡ err (unknown_suffix (codes "EB"))
unfolding program
unknown_run = refl

home_run : resolve_cache_dir {E = ℕ} [] [] (ok (codes "/root")) ≡ ok (codes "/root/.cache/ocifuse")
unfolding program
home_run = refl

parse_bytes_lem_example : parse_bytes (digits 0) times (codes " 12 MiB ") ≡ ok (pos 12582912)
unfolding program
parse_bytes_lem_example =
    parse_bytes_lem (digits 0) times (codes " 12 MiB ") (codes "2") (codes " MiB") b'1' refl refl
      (refl, (refl, tt)) refl

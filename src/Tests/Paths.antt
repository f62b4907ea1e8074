-- ===== src/Tests/Paths.antt =====
-- Runs of internal/fspath, and its theorems at concrete paths.
use ocifuse.Prelude.{
  ℕ, ◌≡◌, refl, false, none, some, [], ◌∷◌, Bytes, codes, bytes_eq, bytes_beq, nat_eq, Result, ok,
  err, ◌==◌, if◌then◌else◌,
}
use ocifuse.Strings.{
  has_prefix, trim_left, trim, extend, split, join, index_byte, last_index, index, contains,
  contains_any, replace_all,
}
use ocifuse.Strings.Laws.{Lacks-index_byte}
use ocifuse.SlashPath.{slash, go_up, clean_step, clean_loop, clean, path_join}
use ocifuse.SlashPath.Names.{slashed, render}
use ocifuse.Fspath.{
  all_digits, is_registry_segment, find_ref, parse_platform_spec, parse_ref, parse_at, parse,
}
use ocifuse.Fspath.Boundary.{is_registry_segment-port}
use ocifuse.Fspath.Outcome.{platform_of, reference_of, parse_lem, parse_numeric_tag}

program : Unit {0}
unfolding bytes_beq has_prefix trim_left trim extend split join index_byte last_index index contains
    contains_any replace_all go_up clean_step clean_loop clean path_join slashed render all_digits
    is_registry_segment find_ref parse_platform_spec parse_ref parse_at parse
program = tt

-- Parsers that take every reference for itself, and know two platforms.
abbrev reference : Bytes → Result ℕ Bytes
reference s = ok s

abbrev platform : Bytes → Result ℕ Bytes
platform s =
    if s == codes "linux/arm64" then ok s else if s == codes "linux/arm64/v8" then ok s else err 7

abbrev in_image : Bytes
in_image = codes "/localhost:5000/team/app:1.2~linux-arm64/etc/os-release/"

parsed_example :
    parse reference platform in_image
    ≡ ok (record {
      intermediate = [];
      ref = some (codes "localhost:5000/team/app:1.2");
      in_image = codes "/etc/os-release";
      platform = some (codes "linux/arm64");
    })
unfolding program
parsed_example = refl

parse_lem_example :
    parse reference platform in_image
    ≡ reference_of reference platform
        (codes "localhost:5000" ∷ codes "team" ∷ [])
        (codes "app:1.2")
        (codes "etc" ∷ codes "os-release" ∷ [])
        (platform_of reference platform (some (codes "linux-arm64")))
unfolding program
parse_lem_example =
    parse_lem reference platform in_image (codes "localhost:5000" ∷ codes "team" ∷ [])
      (codes "etc" ∷ codes "os-release" ∷ []) (codes "app:1.2") (some (codes "linux-arm64")) refl
      (
        Lacks-index_byte slash (codes "localhost:5000") refl,
        (Lacks-index_byte slash (codes "team") refl, tt),
      )
      (Lacks-index_byte slash (codes "app:1.2~linux-arm64") refl)
      (
        (Lacks-index_byte slash (codes "etc") refl, refl, refl, refl),
        ((Lacks-index_byte slash (codes "os-release") refl, refl, refl, refl), tt),
      )
      (refl, (refl, tt)) refl (Lacks-index_byte b'~' (codes "app:1.2") refl)

is_registry_segment-port_example : is_registry_segment (codes "ubuntu:22.04") ≡ false
unfolding program
is_registry_segment-port_example =
    is_registry_segment-port (codes "ubuntu") (codes "22.04")
      (Lacks-index_byte b':' (codes "22.04") refl)

parse_numeric_tag_example :
    parse reference platform (codes "debian:12/")
    ≡ ok (record {
      intermediate = codes "debian:12" ∷ [];
      ref = none;
      in_image = [];
      platform = none;
    })
unfolding program
parse_numeric_tag_example =
    parse_numeric_tag reference platform (codes "debian:12/") (codes "debian") (codes "12") refl
      (Lacks-index_byte slash (codes "debian:12") refl) (Lacks-index_byte b':' (codes "12") refl)
      refl refl

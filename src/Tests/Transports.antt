-- ===== src/Tests/Transports.antt =====
-- Runs of internal/oci/transport.go, and its theorems at concrete requests.
use ocifuse.Prelude.{
  ℕ, pos, ◌+◌, ◌≡◌, refl, true, false, none, some, [], ◌∷◌, ◌++◌, Bytes, codes, bytes_eq, bytes_beq,
  Result, ok, arith,
}
use ocifuse.Prelude.Dict.{lookup, insert, delete, delete_where, has}
use ocifuse.Prelude.Sort.{sort, insert_sorted}
use ocifuse.Strings.{has_prefix, split, extend, join, index, contains, index_byte}
use ocifuse.Strings.Laws.{Lacks-index_byte}
use ocifuse.SlashPath.{go_up, clean_step, clean_loop, clean, path_join}
use ocifuse.DiskCache.{
  DiskCache, Faults, total_below, rescan, new, open_value, candidates, reached, evict_loop, evict,
  write,
}
use ocifuse.DiskCache.Accounts.{IsAccounted, new-IsAccounted}
use ocifuse.Transport.{
  Request, Response, is_digest_path, cacheable_content_type, parse_entry, print_entry, itoa_loop,
  itoa, to_response, Stores, Run, load_cached, store_cached, round_trip,
}
use ocifuse.Transport.Entries.{parse_entry-print_entry}
use ocifuse.Transport.Decimal.{read_digits, Leads, read_digits-itoa}
use ocifuse.Oci.{blob_path}
use ocifuse.Oci.Cached.{is_digest_path-blob_path}
use ocifuse.Transport.Replay.{round_trip_again}

program : Unit {0}
unfolding bytes_beq lookup insert delete delete_where has sort insert_sorted has_prefix split extend
    join index contains index_byte go_up clean_step clean_loop clean path_join total_below rescan
    new open_value candidates reached evict_loop evict write is_digest_path cacheable_content_type
    parse_entry itoa_loop itoa load_cached store_cached round_trip
program = tt

parse_entry-print_entry_example :
    parse_entry (print_entry (codes "text/plain") (10 ∷ 10 ∷ 120 ∷ []))
    ≡ some (record { content_type = codes "text/plain"; body = 10 ∷ 10 ∷ 120 ∷ [] })
unfolding program
parse_entry-print_entry_example =
    parse_entry-print_entry (codes "text/plain") (10 ∷ 10 ∷ 120 ∷ [])
      (Lacks-index_byte 10 (codes "text/plain") refl)

itoa_run : itoa 4096 ≡ codes "4096"
unfolding program
itoa_run = refl

read_digits-itoa_example : (read_digits 0 (itoa 4096) ≡ some 4096) × Leads 4096 (itoa 4096)
read_digits-itoa_example = read_digits-itoa 4096 (omega arith)

abbrev digest : Bytes
digest = codes "0123456789abcdef0123456789abcdef0123456789abcdef0123456789abcdef"

abbrev request : Request
request = record {
  method = codes "GET";
  range = [];
  path = codes "/v2/library/alpine/manifests/sha256:" ++ digest;
}

digest_path_run : is_digest_path request.path ≡ true
unfolding program
digest_path_run = refl

short_digest_run : is_digest_path (codes "/v2/library/alpine/manifests/sha256:0123") ≡ false
unfolding program
short_digest_run = refl

abbrev manifest : Response ℕ
manifest = record {
  status = 200;
  content_type = codes "application/vnd.oci.image.manifest.v1+json";
  body = ok (codes "{}");
  content_length = none;
}

-- A registry that counts its requests.
abbrev registry : ℕ → Request → Result ℕ (Response ℕ) × ℕ
registry w req = (ok manifest, w + 1)

abbrev no_faults : Faults
no_faults = record {
  mkdir = none;
  walk = none;
  open_file = none;
  chtimes = false;
  stat_before = false;
  create_temp = none;
  close = none;
  rename = none;
  stat_after = none;
  not_listed = λ p. false;
  not_removed = λ p. false;
  temp_not_removed = none;
}

abbrev run_at : ℕ → Run
run_at now = record {
  opening = no_faults;
  opened = now;
  read_failed = false;
  writing = no_faults;
  wrote = now;
  output_error = none;
}

abbrev cache : DiskCache
cache = record { dir = codes "/c"; cap = pos 100; size = pos 0 }

abbrev start : Stores ℕ
start = record { world = 0; cache = cache; disk = [] }

empty-IsAccounted : IsAccounted cache []
unfolding program
empty-IsAccounted = new-IsAccounted no_faults (codes "/c") (pos 100) [] cache tt refl refl

-- The second request does not reach the registry.
round_trip_again_example :
    let out =
      round_trip registry (run_at 2) request (round_trip registry (run_at 1) request start).1 in
    (out.0 ≡ ok (to_response (record { content_type = manifest.content_type; body = codes "{}" })))
    × (out.1.world ≡ 1)
unfolding program
round_trip_again_example =
    round_trip_again registry (run_at 1) (run_at 2) request start manifest 1 (codes "{}") 99 refl
      refl refl refl refl (Lacks-index_byte 10 manifest.content_type refl) refl refl refl refl refl
      (λ q. refl) (λ q. refl) empty-IsAccounted tt (omega arith) refl refl refl

is_digest_path-blob_path_example :
    is_digest_path (
      blob_path
        (record {
          scheme = codes "https";
          registry = codes "ghcr.io";
          repository = codes "team/app";
        })
        (record { algorithm = codes "sha256"; hex = digest }))
    ≡ true
is_digest_path-blob_path_example =
    is_digest_path-blob_path
      (record { scheme = codes "https"; registry = codes "ghcr.io"; repository = codes "team/app" })
      (record { algorithm = codes "sha256"; hex = digest }) refl refl refl refl

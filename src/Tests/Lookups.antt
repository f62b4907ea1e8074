-- ===== src/Tests/Lookups.antt =====
-- Runs of internal/mount above the images, with a registry of one index, and theorems on the
-- calls that it takes.
use ocifuse.Prelude.{
  ℕ, suc, pos, ◌≡◌, inl, inr, refl, false, none, some, List, [], ◌∷◌, Bytes, codes, nat_eq,
  bytes_eq, bytes_beq, any, ◌==◌, ok, err, if◌then◌else◌,
}
use ocifuse.Prelude.Dict.{keys, lookup, insert, has}
use ocifuse.Strings.{
  has_prefix, trim_prefix, contains, join, trim, trim_left, split, index_byte, last_index,
  contains_any, index, extend,
}
use ocifuse.Strings.Laws.{Lacks-index_byte}
use ocifuse.SlashPath.{base, is_empty}
use ocifuse.SlashPath.Names.{IsName}
use ocifuse.Fspath.{
  parse, parse_at, parse_ref, find_ref, is_registry_segment, all_digits, parse_platform_spec,
}
use ocifuse.Oci.{PlatformDigest, default_platform}
use ocifuse.Indexer.{Layer}
use ocifuse.Merge.Build.{merge}
use ocifuse.Mount.{
  s_iflnk, eio, Reference, digest_ref, tag_ref, mem_symlink, ResolvedImage, Filesystem, Services,
  hash_beq, image_file, ImageFile,
}
use ocifuse.Mount.Images.{
  commit, cached_by_ref, open_one, open_layers, build_image, commit_built, build_resolved,
  fetch_image, resolve_image, resolve_tag_digest,
}
use ocifuse.Mount.Images.Built.{IsBuilt}
use ocifuse.Mount.Images.Shared.{Reachable, mounted, delivered, committed, at_once, Reachable-same}
use ocifuse.Mount.Images.Again.{IsStep, resolve_image-IsStep, resolve_image_again}
use ocifuse.Mount.Segments.{
  full_path, repo_base, tag_symlink_target, platform_spec, sibling_name, add_sibling, add_siblings,
  add_platform_siblings, classify_segment,
}
use ocifuse.Mount.Segments.Siblings.{or_else, first_named, lookup-add_platform_siblings}
use ocifuse.Mount.Prefixes.{
  World, tag_symlink, image_root, resolve_segment, root_lookup, intermediate_lookup, symlink_out,
  tag_timeout,
}
use ocifuse.Mount.Prefixes.Fails.{errno_of, resolve_segment_fails}
use ocifuse.Mount.Prefixes.Answers.{IsImageRoot, resolve_segment-answers}
use ocifuse.Mount.Prefixes.Followed.{resolve_segment-followed}
use ocifuse.Mount.Shown.{IsShown, at_prefix, in_image}
use ocifuse.Mount.Shown.Good.{image_file_open-IsShown}
use ocifuse.Mount.Meta.Held.{IsEntryOf}
use ocifuse.Mount.Files.{image_file_open, file_handle}
use ocifuse.Tests.Mounts.{
  header, is_name, hash, layer, bottom, top, context, image, resolved_image, out,
}

program : Unit {0}
unfolding bytes_beq keys lookup insert has has_prefix trim_prefix contains join trim trim_left split
    index_byte last_index contains_any index extend base parse parse_at parse_ref find_ref
    is_registry_segment all_digits parse_platform_spec hash_beq commit cached_by_ref open_one
    open_layers build_image commit_built build_resolved fetch_image resolve_image resolve_tag_digest
    full_path repo_base tag_symlink_target platform_spec sibling_name add_sibling add_siblings
    add_platform_siblings classify_segment tag_symlink image_root resolve_segment root_lookup
    intermediate_lookup
program = tt

abbrev platforms : List PlatformDigest
platforms =
    record { platform = default_platform; digest = hash b'7' }
    ∷ record {
      platform = record default_platform { architecture = codes "arm64" };
      digest = hash b'8';
    }
    ∷ []

-- A registry of one image; what is outside counts the calls.
abbrev calls : Services ℕ ℕ ℕ ℕ ℕ ℕ
calls = record {
  parse_reference = λ s.
      if any (λ c. c == b'@') s
      then ok (digest_ref context (codes "sha256:7"))
      else ok (tag_ref context (codes "1"));
  parse_platform = λ s. ok default_platform;
  new_hash = λ s. ok (hash b'7');
  resolve = λ ref p n. (ok image, suc n);
  resolve_digest_and_platforms = λ ref p n. (ok (hash b'7', platforms), suc n);
  layer_digest = λ l. ok (hash l);
  open_layer = λ url l tr n. (ok (if l == b'1' then bottom else top), suc n);
  open_file = λ fs name. ok 3;
  read_at = λ f. none;
}

abbrev mounted_fs : Filesystem ℕ ℕ ℕ
mounted_fs = record { platform = default_platform; tag_ttl = pos 0; images = [] }

abbrev world : World ℕ ℕ ℕ ℕ
world = record { filesystem = mounted_fs; outside = 0; children = [] }

built : IsBuilt resolved_image
built = record { tree = refl; layers = refl }

-- The image as another call built it, which comes too late.
abbrev late : ResolvedImage ℕ ℕ ℕ
late = record resolved_image {
  layers = top ∷ bottom ∷ [];
  tree = merge (top.entries ∷ bottom.entries ∷ []);
}

late_built : IsBuilt late
late_built = record { tree = refl; layers = refl }

abbrev filled : Filesystem ℕ ℕ ℕ
filled = record mounted_fs { images = (hash b'7', resolved_image) ∷ [] }

both : Reachable filled.images (resolved_image ∷ resolved_image ∷ [])
unfolding program
both = delivered (delivered mounted (committed resolved_image built)) (committed late late_built)

Reachable-same_example : resolved_image ≡ resolved_image
Reachable-same_example =
    Reachable-same resolved_image resolved_image both (inl refl) (inr (inl refl)) refl

abbrev ref : Reference
ref = digest_ref context (codes "sha256:7")

resolve_image-IsStep_example : IsStep filled (resolve_image calls ref default_platform filled 0)
resolve_image-IsStep_example = resolve_image-IsStep calls ref default_platform filled 0

-- Three calls for the first lookup, and none for the second.
resolve_image_again_example :
    resolve_image calls ref default_platform filled 9 ≡ (ok resolved_image, (filled, 9))
unfolding program
resolve_image_again_example =
    resolve_image_again calls context (codes "sha256:7") default_platform default_platform
      mounted_fs filled filled 0 3 9 resolved_image [] mounted refl refl at_once

sibling_children :
    lookup (codes "app:1~linux-arm64") (
      add_platform_siblings {L = ℕ} {T = ℕ} {Fs = ℕ}
        (tag_ref context (codes "1"))
        none
        platforms
        [])
    ≡ some (record { node = mem_symlink (codes "app@sha256:8"); mode = s_iflnk })
unfolding program
sibling_children = refl

lookup-add_platform_siblings_example :
    lookup (codes "app:1~linux-arm64") (
      add_platform_siblings {L = ℕ} {T = ℕ} {Fs = ℕ}
        (tag_ref context (codes "1"))
        none
        platforms
        [])
    ≡ or_else none
        (first_named (codes "app") (codes "1") none (codes "app:1~linux-arm64") platforms)
unfolding program
lookup-add_platform_siblings_example =
    lookup-add_platform_siblings context (codes "1") none platforms (codes "app:1~linux-arm64") []

-- A registry that does not answer for tags.
abbrev failing : Services ℕ ℕ ℕ ℕ ℕ ℕ
failing = record calls { resolve_digest_and_platforms = λ ref p n. (err 3, suc n) }

resolve_segment_fails_example :
    (eio ≡ errno_of (classify_segment failing (codes "gcr.io/team") (codes "app:1")))
    × (record world { outside = 1 } ≡ record world { outside = 1 })
unfolding program
resolve_segment_fails_example =
    resolve_segment_fails failing (codes "gcr.io/team") (codes "app:1") out world
      (record world { outside = 1 }) eio refl

resolve_segment-followed_example :
    ((resolve_segment calls (codes "gcr.io/team") (codes "app:1") out world).0
      ≡ ok (
        record { node = mem_symlink (codes "app@sha256:7"); mode = s_iflnk },
        symlink_out (tag_timeout (pos 0)) (codes "app@sha256:7") out,
      ))
    × (resolve_segment calls (codes "gcr.io/team") (codes "app@sha256:7") out world
        ≡ image_root calls ref none out world)
unfolding program
resolve_segment-followed_example =
    resolve_segment-followed calls (codes "gcr.io") (codes "team" ∷ []) (codes "app:1")
      (codes "gcr.io/team/app:1") (codes "sha256:7") (tag_ref context (codes "1")) none context
      (hash b'7') platforms out out world world 1
      (plain (codes "gcr.io") refl refl refl refl, (plain (codes "team") refl refl refl refl, tt))
      (refl, (refl, tt)) refl refl
      (Lacks-index_byte b'/' (codes "app") refl, Lacks-index_byte b'~' (codes "app") refl)
      (Lacks-index_byte b'/' (codes "sha256:7") refl, Lacks-index_byte b'~' (codes "sha256:7") refl)
      refl
  where
    plain :
        (s : Bytes)
        → index_byte s b'/' ≡ none
        → is_empty s ≡ false
        → (s == codes ".") ≡ false
        → (s == codes "..") ≡ false
        → IsName s
    plain s a b c d = (Lacks-index_byte b'/' s a, b, c, d)

resolve_segment-answers_example :
    IsImageRoot calls
      (codes "sha256:7")
      (hash b'7')
      out
      (resolve_segment calls (codes "gcr.io/team") (codes "app@sha256:7") out world).0
unfolding program ocifuse.Tests.Mounts.program
resolve_segment-answers_example =
    resolve_segment-answers calls (codes "gcr.io/team") (codes "app@sha256:7")
      (codes "gcr.io/team/app@sha256:7") context (codes "sha256:7") none out world image [] mounted
      refl refl ((hash b'1', refl, λ s. (bottom, refl)), ((hash b'2', refl, λ s. (top, refl)), tt))

abbrev passwd : ImageFile ℕ
passwd = record {
  layers = bottom ∷ top ∷ [];
  entry = record { path = codes "/etc/passwd"; header = header b'0' 0o100640; layer_idx = pos 0 };
}

passwd_shown : IsShown calls (image_file passwd)
unfolding program ocifuse.Tests.Mounts.program
passwd_shown =
    in_image {attrs = _} (codes "passwd") out
      (in_image {attrs = _} (codes "etc") out
        (at_prefix (codes "gcr.io/team") (codes "app@sha256:7") out world mounted refl) is_name
        refl)
      (Lacks-index_byte b'/' (codes "passwd") refl, refl, refl, refl) refl

image_file_open-IsShown_example :
    (l : Layer ℕ) × IsEntryOf l.entries (codes "/etc/passwd") passwd.entry
    × (image_file_open calls passwd ≡ ok (file_handle 3))
unfolding program
image_file_open-IsShown_example = image_file_open-IsShown calls passwd passwd_shown

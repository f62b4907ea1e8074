-- ===== src/Mount/Prefixes/Followed.antt =====
-- internal/mount/mount.go: the lookup of a tag, and of the target of the symlink that it answers.
use ocifuse.Prelude.{◌≡◌, ap, ◌∙◌, none, Option, Bytes, List, [], ◌∷◌, ◌++◌, All, ok}
use ocifuse.Strings.{join}
use ocifuse.SlashPath.{slash}
use ocifuse.SlashPath.Names.{IsName}
use ocifuse.Fspath.Boundary.{NoneBears}
use ocifuse.Oci.{Context, Platform, Hash, PlatformDigest, hash_string}
use ocifuse.Mount.{EntryOut, Reference, digest_ref, Services, mem_symlink, s_iflnk}
use ocifuse.Mount.Images.{resolve_tag_digest}
use ocifuse.Mount.Segments.{
  seg_tag_ref, classify_segment, platform_or, repo_base, tag_symlink_target,
}
use ocifuse.Mount.Segments.Links.{IsPlain, plain_segment-ok, classify_segment-target}
use ocifuse.Mount.Prefixes.{
  World, tag_symlink, image_root, linked, resolved, resolve_segment, symlink_out, tag_timeout,
}

module _ {S L T Fs F E : Type 0} (calls : Services S L T Fs F E) where
  -- Below a registry, the lookup of a segment with a tag that can be resolved answers a
  -- symlink to the repository name and the digest, and the lookup of that target in the same
  -- directory resolves the image of the digest reference that directory and target make, if
  -- they make one, and the name and the digest have no slash and no "~".
  pub resolve_segment-followed :
      (d : Bytes) (ds : List Bytes) (child full str : Bytes) (ref : Reference)
      (plat : Option Platform) (ctx : Context) (digest : Hash) (platforms : List PlatformDigest)
      (out out' : EntryOut) (w w' : World S L T Fs) (after : S)
      → All IsName (d ∷ ds)
      → NoneBears 0 (d ∷ ds)
      → classify_segment calls (join slash (d ∷ ds)) child ≡ (full, ok (seg_tag_ref ref plat))
      → resolve_tag_digest calls ref (platform_or w.filesystem plat) w.outside
        ≡ (ok (digest, platforms), after)
      → IsPlain (repo_base ref)
      → IsPlain (hash_string digest)
      → calls.parse_reference (join slash (d ∷ (ds ++ tag_symlink_target ref digest ∷ [])))
        ≡ ok (digest_ref ctx str)
      → ((resolve_segment calls (join slash (d ∷ ds)) child out w).0
          ≡ ok (
            record { node = mem_symlink (tag_symlink_target ref digest); mode = s_iflnk },
            symlink_out (tag_timeout w.filesystem.tag_ttl) (tag_symlink_target ref digest) out,
          ))
        × (resolve_segment calls (join slash (d ∷ ds)) (tag_symlink_target ref digest) out' w'
            ≡ image_root calls (digest_ref ctx str) none out' w')
  unfolding resolve_segment tag_symlink
  resolve_segment-followed d ds child full str ref plat ctx digest platforms out out' w w' after
        names before tagged found base_plain hash_plain parsed =
      let target =
        classify_segment-target calls d ds ref digest names before base_plain hash_plain in
      let path = join slash (d ∷ (ds ++ tag_symlink_target ref digest ∷ [])) in
      (
        ap (λ c. (resolved calls out w c).0) tagged ∙ ap (λ r. (linked ref plat out w r).0) found,
        ap (resolved calls out' w') (
            target ∙ ap (λ c. (path, c)) (plain_segment-ok calls path (digest_ref ctx str) parsed)),
      )

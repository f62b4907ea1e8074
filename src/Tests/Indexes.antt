-- ===== src/Tests/Indexes.antt =====
-- Runs of internal/oci/oci.go, and its theorem at a concrete index.
use ocifuse.Prelude.{
  ℕ, ◌≡◌, refl, true, none, some, List, [], ◌∷◌, ◌++◌, Bytes, codes, bytes_eq, bytes_beq, Result,
  ok, err,
}
use ocifuse.Oci.{
  Hash, Platform, Manifest, Descriptor, default_platform, pick, pick_first,
  resolve_digest_and_platforms, resolve_digest, image_from_index, blob_url, Context,
}
use ocifuse.Oci.Connect.{BaseTransport, auth_failed, disk_caching, build_transport}
use ocifuse.Oci.Picks.{listed, resolve_lem}
use ocifuse.Tests.Disks.{cache}

program : Unit {0}
unfolding bytes_beq pick pick_first resolve_digest_and_platforms resolve_digest image_from_index
program = tt

abbrev hash : Bytes → Hash
hash hex = record { algorithm = codes "sha256"; hex = hex }

abbrev arm : Bytes → Platform
arm variant = record { os = codes "linux"; architecture = codes "arm"; variant = variant }

abbrev manifests : List Manifest
manifests =
    record { platform = some default_platform; digest = hash (codes "aa") }
    ∷ record { platform = some (arm (codes "v6")); digest = hash (codes "b6") }
    ∷ record { platform = some (arm (codes "v7")); digest = hash (codes "b7") }
    ∷ record { platform = none; digest = hash (codes "cc") }
    ∷ []

abbrev index : Descriptor ℕ
index = record { digest = hash (codes "00"); is_index = true; index = ok manifests }

abbrev connect : Bytes → Result ℕ ℕ
connect ref = ok 1

abbrev get : Bytes → ℕ → Platform → Result ℕ (Descriptor ℕ)
get ref tr platform = ok index

abbrev image : Hash → Result ℕ Bytes
image h = ok h.hex

-- The manifest for another variant of the processor.
variant_run :
    resolve_digest connect get image (codes "busybox") (arm (codes "v6")) ≡ ok (hash (codes "b7"))
unfolding program
variant_run = refl

resolve_lem_example :
    resolve_digest_and_platforms connect get image (codes "busybox") (arm (codes "v6"))
    ≡ ok (hash (codes "b7"), listed manifests)
unfolding program
resolve_lem_example =
    resolve_lem connect get image (codes "busybox") (arm (codes "v6")) 1 index manifests refl refl
      refl refl (refl, (refl, (refl, (refl, tt))))

blob_run :
    blob_url
      (record {
        scheme = codes "https";
        registry = codes "index.docker.io";
        repository = codes "library/alpine";
      })
      (hash (codes "ab"))
    ≡ codes "https://index.docker.io/v2/library/alpine/blobs/sha256:ab"
blob_run = refl

abbrev docker : Bytes → Context
docker repository = record {
  scheme = codes "https";
  registry = codes "index.docker.io";
  repository = repository;
}

abbrev pull : Bytes → Bytes
pull ref = codes "repository:" ++ (ref ++ codes ":pull")

-- A transport that shows what it was made of.
connect_run :
    build_transport {A = ℕ} {T = Bytes × BaseTransport × List Bytes} {E = ℕ} docker pull
      (λ ctx. ok 3)
      (λ registry auth base scopes. ok (registry, base, scopes))
      (some cache)
      (codes "library/alpine")
    ≡ ok (codes "index.docker.io", disk_caching cache, codes "repository:library/alpine:pull" ∷ [])
unfolding build_transport
connect_run = refl

denied_run :
    build_transport {A = ℕ} {T = ℕ} {E = ℕ} docker pull
      (λ ctx. err 9)
      (λ registry auth base scopes. ok 1)
      none
      (codes "library/alpine")
    ≡ err (auth_failed (codes "index.docker.io") 9)
unfolding build_transport
denied_run = refl

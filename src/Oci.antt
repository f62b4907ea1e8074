-- ===== src/Oci.antt =====
-- internal/oci/oci.go: from a reference and a platform to the digest of a manifest. The transport to
-- a registry and the calls of go-containerregistry are parameters.
pub mod Picks
pub mod Cached
pub mod Connect
use ocifuse.Prelude.{
  ℕ, Bool, true, false, ◌&&◌, Option, none, some, List, [], ◌∷◌, ◌++◌, Bytes, codes, bytes_eq, ◌==◌,
  if◌then◌else◌, Result, ok, err,
}

pub record Hash : Type 0 where
  pub algorithm : Bytes
  pub hex : Bytes

pub record Platform : Type 0 where
  pub os : Bytes
  pub architecture : Bytes
  pub variant : Bytes

-- An entry of an index manifest.
pub record Manifest : Type 0 where
  pub platform : Option Platform
  pub digest : Hash

pub record PlatformDigest : Type 0 where
  pub platform : Platform
  pub digest : Hash

-- What remote.Get returns; `index` is what ImageIndex and IndexManifest give.
pub record Descriptor (E : Type 0) : Type 0 where
  pub digest : Hash
  pub is_index : Bool
  pub index : Result E (List Manifest)

pub data ResolveError (E : Type 0) : Type 0 where
  call_failed : E → ResolveError E
  no_manifest : Bytes → Bytes → ResolveError E

-- v1.Hash{}
abbrev pub no_hash : Hash
no_hash = record { algorithm = []; hex = [] }

abbrev pub is_no_hash : Hash → Bool
is_no_hash h = h.algorithm == [] && h.hex == []

-- linux/amd64
abbrev pub default_platform : Platform
default_platform = record { os = codes "linux"; architecture = codes "amd64"; variant = [] }

abbrev pub fits : Platform → Platform → Bool
fits platform p = p.os == platform.os && p.architecture == platform.architecture

-- The loop over the manifests of the index, with what it has picked so far.
unfoldable pub pick :
    Platform → List Manifest → Hash → List PlatformDigest → Hash × List PlatformDigest
pick platform [] picked pairs = (picked, pairs)
pick platform (m ∷ ms) picked pairs = elim m.platform [
  | none ↦ pick platform ms picked pairs
  | some p ↦
      pick platform ms (if fits platform p then m.digest else picked)
        (pairs ++ record { platform = p; digest = m.digest } ∷ [])
]

-- The first manifest of the platform, for imageFromIndex.
unfoldable pub pick_first : Platform → List Manifest → Option Hash
pick_first platform [] = none
pick_first platform (m ∷ ms) = elim m.platform [
  | none ↦ pick_first platform ms
  | some p ↦ let rest = pick_first platform ms in if fits platform p then some m.digest else rest
]

abbrev pub from_index :
    {E : Type 0} → Platform → List Manifest → Result (ResolveError E) (Hash × List PlatformDigest)
from_index platform ms =
    let (picked, pairs) = pick platform ms no_hash [] in
    if is_no_hash picked
    then err (no_manifest platform.os platform.architecture)
    else ok (picked, pairs)

abbrev pub from_descriptor :
    {E : Type 0} → Platform → Descriptor E → Result (ResolveError E) (Hash × List PlatformDigest)
from_descriptor platform desc =
    if desc.is_index
    then elim desc.index [ err e ↦ err (call_failed e) | ok ms ↦ from_index platform ms ]
    else ok (desc.digest, [])

module _ {R T I E : Type 0} (build_transport : R → Result E T)
    (get : R → T → Platform → Result E (Descriptor E)) (image : Hash → Result E I) where
  unfoldable pub resolve_digest_and_platforms :
      R → Platform → Result (ResolveError E) (Hash × List PlatformDigest)
  resolve_digest_and_platforms ref platform = elim (build_transport ref) [
    | err e ↦ err (call_failed e)
    | ok tr ↦ elim (get ref tr platform) [
      | err e ↦ err (call_failed e)
      | ok desc ↦ from_descriptor platform desc
    ]
  ]

  unfoldable pub resolve_digest : R → Platform → Result (ResolveError E) Hash
  resolve_digest ref platform = elim (resolve_digest_and_platforms ref platform) [
    | err e ↦ err e
    | ok (d, pairs) ↦ ok d
  ]

  unfoldable pub image_from_index : Result E (List Manifest) → Platform → Result (ResolveError E) I
  image_from_index index platform = elim index [
    | err e ↦ err (call_failed e)
    | ok ms ↦ elim (pick_first platform ms) [
      | none ↦ err (no_manifest platform.os platform.architecture)
      | some digest ↦ elim (image digest) [ err e ↦ err (call_failed e) | ok i ↦ ok i ]
    ]
  ]

-- The image with what is needed to read its layers: R, L and T are the types of references, layers
-- and transports.
pub record Image (R L T : Type 0) : Type 0 where
  pub ref : R
  pub digest : Hash
  pub layers : List L
  pub transport : T

-- What the methods Digest and Layers of a remote image give.
pub record RemoteImage (L E : Type 0) : Type 0 where
  pub digest : Result E Hash
  pub layers : Result E (List L)

pub data ImageError (E : Type 0) : Type 0 where
  transport_failed : E → ImageError E
  fetch_failed : E → ImageError E
  digest_failed : E → ImageError E
  layers_failed : E → ImageError E

module _ {R L T E : Type 0} (build_transport : R → Result E T)
    (remote_image : R → T → Platform → Result E (RemoteImage L E)) where
  -- A handle on the image, or the error of the first call that fails.
  abbrev pub handle : R → T → RemoteImage L E → Result (ImageError E) (Image R L T)
  handle ref tr img = elim img.digest [
    | err e ↦ err (digest_failed e)
    | ok digest ↦ elim img.layers [
      | err e ↦ err (layers_failed e)
      | ok layers ↦ ok (record { ref = ref; digest = digest; layers = layers; transport = tr })
    ]
  ]

  unfoldable pub resolve : R → Platform → Result (ImageError E) (Image R L T)
  resolve ref platform = elim (build_transport ref) [
    | err e ↦ err (transport_failed e)
    | ok tr ↦ elim (remote_image ref tr platform) [
      | err e ↦ err (fetch_failed e)
      | ok img ↦ handle ref tr img
    ]
  ]

-- The registry of a reference's context, and the repository.
pub record Context : Type 0 where
  pub scheme : Bytes
  pub registry : Bytes
  pub repository : Bytes

-- Hash.String
abbrev pub hash_string : Hash → Bytes
hash_string h = h.algorithm ++ b':' ∷ h.hex

abbrev pub blob_path : Context → Hash → Bytes
blob_path ctx d = codes "/v2/" ++ (ctx.repository ++ (codes "/blobs/" ++ hash_string d))

abbrev pub blob_url : Context → Hash → Bytes
blob_url ctx d = ctx.scheme ++ (codes "://" ++ (ctx.registry ++ blob_path ctx d))

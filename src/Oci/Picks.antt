-- ===== src/Oci/Picks.antt =====
-- internal/oci/oci.go: which manifest of an index is picked.
use mathlib.Core.Path.{subst}
use mathlib.Core.List.{append-nil, append_assoc}
use ocifuse.Prelude.{
  Bool, true, false, Option, none, some, List, [], ◌∷◌, ◌++◌, bytes_eq, bytes_beq, if◌then◌else◌,
  Result, ok, err, ◌≡◌, refl, sym, ap, ◌∙◌, inl, inr, Bool-cases, Option-cases, All, find_last,
  arith,
}
use ocifuse.Oci.{
  Hash, Platform, Manifest, PlatformDigest, Descriptor, no_manifest, no_hash, is_no_hash, fits,
  pick, from_index, resolve_digest_and_platforms,
}

-- The manifest is for the operating system and the architecture.
abbrev pub serves : Platform → Manifest → Bool
serves platform m = elim m.platform [ none ↦ false | some p ↦ fits platform p ]

-- The platforms of an index, in its order.
abbrev pub listed : List Manifest → List PlatformDigest
listed [] = []
listed (m ∷ ms) = elim m.platform [
  | none ↦ listed ms
  | some p ↦ record { platform = p; digest = m.digest } ∷ listed ms
]

abbrev pub digest_or : Hash → Option Manifest → Hash
digest_or d none = d
digest_or d (some m) = m.digest

find_last-cons :
    (platform : Platform) (m : Manifest) (ms : List Manifest) (picked : Hash)
    → digest_or picked (find_last (serves platform) (m ∷ ms))
      ≡ digest_or (if serves platform m then m.digest else picked) (find_last (serves platform) ms)
find_last-cons platform m ms picked = elim (Option-cases (find_last (serves platform) ms)) [
  | inr (y, f) ↦ rw f refl
  | inl f ↦ elim (Bool-cases (serves platform m)) [
    | inl t ↦ rw (f, t) refl
    | inr n ↦ rw (f, n) refl
  ]
]

pick_lem :
    (platform : Platform) (ms : List Manifest) (picked : Hash) (pairs : List PlatformDigest)
    → pick platform ms picked pairs
      ≡ (digest_or picked (find_last (serves platform) ms), pairs ++ listed ms)
unfolding pick
pick_lem platform [] picked pairs = ap (λ l. (picked, l)) (sym (append-nil pairs))
pick_lem platform (m ∷ ms) picked pairs = elim (Option-cases m.platform) [
  | inl n ↦
      let unserved : serves platform m ≡ false = rw n refl in
      let same : digest_or picked (find_last (serves platform) ms)
          ≡ digest_or picked (find_last (serves platform) (m ∷ ms)) =
        sym (find_last-cons platform m ms picked ∙ rw unserved refl) in
      let listing : listed ms ≡ listed (m ∷ ms) = rw n refl in
      let step : pick platform (m ∷ ms) picked pairs ≡ pick platform ms picked pairs =
        rw (n, pick) refl in
      step
      ∙ pick_lem platform ms picked pairs
      ∙ ap (λ d. (d, pairs ++ listed ms)) same
      ∙ ap (λ l. (digest_or picked (find_last (serves platform) (m ∷ ms)), pairs ++ l)) listing
  | inr (p, e) ↦
      let pd : PlatformDigest = record { platform = p; digest = m.digest } in
      let next : Hash = if fits platform p then m.digest else picked in
      let step : pick platform (m ∷ ms) picked pairs ≡ pick platform ms next (pairs ++ pd ∷ []) =
        rw (e, pick) refl in
      let test : serves platform m ≡ fits platform p = rw e refl in
      let same : digest_or next (find_last (serves platform) ms)
          ≡ digest_or picked (find_last (serves platform) (m ∷ ms)) =
        ap (λ b. digest_or (if b then m.digest else picked) (find_last (serves platform) ms))
          (sym test)
        ∙ sym (find_last-cons platform m ms picked) in
      let listing : (pairs ++ pd ∷ []) ++ listed ms ≡ pairs ++ listed (m ∷ ms) =
        append_assoc pairs (pd ∷ []) (listed ms) ∙ ap (λ l. pairs ++ l) (sym (rw e refl)) in
      step
      ∙ pick_lem platform ms next (pairs ++ pd ∷ [])
      ∙ ap (λ d. (d, (pairs ++ pd ∷ []) ++ listed ms)) same
      ∙ ap (λ l. (digest_or picked (find_last (serves platform) (m ∷ ms)), l)) listing
]

find_last-All :
    (platform : Platform) (P : Manifest → Type 0) (ms : List Manifest) (m : Manifest)
    → All P ms
    → find_last (serves platform) ms ≡ some m
    → P m
find_last-All platform P [] m a h = absurd (ground (arith, h))
find_last-All platform P (x ∷ ms) m a h = elim (Option-cases (find_last (serves platform) ms)) [
  | inr (y, f) ↦ find_last-All platform P ms m a.1 (ground (arith, f, h))
  | inl f ↦ let same : x ≡ m = ground (arith, f, h) in subst P same a.0
]

from_index_lem :
    {E : Type 0} (platform : Platform) (ms : List Manifest)
    → All (λ m. is_no_hash m.digest ≡ false) ms
    → from_index {E = E} platform ms ≡ elim (find_last (serves platform) ms) [
      | none ↦ err (no_manifest platform.os platform.architecture)
      | some m ↦ ok (m.digest, listed ms)
    ]
unfolding bytes_beq
from_index_lem platform ms h =
    let e = pick_lem platform ms no_hash [] in
    elim (Option-cases (find_last (serves platform) ms)) [
      | inl n ↦ rw (e, n) refl
      | inr (m, f) ↦
          let real = find_last-All platform (λ m. is_no_hash m.digest ≡ false) ms m h f in
          rw (e, f, real) refl
    ]

-- If the transport, remote.Get and the index manifest can be had: for a reference to an index
-- whose digests are not empty, the digest that is resolved is that of the last manifest with
-- the operating system and the architecture of the platform, whatever their variants, with the
-- platforms of the index in order; without such a manifest it is an error.
pub resolve_lem :
    {R T I E : Type 0} (build_transport : R → Result E T)
    (get : R → T → Platform → Result E (Descriptor E)) (image : Hash → Result E I) (ref : R)
    (platform : Platform) (tr : T) (desc : Descriptor E) (ms : List Manifest)
    → build_transport ref ≡ ok tr
    → get ref tr platform ≡ ok desc
    → desc.is_index ≡ true
    → desc.index ≡ ok ms
    → All (λ m. is_no_hash m.digest ≡ false) ms
    → resolve_digest_and_platforms build_transport get image ref platform
      ≡ elim (find_last (serves platform) ms) [
        | none ↦ err (no_manifest platform.os platform.architecture)
        | some m ↦ ok (m.digest, listed ms)
      ]
unfolding resolve_digest_and_platforms
resolve_lem build_transport get image ref platform tr desc ms t g i m h =
    rw (t, g, i, m, resolve_digest_and_platforms) (from_index_lem platform ms h)

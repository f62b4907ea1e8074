-- ===== src/Oci/Cached.antt =====
-- internal/oci/oci.go: the URLs of blobs, for the transport of internal/oci/transport.go.
use mathlib.Core.List.{append_assoc}
use ocifuse.Prelude.{
  ◌-◌, true, ◌||◌, ◌∷◌, ◌++◌, Bytes, codes, bytes_eq, bytes_beq_iff, ◌==◌, length, take, drop, leb,
  ◌≡◌, refl, sym, ap, ◌∙◌, length-append, take-length, drop-append_length, Bool-cases, inl, inr,
  arith,
}
use ocifuse.Strings.{has_prefix}
use ocifuse.Transport.{has_suffix, all_hex, is_repository, is_repository_before, is_digest_path}
use ocifuse.Oci.{Hash, Context, blob_path}

has_suffix-append : (s t : Bytes) → has_suffix (s ++ t) t ≡ true
has_suffix-append s t =
    let n : length (s ++ t) - length t ≡ length s = omega (arith, length-append s t) in
    let long : leb (length t) (length (s ++ t)) ≡ true = ground (arith, length-append s t) in
    let end : drop (length (s ++ t) - length t) (s ++ t) ≡ t =
      ap (λ k. drop k (s ++ t)) n ∙ drop-append_length s t in
    let same : (drop (length (s ++ t) - length t) (s ++ t) == t) ≡ true =
      (bytes_beq_iff (drop (length (s ++ t) - length t) (s ++ t)) t).1 end in
    rw (long, same) refl

is_repository_before-append :
    (s t : Bytes) → is_repository s ≡ true → is_repository_before (s ++ t) t ≡ true
is_repository_before-append s t h =
    let n : length (s ++ t) - length t ≡ length s = omega (arith, length-append s t) in
    let start : take (length (s ++ t) - length t) (s ++ t) ≡ s =
      ap (λ k. take k (s ++ t)) n ∙ take-length s t in
    rw (has_suffix-append s t, start, h) refl

-- The path of the URL of a blob with a sha256 digest of 64 hex digits, in a repository whose
-- name is not empty and has no line feed, is one that the transport may answer from disk.
pub is_digest_path-blob_path :
    (ctx : Context) (d : Hash)
    → d.algorithm ≡ codes "sha256"
    → length d.hex ≡ 64
    → all_hex d.hex ≡ true
    → is_repository ctx.repository ≡ true
    → is_digest_path (blob_path ctx d) ≡ true
unfolding is_digest_path has_prefix
is_digest_path-blob_path ctx d a n hex repo =
    let head = codes "/v2/" ++ (ctx.repository ++ codes "/blobs") in
    let tail = codes "/sha256:" ++ d.hex in
    let p : blob_path ctx d ≡ head ++ tail =
      ap (λ a. codes "/v2/" ++ (ctx.repository ++ (codes "/blobs/" ++ (a ++ b':' ∷ d.hex)))) a
      ∙ sym (ap (λ r. codes "/v2/" ++ r) (append_assoc ctx.repository (codes "/blobs") tail)) in
    let size : length (head ++ tail) - 72 ≡ length head =
      omega (arith, length-append head tail, n) in
    let cut : take (length (head ++ tail) - 72) (head ++ tail) ≡ head =
      ap (λ k. take k (head ++ tail)) size ∙ take-length head tail in
    let rest : drop (length (head ++ tail) - 72) (head ++ tail) ≡ tail =
      ap (λ k. drop k (head ++ tail)) size ∙ drop-append_length head tail in
    let long : leb 76 (length (head ++ tail)) ≡ true =
      ground (arith, length-append head tail, length-append ctx.repository (codes "/blobs"), n) in
    let blobs = is_repository_before-append ctx.repository (codes "/blobs") repo in
    let kind : (is_repository_before (drop 4 head) (codes "/manifests")
          || is_repository_before (drop 4 head) (codes "/blobs"))
        ≡ true =
      elim (Bool-cases (is_repository_before (drop 4 head) (codes "/manifests"))) [
        | inl t ↦ rw t refl
        | inr f ↦ rw f blobs
      ] in
    let whole : is_digest_path (head ++ tail) ≡ true =
      rw (long, cut, rest, hex, kind, is_digest_path) refl in
    ap is_digest_path p ∙ whole

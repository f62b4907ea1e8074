-- ===== src/Mount/Images/Shared.antt =====
-- internal/mount/mount.go: the map of resolved images, which all calls share under a mutex. Calls
-- run at the same time, and meet at the map: one that finds an image there, or puts one there.
use ocifuse.Prelude.{
  ◌≡◌, refl, sym, ap, ◌∙◌, some, List, [], ◌∷◌, All, All-map, Any, Option-cases, inl, inr, arith,
  All-member,
}
use ocifuse.Prelude.Dict.{Dict, lookup, lookup-insert, All-insert, All-lookup}
use ocifuse.Oci.{Hash}
use ocifuse.Mount.{hash_eq, ResolvedImage}
use ocifuse.Mount.Images.{commit}
use ocifuse.Mount.Images.Built.{IsBuilt}

abbrev pub Images : Type 0 → Type 0 → Type 0 → Type 0
Images L T Fs = Dict Hash (ResolvedImage L T Fs)

module _ {L T Fs : Type 0} where
  -- The map before, the image that a call returns, and the map after.
  pub data Delivers : Images L T Fs → ResolvedImage L T Fs → Images L T Fs → Type 0 where
    found :
        {images : Images L T Fs} {ri : ResolvedImage L T Fs} (h : Hash)
        → lookup h images ≡ some ri
        → Delivers images ri images
    committed :
        {images : Images L T Fs} (ri : ResolvedImage L T Fs)
        → IsBuilt ri
        → Delivers images (commit ri images).0 (commit ri images).1

  -- The maps and the images that were returned, the last one first, of any calls in any order.
  pub data Reachable : Images L T Fs → List (ResolvedImage L T Fs) → Type 0 where
    mounted : Reachable [] []
    delivered :
        {images images' : Images L T Fs} {ri : ResolvedImage L T Fs}
        {returned : List (ResolvedImage L T Fs)}
        → Reachable images returned
        → Delivers images ri images'
        → Reachable images' (ri ∷ returned)

  -- The map after any number of calls more.
  pub data Follows : Images L T Fs → Images L T Fs → Type 0 where
    at_once : {images : Images L T Fs} → Follows images images
    then_delivered :
        {first images images' : Images L T Fs} {ri : ResolvedImage L T Fs}
        → Follows first images
        → Delivers images ri images'
        → Follows first images'

  -- Each key is the digest of its image, which was built from the layers of its manifest.
  abbrev pub IsSound : Images L T Fs → Type 0
  IsSound = All (λ (h, ri). (ri.img.digest ≡ h) × IsBuilt ri)

  abbrev pub IsKept : Images L T Fs → ResolvedImage L T Fs → Type 0
  IsKept images ri = lookup ri.img.digest images ≡ some ri

  -- What a call leaves behind.
  pub record IsSafe (before : Images L T Fs) (ri : ResolvedImage L T Fs) (after : Images L T Fs)
      : Type 0 where
    pub sound : IsSound after
    pub kept : IsKept after ri
    pub stays :
        (h : Hash) (x : ResolvedImage L T Fs) → lookup h before ≡ some x → lookup h after ≡ some x

  commit-IsSafe :
      (ri : ResolvedImage L T Fs) (images : Images L T Fs)
      → IsBuilt ri
      → IsSound images
      → IsSafe images (commit ri images).0 (commit ri images).1
  unfolding commit
  commit-IsSafe ri images b s = elim (Option-cases (lookup ri.img.digest images)) [
    | inr (x, there) ↦
        let same : x.img.digest ≡ ri.img.digest = (All-lookup _ ri.img.digest x images s there).0 in
        rw (there, commit)
          (record { sound = s; kept = ap (λ h. lookup h images) same ∙ there; stays = λ h y k. k })
    | inl nowhere ↦
        rw (nowhere, commit)
          (record {
            sound = All-insert _ ri.img.digest ri images (refl, b) s;
            kept =
                lookup-insert ri.img.digest ri.img.digest ri images
                ∙ rw ((hash_eq.equal_iff ri.img.digest ri.img.digest).1 refl) refl;
            stays = λ h x k. ground (
              arith,
              lookup-insert ri.img.digest h ri images,
              hash_eq.equal_iff ri.img.digest h,
              nowhere,
              k,
            );
          })
  ]

  pub Delivers-IsSafe :
      {images images' : Images L T Fs} {ri : ResolvedImage L T Fs}
      → Delivers images ri images'
      → IsSound images
      → IsSafe images ri images'
  Delivers-IsSafe {images = images} (found {ri = ri} h there) s =
      let same : ri.img.digest ≡ h = (All-lookup _ h ri images s there).0 in
      record { sound = s; kept = ap (λ k. lookup k images) same ∙ there; stays = λ k x e. e }
  Delivers-IsSafe {images = images} (committed ri b) s = commit-IsSafe ri images b s

  pub Reachable-IsSound :
      {images : Images L T Fs} {returned : List (ResolvedImage L T Fs)}
      → Reachable images returned
      → IsSound images × All (IsKept images) returned
  Reachable-IsSound mounted = (tt, tt)
  Reachable-IsSound (delivered r d) =
      let (s, all) = Reachable-IsSound r in
      let safe = Delivers-IsSafe d s in
      (safe.sound, (safe.kept, All-map (λ x k. safe.stays x.img.digest x k) _ all))

  pub Follows-stays :
      {first later : Images L T Fs} (h : Hash) (ri : ResolvedImage L T Fs)
      → Follows first later
      → IsSound first
      → lookup h first ≡ some ri
      → IsSound later × (lookup h later ≡ some ri)
  Follows-stays h ri at_once s there = (s, there)
  Follows-stays h ri (then_delivered f d) s there =
      let (sound, before) = Follows-stays h ri f s there in
      let safe = Delivers-IsSafe d sound in (safe.sound, safe.stays h ri before)

  -- Of the images that any calls return in any order, each having found it in the map or
  -- having built it and put it there under the lock, two with the same digest are the same
  -- image.
  pub Reachable-same :
      {images : Images L T Fs} {returned : List (ResolvedImage L T Fs)} (a b : ResolvedImage L T Fs)
      → Reachable images returned
      → Any (λ x. x ≡ a) returned
      → Any (λ x. x ≡ b) returned
      → a.img.digest ≡ b.img.digest
      → a ≡ b
  Reachable-same {images = images} a b r at bt same =
      let all = (Reachable-IsSound r).1 in
      let (x, kept_x, is_a) = All-member (IsKept images) _ all at in
      let (y, kept_y, is_b) = All-member (IsKept images) _ all bt in
      let xa : lookup a.img.digest images ≡ some a =
        ap (λ (z : ResolvedImage L T Fs). lookup z.img.digest images) (sym is_a)
        ∙ kept_x
        ∙ ap some is_a in
      let yb : lookup b.img.digest images ≡ some b =
        ap (λ (z : ResolvedImage L T Fs). lookup z.img.digest images) (sym is_b)
        ∙ kept_y
        ∙ ap some is_b in
      some_injective (sym xa ∙ ap (λ h. lookup h images) same ∙ yb)
    where
      some_injective : {x y : ResolvedImage L T Fs} → some x ≡ some y → x ≡ y
      some_injective e = ground arith

  pub Delivers-IsBuilt :
      {images images' : Images L T Fs} {ri : ResolvedImage L T Fs}
      → Delivers images ri images'
      → IsSound images
      → IsBuilt ri
  Delivers-IsBuilt {images' = images'} {ri = ri} d s =
      let safe = Delivers-IsSafe d s in
      (All-lookup _ ri.img.digest ri images' safe.sound safe.kept).1

-- ===== src/Mount/Dirs/Agree.antt =====
-- internal/mount: a directory of a tree lists the names that it finds, in an image or in one layer.
use mathlib.Core.Path.{subst, ap₂}
use ocifuse.Prelude.{
  ℕ, All-append, ◌≡◌, refl, sym, ap, ◌∙◌, Bool, true, false, ◌&&◌, none, some, List, [], ◌∷◌, ◌++◌,
  Bytes, ◌==◌, bytes_eq, bytes_beq, All, All-map, Any, Any-map, ok, err, Bool-cases, Option-cases,
  inl, inr, arith,
}
use ocifuse.Prelude.Dict.{lookup, All-lookup}
use ocifuse.SlashPath.{root, base}
use ocifuse.SlashPath.Names.{IsName, render}
use ocifuse.SlashPath.Relative.{base-render}
use ocifuse.Merge.{Entry, Tree, canon, get, children}
use ocifuse.Merge.Children.{is_child}
use ocifuse.Merge.Canon.{Canonical, canon-render}
use ocifuse.Merge.Listing.{IsIndexed, IsChild, children-IsChild, Any-children, is_child-render}
use ocifuse.Mount.{
  DirEntry, EntryOut, enoent, Node, Inode, join_in_image, meta_dir_name, Found, s_ifdir,
}
use ocifuse.Mount.Paths.{child-IsNamedIn, join_in_image-render}
use ocifuse.Mount.Dirs.{mode_of, listed, listed_all, with_meta, meta_entry}

pub All-listed_all :
    (P : DirEntry → Type 0) (es : List Entry) → All (λ e. P (listed e)) es → All P (listed_all es)
unfolding listed_all
All-listed_all P [] h = tt
All-listed_all P (e ∷ es) h = (h.0, All-listed_all P es h.1)

pub Any-listed_all :
    (P : DirEntry → Type 0) (es : List Entry) → Any (λ e. P (listed e)) es → Any P (listed_all es)
unfolding listed_all
Any-listed_all P [] h = h
Any-listed_all P (e ∷ es) (inl p) = inl p
Any-listed_all P (e ∷ es) (inr t) = inr (Any-listed_all P es t)

pub All-with_meta :
    (P : DirEntry → Type 0) (path : Bytes) (es : List DirEntry)
    → ((path == root) ≡ true → P meta_entry)
    → All P es
    → All P (with_meta path es)
unfolding with_meta
All-with_meta P path es m h = elim (Bool-cases (path == root)) [
  | inl r ↦ rw (r, with_meta) (m r, h)
  | inr r ↦ rw (r, with_meta) h
]

pub Any-with_meta :
    (P : DirEntry → Type 0) (path : Bytes) (es : List DirEntry)
    → Any P es
    → Any P (with_meta path es)
unfolding with_meta
Any-with_meta P path es h = elim (Bool-cases (path == root)) [
  | inl r ↦ rw (r, with_meta) (inr h)
  | inr r ↦ rw (r, with_meta) h
]

-- A name that is not the metadata directory of a root.
abbrev pub is_meta : Bytes → Bytes → Bool
is_meta path child = path == root && child == meta_dir_name

-- No entry of the tree is hidden by the metadata directory.
abbrev pub NoMeta : Tree → Type 0
NoMeta t = get t (join_in_image root meta_dir_name) ≡ none

pub is_meta-listed :
    (t : Tree) (path child : Bytes) (e : Entry)
    → NoMeta t
    → get t (join_in_image path child) ≡ some e
    → is_meta path child ≡ false
is_meta-listed t path child e n h = elim (Bool-cases (path == root)) [
  | inr r ↦ rw r
  | inl r ↦ elim (Bool-cases (child == meta_dir_name)) [
    | inr c ↦ rw (r, c)
    | inl c ↦
        let at : join_in_image path child ≡ join_in_image root meta_dir_name =
          ap (λ p. join_in_image p child) ((bytes_eq.equal_iff path root).0 r)
          ∙ ap (join_in_image root) ((bytes_eq.equal_iff child meta_dir_name).0 c) in
        absurd (ground (arith, at, h, n))
  ]
]

-- The name is listed with these type bits.
abbrev pub IsListed : List DirEntry → Bytes → ℕ → Type 0
IsListed entries child mode =
    Any (λ (x : DirEntry). x ≡ record { name = child; mode = mode }) entries

module _ {L T Fs : Type 0} where
  -- The lookup finds this inode.
  abbrev pub Finds : Found L T Fs → ℕ → Type 0
  Finds answer mode =
      (node : Node L T Fs) × (attrs : EntryOut) × (answer
        ≡ ok (record { node = node; mode = mode }, attrs))

  -- The lookup is that of a directory of the tree: the metadata directory, an entry, or nothing.
  pub record IsLookupOf (t : Tree) (path : Bytes) (look : Bytes → Found L T Fs) : Type 0 where
    pub meta : (child : Bytes) → is_meta path child ≡ true → Finds (look child) s_ifdir
    pub entry :
        (child : Bytes) (e : Entry)
        → is_meta path child ≡ false
        → get t (join_in_image path child) ≡ some e
        → Finds (look child) (mode_of e)
    pub nothing :
        (child : Bytes)
        → is_meta path child ≡ false
        → get t (join_in_image path child) ≡ none
        → look child ≡ err enoent

  -- Looking up the name of a listing finds an inode with the type bits of the listing.
  abbrev pub IsServed : (Bytes → Found L T Fs) → DirEntry → Type 0
  IsServed look entry = Finds (look entry.name) entry.mode

  -- The type bits of an answer; 0 for an error.
  abbrev answered : Found L T Fs → ℕ
  answered (err e) = 0
  answered (ok (n, out)) = n.mode

  Finds-answered :
      (answer : Found L T Fs) (mode : ℕ) (n : Inode L T Fs) (attrs : EntryOut)
      → Finds answer mode
      → answer ≡ ok (n, attrs)
      → mode ≡ n.mode
  Finds-answered answer mode n attrs (node, out, e) h = ap answered (sym e ∙ h)

  module _ (t : Tree) (path : Bytes) (look : Bytes → Found L T Fs) where
    child-IsServed :
        (e : Entry)
        → IsIndexed t
        → Canonical path
        → NoMeta t
        → IsLookupOf t path look
        → IsChild t (canon path) e
        → IsServed look (listed e)
    unfolding listed
    child-IsServed e i c n l k =
        let (name, joined, there) = child-IsNamedIn t path e i c k in
        l.entry (base e.path) e (is_meta-listed t path (base e.path) e n there) there

    pub listing-IsServed :
        IsIndexed t
        → Canonical path
        → NoMeta t
        → IsLookupOf t path look
        → All (IsServed look) (with_meta path (listed_all (children t path)))
    unfolding bytes_beq
    listing-IsServed i c n l =
        All-with_meta (IsServed look) path _ (λ r. l.meta meta_dir_name (rw r refl))
          (All-listed_all (IsServed look) _
            (All-map (λ e k. child-IsServed e i c n l k) _ (children-IsChild t path i)))

    entry-IsListed :
        (child : Bytes) (e : Entry)
        → IsIndexed t
        → Canonical path
        → IsName child
        → get t (join_in_image path child) ≡ some e
        → IsListed (listed_all (children t path)) child (mode_of e)
    unfolding listed get
    entry-IsListed child e i (ds, names, at) name h =
        let below : List Bytes = ds ++ child ∷ [] in
        let dir : canon path ≡ render ds = ap canon at ∙ canon-render ds names in
        let joined : join_in_image path child ≡ render below =
          ap (λ q. join_in_image q child) at ∙ join_in_image-render ds child names in
        let kept : canon (join_in_image path child) ≡ render below =
          ap canon joined
          ∙ canon-render below (All-append IsName ds (child ∷ []) names (name, tt)) in
        let there : lookup (render below) t.entries ≡ some e =
          ap (λ q. lookup q t.entries) (sym kept) ∙ h in
        let filed : is_child (canon path) (render below) ≡ true =
          ap (λ q. is_child q (render below)) dir ∙ is_child-render ds child names name in
        let same : e.path ≡ render below = (All-lookup _ _ e t.entries i.valid there).1 in
        let last : base e.path ≡ child = ap base same ∙ base-render ds child name in
        Any-listed_all _ (children t path) (
          Any-map (λ x eq. ap listed eq ∙ ap (λ n. record { name = n; mode = mode_of e }) last) _
            (Any-children t path _ e i filed there))

    pub lookup-IsListed :
        (child : Bytes) (n : Inode L T Fs) (attrs : EntryOut)
        → IsIndexed t
        → Canonical path
        → IsLookupOf t path look
        → IsName child
        → look child ≡ ok (n, attrs)
        → IsListed (with_meta path (listed_all (children t path))) child n.mode
    unfolding with_meta
    lookup-IsListed child n attrs i c l name h = elim (Bool-cases (is_meta path child)) [
      | inl m ↦
          let mode = Finds-answered _ _ n attrs (l.meta child m) h in
          let here : (path == root) ≡ true = ground (arith, m) in
          let named : child ≡ meta_dir_name =
            (bytes_eq.equal_iff child meta_dir_name).0 (ground (arith, m)) in
          rw (here, with_meta) (inl (ap₂ (λ c k. record { name = c; mode = k }) (sym named) mode))
      | inr f ↦ elim (Option-cases (get t (join_in_image path child))) [
        | inl no_entry ↦ cc (sym (l.nothing child f no_entry) ∙ h)
        | inr (e, there) ↦
            let mode = Finds-answered _ _ n attrs (l.entry child e f there) h in
            Any-with_meta _ path _ (
              subst (IsListed (listed_all (children t path)) child) mode
                (entry-IsListed child e i c name there))
      ]
    ]

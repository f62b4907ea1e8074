-- ===== src/Mount.antt =====
-- internal/mount: the nodes of the file system, and what their methods are given and answer. An
-- inode of go-fuse is a node with its type bits; a registry, the disk and the libraries are behind
-- the operations of `Services`.
pub mod Attrs
pub mod Paths
pub mod Dirs
pub mod Files
pub mod Images
pub mod Segments
pub mod Prefixes
pub mod Mounting
pub mod Meta
pub mod Shown
pub mod Indexed
use ocifuse.Prelude.{
  ℕ, ◌+◌, ℤ, Bool, Option, List, Bytes, codes, bytes_eq, ◌&&◌, Result, Comparable, ◌==◌, ◌≡◌, ◌↔◌,
  refl, arith, true, ◌∷◌, ◌++◌, if◌then◌else◌,
}
use ocifuse.Prelude.Dict.{Dict}
use ocifuse.SlashPath.{slash, root}
use ocifuse.Merge.{Entry, Tree}
use ocifuse.Oci.{Hash, Platform, PlatformDigest, Context, Image}
use ocifuse.Indexer.{Layer}

abbrev pub s_ifdir : ℕ
s_ifdir = 0o40000

abbrev pub s_iflnk : ℕ
s_iflnk = 0o120000

abbrev pub s_ifreg : ℕ
s_ifreg = 0o100000

-- gofuse.Attr, as far as the program sets it.
pub record Attr : Type 0 where
  pub mode : ℕ
  pub size : ℕ
  pub uid : ℕ
  pub gid : ℕ
  pub mtime : ℕ
  pub atime : ℕ
  pub ctime : ℕ
  pub nlink : ℕ
  pub blksize : ℕ
  pub blocks : ℕ

-- gofuse.EntryOut embeds an Attr, so that `out.Mode` is `out.Attr.Mode`. Without an entry timeout
-- that of the mount holds.
pub record EntryOut : Type 0 where
  pub attr : Attr
  pub entry_timeout : Option ℤ

abbrev pub set_mode : ℕ → EntryOut → EntryOut
set_mode mode out = record out { attr = record out.attr { mode = mode } }

-- syscall.ENOENT and syscall.EIO
pub data Errno : Type 0 where
  enoent : Errno
  eio : Errno

pub record DirEntry : Type 0 where
  pub name : Bytes
  pub mode : ℕ

-- name.Digest with its DigestStr, and name.Tag with its TagStr.
pub data Reference : Type 0 where
  digest_ref : Context → Bytes → Reference
  tag_ref : Context → Bytes → Reference

abbrev pub context : Reference → Context
context (digest_ref ctx digest) = ctx
context (tag_ref ctx tag) = ctx

-- `==` on v1.Hash
unfoldable pub hash_beq : Hash → Hash → Bool
hash_beq a b = a.algorithm == b.algorithm && a.hex == b.hex

pub hash_beq_iff : (a b : Hash) → (hash_beq a b ≡ true) ↔ (a ≡ b)
unfolding hash_beq
hash_beq_iff a b =
    ground (arith, bytes_eq.equal_iff a.algorithm b.algorithm, bytes_eq.equal_iff a.hex b.hex)

instance abbrev pub hash_eq : Comparable Hash
hash_eq = record { equal = hash_beq; equal_iff = hash_beq_iff }

-- L, T and Fs are the types of layers of a registry, of transports and of file systems of layers.
pub record ResolvedImage (L T Fs : Type 0) : Type 0 where
  pub img : Image Reference L T
  pub layers : List (Layer Fs)
  pub tree : Tree

pub record ImageDir (L T Fs : Type 0) : Type 0 where
  pub ri : ResolvedImage L T Fs
  pub tree : Tree
  pub path : Bytes

pub record ImageFile (Fs : Type 0) : Type 0 where
  pub layers : List (Layer Fs)
  pub entry : Entry

pub record LayerDir (Fs : Type 0) : Type 0 where
  pub layer : Layer Fs
  pub tree : Tree
  pub path : Bytes

-- The nodes below the root; MemSymlink and MemRegularFile are go-fuse's.
pub data Node (L T Fs : Type 0) : Type 0 where
  intermediate_node : Bytes → Node L T Fs
  image_dir : ImageDir L T Fs → Node L T Fs
  image_file : ImageFile Fs → Node L T Fs
  image_meta_dir : ResolvedImage L T Fs → Node L T Fs
  layers_dir : ResolvedImage L T Fs → Node L T Fs
  layer_dir : LayerDir Fs → Node L T Fs
  layer_meta_dir : Layer Fs → Node L T Fs
  mem_symlink : Bytes → Node L T Fs
  mem_regular_file : Bytes → Attr → Node L T Fs

pub record Inode (L T Fs : Type 0) : Type 0 where
  pub node : Node L T Fs
  pub mode : ℕ

-- What a Lookup answers.
abbrev pub Found : Type 0 → Type 0 → Type 0 → Type 0
Found L T Fs = Result Errno (Inode L T Fs × EntryOut)

-- The state of the file system. The time to live of tags is in nanoseconds.
pub record Filesystem (L T Fs : Type 0) : Type 0 where
  pub platform : Platform
  pub tag_ttl : ℤ
  pub images : Dict Hash (ResolvedImage L T Fs)

pub data ReadError (E : Type 0) : Type 0 where
  eof : ReadError E
  read_failed : E → ReadError E

-- What the package calls: name.ParseReference, v1.ParsePlatform, v1.NewHash, oci.Resolve and
-- oci.ResolveDigestAndPlatforms, the Digest of a layer, Indexer.Open, the Open of a layer's file
-- system, and ReadAt of a file, if it has that. S is the state of the registry and the disk.
pub record Services (S L T Fs F E : Type 0) : Type 0 where
  pub parse_reference : Bytes → Result E Reference
  pub parse_platform : Bytes → Result E Platform
  pub new_hash : Bytes → Result E Hash
  pub resolve : Reference → Platform → S → Result E (Image Reference L T) × S
  pub resolve_digest_and_platforms :
      Reference → Platform → S → Result E (Hash × List PlatformDigest) × S
  pub layer_digest : L → Result E Hash
  pub open_layer : Bytes → L → T → S → Result E (Layer Fs) × S
  pub open_file : Fs → Bytes → Result E F
  pub read_at : F → Option (ℕ → ℤ → Bytes × Option (ReadError E))

unfoldable pub join_in_image : Bytes → Bytes → Bytes
join_in_image parent child = if parent == root then slash ∷ child else parent ++ slash ∷ child

abbrev pub meta_dir_name : Bytes
meta_dir_name = codes "@@meta"

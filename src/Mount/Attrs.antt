-- ===== src/Mount/Attrs.antt =====
-- internal/mount/mount.go: the attributes of a file, from its tar header.
use ocifuse.Prelude.{
  ℕ, ◌+◌, ◌*◌, ◌/◌, ◌%◌, ◌^◌, ◌≤◌, ◌<◌, Bool, Option, none, some, ◌==◌, nat_eq, if◌then◌else◌, ◌≡◌,
  refl, arith,
}
use ocifuse.Merge.{Header, type_dir, type_symlink}
use ocifuse.Mount.{Attr, s_ifdir, s_iflnk, s_ifreg}

-- The low twelve bits of the mode, or a default for none.
unfoldable pub permissions : Header → Bool → ℕ
permissions h is_dir =
    let mode = h.mode % 2 ^ 32 % 0o10000 in
    if mode == 0 then (if is_dir then 0o755 else 0o644) else mode

unfoldable pub type_bits : Header → ℕ
type_bits h =
    if h.typeflag == type_dir
    then s_ifdir
    else if h.typeflag == type_symlink
    then s_iflnk
    else s_ifreg

abbrev pub set_times : Option ℕ → Attr → Attr
set_times none out = out
set_times (some t) out = record out { mtime = t % 2 ^ 64; atime = t % 2 ^ 64; ctime = t % 2 ^ 64 }

-- The type bits are above the twelve bits of the permissions, so that `|` adds them. The times are
-- set apart from the other fields.
unfoldable pub set_attr_from_header : Attr → Header → Bool → Attr
set_attr_from_header out h is_dir =
    let size = h.size % 2 ^ 64 in
    set_times h.mod_time (record out {
      mode = permissions h is_dir + type_bits h;
      size = size;
      uid = h.uid % 2 ^ 32;
      gid = h.gid % 2 ^ 32;
      nlink = 1;
      blksize = 4096;
      blocks = (size + 511) % 2 ^ 64 / 512;
    })

permissions-bounds :
    (h : Header) (is_dir : Bool) → (0 < permissions h is_dir) × (permissions h is_dir < 0o10000)
unfolding permissions
permissions-bounds h is_dir = ground arith

-- The two parts of a mode do not overlap.
mode-parts :
    (h : Header) (p : ℕ)
    → p < 0o10000
    → ((p + type_bits h) % 0o10000 ≡ p) × ((p + type_bits h) / 0o10000 * 0o10000 ≡ type_bits h)
unfolding type_bits
mode-parts h p b = ground (arith, b)

-- Blocks of 512 bytes that hold a file, and no more than are needed.
abbrev pub IsBlocksOf : ℕ → ℕ → Type 0
IsBlocksOf size blocks = (size ≤ 512 * blocks) × (512 * blocks < size + 512)

blocks-bounds :
    (s : ℕ) → s + 511 < 2 ^ 64 → IsBlocksOf (s % 2 ^ 64) ((s % 2 ^ 64 + 511) % 2 ^ 64 / 512)
blocks-bounds s h = ground (arith, h)

-- The attributes that do not depend on the times.
abbrev pub IsFitting : Header → Bool → Attr → Type 0
IsFitting h is_dir a =
    (0 < a.mode % 0o10000)
    × (a.mode % 0o10000 ≡ permissions h is_dir)
    × (a.mode / 0o10000 * 0o10000 ≡ type_bits h)
    × (a.size ≡ h.size % 2 ^ 64)
    × (a.uid < 2 ^ 32)
    × (a.gid < 2 ^ 32)
    × IsBlocksOf a.size a.blocks

IsFitting-set_times :
    (h : Header) (is_dir : Bool) (t : Option ℕ) (a : Attr)
    → IsFitting h is_dir a
    → IsFitting h is_dir (set_times t a)
IsFitting-set_times h is_dir none a f = f
IsFitting-set_times h is_dir (some t) a f = f

-- The attributes of a file whose size plus 511 fits 64 bits have permission bits, never none,
-- apart from the type bits, 32-bit owners, and as many blocks of 512 bytes as the file needs.
pub set_attr_from_header_bounds :
    (out : Attr) (h : Header) (is_dir : Bool)
    → h.size + 511 < 2 ^ 64
    → IsFitting h is_dir (set_attr_from_header out h is_dir)
unfolding set_attr_from_header
set_attr_from_header_bounds out h is_dir s =
    let (some_bit, small) = permissions-bounds h is_dir in
    let (low, high) = mode-parts h (permissions h is_dir) small in
    IsFitting-set_times h is_dir h.mod_time _
      (rw low some_bit, low, high, refl, omega arith, omega arith, blocks-bounds h.size s)

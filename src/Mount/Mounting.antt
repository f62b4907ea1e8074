-- ===== src/Mount/Mounting.antt =====
-- internal/mount/mount.go: Mount. The Mount of go-fuse is a parameter; the root node that it is
-- given is that of the file system.
use ocifuse.Prelude.{ℤ, pos, Bool, Bytes, Result}
use ocifuse.Mount.{Filesystem}
use ocifuse.Mount.Prefixes.{minute}

-- The times are in nanoseconds.
pub record Options : Type 0 where
  pub entry_timeout : ℤ
  pub attr_timeout : ℤ
  pub negative_timeout : ℤ
  pub debug : Bool

-- time.Hour
abbrev pub hour : ℤ
hour = pos 3_600_000_000_000

abbrev pub options_of : Bool → Options
options_of debug = record {
  entry_timeout = hour;
  attr_timeout = hour;
  negative_timeout = minute;
  debug = debug;
}

-- The map of images that Mount makes if there is none yet is the empty one.
abbrev pub mount :
    {L T Fs Server E : Type 0}
    → (Bytes → Filesystem L T Fs → Options → Result E Server)
    → Filesystem L T Fs
    → Bytes
    → Bool
    → Result E Server
mount mount_root fs mountpoint debug = mount_root mountpoint fs (options_of debug)

-- ===== src/CommandLine/Start.antt =====
-- cmd/ocifuse/main.go: run, up to the mounted file system. The environment, the numbers and
-- go-fuse's Mount are parameters; logging, and the goroutine that unmounts on a signal, are left
-- out.
pub mod Started
pub mod Life
use ocifuse.Prelude.{
  ℕ, ℤ, pos, ◌^◌, Bool, true, false, Option, none, some, List, [], ◌∷◌, Bytes, Result, ok, err,
  ◌>>=◌, wrapped,
}
use ocifuse.ChunkCache.{ChunkCache, new_chunk_cache}
use ocifuse.CommandLine.{SizeError, parse_bytes, resolve_cache_dir}
use ocifuse.DiskCache.{DiskCache, Disk, Faults, IoError, new}
use ocifuse.Indexer.{Indexer}
use ocifuse.Mount.{Filesystem}
use ocifuse.Mount.Mounting.{Options, mount}
use ocifuse.Oci.{Hash, Platform}

-- The variables of the environment, or their defaults.
pub record Config : Type 0 where
  pub platform : Bytes
  pub cache_dir : Bytes
  pub cache_max_size : Bytes
  pub memory_max_size : Bytes
  pub tag_ttl : ℤ
  pub debug : Bool

pub data RunError (E : Type 0) : Type 0 where
  usage : RunError E
  config_failed : E → RunError E
  platform_failed : Bytes → E → RunError E
  no_cache_dir : E → RunError E
  cache_size_failed : Bytes → SizeError E → RunError E
  memory_size_failed : Bytes → SizeError E → RunError E
  cache_failed : IoError → RunError E
  mount_failed : Bytes → E → RunError E

-- What the process is given: envconfig.Process, v1.ParsePlatform, strconv.ParseFloat with the
-- product as an int64, XDG_CACHE_HOME, os.UserHomeDir, the faults of cache.New, and go-fuse's
-- Mount. N is the type of the numbers.
pub record Environment (L T Fs N E : Type 0) : Type 0 where
  pub config : Result E Config
  pub parse_platform : Bytes → Result E Platform
  pub parse_float : Bytes → Result E N
  pub times : N → ℕ → ℤ
  pub xdg : Bytes
  pub home : Result E Bytes
  pub faults : Faults
  pub mount_root : Bytes → Filesystem L T Fs → Options → Result E (Unit {0})

-- The objects that run makes. `disk_cache` is the variable that oci.SetCache sets.
pub record System (L T Fs : Type 0) : Type 0 where
  pub disk_cache : Option DiskCache
  pub cache : DiskCache
  pub chunks : ChunkCache Hash
  pub indexer : Indexer
  pub filesystem : Filesystem L T Fs

-- The mount point is the only argument.
abbrev pub mountpoint_of : {E : Type 0} → List Bytes → Result (RunError E) Bytes
mountpoint_of (program ∷ mountpoint ∷ []) = ok mountpoint
mountpoint_of _ = err usage

-- The objects, once everything that can fail has not. Mount makes the map of images.
abbrev pub assembled : {L T Fs : Type 0} → Config → Platform → ℤ → DiskCache → System L T Fs
assembled cfg platform mem_bytes c =
    let chunks = new_chunk_cache mem_bytes (pos (2 ^ 20)) in
    record {
      disk_cache = some c;
      cache = c;
      chunks = chunks;
      indexer = record { chunks = some chunks };
      filesystem = record { platform = platform; tag_ttl = cfg.tag_ttl; images = [] };
    }

module _ {L T Fs N E : Type 0} where
  unfoldable pub run :
      Environment L T Fs N E → List Bytes → Disk → Result (RunError E) (System L T Fs)
  run env args disk = do
    mountpoint ← mountpoint_of args
    cfg ← wrapped config_failed env.config
    platform ← wrapped (platform_failed cfg.platform) (env.parse_platform cfg.platform)
    cache_dir ← wrapped no_cache_dir (resolve_cache_dir cfg.cache_dir env.xdg env.home)
    max_bytes ←
        wrapped (cache_size_failed cfg.cache_max_size)
          (parse_bytes env.parse_float env.times cfg.cache_max_size)
    mem_bytes ←
        wrapped (memory_size_failed cfg.memory_max_size)
          (parse_bytes env.parse_float env.times cfg.memory_max_size)
    c ← wrapped cache_failed (new env.faults cache_dir max_bytes disk)
    let system = assembled cfg platform mem_bytes c
    done ←
        wrapped (mount_failed mountpoint)
          (mount env.mount_root system.filesystem mountpoint cfg.debug)
    ok system

-- ===== src/Tests/Starts.antt =====
-- A run of cmd/ocifuse/main.go up to the mounted file system, and its theorem there.
use ocifuse.Prelude.{ℕ, pos, ◌≡◌, refl, false, some, List, [], ◌∷◌, Bytes, codes, bytes_eq, ok}
use ocifuse.ChunkCache.{new_chunk_cache}
use ocifuse.CommandLine.Start.{Config, Environment, System, run}
use ocifuse.CommandLine.Start.Life.{Lives, mounted, called, IsAccounted-Lives}
use ocifuse.DiskCache.{open_value}
use ocifuse.DiskCache.Accounts.{IsAccounted}
use ocifuse.DiskCache.Steps.{wrote, opened}
use ocifuse.Oci.{default_platform}
use ocifuse.Tests.Disks.{no_faults, disk, disk-Unique, cache, after}
use ocifuse.Tests.Sizes.{digits, times}

program : Unit {0}
unfolding ocifuse.Tests.Disks.program ocifuse.Tests.Sizes.program new_chunk_cache run
program = tt

abbrev config : Config
config = record {
  platform = codes "linux/amd64";
  cache_dir = codes "/c";
  cache_max_size = codes "10";
  memory_max_size = codes "1K";
  tag_ttl = pos 60;
  debug = false;
}

abbrev env : Environment ℕ ℕ ℕ ℕ ℕ
env = record {
  config = ok config;
  parse_platform = λ s. ok default_platform;
  parse_float = digits 0;
  times = times;
  xdg = [];
  home = ok (codes "/root");
  faults = no_faults;
  mount_root = λ mountpoint fs options. ok tt;
}

abbrev args : List Bytes
args = codes "ocifuse" ∷ codes "/mnt" ∷ []

abbrev started : System ℕ ℕ ℕ
started = record {
  disk_cache = some cache;
  cache = cache;
  chunks = new_chunk_cache (pos 1024) (pos 1048576);
  indexer = record { chunks = some (new_chunk_cache (pos 1024) (pos 1048576)) };
  filesystem = record { platform = default_platform; tag_ttl = pos 60; images = [] };
}

mounted_run : run env args disk ≡ ok started
unfolding program
mounted_run = refl

-- A file is written, which two others have to go for, and read.
lived : Lives env args disk after.1.0 (open_value no_faults 5 after.1.0 (codes "x/y") after.1.1).1
unfolding program
lived =
    called
      (called (mounted started mounted_run)
        (wrote no_faults 4 (codes "x/y") (ok (codes "yyyyyy")) refl refl refl refl))
      (opened no_faults 5 (codes "x/y") refl)

IsAccounted-Lives_example :
    IsAccounted after.1.0 (open_value no_faults 5 after.1.0 (codes "x/y") after.1.1).1
unfolding program
IsAccounted-Lives_example = IsAccounted-Lives env args disk disk-Unique lived refl

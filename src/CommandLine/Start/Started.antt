-- ===== src/CommandLine/Start/Started.antt =====
-- cmd/ocifuse/main.go: the state that run leaves when the file system is mounted.
use mathlib.Core.Path.{subst}
use ocifuse.Prelude.{
  ◌^◌, ◌≡◌, refl, sym, ap, ◌∙◌, ℤ, pos, nonpositive, false, some, List, [], Bytes, bytes_eq, ok,
  >>=-eq-ok, wrapped, wrapped-eq-ok, arith,
}
use ocifuse.Prelude.Dict.{Unique}
use ocifuse.ChunkCache.{new_chunk_cache}
use ocifuse.ChunkCache.Valid.{IsValid, IsValid-new_chunk_cache}
use ocifuse.CommandLine.{parse_bytes, resolve_cache_dir}
use ocifuse.CommandLine.Start.{
  Config, config_failed, platform_failed, no_cache_dir, cache_size_failed, memory_size_failed,
  cache_failed, mount_failed, Environment, System, mountpoint_of, assembled, run,
}
use ocifuse.DiskCache.{DiskCache, Disk, Faults, new, rescan}
use ocifuse.DiskCache.Accounts.{IsAccounted, new-IsAccounted}
use ocifuse.Mount.{hash_eq}
use ocifuse.Mount.Mounting.{mount}

new-fields :
    (faults : Faults) (dir : Bytes) (max_bytes : ℤ) (disk : Disk) (c : DiskCache)
    → new faults dir max_bytes disk ≡ ok c
    → (c.dir ≡ dir) × (c.cap ≡ max_bytes)
unfolding new rescan
new-fields faults dir max_bytes disk c h = ground (arith, h)

module _ {L T Fs N E : Type 0} where
  -- The caches have the directory and the limits of the configuration, and the states that their
  -- theorems start from; there are no images yet.
  pub record IsStarted (env : Environment L T Fs N E) (disk : Disk) (s : System L T Fs)
      : Type 0 where
    pub cfg : Config
    pub configured : env.config ≡ ok cfg
    pub platform : env.parse_platform cfg.platform ≡ ok s.filesystem.platform
    pub dir : resolve_cache_dir cfg.cache_dir env.xdg env.home ≡ ok s.cache.dir
    pub limit : parse_bytes env.parse_float env.times cfg.cache_max_size ≡ ok s.cache.cap
    pub memory : parse_bytes env.parse_float env.times cfg.memory_max_size ≡ ok s.chunks.cap
    pub shared : s.disk_cache ≡ some s.cache
    pub accounted : nonpositive s.cache.cap ≡ false → IsAccounted s.cache disk
    pub chunks : IsValid s.chunks
    pub images : s.filesystem.images ≡ []

  assembled-IsStarted :
      (env : Environment L T Fs N E) (disk : Disk) (cfg : Config) (platform : _) (dir : Bytes)
      (max_bytes mem_bytes : ℤ) (c : DiskCache)
      → Unique disk
      → env.config ≡ ok cfg
      → env.parse_platform cfg.platform ≡ ok platform
      → resolve_cache_dir cfg.cache_dir env.xdg env.home ≡ ok dir
      → parse_bytes env.parse_float env.times cfg.cache_max_size ≡ ok max_bytes
      → parse_bytes env.parse_float env.times cfg.memory_max_size ≡ ok mem_bytes
      → new env.faults dir max_bytes disk ≡ ok c
      → IsStarted env disk (assembled cfg platform mem_bytes c)
  unfolding new_chunk_cache
  assembled-IsStarted env disk cfg platform dir max_bytes mem_bytes c u g p d m b n =
      let (at, cap) = new-fields env.faults dir max_bytes disk c n in
      record {
        cfg = cfg;
        configured = g;
        platform = p;
        dir = d ∙ ap ok (sym at);
        limit = m ∙ ap ok (sym cap);
        memory = b;
        shared = refl;
        accounted = λ positive.
            new-IsAccounted env.faults dir max_bytes disk c u (ap nonpositive (sym cap) ∙ positive)
              n;
        chunks = IsValid-new_chunk_cache mem_bytes (pos (2 ^ 20));
        images = refl;
      }

  -- When run mounts on a disk with no path twice, the cache has the directory and the limit of
  -- the configuration and is the one set for the transport, its tracked size is the sum of the
  -- files below its directory if there is a limit, the chunk cache is valid and has its own
  -- limit, and there are no images, and the platform is that of the configuration.
  pub run-IsStarted :
      (env : Environment L T Fs N E) (args : List Bytes) (disk : Disk) (s : System L T Fs)
      → Unique disk
      → run env args disk ≡ ok s
      → IsStarted env disk s
  unfolding run
  run-IsStarted env args disk s u h =
      let (mountpoint, _, h1) = >>=-eq-ok (mountpoint_of args) _ s h in
      let (cfg, g, h2) = >>=-eq-ok (wrapped config_failed env.config) _ s h1 in
      let (platform, p, h3) =
        >>=-eq-ok (wrapped (platform_failed cfg.platform) (env.parse_platform cfg.platform)) _ s
          h2 in
      let dirs = resolve_cache_dir cfg.cache_dir env.xdg env.home in
      let (dir, d, h4) = >>=-eq-ok (wrapped no_cache_dir dirs) _ s h3 in
      let limit = parse_bytes env.parse_float env.times cfg.cache_max_size in
      let (max_bytes, m, h5) =
        >>=-eq-ok (wrapped (cache_size_failed cfg.cache_max_size) limit) _ s h4 in
      let memory = parse_bytes env.parse_float env.times cfg.memory_max_size in
      let (mem_bytes, b, h6) =
        >>=-eq-ok (wrapped (memory_size_failed cfg.memory_max_size) memory) _ s h5 in
      let opened = new env.faults dir max_bytes disk in
      let (c, n, h7) = >>=-eq-ok (wrapped cache_failed opened) _ s h6 in
      let system = assembled cfg platform mem_bytes c in
      let mounted = mount env.mount_root system.filesystem mountpoint cfg.debug in
      let (done, _, h8) = >>=-eq-ok (wrapped (mount_failed mountpoint) mounted) _ s h7 in
      let same : system ≡ s = ground (arith, h8) in
      subst (IsStarted env disk) same (
        assembled-IsStarted env disk cfg platform dir max_bytes mem_bytes c u
          (wrapped-eq-ok config_failed env.config cfg g)
          (wrapped-eq-ok (platform_failed cfg.platform) (env.parse_platform cfg.platform) platform
            p)
          (wrapped-eq-ok no_cache_dir dirs dir d)
          (wrapped-eq-ok (cache_size_failed cfg.cache_max_size) limit max_bytes m)
          (wrapped-eq-ok (memory_size_failed cfg.memory_max_size) memory mem_bytes b)
          (wrapped-eq-ok cache_failed opened c n))

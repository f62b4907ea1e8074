-- ===== src/CommandLine/Start/Life.antt =====
-- cmd/ocifuse/main.go and internal/cache/cache.go: the disk cache from the start of the program on.
use ocifuse.Prelude.{List, Bytes, bytes_eq, nonpositive, false, ◌≡◌, sym, ap, ◌∙◌, ok}
use ocifuse.Prelude.Dict.{Unique}
use ocifuse.CommandLine.Start.{Environment, System, run}
use ocifuse.CommandLine.Start.Started.{run-IsStarted}
use ocifuse.DiskCache.{DiskCache, Disk}
use ocifuse.DiskCache.Accounts.{IsAccounted}
use ocifuse.DiskCache.Steps.{Step, cap-Step, IsAccounted-Step}

module _ {L T Fs N E : Type 0} where
  -- The states of the cache that run has set, and of the disk, after any calls in any order.
  pub data Lives (env : Environment L T Fs N E) (args : List Bytes) (disk : Disk)
      : DiskCache → Disk → Type 0 where
    mounted : (s : System L T Fs) → run env args disk ≡ ok s → Lives env args disk s.cache disk
    called :
        {c c' : DiskCache} {disk1 disk2 : Disk}
        → Lives env args disk c disk1
        → Step c disk1 c' disk2
        → Lives env args disk c' disk2

  -- From the mounting by run on, on a disk with no path twice and with a positive limit, after
  -- any calls of Write and Open in any order, the tracked size of the disk cache is the sum of
  -- the files below its directory: calls may fail, and evict may miss files or be unable to
  -- remove them, but the keys are below the directory, and in Write os.Stat and the removal of
  -- the temporary file do not fail.
  pub IsAccounted-Lives :
      (env : Environment L T Fs N E) (args : List Bytes) (disk : Disk) {c : DiskCache}
      {disk' : Disk}
      → Unique disk
      → Lives env args disk c disk'
      → nonpositive c.cap ≡ false
      → IsAccounted c disk'
  IsAccounted-Lives env args disk u (mounted s h) p =
      (run-IsStarted env args disk s u h).accounted p
  IsAccounted-Lives env args disk u (called lives step) p =
      let limited = ap nonpositive (sym (cap-Step step)) ∙ p in
      IsAccounted-Step step limited (IsAccounted-Lives env args disk u lives limited)

-- ===== src/Tests/Disks.antt =====
-- Runs of internal/cache, and its theorems at concrete disks.
use ocifuse.Prelude.{
  ℕ, pos, ◌≡◌, refl, false, none, some, Option, [], ◌∷◌, ◌++◌, Bytes, codes, bytes_eq, bytes_beq,
  ok, ltb, arith,
}
use ocifuse.Prelude.Dict.{lookup, insert, delete, delete_where, has, keys, Unique}
use ocifuse.Prelude.Sort.{sort, insert_sorted}
use ocifuse.Strings.{has_prefix, split, extend, join}
use ocifuse.SlashPath.{go_up, clean_step, clean_loop, clean, path_join}
use ocifuse.DiskCache.{
  File, Disk, DiskCache, IoError, io_failed, Faults, total_below, rescan, new, open_value,
  has_value, candidates, reached, evict_loop, evict, write,
}
use ocifuse.DiskCache.Accounts.{IsAccounted, new-IsAccounted}
use ocifuse.DiskCache.Writes.{IsBounded, write-IsAccounted, write-IsBounded}
use ocifuse.DiskCache.RoundTrip.{open_value-write}
use ocifuse.DiskCache.Outside.{lookup-write_outside}
use ocifuse.DiskCache.Oldest.{evict_oldest}

unfoldable pub program : Unit {0}
unfolding bytes_beq lookup insert delete delete_where has keys sort insert_sorted has_prefix split
    extend join go_up clean_step clean_loop clean path_join total_below rescan new open_value
    has_value candidates reached evict_loop evict write
program = tt

abbrev pub no_faults : Faults
no_faults = record {
  mkdir = none;
  walk = none;
  open_file = none;
  chtimes = false;
  stat_before = false;
  create_temp = none;
  close = none;
  rename = none;
  stat_after = none;
  not_listed = λ p. false;
  not_removed = λ p. false;
  temp_not_removed = none;
}

abbrev file : Bytes → ℕ → File
file content mtime = record { content = content; mtime = mtime }

abbrev pub disk : Disk
disk =
    (codes "/c/a", file (codes "aaaa") 3)
    ∷ (codes "/c/b", file (codes "bbb") 1)
    ∷ (codes "/home", file (codes "h") 0)
    ∷ (codes "/c/d/e", file (codes "ee") 2)
    ∷ []

abbrev pub cache : DiskCache
cache = record { dir = codes "/c"; cap = pos 10; size = pos 9 }

new_run : new no_faults (codes "/c") (pos 10) disk ≡ ok cache
unfolding program
new_run = refl

-- A directory that is not clean.
unclean_run : new no_faults (codes "/c/") (pos 10) disk ≡ ok (record cache { dir = codes "/c/" })
unfolding program
unclean_run = refl

-- The temporary file of a write that fails stays there, and is not counted.
stays_run :
    (write
      (record no_faults {
        rename = some (io_failed 5);
        temp_not_removed = some (codes "/c/.tmp-1", codes "yy");
      })
      4
      cache
      (codes "y")
      (ok (codes "yyyyyy"))
      disk).1
    ≡ (cache, disk ++ (codes "/c/.tmp-1", file (codes "yy") 4) ∷ [])
unfolding program
stays_run = refl

pub disk-Unique : Unique disk
unfolding program
disk-Unique = (refl, (refl, (refl, (refl, tt))))

disk-IsAccounted : IsAccounted cache disk
disk-IsAccounted =
    new-IsAccounted no_faults (codes "/c") (pos 10) disk cache disk-Unique refl new_run

-- A new file of six bytes: the two oldest go.
abbrev pub after : Option IoError × (DiskCache × Disk)
after = write no_faults 4 cache (codes "x/y") (ok (codes "yyyyyy")) disk

after_run : keys after.1.1 ≡ codes "/c/a" ∷ codes "/home" ∷ codes "/c/x/y" ∷ []
unfolding program
after_run = refl

write-IsAccounted_example : IsAccounted after.1.0 after.1.1
unfolding program
write-IsAccounted_example =
    write-IsAccounted no_faults 4 cache (codes "x/y") (ok (codes "yyyyyy")) disk refl refl refl refl
      refl disk-IsAccounted

write-IsBounded_example : IsBounded after.1.0 after.1.1
unfolding program
write-IsBounded_example =
    write-IsBounded no_faults 4 cache (codes "x/y") (ok (codes "yyyyyy")) disk refl refl refl refl
      refl (λ q. refl) (λ q. refl) (record { accounted = disk-IsAccounted; within = refl })

open_value-write_example :
    (open_value no_faults 5 cache (codes "x/y") after.1.1).0 ≡ ok (codes "yyyyyy")
unfolding program
open_value-write_example =
    open_value-write no_faults no_faults 4 5 9 cache (codes "x/y") (codes "yyyyyy") disk refl refl
      refl (λ q. refl) (λ q. refl) disk-IsAccounted
      (omega arith, (omega arith, (omega arith, (omega arith, tt)))) (omega arith) refl refl

lookup-write_outside_example : lookup (codes "/home") after.1.1 ≡ some (file (codes "h") 0)
unfolding program
lookup-write_outside_example =
    lookup-write_outside no_faults 4 cache (codes "x/y") (ok (codes "yyyyyy")) disk (codes "/home")
      disk-Unique refl (λ path bytes h. cc) refl

abbrev small : DiskCache
small = record cache { cap = pos 7 }

evict_oldest_example : ltb 3 1 ≡ false
unfolding program
evict_oldest_example =
    evict_oldest no_faults small disk (codes "/c/b") (codes "/c/a") (file (codes "bbb") 1)
      (file (codes "aaaa") 3) disk-Unique (λ r. refl) (λ r. refl) refl refl refl refl refl refl

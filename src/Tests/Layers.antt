-- ===== src/Tests/Layers.antt =====
-- Runs of internal/layer/layer.go, alone and for the layers of an image, with readers that know what
-- they read.
use ocifuse.Prelude.{
  ℕ, arith, ◌≡◌, refl, pos, none, List, [], ◌∷◌, ◌++◌, Bytes, codes, nat_eq, bytes_eq, ok, err,
}
use ocifuse.DiskCache.{DiskCache, Disk}
use ocifuse.Merge.{TarEntry}
use ocifuse.Oci.{Hash}
use ocifuse.Indexer.{
  Layer, Indexer, Libraries, LayerError, library_failed, Calls, Moment, load_cached,
}
use ocifuse.Indexer.Opening.{build_layer, open_layer}
use ocifuse.Indexer.Stored.{IsLossless}
use ocifuse.Indexer.Cached.{CanRead}
use ocifuse.Indexer.Reopened.{open_layer_again}
use ocifuse.Merge.Build.{merge}
use ocifuse.Mount.{ResolvedImage, Services}
use ocifuse.Mount.Images.{open_one, open_layers, build_image}
use ocifuse.Mount.Indexed.{Opens, with_indexer}
use ocifuse.Mount.Indexed.Again.{build_image_again}
use ocifuse.Tests.Disks.{no_faults}
use ocifuse.Tests.Mounts.{hash, top, image}

program : Unit {0}
unfolding ocifuse.Tests.Disks.program load_cached build_layer open_layer
program = tt

abbrev entries : List TarEntry
entries = top.entries

-- A TOC of no bytes; checkpoints are the bytes that say so.
abbrev lib : Libraries ℕ ℕ ℕ Bytes Bytes ℕ
lib = record {
  layer_digest = λ l. ok (hash l);
  layer_size = λ l. ok 10;
  ranger = λ url tr. 0;
  new_reader = λ rra size. ok [];
  index_tar = λ zr. (ok entries, codes "checkpoints");
  encode_toc = λ es. ok (codes "toc");
  decode_toc = λ bytes. ok entries;
  encode_gsip = λ zr. ok zr;
  decode_gsip = λ rra size bytes. ok bytes;
  decode_fs = λ zr toc. ok (zr ++ toc);
}

lossless : IsLossless lib
lossless = record {
  toc = λ zr es bytes i e. i;
  gsip = λ rra size zr gz r e. (gz, refl, λ toc. ground (arith, e));
}

abbrev moment : ℕ → Moment
moment now = record { now = now; faults = no_faults }

abbrev calls : Calls
calls = record {
  open_gsip = moment 1;
  open_toc = moment 2;
  read_toc = none;
  write_toc = moment 3;
  write_gsip = moment 4;
}

abbrev cache : DiskCache
cache = record { dir = codes "/c"; cap = pos 100; size = pos 0 }

abbrev no_chunks : Indexer
no_chunks = record { chunks = none }

abbrev opened : Layer Bytes
opened = record { digest = hash b'2'; size = 10; fs = codes "checkpointstoc"; entries = entries }

abbrev filled : DiskCache
filled = record cache { size = pos 14 }

abbrev filled_disk : Disk
filled_disk =
    (codes "/c/layers/sha256/2/tarfs.toc", record { content = codes "toc"; mtime = 3 })
    ∷ (codes "/c/layers/sha256/2/gsip.idx", record { content = codes "checkpoints"; mtime = 4 })
    ∷ []

open_layer_run :
    open_layer lib no_chunks calls (codes "https://gcr.io/blob") b'2' 0 (cache, [])
    ≡ (ok opened, (filled, filled_disk))
unfolding program
open_layer_run = refl

can : CanRead calls
can = record { gsip = refl; toc = refl; read = refl }

open_layer_again_example :
    ((open_layer lib no_chunks calls (codes "https://gcr.io/blob") b'2' 0 (filled, filled_disk)).0
      ≡ ok opened)
    × ((open_layer lib no_chunks calls
          (codes "https://gcr.io/blob")
          b'2'
          0
          (filled, filled_disk)).1.0
        ≡ filled)
unfolding program
open_layer_again_example =
    open_layer_again lib no_chunks calls calls (codes "https://gcr.io/blob") b'2' 0 (hash b'2') 10
      opened cache filled [] filled_disk refl refl refl lossless refl refl refl can

-- What is not called here.
abbrev services : Services Opens ℕ ℕ Bytes ℕ (LayerError ℕ)
services = record {
  parse_reference = λ s. err (library_failed 0);
  parse_platform = λ s. err (library_failed 0);
  new_hash = λ s. err (library_failed 0);
  resolve = λ ref p s. (err (library_failed 0), s);
  resolve_digest_and_platforms = λ ref p s. (err (library_failed 0), s);
  layer_digest = λ l. err (library_failed 0);
  open_layer = λ url l tr s. (err (library_failed 0), s);
  open_file = λ fs name. err (library_failed 0);
  read_at = λ f. none;
}

abbrev with_number : Hash → Layer Bytes
with_number d = record opened { digest = d }

abbrev built : ResolvedImage ℕ ℕ Bytes
built = record {
  img = image;
  layers = with_number (hash b'1') ∷ with_number (hash b'2') ∷ [];
  tree = merge (entries ∷ entries ∷ []);
}

abbrev all_filled : Disk
all_filled =
    (codes "/c/layers/sha256/1/tarfs.toc", record { content = codes "toc"; mtime = 3 })
    ∷ (codes "/c/layers/sha256/1/gsip.idx", record { content = codes "checkpoints"; mtime = 4 })
    ∷ filled_disk

abbrev twice_filled : DiskCache
twice_filled = record cache { size = pos 28 }

build_run :
    build_image (with_indexer lib no_chunks (λ n. calls) services) image (0, (cache, []))
    ≡ (ok built, (2, (twice_filled, all_filled)))
unfolding program open_one open_layers build_image
build_run = refl

build_image_again_example :
    ((build_image
        (with_indexer lib no_chunks (λ n. calls) services)
        image
        (0, (twice_filled, all_filled))).0
      ≡ ok built)
    × ((build_image
          (with_indexer lib no_chunks (λ n. calls) services)
          image
          (0, (twice_filled, all_filled))).1.1.0
        ≡ twice_filled)
unfolding program
build_image_again_example =
    build_image_again lib no_chunks image services (λ n. calls) (λ n. calls)
      (hash b'1' ∷ hash b'2' ∷ []) 0 2 0 cache twice_filled [] all_filled built (refl, (refl, tt))
      (refl, ((refl, refl), tt), ((refl, refl), tt), (refl, tt, tt, tt)) lossless build_run
      ((refl, refl), ((refl, refl), tt)) (λ n. can)

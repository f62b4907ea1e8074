-- ===== src/Mount/Indexed.antt =====
-- internal/mount/mount.go with internal/layer/layer.go: openLayers calls the indexer of the file
-- system. Of all that is outside the file system, the state is the disk cache, and how often the
-- indexer was called; the times and faults of each call are given by its number.
pub mod Held
pub mod Built
pub mod Again
use ocifuse.Prelude.{ℕ, suc, Bytes, Result, wrapped}
use ocifuse.DiskCache.{DiskCache, Disk}
use ocifuse.Indexer.{Layer, Indexer, Libraries, LayerError, library_failed, Calls}
use ocifuse.Indexer.Opening.{open_layer}
use ocifuse.Mount.{Services}

abbrev pub Opens : Type 0
Opens = ℕ × (DiskCache × Disk)

module _ {L T Rd Zr Fs E : Type 0} (lib : Libraries L T Rd Zr Fs E) (ix : Indexer) where
  -- The n-th call of the indexer.
  abbrev pub open_indexed :
      (ℕ → Calls) → Bytes → L → T → Opens → Result (LayerError E) (Layer Fs) × Opens
  open_indexed times url l tr (n, s) =
      let (layer, after) = open_layer lib ix (times n) url l tr s in (layer, (suc n, after))

  abbrev pub with_indexer :
      {F : Type 0}
      → (ℕ → Calls)
      → Services Opens L T Fs F (LayerError E)
      → Services Opens L T Fs F (LayerError E)
  with_indexer times calls = record calls {
    layer_digest = λ l. wrapped library_failed (lib.layer_digest l);
    open_layer = open_indexed times;
  }
